-- ===== src/Auth/Equality.antt =====
-- Sessions that are taken for equal are the same.
use corpershub_application.Base.{
  none, some, ◌≡◌, ◌∙◌, sym, ap, Option, true, Bool-cases, inl, inr, refl,
}
use corpershub_application.Session.{SessionState}
use corpershub_application.Auth.{Printer, sessions_equal, printed_alike}

module _ (printer : Printer) where
  read_alike :
      (a b : Option SessionState) (s t : Option printer.Item)
      → printer.stringify a ≡ s
      → printer.stringify b ≡ t
      → printed_alike printer s t ≡ true
      → a ≡ b
  read_alike a b none t e f h = cc
  read_alike a b (some s) none e f h = cc
  read_alike a b (some s) (some t) e f h =
      sym (printer.parse-stringify a s e)
      ∙ ap printer.parse (printer.same_text_one s t h)
      ∙ printer.parse-stringify b t f

  pub equal_sound : (a b : Option SessionState) → sessions_equal printer a b ≡ true → a ≡ b
  unfolding sessions_equal
  equal_sound a b h = elim (Bool-cases (printer.identical a b)) [
    | inl e ↦ printer.identical_one a b e
    | inr e ↦ read_alike a b (printer.stringify a) (printer.stringify b) refl refl (rw e at h)
  ]
