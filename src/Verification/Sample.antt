-- ===== src/Verification/Sample.antt =====
-- A lowering for the tests: the capitals of ASCII.
use corpershub_application.Base.{
  [], ◌∷◌, refl, ℕ, Text, map, if◌then◌else◌, ◌≡◌, all, leb, true, ◌&&◌, ◌+◌, arith,
}
use corpershub_application.Verification.{Lowering, is_small}

abbrev pub small_letter : ℕ → ℕ
small_letter c = if leb 65 c && leb c 90 then c + 32 else c

pub small_letter_of_small : (s : Text) → all is_small s ≡ true → map small_letter s ≡ s
small_letter_of_small [] h = refl
small_letter_of_small (c ∷ s) h =
    let same : small_letter c ≡ c = ground arith in
    rw (same, small_letter_of_small s (ground arith)) refl

abbrev pub ascii_lower : Lowering
ascii_lower = record { to_lower_case = map small_letter; lower_fixed = small_letter_of_small }
