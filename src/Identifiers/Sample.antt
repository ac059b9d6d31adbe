-- ===== src/Identifiers/Sample.antt =====
-- A casing for the tests: the letters of ASCII.
use corpershub_application.Base.{
  [], ◌∷◌, refl, ℕ, Text, map, if◌then◌else◌, ◌≡◌, all, leb, true, ◌&&◌, ◌-◌, arith,
}
use corpershub_application.Identifiers.{Casing, is_plain}

abbrev pub upper : ℕ → ℕ
upper c = if leb 97 c && leb c 122 then c - 32 else c

pub upper_plain : (s : Text) → all is_plain s ≡ true → map upper s ≡ s
upper_plain [] h = refl
upper_plain (c ∷ s) h =
    let same : upper c ≡ c = ground arith in rw (same, upper_plain s (ground arith)) refl

-- The letters of ASCII; a text of the tests has no others.
abbrev pub ascii : Casing
ascii = record { to_upper_case = map upper; upper_fixed = upper_plain }
