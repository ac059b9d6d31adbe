-- ===== src/Base/Chars.antt =====
-- Texts of the source as lists of UTF-16 code units, and the string methods that it calls.
use Prim.Native.Nat.{zero, suc, ◌+◌, ◌/◌, ◌%◌, ℕ}
use Prim.Native.Char.{code}
use Prim.Native.String.{String}
use mathlib.Core.Path.{◌≡◌, refl}
use mathlib.Core.Logic.{◌↔◌}
use mathlib.Core.Bool.{Bool, true, false, ◌&&◌, ◌||◌, not}
use mathlib.Core.List.{List, [], ◌∷◌, ◌++◌}
use native.Mathlib.Omega.{arith}
use corpershub_application.Base.Tests.{ltb, if◌then◌else◌, leb, ◌==◌}
use corpershub_application.Base.Lists.{
  all, drop_while, drop_end, all-drop_while, all-drop_end, drop_while-HeadNot, drop_end-HeadNot,
  drop_end-LastNot, drop_while_of_HeadNot, drop_end_of_LastNot, drop_while_of_all, drop_end_of_all,
}

abbrev pub Text : Type 0
Text = List ℕ

-- A literal of the source; all of them are ASCII but for one sign.
abbrev pub codes : String → Text
codes String.[] = []
codes (String.◌∷◌ c s) = code c ∷ codes s

-- `a === b`
abbrev pub text_eq : Text → Text → Bool
text_eq [] [] = true
text_eq (a ∷ s) (b ∷ t) = (a == b) && text_eq s t
text_eq _ _ = false

pub text_eq_iff : (s t : Text) → (text_eq s t ≡ true) ↔ (s ≡ t)
text_eq_iff [] [] = ground arith
text_eq_iff [] (b ∷ t) = ground arith
text_eq_iff (a ∷ s) [] = ground arith
text_eq_iff (a ∷ s) (b ∷ t) = ground (arith, text_eq_iff s t)

pub text_eq_refl : (s : Text) → text_eq s s ≡ true
text_eq_refl s = (text_eq_iff s s).1 refl

-- `WhiteSpace` and `LineTerminator` of the language, which `trim` and `\s` share.
unfoldable pub is_space : ℕ → Bool
is_space c =
    (leb 9 c && leb c 13)
    || (c == 32)
    || (c == 160)
    || (c == 5760)
    || (leb 8192 c && leb c 8202)
    || (c == 8232)
    || (c == 8233)
    || (c == 8239)
    || (c == 8287)
    || (c == 12288)
    || (c == 65279)

abbrev pub not_space : ℕ → Bool
not_space c = not (is_space c)

-- `\d`
abbrev pub is_digit : ℕ → Bool
is_digit c = leb b'0' c && leb c b'9'

-- `s.trim()`
unfoldable pub trim : Text → Text
unfolding is_space drop_end drop_while
trim s = drop_end is_space (drop_while is_space s)

-- `s.startsWith(t)`
abbrev pub starts_with : Text → Text → Bool
starts_with s [] = true
starts_with [] (b ∷ t) = false
starts_with (a ∷ s) (b ∷ t) = (a == b) && starts_with s t

-- `s.endsWith(c)` for one code unit
abbrev pub ends_with : ℕ → Text → Bool
ends_with c [] = false
ends_with c (a ∷ []) = a == c
ends_with c (a ∷ b ∷ s) = ends_with c (b ∷ s)

-- `s.includes(t)`
abbrev pub includes : Text → Text → Bool
includes [] t = starts_with [] t
includes (a ∷ s) t = starts_with (a ∷ s) t || includes s t

pub trim_of_no_space : (s : Text) → all not_space s ≡ true → trim s ≡ s
unfolding trim
trim_of_no_space s h = rw (drop_while_of_all is_space s h, drop_end_of_all is_space s h)

pub trim_idem : (s : Text) → trim (trim s) ≡ trim s
unfolding trim
trim_idem s =
    let kept = drop_while-HeadNot is_space s in
    let first = drop_end-HeadNot is_space (drop_while is_space s) kept in
    let last = drop_end-LastNot is_space (drop_while is_space s) in
    rw (drop_while_of_HeadNot is_space (trim s) first) (drop_end_of_LastNot is_space (trim s) last)

pub all-trim : (q : ℕ → Bool) (s : Text) → all q s ≡ true → all q (trim s) ≡ true
unfolding trim
all-trim q s h = all-drop_end is_space q _ (all-drop_while is_space q s h)

-- A number in decimal, as a template prints it; `n + 1` rounds are more than it has digits.
decimal_from : ℕ → ℕ → Text → Text
decimal_from zero n done = done
decimal_from (suc fuel) n done =
    let rest = decimal_from fuel (n / 10) ((48 + n % 10) ∷ done) in
    if ltb n 10 then (48 + n) ∷ done else rest

unfoldable pub decimal : ℕ → Text
unfolding decimal_from
decimal n = decimal_from (suc n) n []

-- One more code unit at the front of the first part.
abbrev pub prepend : ℕ → List Text → List Text
prepend c [] = (c ∷ []) ∷ []
prepend c (line ∷ rest) = (c ∷ line) ∷ rest

abbrev opens_with_space : Text → Bool
opens_with_space [] = false
opens_with_space (c ∷ s) = is_space c

-- `s.split(/\s+/)`
unfoldable pub split_spaces : Text → List Text
split_spaces [] = [] ∷ []
split_spaces (c ∷ s) =
    let rest = split_spaces s in
    if is_space c then (if opens_with_space s then rest else [] ∷ rest) else prepend c rest

-- `parts.join(" ")`
abbrev pub join_spaces : List Text → Text
join_spaces [] = []
join_spaces (s ∷ []) = s
join_spaces (s ∷ t ∷ rest) = s ++ 32 ∷ join_spaces (t ∷ rest)
