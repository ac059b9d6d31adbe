-- ===== src/Mobile/Asking.antt =====
-- When a mobile number is asked for.
use corpershub_application.Base.{
  refl, Bool, Text, Option, none, some, ◌≡◌, true, false, is_nil, if_lem, if◌then◌else◌, not,
  starts_with, codes, length, drop, ◌==◌, ◌++◌,
}
use corpershub_application.Mobile.{
  MobileError, missing, mobile_error, check_prefix, check_international, check_local,
  has_known_prefix, is_digits,
}

abbrev pub is_asking : MobileError → Bool
is_asking missing = true
is_asking _ = false

abbrev pub asks : Option MobileError → Bool
asks none = false
asks (some e) = is_asking e

-- The error, if there is one, is another.
record Silent (e : Option MobileError) : Type 0 where
  silent : asks e ≡ false

prefix-Silent : (s : Text) → Silent (check_prefix s)
prefix-Silent s =
    if_lem Silent (has_known_prefix s) (λ _. record { silent = refl }) λ _. record { silent = refl }

international-Silent : (s : Text) → Silent (check_international s)
international-Silent s =
    if_lem Silent (not (is_digits (drop 1 s))) (λ _. record { silent = refl })
      λ _.
        if_lem Silent (not (starts_with s (codes "+234"))) (λ _. record { silent = refl })
          λ _.
            if_lem Silent (not (length s == 14)) (λ _. record { silent = refl })
              λ _. prefix-Silent (codes "0" ++ drop 4 s)

local-Silent : (international : Bool) (s : Text) → Silent (check_local international s)
local-Silent true s = record { silent = refl }
local-Silent false s =
    if_lem Silent (not (is_digits s)) (λ _. record { silent = refl })
      λ _.
        if_lem Silent (not (starts_with s (codes "0"))) (λ _. record { silent = refl })
          λ _.
            if_lem Silent (not (length s == 11)) (λ _. record { silent = refl })
              λ _. prefix-Silent s

spoken-Silent :
    (international : Bool) (s : Text)
    → Silent
        (if starts_with s (codes "+") then check_international s else check_local international s)
spoken-Silent international s =
    if_lem Silent (starts_with s (codes "+")) (λ _. international-Silent s)
      λ _. local-Silent international s

not_taken :
    (b : Bool) (x : Option MobileError) {y : Option MobileError}
    → b ≡ false
    → Silent y
    → Silent (if b then x else y)
not_taken true x e h = cc
not_taken false x e h = h

mobile-Silent :
    (required international : Bool) (value : Text)
    → is_nil value ≡ false
    → Silent (mobile_error required international value)
unfolding mobile_error
mobile-Silent required international value there =
    not_taken (is_nil value) _ there (spoken-Silent international value)

-- A number is asked for only where nothing is left of it.
pub mobile_error-asks :
    (required international : Bool) (value : Text)
    → is_nil value ≡ false
    → asks (mobile_error required international value) ≡ false
mobile_error-asks required international value there =
    (mobile-Silent required international value there).silent
