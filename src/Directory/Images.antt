-- ===== src/Directory/Images.antt =====
-- The picture of a company.
use native.Mathlib.Nat.{mod-lt, zero-lt-suc}
use corpershub_application.Base.{
  ℕ, zero, suc, [], none, some, refl, arith, Option, List, Text, ◌≡◌, ◌∷◌, ◌⊎◌, ◌<◌, ◌%◌, inl, inr,
  true, length, text_eq_refl,
}
use corpershub_application.Dropdown.{contains}
use corpershub_application.Directory.{
  get_elem?, get_company_directory_image, resolve_media_url, sum_of, image_of,
}

none_below : (n : ℕ) → n < 0 → ⊥
none_below n h = omega arith

-- An index in range finds an element of the list.
found :
    (xs : List Text) (n : ℕ)
    → n < length xs
    → (x : Text) × ((get_elem? xs n ≡ some x) × (contains x xs ≡ true))
found [] n h = absurd (none_below n h)
found (x ∷ xs) zero h = (x, (refl, ground (arith, text_eq_refl x)))
found (x ∷ xs) (suc n) h =
    let (y, (there, listed)) = found xs n (omega arith) in (y, (there, ground arith))

-- The own picture, or nothing where there is no list to choose from, or one of the list.
abbrev pub IsPicture : Option Text → List Text → Option Text → Type 0
IsPicture own image_urls picture =
    ((url : Text) × ((own ≡ some url) × (picture ≡ some url)))
    ⊎ ((own ≡ none) × (image_urls ≡ []) × (picture ≡ none))
    ⊎ ((url : Text) × ((own ≡ none) × (contains url image_urls ≡ true) × (picture ≡ some url)))

image_of-IsPicture :
    (own : Option Text) (image_urls : List Text) (seed : Text)
    → IsPicture own image_urls (image_of own image_urls seed)
image_of-IsPicture (some url) image_urls seed = inl (url, (refl, refl))
image_of-IsPicture none [] seed = inr (inl (refl, refl, refl))
image_of-IsPicture none (x ∷ xs) seed =
    let (url, (there, listed)) =
      found (x ∷ xs) (sum_of seed % length (x ∷ xs))
        (mod-lt (sum_of seed) (zero-lt-suc (length xs))) in
    inr (inr (url, (refl, listed, there)))

-- The picture of a company is its own one where it has one; otherwise it is one of the list, whatever
-- the seed, since the index stays in range; and only without a list there is none.
pub get_company_directory_image-IsPicture :
    (base : Option Text) (image_urls : List Text) (seed : Text) (company_image : Option Text)
    → IsPicture
        (resolve_media_url base company_image)
        image_urls
        (get_company_directory_image base image_urls seed company_image)
unfolding get_company_directory_image
get_company_directory_image-IsPicture base image_urls seed company_image =
    image_of-IsPicture (resolve_media_url base company_image) image_urls seed
