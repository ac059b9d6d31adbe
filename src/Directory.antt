-- ===== src/Directory.antt =====
-- The helpers of the directory pages: web/src/lib/company-directory.ts, web/src/lib/media.ts and
-- web/src/lib/course-catalog.ts. `localeCompare` and the upper case beyond ASCII are parameters.
pub mod Images
pub mod Courses
mod Tests
use corpershub_application.Base.{
  ℕ, zero, suc, [], none, some, Option, List, Bool, Text, ◌∷◌, ◌++◌, ◌+◌, ◌%◌, ◌==◌, ◌||◌, ◌&&◌,
  not, true, false, if◌then◌else◌, is_nil, trim, map, filter, any, take, drop, length, codes,
  or_default, starts_with, ends_with, prepend, join_spaces, text_eq, ltb, not_space,
}
use corpershub_application.Identifiers.{Casing}
use corpershub_application.Dropdown.{contains, tidy, Group}

-- `s.split(c)` for one code unit.
unfoldable pub split_on : ℕ → Text → List Text
split_on c [] = [] ∷ []
split_on c (a ∷ s) = let rest = split_on c s in if a == c then [] ∷ rest else prepend a rest

abbrev pub concat_texts : List Text → Text
concat_texts [] = []
concat_texts (s ∷ rest) = s ++ concat_texts rest

module _ (casing : Casing) where
  -- `part.charAt(0).toUpperCase()`
  abbrev initial_of : Text → Text
  initial_of part = casing.to_upper_case (take 1 part)

  abbrev monogram_of : List Text → Text
  monogram_of [] = codes "B"
  monogram_of (part ∷ parts) = concat_texts (map initial_of (part ∷ parts))

  unfoldable pub get_company_monogram : Text → Text
  get_company_monogram name =
      monogram_of (take 2 (filter (λ part. not (is_nil part)) (map trim (split_on 32 name))))

  abbrev capitalized : Text → Text
  capitalized part = initial_of part ++ drop 1 part

  unfoldable pub format_company_directory_label : Text → Text
  format_company_directory_label value = join_spaces (map capitalized (split_on b'_' value))

-- `s.replace(/\/api\/?$/, "")`
unfoldable pub without_api : Text → Text
without_api [] = []
without_api (a ∷ s) =
    let rest = a ∷ without_api s in
    if text_eq (a ∷ s) (codes "/api") || text_eq (a ∷ s) (codes "/api/") then [] else rest

-- `s.replace(/\/$/, "")`
unfoldable pub without_slash : Text → Text
without_slash [] = []
without_slash (a ∷ s) =
    let rest = a ∷ without_slash s in if text_eq (a ∷ s) (codes "/") then [] else rest

abbrev pub is_absolute : Text → Bool
is_absolute path = starts_with path (codes "http://") || starts_with path (codes "https://")

-- With the base address of the environment, or the one of a local server.
unfoldable pub resolve_media_url : Option Text → Option Text → Option Text
resolve_media_url base none = none
resolve_media_url base (some path) =
    let normalized = trim path in
    let origin =
      without_slash (without_api (or_default base (codes "http://localhost:8000/api"))) in
    if is_nil path || is_nil normalized
    then none
    else if is_absolute normalized
    then some normalized
    else some (
        origin
        ++ (if starts_with normalized (codes "/") then normalized else codes "/" ++ normalized))

abbrev pub sum_of : Text → ℕ
sum_of [] = 0
sum_of (c ∷ s) = c + sum_of s

-- `xs[n]`, undefined out of range.
abbrev pub get_elem? : List Text → ℕ → Option Text
get_elem? [] n = none
get_elem? (x ∷ xs) zero = some x
get_elem? (x ∷ xs) (suc n) = get_elem? xs n

abbrev image_of : Option Text → List Text → Text → Option Text
image_of (some uploaded) image_urls seed = some uploaded
image_of none image_urls seed =
    if is_nil image_urls then none else get_elem? image_urls (sum_of seed % length image_urls)

unfoldable pub get_company_directory_image :
    Option Text → List Text → Text → Option Text → Option Text
get_company_directory_image base image_urls seed company_image =
    image_of (resolve_media_url base company_image) image_urls seed

pub record CourseCatalogCourse : Type 0 where
  pub name : Text

pub record CourseCatalogCategory : Type 0 where
  pub name : Text
  pub courses : List CourseCatalogCourse

pub record CourseCatalogField : Type 0 where
  pub name : Text
  pub categories : List CourseCatalogCategory

unfoldable pub course_catalog_has_course : List CourseCatalogField → Text → Bool
course_catalog_has_course fields value =
    let normalized = trim value in
    let found =
      any
        (λ field.
          any (λ category. any (λ course. text_eq course.name normalized) category.courses)
            field.categories)
        fields in
    if is_nil normalized then false else found

module _ {ℓ} {A B : Type ℓ} where
  abbrev pub flat_map : (A → List B) → List A → List B
  flat_map f [] = []
  flat_map f (x ∷ xs) = f x ++ flat_map f xs

-- The label of a category, with the field's name where there are several fields.
abbrev group_label : Bool → Text → Text → Text
group_label several field category = if several then field ++ 32 ∷ 183 ∷ 32 ∷ category else category

abbrev group_of : Bool → Text → CourseCatalogCategory → Group Text
group_of several field category = record {
  label = group_label several field category.name;
  options = map (λ course. course.name) category.courses;
}

unfoldable pub base_groups : Bool → List CourseCatalogField → List (Group Text)
base_groups several fields =
    flat_map (λ field. map (group_of several field.name) field.categories) fields

module _ (comes_before : Text → Text → Bool) where
  unfoldable pub insert_text : Text → List Text → List Text
  insert_text s [] = s ∷ []
  insert_text s (t ∷ rest) =
      let later = insert_text s rest in if comes_before t s then t ∷ later else s ∷ t ∷ rest

  unfoldable pub sort_texts : List Text → List Text
  sort_texts [] = []
  sort_texts (s ∷ rest) = insert_text s (sort_texts rest)

  unfoldable pub normalize_option_list : List Text → List Text
  normalize_option_list values = sort_texts (tidy values)

  abbrev with_orphans : List Text → List (Group Text) → List (Group Text)
  with_orphans [] groups = groups
  with_orphans (s ∷ orphans) groups =
      record { label = codes "Other saved values"; options = s ∷ orphans } ∷ groups

  unfoldable pub to_course_option_groups : List CourseCatalogField → List Text → List (Group Text)
  to_course_option_groups fields extra_options =
      let groups = base_groups (ltb 1 (length fields)) fields in
      let known = flat_map (λ group. group.options) groups in
      with_orphans
        (filter (λ option. not (contains option known)) (normalize_option_list extra_options))
        groups
