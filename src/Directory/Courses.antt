-- ===== src/Directory/Courses.antt =====
-- Which courses the options of a form offer.
use corpershub_application.Base.{
  [], refl, arith, List, Bool, Text, ◌≡◌, ◌∷◌, ◌&&◌, ◌||◌, ◌∙◌, not, true, false, ap, any, filter,
  map, is_nil, trim, text_eq, text_eq_iff, any-append, ltb, length, if◌then◌else◌,
}
use corpershub_application.Dropdown.{contains, tidy, Group}
use corpershub_application.Dropdown.Values.{is_option, text_eq_sym}
use corpershub_application.Dropdown.Searching.{any_option}
use corpershub_application.Directory.{
  CourseCatalogField, CourseCatalogCourse, course_catalog_has_course, base_groups, flat_map,
  group_of, insert_text, sort_texts, normalize_option_list, with_orphans, to_course_option_groups,
}

-- The option stands in some group.
abbrev pub offers : List (Group Text) → Text → Bool
offers groups option = any_option (text_eq option) groups

any-flat_map {ℓ} :
    {A B : Type ℓ} (p : B → Bool) (f : A → List B) (xs : List A)
    → any p (flat_map f xs) ≡ any (λ x. any p (f x)) xs
any-flat_map p f [] = refl
any-flat_map p f (x ∷ xs) = ground (arith, any-append p (f x) (flat_map f xs), any-flat_map p f xs)

any-map {ℓ} :
    {A B : Type ℓ} (p : B → Bool) (f : A → B) (xs : List A)
    → any p (map f xs) ≡ any (λ x. p (f x)) xs
any-map p f [] = refl
any-map p f (x ∷ xs) = ground (arith, any-map p f xs)

any-ext {ℓ} :
    {A : Type ℓ} (p q : A → Bool) → ((x : A) → p x ≡ q x) → (xs : List A) → any p xs ≡ any q xs
any-ext p q h [] = refl
any-ext p q h (x ∷ xs) = ground (arith, h x, any-ext p q h xs)

contains-known :
    (v : Text) (known xs : List Text)
    → contains v (filter (λ option. not (contains option known)) xs)
      ≡ (contains v xs && not (contains v known))
contains-known v known [] = refl
contains-known v known (x ∷ xs) =
    let same : text_eq v x ≡ true → contains v known ≡ contains x known =
      λ e. let (there, _) = text_eq_iff v x in ap (λ w. contains w known) (there e) in
    ground (arith, contains-known v known xs, same)

module _ (comes_before : Text → Text → Bool) where
  any-insert :
      (p : Text → Bool) (s : Text) (xs : List Text)
      → any p (insert_text comes_before s xs) ≡ (p s || any p xs)
  unfolding insert_text
  any-insert p s [] = refl
  any-insert p s (t ∷ xs) = ground (arith, any-insert p s xs)

  any-sort : (p : Text → Bool) (xs : List Text) → any p (sort_texts comes_before xs) ≡ any p xs
  unfolding sort_texts
  any-sort p [] = refl
  any-sort p (s ∷ xs) =
      any-insert p s (sort_texts comes_before xs) ∙ ap (λ b. p s || b) (any-sort p xs)

  offers-orphans :
      (v : Text) (orphans : List Text) (groups : List (Group Text))
      → offers (with_orphans comes_before orphans groups) v
        ≡ (contains v orphans || offers groups v)
  offers-orphans v [] groups = refl
  offers-orphans v (s ∷ orphans) groups = refl

course_names :
    (v : Text) (courses : List CourseCatalogCourse)
    → any (text_eq v) (map (λ course. course.name) courses)
      ≡ any (λ course. text_eq course.name v) courses
course_names v [] = refl
course_names v (course ∷ courses) =
    ground (arith, text_eq_sym v course.name, course_names v courses)

catalog_offers :
    (several : Bool) (fields : List CourseCatalogField) (v : Text)
    → offers (base_groups several fields) v
      ≡ any
          (λ field.
            any
              (λ category. any (λ course. text_eq course.name v) category.courses)
              field.categories)
          fields
unfolding base_groups
catalog_offers several fields v =
    any-flat_map (λ group. any (text_eq v) group.options)
      (λ field. map (group_of several field.name) field.categories) fields
    ∙ any-ext _ _
        (λ field.
          any-map (λ group. any (text_eq v) group.options) (group_of several field.name)
            field.categories
          ∙ any-ext _ _ (λ category. course_names v category.courses) field.categories)
        fields

-- A saved value is listed apart where the catalog does not have it.
present_merge :
    (saved listed empty : Bool)
    → empty ≡ false
    → ((saved && not listed) || listed) ≡ ((if empty then false else listed) || saved)
present_merge saved listed empty h = ground arith

-- The options of a form offer exactly the courses of the catalog and the values that are saved
-- already: a trimmed value that is not empty stands in some group if and only if the catalog has a
-- course of that name, or it is one of the saved values, trimmed.
pub options_offer :
    (comes_before : Text → Text → Bool) (fields : List CourseCatalogField)
    (extra_options : List Text) (v : Text)
    → is_option v ≡ true
    → offers (to_course_option_groups comes_before fields extra_options) v
      ≡ (course_catalog_has_course fields v || contains v (tidy extra_options))
unfolding to_course_option_groups course_catalog_has_course normalize_option_list
options_offer comes_before fields extra_options v h =
    let several = ltb 1 (length fields) in
    let groups = base_groups several fields in
    let known = flat_map (λ (group : Group Text). group.options) groups in
    let (there, _) = text_eq_iff (trim v) v in
    let same = there (ground arith) in
    let offered =
      offers-orphans comes_before v
        (filter (λ option. not (contains option known))
          (sort_texts comes_before (tidy extra_options)))
        groups in
    let orphan = contains-known v known (sort_texts comes_before (tidy extra_options)) in
    let saved = any-sort comes_before (text_eq v) (tidy extra_options) in
    let listed = any-flat_map (text_eq v) (λ (group : Group Text). group.options) groups in
    let catalog = catalog_offers several fields v in
    rw (offered, orphan, saved, listed, catalog, same) (present_merge _ _ (is_nil v) (ground arith))
