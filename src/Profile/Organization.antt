-- ===== src/Profile/Organization.antt =====
-- The kind of organisation that is loaded is sent as it was.
use corpershub_application.Base.{
  [], refl, Option, Text, ◌≡◌, ◌∙◌, ap, inl, inr, true, false, Bool-cases, Bool-clash, trim,
  trim_idem, is_nil, or_default, codes, text_eq, text_eq_iff, drop_while, drop_end, sym, ◌∷◌,
}
use corpershub_application.Dropdown.{contains}
use corpershub_application.Identifiers.{Casing}
use corpershub_application.Profile.Form.{build_profile_payload}
use corpershub_application.Profile.Loading.{CompanyProfile, map_profile_to_form}
use corpershub_application.Profile.{
  split_organization_type, organization_type_sent, organization_type_options,
}

nil_text : (s : Text) → is_nil s ≡ true → s ≡ []
nil_text [] h = refl
nil_text (c ∷ s) h = cc

not_listed :
    (s : Text) → text_eq s (codes "Others") ≡ true → contains s organization_type_options ≡ false
not_listed s h =
    let (there, _) = text_eq_iff s (codes "Others") in
    ap (λ t. contains t organization_type_options) (there h)

trim_empty : trim [] ≡ []
unfolding trim drop_while drop_end
trim_empty = refl

-- Whatever kind of organisation is stored, listed or not, the form that is filled from it sends the
-- same text again, trimmed.
pub organization_type_kept :
    (value : Option Text)
    → organization_type_sent (split_organization_type value) ≡ trim (or_default value [])
unfolding organization_type_sent split_organization_type
organization_type_kept value =
    let s = or_default value [] in
    elim (Bool-cases (is_nil (trim s))) [
      | inl e ↦ rw e (trim_empty ∙ sym (nil_text (trim s) e))
      | inr e ↦ elim (Bool-cases (contains (trim s) organization_type_options)) [
        | inl k ↦ elim (Bool-cases (text_eq (trim s) (codes "Others"))) [
          | inl o ↦
              absurd
                (Bool-clash (contains (trim s) organization_type_options) k (not_listed (trim s) o))
          | inr o ↦ rw (e, k, o) (trim_idem s)
        ]
        | inr k ↦ rw (e, k) (trim_idem s)
      ]
    ]

-- A form that is loaded and sent unchanged sends the kind of organisation of the profile, trimmed.
pub loaded_kind_sent :
    (casing : Casing) (profile : CompanyProfile)
    → (build_profile_payload casing (map_profile_to_form casing profile)).organization_type
      ≡ trim (or_default profile.organization_type [])
unfolding build_profile_payload map_profile_to_form
loaded_kind_sent casing profile = organization_type_kept profile.organization_type
