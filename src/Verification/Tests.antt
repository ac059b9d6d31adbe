-- ===== src/Verification/Tests.antt =====
-- Concrete profiles, attempts and drafts, and the properties applied to them.
use corpershub_application.Mobile.{
  validate_nigerian_mobile_number, mobile_error, normalize_mobile_number, has_known_prefix,
  MobileError,
}
use corpershub_application.Base.{
  is_space, drop_end, drop_while, trim, str_eq, refl, ℕ, List, String, [], ◌∷◌, none, some, true,
  false, codes, ◌≡◌, if◌then◌else◌, str_eq,
}
use corpershub_application.Fixtures.{ada_session, pending_corper, corper_shell}
use corpershub_application.Session.{corper}
use corpershub_application.Shell.{sync_corper, shell_redirect}
use corpershub_application.Draft.{CorperVerificationDraft, load_draft, save_draft}
use corpershub_application.Draft.Owner.{kept}
use corpershub_application.Identifiers.{
  malformed, validate_nin_number, validate_nysc_callup_number, validate_nysc_state_code,
  validate_university_matriculation_number, normalize_nin_number, normalize_capital,
  is_nysc_callup_number, is_nysc_state_code, after_classes, is_university_matriculation_number,
  is_nin_number,
}
use corpershub_application.Verification.{Attempt, sync_verification}
use corpershub_application.Draft.Sample.{plain}
use corpershub_application.Identifiers.Sample.{ascii}
use corpershub_application.Verification.Sample.{ascii_lower}
use corpershub_application.Verification.Status.{sync_verification_agrees}
use corpershub_application.Verification.Legal.{
  FieldKey, get_missing_fields, first_error, legal_checks, legal_draft, normalize_for_legal_step,
  ready, going, invalid, proceed, bad_identifier, is_missing, marked, persist_draft_for_terms,
  terms_session, terms_page, bad_mobile,
}
use corpershub_application.Verification.Handover.{proceed_explains, IsExplained}
use corpershub_application.Verification.Reading.{proceed_carries}
use corpershub_application.Verification.Staying.{terms_stays}

sync_verification_agrees_example :
    sync_verification ascii_lower ada_session pending_corper
    ≡ sync_corper ada_session pending_corper (codes "/corper/verification")
sync_verification_agrees_example =
    sync_verification_agrees ascii_lower ada_session pending_corper refl

abbrev time_of : String → ℕ
time_of s = if str_eq s "2026-02-01" then 2 else 1

abbrev attempts : List Attempt
attempts =
    record {
      id = "a1";
      verification_type = "nin";
      status = codes "rejected";
      created_at = "2026-01-01";
    }
    ∷ record {
      id = "a2";
      verification_type = "nin";
      status = codes "pending";
      created_at = "2026-02-01";
    }
    ∷ []

abbrev filled : CorperVerificationDraft
filled = record {
  biodata = record {
    first_name = codes " Ada";
    middle_name = codes "Ife";
    surname = codes "Obi ";
    date_of_birth = codes "2001-04-09";
    gender = codes "female";
    mobile_number = codes "0803 123 4567";
    state_of_origin = codes "Enugu";
    country_of_birth = codes "Nigeria";
    university_matriculation_number = codes "csc/2019/001";
  };
  nin = codes "123 4567 8901";
  callup = record {
    submitted_value = codes "nysc/abc/2024/1234";
    document = some (record { name = codes "letter.pdf"; size = 2048 });
    document_name = [];
  };
  state_code = record {
    submitted_value = codes "nysc/en/24a/12345";
    document = none;
    document_name = codes "code.pdf";
  };
}

abbrev cleaned : CorperVerificationDraft
cleaned = record filled {
  biodata = record filled.biodata {
    first_name = codes "Ada";
    surname = codes "Obi";
    mobile_number = codes "08031234567";
    university_matriculation_number = codes "CSC/2019/001";
  };
  nin = codes "12345678901";
  callup = record filled.callup {
    submitted_value = codes "NYSC/ABC/2024/1234";
    document_name = codes "letter.pdf";
  };
  state_code = record filled.state_code { submitted_value = codes "NYSC/EN/24A/12345" };
}

filled_goes_on : proceed ascii filled ≡ going cleaned
unfolding proceed get_missing_fields is_missing trim first_error legal_checks
    normalize_for_legal_step validate_nigerian_mobile_number mobile_error normalize_mobile_number
    has_known_prefix validate_university_matriculation_number normalize_capital
    is_university_matriculation_number validate_nin_number normalize_nin_number is_nin_number
    is_space drop_end drop_while after_classes is_nysc_callup_number is_nysc_state_code
    validate_nysc_callup_number validate_nysc_state_code legal_draft
filled_goes_on = refl

filled_ready : normalize_for_legal_step ascii filled ≡ ready cleaned
unfolding proceed get_missing_fields is_missing trim first_error legal_checks
    normalize_for_legal_step validate_nigerian_mobile_number mobile_error normalize_mobile_number
    has_known_prefix validate_university_matriculation_number normalize_capital
    is_university_matriculation_number validate_nin_number normalize_nin_number is_nin_number
    is_space drop_end drop_while after_classes is_nysc_callup_number is_nysc_state_code
    validate_nysc_callup_number validate_nysc_state_code legal_draft
filled_ready = refl

abbrev short_nin : CorperVerificationDraft
short_nin = record filled { nin = codes "123" }

short_refused : proceed ascii short_nin ≡ invalid (bad_identifier FieldKey.nin malformed)
unfolding proceed get_missing_fields is_missing trim first_error legal_checks
    normalize_for_legal_step validate_nigerian_mobile_number mobile_error normalize_mobile_number
    has_known_prefix validate_university_matriculation_number normalize_capital
    is_university_matriculation_number validate_nin_number normalize_nin_number is_nin_number
    is_space drop_end drop_while after_classes is_nysc_callup_number is_nysc_state_code
    validate_nysc_callup_number validate_nysc_state_code legal_draft
short_refused = refl

proceed_explains_example :
    IsExplained ascii short_nin (bad_identifier FieldKey.nin malformed)
    × (is_missing short_nin (marked (bad_identifier FieldKey.nin malformed)) ≡ false)
proceed_explains_example =
    proceed_explains ascii short_nin (bad_identifier FieldKey.nin malformed) short_refused

-- A mobile number of hyphens passes the first check, and the second one asks for it.
abbrev hyphens : CorperVerificationDraft
hyphens = record filled { biodata = record filled.biodata { mobile_number = codes " - " } }

hyphens_refused : proceed ascii hyphens ≡ invalid (bad_mobile MobileError.missing)
unfolding proceed get_missing_fields is_missing trim first_error legal_checks
    normalize_for_legal_step validate_nigerian_mobile_number mobile_error normalize_mobile_number
    has_known_prefix validate_university_matriculation_number normalize_capital
    is_university_matriculation_number validate_nin_number normalize_nin_number is_nin_number
    is_space drop_end drop_while after_classes is_nysc_callup_number is_nysc_state_code
    validate_nysc_callup_number validate_nysc_state_code legal_draft
hyphens_refused = refl

proceed_carries_example :
    (load_draft plain
        (persist_draft_for_terms plain cleaned (some "ada@example.com") none)
        (some "ada@example.com")
      ≡ kept cleaned)
    × (normalize_for_legal_step ascii (kept cleaned) ≡ ready (kept cleaned))
    × (persist_draft_for_terms plain cleaned (some "ada@example.com") none
        ≡ save_draft plain true cleaned (some "ada@example.com") none)
unfolding proceed get_missing_fields is_missing trim first_error legal_checks
    normalize_for_legal_step validate_nigerian_mobile_number mobile_error normalize_mobile_number
    has_known_prefix validate_university_matriculation_number normalize_capital
    is_university_matriculation_number validate_nin_number normalize_nin_number is_nin_number
    is_space drop_end drop_while after_classes is_nysc_callup_number is_nysc_state_code
    validate_nysc_callup_number validate_nysc_state_code legal_draft
proceed_carries_example =
    proceed_carries ascii plain "ada@example.com" filled cleaned none refl refl refl filled_goes_on

terms_stays_example :
    shell_redirect (record corper_shell {
      role = corper;
      pathname = some terms_page;
      session = some (terms_session ada_session);
    })
    ≡ none
terms_stays_example = terms_stays corper_shell ada_session refl
