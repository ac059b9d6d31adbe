-- ===== src/CompanyForm/Page.antt =====
-- The page of a company's verification as a state: a change of a field, and the button.
use corpershub_application.Base.{
  String, [], none, some, Option, List, Bool, Text, ◌∷◌, not, true, false, if◌then◌else◌, codes,
  filter,
}
use corpershub_application.Session.{SessionState}
use corpershub_application.Api.Action.{Result, ok, err, Failure}
use corpershub_application.Identifiers.{Casing}
use corpershub_application.CompanyForm.{
  company_name, company_registration_date, company_location_state, company_registration_number,
  tax_identification_number, FormKey, FormValues, FormPayload, FormCodec, Submission, missing,
  bad_number, nameless, sends, check_form, changed, json_of, load_form_values_from_storage,
}

-- The fields of the answer that the page reads.
pub record SavedProfile : Type 0 where
  pub verification_status : String
  pub terms_accepted : Bool

-- The states and refs of the page, the item of the session storage, the session of the provider, the
-- page that it leads to, and what it has shown last: what was refused, or the error of the request.
pub data Notice : Type 0 where
  refused : Submission → Notice
  failed : Failure → Notice

pub record FormPage (Item : Type 0) : Type 0 where
  pub form_values : FormValues
  pub highlighted : List FormKey
  pub is_saving : Bool
  pub should_persist : Bool
  pub item : Option Item
  pub session : Option SessionState
  pub redirect : Option Text
  pub notice : Option Notice

abbrev pub same_key : FormKey → FormKey → Bool
same_key company_name company_name = true
same_key company_registration_date company_registration_date = true
same_key company_location_state company_location_state = true
same_key company_registration_number company_registration_number = true
same_key tax_identification_number tax_identification_number = true
same_key _ _ = false

module _ (casing : Casing) {Item : Type 0} (codec : FormCodec Item) where
  -- A change, and the effect behind it, which stores the values.
  unfoldable pub handle_change : FormKey → Text → FormPage Item → FormPage Item
  handle_change key value page =
      let values = changed casing key value page.form_values in
      record page {
        form_values = values;
        highlighted = filter (λ other. not (same_key key other)) page.highlighted;
        should_persist = true;
        item = some (codec.stringify (json_of values));
      }

  abbrev first_values : Option FormValues → FormValues → FormPage Item → FormPage Item
  first_values none profile_values page = record page { form_values = profile_values }
  first_values (some stored) profile_values page = record page {
    form_values = stored;
    should_persist = true;
    item = some (codec.stringify (json_of stored));
  }

  -- The effect that fills the form, from the storage or else from the profile.
  unfoldable pub initialize_form : FormValues → FormPage Item → FormPage Item
  initialize_form profile_values page =
      first_values (load_form_values_from_storage casing codec page.item) profile_values page

  abbrev pub next_page : SavedProfile → Text
  next_page profile =
      if profile.terms_accepted then codes "/company/profile" else codes "/company/profile/terms"

  abbrev pub saved_session : SavedProfile → Option SessionState → Option SessionState
  saved_session profile none = none
  saved_session profile (some session) = some (record session {
    user = record session.user {
      company_verification_status = some (some profile.verification_status);
      profile_path = some (next_page profile);
    };
  })

  abbrev pub saved : Result SavedProfile → FormPage Item → FormPage Item
  saved (err e) page = record page { highlighted = []; is_saving = false; notice = some (failed e) }
  saved (ok profile) page = record page {
    highlighted = [];
    is_saving = false;
    should_persist = false;
    item = none;
    session = saved_session profile page.session;
    redirect = some (next_page profile);
    notice = none;
  }

  abbrev pub marked_keys : Submission → List FormKey
  marked_keys (missing keys) = keys
  marked_keys (bad_number key e) = key ∷ []
  marked_keys nameless = company_name ∷ []
  marked_keys (sends payload) = []

  abbrev pub stopped : Submission → FormPage Item → FormPage Item
  stopped submission page = record page {
    highlighted = marked_keys submission;
    notice = some (refused submission);
  }

  abbrev pub submitted :
      (FormPayload → Result SavedProfile) → Submission → FormPage Item → FormPage Item
  submitted server (sends payload) page = saved (server payload) page
  submitted server submission page = stopped submission page

  unfoldable pub handle_submit : (FormPayload → Result SavedProfile) → FormPage Item → FormPage Item
  handle_submit server page = submitted server (check_form casing page.form_values) page
