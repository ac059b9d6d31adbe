-- ===== src/Auth/Sample.antt =====
-- A comparison of sessions field by field, and a page, for the tests.
use corpershub_application.Base.{
  refl, some, none, true, false, Bool, Option, ◌≡◌, ◌&&◌, and_true, text_eq, text_eq_iff, str_eq,
  str_eq_iff, ap, sym, String, Text,
}
use corpershub_application.Session.{SessionUser, SessionState, UserRole, company, corper, admin}
use corpershub_application.Fixtures.{ada_session}
use corpershub_application.Shell.{same_role}
use corpershub_application.Api.Sample.{world_of_ada, start}
use corpershub_application.Auth.{Printer, Page}

module _ {A : Type 0} (same : A → A → Bool) where
  abbrev same_option : Option A → Option A → Bool
  same_option none none = true
  same_option (some a) (some b) = same a b
  same_option _ _ = false

  pub same_option_one :
      ((a b : A) → same a b ≡ true → a ≡ b) → (a b : Option A) → same_option a b ≡ true → a ≡ b
  same_option_one one none none h = refl
  same_option_one one none (some b) h = cc
  same_option_one one (some a) none h = cc
  same_option_one one (some a) (some b) h = ap some (one a b h)

abbrev same_bool : Bool → Bool → Bool
same_bool true true = true
same_bool false false = true
same_bool _ _ = false

same_bool_one : (a b : Bool) → same_bool a b ≡ true → a ≡ b
same_bool_one true true h = refl
same_bool_one false false h = refl
same_bool_one true false h = cc
same_bool_one false true h = cc

same_role_one : (a b : UserRole) → same_role a b ≡ true → a ≡ b
same_role_one company company h = refl
same_role_one corper corper h = refl
same_role_one admin admin h = refl
same_role_one company corper h = cc
same_role_one company admin h = cc
same_role_one corper company h = cc
same_role_one corper admin h = cc
same_role_one admin company h = cc
same_role_one admin corper h = cc

same_string_one : (a b : String) → str_eq a b ≡ true → a ≡ b
same_string_one a b h = (str_eq_iff a b).0 h

same_text_one : (a b : Text) → text_eq a b ≡ true → a ≡ b
same_text_one a b h = (text_eq_iff a b).0 h

abbrev same_user : SessionUser → SessionUser → Bool
same_user a b =
    str_eq a.id b.id
    && (str_eq a.email b.email
        && (same_role a.role b.role
            && (same_bool a.email_verified b.email_verified
                && (same_bool a.is_active b.is_active
                    && (str_eq a.created_at b.created_at
                        && (same_option str_eq a.profile_id b.profile_id
                            && (same_option same_bool a.profile_completed b.profile_completed
                                && (same_option text_eq a.profile_path b.profile_path
                                    && (same_option (same_option str_eq)
                                          a.company_verification_status
                                          b.company_verification_status
                                        && same_option same_bool a.needs_subscription_selection
                                            b.needs_subscription_selection)))))))))

same_user_one : (a b : SessionUser) → same_user a b ≡ true → a ≡ b
same_user_one a b h0 =
    let (e0, h1) = and_true _ _ h0 in
    let (e1, h2) = and_true _ _ h1 in
    let (e2, h3) = and_true _ _ h2 in
    let (e3, h4) = and_true _ _ h3 in
    let (e4, h5) = and_true _ _ h4 in
    let (e5, h6) = and_true _ _ h5 in
    let (e6, h7) = and_true _ _ h6 in
    let (e7, h8) = and_true _ _ h7 in
    let (e8, h9) = and_true _ _ h8 in
    let (e9, h10) = and_true _ _ h9 in
    λ i. record {
      id = same_string_one a.id b.id e0 i;
      email = same_string_one a.email b.email e1 i;
      role = same_role_one a.role b.role e2 i;
      email_verified = same_bool_one a.email_verified b.email_verified e3 i;
      is_active = same_bool_one a.is_active b.is_active e4 i;
      created_at = same_string_one a.created_at b.created_at e5 i;
      profile_id = same_option_one str_eq same_string_one a.profile_id b.profile_id e6 i;
      profile_completed =
          same_option_one same_bool same_bool_one a.profile_completed b.profile_completed e7 i;
      profile_path = same_option_one text_eq same_text_one a.profile_path b.profile_path e8 i;
      company_verification_status =
          same_option_one (same_option str_eq) (same_option_one str_eq same_string_one)
            a.company_verification_status b.company_verification_status e9 i;
      needs_subscription_selection =
          same_option_one same_bool same_bool_one a.needs_subscription_selection
            b.needs_subscription_selection h10 i;
    }

abbrev same_session : SessionState → SessionState → Bool
same_session a b =
    text_eq a.access_token b.access_token
    && (same_option text_eq a.refresh_token b.refresh_token
        && (same_option same_bool a.remember_me b.remember_me && same_user a.user b.user))

pub same_session_one : (a b : SessionState) → same_session a b ≡ true → a ≡ b
same_session_one a b h0 =
    let (e0, h1) = and_true _ _ h0 in
    let (e1, h2) = and_true _ _ h1 in
    let (e2, h3) = and_true _ _ h2 in
    λ i. record {
      access_token = same_text_one a.access_token b.access_token e0 i;
      refresh_token = same_option_one text_eq same_text_one a.refresh_token b.refresh_token e1 i;
      remember_me = same_option_one same_bool same_bool_one a.remember_me b.remember_me e2 i;
      user = same_user_one a.user b.user h3 i;
    }

abbrev both_null : Option SessionState → Option SessionState → Bool
both_null none none = true
both_null _ _ = false

pub both_null_one : (a b : Option SessionState) → both_null a b ≡ true → a ≡ b
both_null_one none none h = refl
both_null_one none (some b) h = cc
both_null_one (some a) none h = cc
both_null_one (some a) (some b) h = cc

pub some_injective : {a b : Option SessionState} → some a ≡ some b → a ≡ b
some_injective h = cc

-- The text of a session is the session itself, compared field by field; of the objects only null is
-- known to be the same.
abbrev pub by_fields : Printer
by_fields = record {
  Item = Option SessionState;
  identical = both_null;
  stringify = λ a. some a;
  parse = λ s. s;
  same_text = same_option same_session;
  identical_one = both_null_one;
  same_text_one = same_option_one same_session same_session_one;
  parse-stringify = λ a s h. sym (some_injective h);
}

abbrev pub loaded_page : Page world_of_ada
loaded_page = record {
  auth = record {
    session = some ada_session;
    session_ref = some ada_session;
    hydrated = true;
    inactivity_warning = false;
  };
  world = start;
}
