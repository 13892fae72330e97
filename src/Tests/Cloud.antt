-- ===== src/Tests/Cloud.antt =====
-- One session of a user of one company.
use landed_compare.Prelude.{◌≤◌, arith, ℕ, suc, true, false, none, some, List, [], ◌∷◌, refl, ◌≡◌}
use landed_compare.Prelude.Text.{code_points}
use landed_compare.Cloud.CatalogRules.{
  DecimalMatch, canonical_decimal, exec_decimal, digits, after_integer, canonical_of, strip_leading,
  strip_trailing, written,
}
use landed_compare.Cloud.CatalogRules.Values.{CanonicalOf, canonical_decimal-Canonical}
use landed_compare.Cloud.Gateway.{
  Organization, Membership, Profile, MembershipRole, MembershipStatus, DataGateway, Action, answer,
}
use landed_compare.Cloud.Boot.{
  CloudBootOptions, CloudBootResult, ready, decide, bootstrap_cloud_session, attempts, boot_as,
  boot_for, publish_if_same, admit, select, enter, choices_of, selected_choice, remembered_choice,
}
use landed_compare.Cloud.Boot.Laws.{decide-Sound, Sound}
use landed_compare.Cloud.Boot.Identity.{bootstrap_cloud_session-OfOneUser, OfOneUser, SignedIn}
use landed_compare.Cloud.Boot.Steady.{bootstrap_cloud_session-steady, Explained}
use landed_compare.Cloud.Failures.{
  PostgrestFailure, PostgrestContext, cloud_error_from_postgrest, raised, is_detail, no_answer,
}
use landed_compare.Cloud.Failures.Laws.{Raised, cloud_error_from_postgrest-Cause}
use landed_compare.Cloud.Guard.{
  Session, FirstArgument, IdentityLoss, guard, bracketed, assert_identity, names_another,
}
use landed_compare.Cloud.Guard.Laws.{guard-answer, NamesExpected, RanBetween}
use landed_compare.Cloud.Guard.Losses.{guard-Settled, Settled}

abbrev company : Organization
company = record {
  id = "acme";
  name = "Acme";
  write_locked = false;
  write_lock_reason = none;
  version = 1;
  updated_at = "2026-01-01";
}

abbrev employment : Membership
employment = record {
  organization_id = "acme";
  user_id = "ada";
  role = MembershipRole.member;
  status = MembershipStatus.active;
}

abbrev ada : Profile
ada = record { user_id = "ada"; display_name = "Ada"; must_change_password = false; version = 1 }

abbrev no_options : CloudBootOptions
no_options = record { preferred_organization_id = λ _. none; force_selection = false }

decide-Sound_example :
    Sound "ada" no_options
      (some ada)
      (employment ∷ [])
      (company ∷ [])
      (decide "ada" no_options (some ada) (employment ∷ []) (company ∷ []))
decide-Sound_example = decide-Sound "ada" no_options (some ada) (employment ∷ []) (company ∷ [])

-- A gateway that counts the readings of the session.
abbrev gateway : DataGateway ℕ
gateway = record {
  current_user_id = λ w. (answer (some "ada"), suc w);
  read_own_profile = λ w. (answer (some ada), w);
  list_own_memberships = λ w. (answer (employment ∷ []), w);
  list_organizations = λ w. (answer (company ∷ []), w);
}

abbrev entered : CloudBootResult
entered = ready (record {
  user_id = "ada";
  profile = ada;
  organization = company;
  membership = employment;
  role = MembershipRole.member;
  must_change_password = false;
  organization_locked = false;
  choices = record { organization = company; role = MembershipRole.member } ∷ [];
  previous_selection_unavailable = false;
})

bootstrap_cloud_session-OfOneUser_example : OfOneUser gateway no_options entered 2
unfolding bootstrap_cloud_session attempts boot_as boot_for publish_if_same decide admit select
    enter choices_of selected_choice remembered_choice
bootstrap_cloud_session-OfOneUser_example =
    bootstrap_cloud_session-OfOneUser gateway no_options entered 0 2 tt refl

bootstrap_cloud_session-steady_example :
    (result : CloudBootResult) × (w : ℕ) × (v : ℕ) × (end : ℕ) × (bootstrap_cloud_session gateway
        no_options 0
      ≡ (answer result, end))
    × SignedIn gateway no_options "ada" 0 w
    × Explained gateway no_options "ada" result w v
    × (0 ≤ end)
bootstrap_cloud_session-steady_example =
    bootstrap_cloud_session-steady gateway no_options "ada" (λ w. 0 ≤ w) (λ w s. (λ e. cc, s))
      (λ w s. (λ e. cc, s)) (λ w s. (λ e. cc, s)) (λ w s. (suc w, refl, omega arith)) 0
      (omega arith)

abbrev read_price : Action ℕ ℕ
read_price w = (answer 7, w)

abbrev session_at : ℕ → Session ℕ
session_at w = record { world = w; losses = [] }

guard-answer_example :
    NamesExpected true (some "acme") (FirstArgument.text "acme")
    × RanBetween gateway "ada" read_price 7 (session_at 0) (session_at 2)
    × (◌≡◌ {A = List IdentityLoss} [] [])
unfolding guard bracketed assert_identity names_another
guard-answer_example =
    guard-answer gateway "ada" read_price (some "acme") true (FirstArgument.text "acme")
      (session_at 0) (session_at 2) 7 refl

guard-Settled_example :
    let out =
      guard gateway "bob"
        (some "acme")
        true
        (FirstArgument.text "acme")
        read_price
        (session_at 0) in
    Settled gateway "bob" read_price
      (NamesExpected true (some "acme") (FirstArgument.text "acme"))
      0
      []
      (out.0)
      (out.1.losses)
guard-Settled_example =
    guard-Settled gateway "bob" read_price (some "acme") true (FirstArgument.text "acme")
      (session_at 0)

-- "-00120.500" is written "-120.5".
canonical_decimal-Canonical_example :
    (m : DecimalMatch) × (c : DecimalMatch) × (exec_decimal (code_points "-00120.500") ≡ some m)
    × (exec_decimal (code_points "-120.5") ≡ some c)
    × CanonicalOf m c
    × (canonical_decimal (code_points "-120.5") ≡ some (code_points "-120.5"))
unfolding canonical_decimal exec_decimal digits after_integer canonical_of strip_leading
    strip_trailing written
canonical_decimal-Canonical_example =
    canonical_decimal-Canonical (code_points "-00120.500") (code_points "-120.5") refl

-- A function of the server that refuses a write.
abbrev refused_write : PostgrestFailure
refused_write = record {
  code = some "P0001";
  details = some " STALE_WRITE";
  hint = none;
  message = "the write was refused";
}

abbrev bad_request : PostgrestContext
bad_request = record { status = some 400; online = none }

cloud_error_from_postgrest-Cause_example : Raised refused_write bad_request "STALE_WRITE"
unfolding cloud_error_from_postgrest raised is_detail no_answer
cloud_error_from_postgrest-Cause_example =
    cloud_error_from_postgrest-Cause refused_write bad_request
