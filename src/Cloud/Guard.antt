-- ===== src/Cloud/Guard.antt =====
-- `src/cloud/guardedGateway.ts`: every call of a screen is bound to one user and one organisation.
pub mod Laws
pub mod Losses
use landed_compare.Prelude.{
  String, Bool, true, false, not, Option, none, some, List, [], ◌∷◌, str_eq, if◌then◌else◌,
}
use landed_compare.Cloud.Gateway.{
  CloudErrorCode, Reply, answer, refused, crashed, Action, DataGateway, settle,
}

pub data IdentityLoss : Type 0 where
  signed_out identity_changed no_membership session_expired organization_changed : IdentityLoss

-- The world and the losses that were reported, the newest first.
pub record Session (W : Type 0) : Type 0 where
  pub world : W
  pub losses : List IdentityLoss

-- The first argument of a call, as far as `organizationOf` reads it: a text, or an object with or
-- without the text field `organizationId`, or anything else.
pub data FirstArgument : Type 0 where
  text : String → FirstArgument
  object : Option String → FirstArgument
  other : FirstArgument

unfoldable pub organization_of : FirstArgument → Option String
organization_of (text id) = some id
organization_of (object id) = id
organization_of other = none

-- Whether a call has to be refused before it is sent.
unfoldable pub names_another : Bool → Option String → FirstArgument → Bool
unfolding organization_of
names_another false expected first = false
names_another true none first = false
names_another true (some expected) first = elim (organization_of first) [
  | none ↦ true
  | some named ↦ not (str_eq named expected)
]

module _ {W : Type 0} where
  abbrev pub on_loss : IdentityLoss → Session W → Session W
  on_loss loss s = record { world = s.world; losses = loss ∷ s.losses }

  -- An action of the gateway inside a session.
  abbrev pub perform : {A : Type 0} → Action W A → Action (Session W) A
  perform action s = let r = action s.world in (r.0, record { world = r.1; losses = s.losses })

  abbrev pub rethrow : {A : Type 0} → CloudErrorCode → Action (Session W) A
  rethrow code s = (refused code, s)

  unfoldable pub on_session_failure : CloudErrorCode → Session W → Session W
  on_session_failure CloudErrorCode.session_expired s = on_loss IdentityLoss.session_expired s
  on_session_failure _ s = s

  unfoldable pub on_failure : CloudErrorCode → Session W → Session W
  on_failure CloudErrorCode.no_membership s = on_loss IdentityLoss.no_membership s
  on_failure CloudErrorCode.session_expired s = on_loss IdentityLoss.session_expired s
  on_failure _ s = s

  check_user : String → Option String → Action (Session W) (Unit {0})
  check_user expected none s = (refused CloudErrorCode.session_expired, on_loss signed_out s)
  check_user expected (some current) s =
      if str_eq current expected
      then (answer tt, s)
      else (refused CloudErrorCode.session_expired, on_loss identity_changed s)

  unfoldable pub assert_identity : DataGateway W → String → Action (Session W) (Unit {0})
  unfolding check_user
  assert_identity gateway expected s =
      settle (perform gateway.current_user_id s) (check_user expected)
        (λ code s₁. (refused code, on_session_failure code s₁))

  unfoldable pub bracketed :
      {A : Type 0} → DataGateway W → String → Action W A → Action (Session W) A
  bracketed gateway expected operation s =
      settle (assert_identity gateway expected s)
        (λ _ s₁.
          settle (perform operation s₁)
            (λ result s₂.
              settle (assert_identity gateway expected s₂) (λ _ s₃. (answer result, s₃)) rethrow)
            (λ code s₂. (refused code, on_failure code s₂)))
        rethrow

  unfoldable pub guard :
      {A : Type 0}
      → DataGateway W
      → String
      → Option String
      → Bool
      → FirstArgument
      → Action W A
      → Action (Session W) A
  guard gateway expected_user expected_organization scoped first operation s =
      if names_another scoped expected_organization first
      then (refused CloudErrorCode.unexpected, on_loss organization_changed s)
      else bracketed gateway expected_user operation s
