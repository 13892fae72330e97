-- ===== src/Cloud/Boot.antt =====
-- `src/cloud/boot.ts`: the boot gate.
pub mod Choices
pub mod Laws
pub mod Identity
pub mod Steady
use landed_compare.Prelude.{
  ℕ, zero, suc, String, Bool, true, false, not, ◌&&◌, Option, none, some, List, [], ◌∷◌, map,
  filter, find, str_eq, if◌then◌else◌, Ordering, then_by,
}
use landed_compare.Prelude.Text.{compare_text}
use landed_compare.Prelude.Sorting.{sort_by}
use landed_compare.Cloud.Gateway.{
  CloudErrorCode, MembershipRole, MembershipStatus, Organization, Membership, Profile, Reply,
  answer, refused, crashed, Action, DataGateway, settle,
}

pub record OrganizationChoice : Type 0 where
  pub organization : Organization
  pub role : MembershipRole

pub record CloudBootReady : Type 0 where
  pub user_id : String
  pub profile : Profile
  pub organization : Organization
  pub membership : Membership
  pub role : MembershipRole
  pub must_change_password : Bool
  pub organization_locked : Bool
  pub choices : List OrganizationChoice
  pub previous_selection_unavailable : Bool

pub record CloudBootSelection : Type 0 where
  pub user_id : String
  pub profile : Profile
  pub choices : List OrganizationChoice
  pub previous_selection_unavailable : Bool

pub data StoppedPhase : Type 0 where
  signed_out unavailable no_membership : StoppedPhase

-- No deactivated organisation is the field left out.
pub record CloudBootStopped : Type 0 where
  pub phase : StoppedPhase
  pub code : CloudErrorCode
  pub deactivated_organization_ids : List String
  pub user_id : Option String

pub data CloudBootResult : Type 0 where
  ready : CloudBootReady → CloudBootResult
  selection : CloudBootSelection → CloudBootResult
  stopped : CloudBootStopped → CloudBootResult

-- No preference is the function that answers nothing.
pub record CloudBootOptions : Type 0 where
  pub preferred_organization_id : String → Option String
  pub force_selection : Bool

abbrev pub boot_identity_attempts : ℕ
boot_identity_attempts = 3

abbrev pub stop_at : StoppedPhase → CloudErrorCode → Option String → CloudBootResult
stop_at phase code user_id =
    stopped
      (record { phase = phase; code = code; deactivated_organization_ids = []; user_id = user_id })

unfoldable pub stopped_by : CloudErrorCode → Option String → CloudBootResult
stopped_by CloudErrorCode.session_expired user =
    stop_at signed_out CloudErrorCode.session_expired user
stopped_by CloudErrorCode.invalid_credentials user =
    stop_at signed_out CloudErrorCode.session_expired user
stopped_by CloudErrorCode.forbidden user = stop_at no_membership CloudErrorCode.forbidden user
stopped_by CloudErrorCode.no_membership user =
    stop_at no_membership CloudErrorCode.no_membership user
stopped_by CloudErrorCode.offline user = stop_at unavailable CloudErrorCode.offline user
stopped_by _ user = stop_at unavailable CloudErrorCode.server_unavailable user

abbrev pub is_active : MembershipStatus → Bool
is_active MembershipStatus.active = true
is_active MembershipStatus.disabled = false

abbrev pub active_for : String → Membership → Bool
active_for user_id m = is_active m.status && str_eq m.user_id user_id

-- The organisation of each active membership; nothing when one of them is not visible.
unfoldable pub choices_of : List Organization → List Membership → Option (List OrganizationChoice)
choices_of organizations [] = some []
choices_of organizations (m ∷ ms) = elim (find (λ o. str_eq o.id m.organization_id) organizations) [
  | none ↦ none
  | some organization ↦ elim (choices_of organizations ms) [
    | none ↦ none
    | some rest ↦ some (record { organization = organization; role = m.role } ∷ rest)
  ]
]

unfoldable pub by_name : OrganizationChoice → OrganizationChoice → Ordering
by_name a b =
    then_by (compare_text a.organization.name b.organization.name)
      (compare_text a.organization.id b.organization.id)

unfoldable pub remembered_choice :
    Option String → List OrganizationChoice → Option OrganizationChoice
remembered_choice none choices = none
remembered_choice (some preferred) choices = find (λ c. str_eq c.organization.id preferred) choices

abbrev pub is_unavailable : Option String → Option OrganizationChoice → Bool
is_unavailable (some preferred) none = true
is_unavailable _ _ = false

-- A single choice is entered; else a remembered one, unless the user asked to choose.
unfoldable pub selected_choice :
    List OrganizationChoice → Option OrganizationChoice → Bool → Option OrganizationChoice
selected_choice (c ∷ []) remembered force = some c
selected_choice _ remembered force = if force then none else remembered

-- `active.find(…)!` and the result; a missing membership would be a `TypeError`.
unfoldable pub enter :
    String
    → Profile
    → List Membership
    → List OrganizationChoice
    → Bool
    → OrganizationChoice
    → Reply CloudBootResult
enter user_id profile active choices lost selected =
    elim (find (λ m. str_eq m.organization_id selected.organization.id) active) [
      | none ↦ crashed
      | some membership ↦ answer (
          ready (record {
            user_id = user_id;
            profile = profile;
            organization = selected.organization;
            membership = membership;
            role = membership.role;
            must_change_password = profile.must_change_password;
            organization_locked = selected.organization.write_locked;
            choices = choices;
            previous_selection_unavailable = lost;
          }))
    ]

unfoldable pub select :
    String
    → CloudBootOptions
    → Profile
    → List Membership
    → List OrganizationChoice
    → Reply CloudBootResult
select user_id options profile active choices =
    let preferred = options.preferred_organization_id user_id in
    let remembered = remembered_choice preferred choices in
    let lost = is_unavailable preferred remembered in
    elim (selected_choice choices remembered options.force_selection) [
      | none ↦ answer (
          selection (record {
            user_id = user_id;
            profile = profile;
            choices = choices;
            previous_selection_unavailable = lost;
          }))
      | some selected ↦ enter user_id profile active choices lost selected
    ]

abbrev pub is_disabled : Membership → Bool
is_disabled m = not (is_active m.status)

unfoldable pub without_membership : String → List Membership → CloudBootResult
without_membership user_id memberships = stopped (record {
  phase = no_membership;
  code = CloudErrorCode.no_membership;
  deactivated_organization_ids = map (λ m. m.organization_id) (filter is_disabled memberships);
  user_id = some user_id;
})

-- The memberships, with the profile at hand.
unfoldable pub admit :
    String
    → CloudBootOptions
    → Profile
    → List Membership
    → List Membership
    → List Organization
    → Reply CloudBootResult
admit user_id options profile memberships [] organizations =
    answer (without_membership user_id memberships)
admit user_id options profile memberships (m ∷ ms) organizations =
    elim (choices_of organizations (m ∷ ms)) [
      | none ↦ answer (stop_at unavailable CloudErrorCode.server_unavailable (some user_id))
      | some choices ↦ select user_id options profile (m ∷ ms) (sort_by by_name choices)
    ]

-- `bootFor` after its three reads.
unfoldable pub decide :
    String
    → CloudBootOptions
    → Option Profile
    → List Membership
    → List Organization
    → Reply CloudBootResult
decide user_id options none memberships organizations =
    answer (without_membership user_id memberships)
decide user_id options (some profile) memberships organizations =
    admit user_id options profile memberships (filter (active_for user_id) memberships)
      organizations

abbrev same_user : Option String → String → Bool
same_user none user_id = false
same_user (some after) user_id = str_eq after user_id

module _ {W : Type 0} (gateway : DataGateway W) (options : CloudBootOptions) where
  abbrev pub give_up : Option String → CloudErrorCode → Action W CloudBootResult
  give_up user code w = (answer (stopped_by code user), w)

  unfoldable pub boot_for : String → Action W CloudBootResult
  boot_for user_id w =
      let failed = give_up (some user_id) in
      settle (gateway.read_own_profile w)
        (λ profile w₁.
          settle (gateway.list_own_memberships w₁)
            (λ memberships w₂.
              settle (gateway.list_organizations w₂)
                (λ organizations w₃. (decide user_id options profile memberships organizations, w₃))
                failed)
            failed)
        failed

  -- The second reading of the session, and what follows when it is another's.
  unfoldable pub publish_if_same :
      String → CloudBootResult → Action W CloudBootResult → Action W CloudBootResult
  publish_if_same user_id result again w =
      settle (gateway.current_user_id w)
        (λ after w₁. if same_user after user_id then (answer result, w₁) else again w₁)
        (give_up (some user_id))

  unfoldable pub boot_as : Option String → Action W CloudBootResult → Action W CloudBootResult
  boot_as none again w = (answer (stop_at signed_out CloudErrorCode.session_expired none), w)
  boot_as (some user_id) again w =
      settle (boot_for user_id w) (λ result. publish_if_same user_id result again)
        (λ code w₁. (refused code, w₁))

  -- The loop, by the attempts that are left.
  unfoldable pub attempts : ℕ → Action W CloudBootResult
  attempts zero w = (answer (stop_at unavailable CloudErrorCode.unexpected none), w)
  attempts (suc n) w =
      settle (gateway.current_user_id w) (λ user. boot_as user (attempts n)) (give_up none)

  unfoldable pub bootstrap_cloud_session : Action W CloudBootResult
  bootstrap_cloud_session = attempts boot_identity_attempts
