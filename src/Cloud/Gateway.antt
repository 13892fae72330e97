-- ===== src/Cloud/Gateway.antt =====
-- The records of `src/cloud/gateway.ts` and the codes of `src/cloud/errors.ts`. A call of the gateway is
-- an action on the world: what it answers, and every change that other tabs and the server make while
-- it waits, is in the world that it returns.
use landed_compare.Prelude.{ℕ, String, Bool, Option, List}

pub data CloudErrorCode : Type 0 where
  offline server_unavailable session_expired invalid_credentials forbidden : CloudErrorCode
  no_membership organization_locked not_configured provisioning_in_flight : CloudErrorCode
  stale_write duplicate_key record_not_found record_invalid unexpected : CloudErrorCode

pub data MembershipRole : Type 0 where
  owner admin member : MembershipRole

pub data MembershipStatus : Type 0 where
  active disabled : MembershipStatus

pub record Organization : Type 0 where
  pub id : String
  pub name : String
  pub write_locked : Bool
  pub write_lock_reason : Option String
  pub version : ℕ
  pub updated_at : String

pub record Membership : Type 0 where
  pub organization_id : String
  pub user_id : String
  pub role : MembershipRole
  pub status : MembershipStatus

pub record Profile : Type 0 where
  pub user_id : String
  pub display_name : String
  pub must_change_password : Bool
  pub version : ℕ

-- What a promise settles with: a value, a `CloudError`, or anything else that was thrown.
pub data Reply (A : Type 0) : Type 0 where
  answer : A → Reply A
  refused : CloudErrorCode → Reply A
  crashed : Reply A

abbrev pub Action : Type 0 → Type 0 → Type 0
Action W A = W → Reply A × W

-- The calls that the boot sequence and the guard make.
pub record DataGateway (W : Type 0) : Type 0 where
  pub current_user_id : Action W (Option String)
  pub read_own_profile : Action W (Option Profile)
  pub list_own_memberships : Action W (List Membership)
  pub list_organizations : Action W (List Organization)

-- `try { x = await call } catch (cause) { … }`, with what follows in either case; a throw that is no
-- `CloudError` is thrown again.
abbrev pub settle :
    {W A B : Type 0} → Reply A × W → (A → Action W B) → (CloudErrorCode → Action W B) → Reply B × W
settle (answer a, w) next failed = next a w
settle (refused code, w) next failed = failed code w
settle (crashed, w) next failed = (crashed, w)
