-- ===== src/Cloud/Failures/Laws.antt =====
-- What a code tells of the failure that it stands for.
use landed_compare.Prelude.{
  ◌≡◌, refl, String, Bool, true, false, ◌||◌, ◌⊎◌, inl, inr, str_eq, if◌then◌else◌,
}
use landed_compare.Prelude.Maps.{contains}
use landed_compare.Cloud.Gateway.{
  CloudErrorCode, offline, server_unavailable, session_expired, forbidden, organization_locked,
  stale_write, duplicate_key, record_not_found, record_invalid, unexpected, invalid_credentials,
  no_membership, not_configured, provisioning_in_flight,
}
use landed_compare.Cloud.Failures.{
  PostgrestFailure, PostgrestContext, sqlstate_invalid_input, postgrest_unavailable, or_else,
  is_detail, unavailable, no_answer, raised, gateway_failed, by_postgrest, by_sqlstate,
  cloud_error_from_postgrest,
}
use text.Mathlib.Text.{starts_with}

-- A test by its two outcomes.
tested :
    {A : Type 0} (P : A → Type 0) (b : Bool) (x y : A)
    → (b ≡ true → P x)
    → (b ≡ false → P y)
    → P (if b then x else y)
tested P true x y t f = t refl
tested P false x y t f = f refl

module _ (failure : PostgrestFailure) (context : PostgrestContext) where
  abbrev code : String
  code = or_else "" failure.code

  -- A function of the server raised an exception with this detail.
  abbrev pub Raised : String → Type 0
  Raised word = (str_eq code "P0001" ≡ true) × (is_detail failure.details word ≡ true)

  -- What must be so for a failure to get a code.
  abbrev pub Cause : CloudErrorCode → Type 0
  Cause offline = (no_answer context.status ≡ true) × (or_else true context.online ≡ false)
  Cause server_unavailable =
      ((no_answer context.status ≡ true) × (or_else true context.online ≡ true))
      ⊎ (((str_eq code "PGRST106" || str_eq code "PGRST202" || str_eq code "PGRST205") ≡ true)
          ⊎ ((contains code postgrest_unavailable ≡ true)
              ⊎ (gateway_failed context.status code ≡ true)))
  Cause session_expired = starts_with code "PGRST3" ≡ true
  Cause organization_locked = str_eq code "55006" ≡ true
  Cause stale_write = Raised "STALE_WRITE"
  Cause forbidden = (str_eq code "42501" ≡ true) ⊎ Raised "FORBIDDEN"
  Cause duplicate_key = (str_eq code "23505" ≡ true) ⊎ Raised "DUPLICATE_KEY"
  Cause record_not_found = (str_eq code "23503" ≡ true) ⊎ Raised "RECORD_NOT_FOUND"
  Cause record_invalid =
      ((str_eq code "23514" || str_eq code "23502") ≡ true)
      ⊎ ((contains code sqlstate_invalid_input ≡ true) ⊎ Raised "RECORD_INVALID")
  Cause unexpected = no_answer context.status ≡ false
  Cause invalid_credentials = ⊥
  Cause no_membership = ⊥
  Cause not_configured = ⊥
  Cause provisioning_in_flight = ⊥

  raised-Cause :
      no_answer context.status ≡ false → str_eq code "P0001" ≡ true → Cause (raised failure.details)
  unfolding raised
  raised-Cause a r =
      tested Cause (is_detail failure.details "STALE_WRITE") _ _ (λ e. (r, e))
        λ _.
          tested Cause (is_detail failure.details "RECORD_INVALID") _ _ (λ e. inr (inr (r, e)))
            λ _.
              tested Cause (is_detail failure.details "RECORD_NOT_FOUND") _ _ (λ e. inr (r, e))
                λ _.
                  tested Cause (is_detail failure.details "DUPLICATE_KEY") _ _ (λ e. inr (r, e))
                    λ _.
                      tested Cause (is_detail failure.details "FORBIDDEN") _ _ (λ e. inr (r, e))
                        λ _. a

  by_postgrest-Cause : no_answer context.status ≡ false → Cause (by_postgrest context.status code)
  unfolding by_postgrest unavailable
  by_postgrest-Cause a =
      tested Cause (contains code sqlstate_invalid_input) _ _ (λ e. inr (inl e))
        λ _.
          tested Cause (starts_with code "PGRST3") _ _ (λ e. e)
            λ _.
              tested Cause
                (str_eq code "PGRST106" || str_eq code "PGRST202" || str_eq code "PGRST205") _ _
                (λ e. inr (inl e))
                λ _.
                  tested Cause (contains code postgrest_unavailable) _ _ (λ e. inr (inr (inl e)))
                    λ _.
                      tested Cause (gateway_failed context.status code) _ _ (λ e. inr (inr (inr e)))
                        λ _. a

  by_sqlstate-Cause : no_answer context.status ≡ false → Cause (by_sqlstate context.status code)
  unfolding by_sqlstate
  by_sqlstate-Cause a =
      tested Cause (str_eq code "55006") _ _ (λ e. e)
        λ _. tested Cause (str_eq code "42501") _ _ inl λ _.
          tested Cause (str_eq code "23505") _ _ inl λ _.
            tested Cause (str_eq code "23514" || str_eq code "23502") _ _ inl
              λ _. tested Cause (str_eq code "23503") _ _ inl λ _. by_postgrest-Cause a

  unavailable-Cause :
      no_answer context.status ≡ true → Cause (unavailable (or_else true context.online))
  unfolding unavailable
  unavailable-Cause n = tested Cause (or_else true context.online) _ _ (λ e. inl (n, e)) λ e. (n, e)

  -- The code of a failure tells its cause. The device is said to be offline only if no answer came and
  -- the browser reports no connection, and the session to have expired only for the authentication
  -- family of the server. A stale write is one that a function of the server raised. The codes of a
  -- sign-in, a missing membership, a configuration or an invitation stand for no such failure.
  pub cloud_error_from_postgrest-Cause : Cause (cloud_error_from_postgrest failure context)
  unfolding cloud_error_from_postgrest
  cloud_error_from_postgrest-Cause =
      tested Cause (no_answer context.status) _ _ unavailable-Cause
        λ a. tested Cause (str_eq code "P0001") _ _ (raised-Cause a) λ _. by_sqlstate-Cause a
