-- ===== src/Cloud/Boot/Identity.antt =====
-- The boot sequence publishes company data for one identity only, whatever other tabs do meanwhile.
use landed_compare.Prelude.{
  ℕ, zero, suc, String, Option, none, some, List, ◌≡◌, refl, ap, str_eq, eq_iff, ◌⊎◌, inl, inr,
  Bool-cases, arith,
}
use landed_compare.Cloud.Gateway.{
  CloudErrorCode, Organization, Membership, Profile, Reply, answer, refused, crashed, Action,
  DataGateway,
}
use landed_compare.Cloud.Boot.{
  CloudBootResult, stopped, CloudBootOptions, decide, stopped_by, boot_for, publish_if_same,
  boot_as, attempts, bootstrap_cloud_session, give_up, boot_identity_attempts, stop_at, unavailable,
  signed_out,
}

-- A result that shows company data or a list of companies.
abbrev pub Opens : CloudBootResult → Type 0
Opens (stopped s) = ⊥
Opens _ = Unit

stopped_by-Opens : (code : CloudErrorCode) (user : Option String) → ¬ Opens (stopped_by code user)
unfolding stopped_by
stopped_by-Opens code user h = ground arith

abbrev pub Ends : {W A : Type 0} → Reply A × W → A → W → Type 0
Ends x a w = x ≡ (answer a, w)

-- How a call may have settled.
pub Reply-cases :
    {W A : Type 0} (x : Reply A × W)
    → ((a : A) × (w : W) × (x ≡ (answer a, w)))
      ⊎ ((code : CloudErrorCode) × (w : W) × (x ≡ (refused code, w)))
      ⊎ ((w : W) × (x ≡ (crashed, w)))
Reply-cases (answer a, w) = inl (a, w, refl)
Reply-cases (refused code, w) = inr (inl (code, w, refl))
Reply-cases (crashed, w) = inr (inr (w, refl))

module _ {W : Type 0} (gateway : DataGateway W) (options : CloudBootOptions) where
  -- From `w₀` to `w₁` the gateway answers that `user_id` is signed in.
  abbrev pub SignedIn : String → W → W → Type 0
  SignedIn user_id w₀ w₁ = gateway.current_user_id w₀ ≡ (answer (some user_id), w₁)

  -- The three reads that a result is decided by, one after the other.
  abbrev pub ReadBetween : String → CloudBootResult → W → W → Type 0
  ReadBetween user_id result w₁ w₄ =
      (profile : Option Profile) × (memberships : List Membership) × (organizations : List
        Organization)
      × (w₂ : W) × (w₃ : W) × (gateway.read_own_profile w₁ ≡ (answer profile, w₂))
      × (gateway.list_own_memberships w₂ ≡ (answer memberships, w₃))
      × (gateway.list_organizations w₃ ≡ (answer organizations, w₄))
      × (decide user_id options profile memberships organizations ≡ answer result)

  abbrev pub OfOneUser : CloudBootResult → W → Type 0
  OfOneUser result end =
      (user_id : String) × (w₀ : W) × (w₁ : W) × (w₄ : W) × SignedIn user_id w₀ w₁
      × ReadBetween user_id result w₁ w₄
      × SignedIn user_id w₄ end

  give_up-Opens :
      (user : Option String) (code : CloudErrorCode) (w end : W) (result : CloudBootResult)
      → Opens result
      → ¬ (give_up gateway options user code w ≡ (answer result, end))
  give_up-Opens user code w end result o e =
      let q : stopped_by code user ≡ result = ground (arith, e) in
      stopped_by-Opens code user (rw q o)

  boot_for-ReadBetween :
      (user_id : String) (result : CloudBootResult) (w end : W)
      → Opens result
      → boot_for gateway options user_id w ≡ (answer result, end)
      → ReadBetween user_id result w end
  unfolding boot_for
  boot_for-ReadBetween user_id result w end o h = elim (Reply-cases (gateway.read_own_profile w)) [
    | inr (inl (code, v, e)) ↦
        absurd (give_up-Opens (some user_id) code v end result o (rw (e, boot_for) at h))
    | inr (inr (v, e)) ↦ absurd (cc)
    | inl (profile, w₂, p) ↦ elim (Reply-cases (gateway.list_own_memberships w₂)) [
      | inr (inl (code, v, e)) ↦
          absurd (give_up-Opens (some user_id) code v end result o (rw (p, e, boot_for) at h))
      | inr (inr (v, e)) ↦ absurd (cc)
      | inl (memberships, w₃, m) ↦ elim (Reply-cases (gateway.list_organizations w₃)) [
        | inr (inl (code, v, e)) ↦
            absurd (give_up-Opens (some user_id) code v end result o (rw (p, m, e, boot_for) at h))
        | inr (inr (v, e)) ↦ absurd (cc)
        | inl (organizations, w₄, g) ↦
            let q : Ends (decide user_id options profile memberships organizations, w₄) result end =
              cc in
            (
              profile,
              memberships,
              organizations,
              w₂,
              w₃,
              p,
              m,
              rw (ap (λ x. x.1) q) at g,
              ap (λ x. x.0) q,
            )
      ]
    ]
  ]

  publish_if_same-inv :
      (user_id : String) (result found : CloudBootResult) (again : Action W CloudBootResult)
      (w end : W)
      → Opens result
      → publish_if_same gateway options user_id found again w ≡ (answer result, end)
      → ((found ≡ result) × SignedIn user_id w end) ⊎ ((v : W) × (again v ≡ (answer result, end)))
  unfolding publish_if_same
  publish_if_same-inv user_id result found again w end o h =
      elim (Reply-cases (gateway.current_user_id w)) [
        | inr (inl (code, v, e)) ↦
            absurd (give_up-Opens (some user_id) code v end result o (rw (e, publish_if_same) at h))
        | inr (inr (v, e)) ↦ absurd (cc)
        | inl (none, v, e) ↦ inr (v, cc)
        | inl (some after, v, e) ↦ elim (Bool-cases (str_eq after user_id)) [
          | inl same ↦
              let q : Ends (answer found, v) result end = ground (arith, h, e, same) in
              inl (
                ground (arith, ap (λ x. x.0) q),
                rw ((eq_iff after user_id).0 same, ap (λ x. x.1) q) at e,
              )
          | inr other ↦ inr (v, ground (arith, h, e, other))
        ]
      ]

  attempts-OfOneUser :
      (n : ℕ) (result : CloudBootResult) (w end : W)
      → Opens result
      → attempts gateway options n w ≡ (answer result, end)
      → OfOneUser result end
  unfolding attempts boot_as
  attempts-OfOneUser zero result w end o h =
      let q : stop_at unavailable CloudErrorCode.unexpected none ≡ result = ground (arith, h) in
      absurd (rw (← q) at o)
  attempts-OfOneUser (suc n) result w end o h = elim (Reply-cases (gateway.current_user_id w)) [
    | inr (inl (code, v, e)) ↦
        absurd (give_up-Opens none code v end result o (rw (e, attempts) at h))
    | inr (inr (v, e)) ↦ absurd (cc)
    | inl (none, v, e) ↦
        let q : stop_at signed_out CloudErrorCode.session_expired none ≡ result =
          ground (arith, h, e) in
        absurd (rw (← q) at o)
    | inl (some user_id, w₁, e) ↦ elim (Reply-cases (boot_for gateway options user_id w₁)) [
      | inr (inl (code, v, f)) ↦ absurd (cc)
      | inr (inr (v, f)) ↦ absurd (cc)
      | inl (found, w₄, f) ↦
          elim (publish_if_same-inv user_id result found (attempts gateway options n) w₄ end o
            (cc)) [
              | inl (q, after) ↦ (
                user_id,
                w,
                w₁,
                w₄,
                e,
                boot_for-ReadBetween user_id result w₁ w₄ o (rw q at f),
                after,
              )
              | inr (v, again) ↦ attempts-OfOneUser n result v end o again
            ]
    ]
  ]

  -- If the boot sequence lets a user in, or offers companies to choose from, then the session was that one
  -- user's immediately before the first of the three reads that the result was decided by and
  -- immediately after the last, whatever other tabs did in between and however often it started over.
  pub bootstrap_cloud_session-OfOneUser :
      (result : CloudBootResult) (start end : W)
      → Opens result
      → bootstrap_cloud_session gateway options start ≡ (answer result, end)
      → OfOneUser result end
  unfolding bootstrap_cloud_session
  bootstrap_cloud_session-OfOneUser = attempts-OfOneUser boot_identity_attempts
