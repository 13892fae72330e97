-- ===== src/Cloud/Boot/Steady.antt =====
-- The boot sequence of a session that stays one user's.
use landed_compare.Prelude.{
  String, Option, some, List, ◌≡◌, ◌≢◌, refl, subst, eq_iff, ◌⊎◌, inl, inr,
}
use landed_compare.Cloud.Gateway.{
  CloudErrorCode, Organization, Membership, Profile, Reply, answer, refused, crashed, DataGateway,
}
use landed_compare.Cloud.Boot.{
  CloudBootResult, CloudBootOptions, stopped_by, boot_for, publish_if_same, boot_as, attempts,
  bootstrap_cloud_session,
}
use landed_compare.Cloud.Boot.Laws.{Sound, decide-Sound}
use landed_compare.Cloud.Boot.Identity.{Reply-cases, SignedIn, ReadBetween}

module _ {W : Type 0} (gateway : DataGateway W) (options : CloudBootOptions)
    (user_id : String) where
  -- One of the three reads was refused.
  pub data ReadRefused (code : CloudErrorCode) : Type 0 where
    profile_refused : (w v : W) → gateway.read_own_profile w ≡ (refused code, v) → ReadRefused code
    memberships_refused :
        (w v : W) → gateway.list_own_memberships w ≡ (refused code, v) → ReadRefused code
    organizations_refused :
        (w v : W) → gateway.list_organizations w ≡ (refused code, v) → ReadRefused code

  -- A result is what the reads between two worlds decide, or tells why one of them was refused.
  abbrev pub Explained : CloudBootResult → W → W → Type 0
  Explained result w v =
      ReadBetween gateway options user_id result w v
      ⊎ ((code : CloudErrorCode) × ReadRefused code × (result ≡ stopped_by code (some user_id)))

  decided :
      (profile : Option Profile) (memberships : List Membership) (organizations : List Organization)
      (r : Reply CloudBootResult)
      → Sound user_id options profile memberships organizations r
      → (result : CloudBootResult) × (r ≡ answer result)
  decided profile memberships organizations (answer result) s = (result, refl)
  decided profile memberships organizations (refused code) s = absurd s
  decided profile memberships organizations crashed s = absurd s

  module _ (IsSteady : W → Type 0) where
    -- A call that settles keeps the session.
    abbrev pub Keeps : {A : Type 0} → Reply A × W → Type 0
    Keeps x = (x.0 ≢ crashed) × IsSteady x.1

    abbrev pub BootsAs : W → Type 0
    BootsAs w =
        (result : CloudBootResult) × (v : W) × (boot_for gateway options user_id w
          ≡ (answer result, v))
        × IsSteady v
        × Explained result w v

    module _ (profile_keeps : (w : W) → IsSteady w → Keeps (gateway.read_own_profile w))
        (memberships_keep : (w : W) → IsSteady w → Keeps (gateway.list_own_memberships w))
        (organizations_keep : (w : W) → IsSteady w → Keeps (gateway.list_organizations w)) where
      boot_for-BootsAs : (w : W) → IsSteady w → BootsAs w
      unfolding boot_for
      boot_for-BootsAs w s = elim (Reply-cases (gateway.read_own_profile w)) [
        | inr (inr (v, e)) ↦ absurd ((subst Keeps e (profile_keeps w s)).0 refl)
        | inr (inl (code, v, e)) ↦ (
          stopped_by code (some user_id),
          v,
          rw e refl,
          (subst Keeps e (profile_keeps w s)).1,
          inr (code, profile_refused w v e, refl),
        )
        | inl (profile, w₂, p) ↦
            let s₂ = (subst Keeps p (profile_keeps w s)).1 in
            elim (Reply-cases (gateway.list_own_memberships w₂)) [
              | inr (inr (v, e)) ↦ absurd ((subst Keeps e (memberships_keep w₂ s₂)).0 refl)
              | inr (inl (code, v, e)) ↦ (
                stopped_by code (some user_id),
                v,
                rw (p, e) refl,
                (subst Keeps e (memberships_keep w₂ s₂)).1,
                inr (code, memberships_refused w₂ v e, refl),
              )
              | inl (memberships, w₃, m) ↦
                  let s₃ = (subst Keeps m (memberships_keep w₂ s₂)).1 in
                  elim (Reply-cases (gateway.list_organizations w₃)) [
                    | inr (inr (v, e)) ↦ absurd ((subst Keeps e (organizations_keep w₃ s₃)).0 refl)
                    | inr (inl (code, v, e)) ↦ (
                      stopped_by code (some user_id),
                      v,
                      rw (p, m, e) refl,
                      (subst Keeps e (organizations_keep w₃ s₃)).1,
                      inr (code, organizations_refused w₃ v e, refl),
                    )
                    | inl (organizations, w₄, o) ↦
                        let (result, d) =
                          decided profile memberships organizations _
                            (decide-Sound user_id options profile memberships organizations) in
                        (
                          result,
                          w₄,
                          rw (p, m, o, d) refl,
                          (subst Keeps o (organizations_keep w₃ s₃)).1,
                          inl (profile, memberships, organizations, w₂, w₃, p, m, o, d),
                        )
                  ]
            ]
      ]

      -- If the session is one user's now, and stays it through every reading and every call, none of which
      -- throws what is no cloud error, then the boot sequence answers. It never runs out of attempts: it
      -- ends with what one round of the three reads decides, or tells why one of them was refused.
      pub bootstrap_cloud_session-steady :
          ((w : W) → IsSteady w → (v : W) × SignedIn gateway options user_id w v × IsSteady v)
          → (start : W) → IsSteady start
          → (result : CloudBootResult) × (w : W) × (v : W) × (end : W) × (bootstrap_cloud_session
                gateway options start
              ≡ (answer result, end))
            × SignedIn gateway options user_id start w
            × Explained result w v
            × IsSteady end
      unfolding bootstrap_cloud_session attempts boot_as publish_if_same
      bootstrap_cloud_session-steady reads start s =
          let (w, before, s₁) = reads start s in
          let (result, v, booted, s₂, why) = boot_for-BootsAs w s₁ in
          let (end, after, s₃) = reads v s₂ in
          (
            result,
            w,
            v,
            end,
            rw (before, booted, after, (eq_iff user_id user_id).1 refl) refl,
            before,
            why,
            s₃,
          )
