-- ===== src/Cloud/Guard/Losses.antt =====
-- What the guard reports as lost, and why.
use landed_compare.Prelude.{
  String, Bool, Option, none, some, List, ◌∷◌, ◌≡◌, ◌≢◌, refl, sym, subst, str_eq, eq_iff, inl, inr,
  Bool-cases, arith,
}
use landed_compare.Cloud.Gateway.{
  CloudErrorCode, Reply, answer, refused, crashed, Action, DataGateway,
}
use landed_compare.Cloud.Boot.Identity.{Reply-cases}
use landed_compare.Cloud.Guard.{
  IdentityLoss, Session, FirstArgument, names_another, on_session_failure, on_failure,
  assert_identity, bracketed, guard, signed_out, identity_changed, organization_changed, check_user,
}
use landed_compare.Cloud.Guard.Laws.{
  NamesExpected, NamesExpected-names_another, names_another-NamesExpected,
}

module _ {W : Type 0} (gateway : DataGateway W) (expected : String) where
  -- Why a check of the identity is refused at a world: the code, and the losses reported after it.
  pub data Denied (w : W) (before : List IdentityLoss)
      : CloudErrorCode → List IdentityLoss → Type 0 where
    nobody :
        (v : W)
        → gateway.current_user_id w ≡ (answer none, v)
        → Denied w before CloudErrorCode.session_expired (signed_out ∷ before)
    another :
        (user : String) (v : W)
        → gateway.current_user_id w ≡ (answer (some user), v)
        → user ≢ expected
        → Denied w before CloudErrorCode.session_expired (identity_changed ∷ before)
    expired :
        (v : W)
        → gateway.current_user_id w ≡ (refused CloudErrorCode.session_expired, v)
        → Denied w before CloudErrorCode.session_expired (IdentityLoss.session_expired ∷ before)
    unread :
        (code : CloudErrorCode) (v : W)
        → gateway.current_user_id w ≡ (refused code, v)
        → code ≢ CloudErrorCode.session_expired
        → Denied w before code before

  -- How a check of the identity settles.
  abbrev Checked : W → List IdentityLoss → Reply (Unit {0}) → W → List IdentityLoss → Type 0
  Checked w before (answer u) v after =
      (gateway.current_user_id w ≡ (answer (some expected), v)) × (after ≡ before)
  Checked w before (refused code) v after = Denied w before code after
  Checked w before crashed v after = after ≡ before

  check-Denied :
      (w v : W) (before : List IdentityLoss) (code : CloudErrorCode)
      → gateway.current_user_id w ≡ (refused code, v)
      → Denied w before code
          (on_session_failure code (record { world = v; losses = before })).losses
  unfolding on_session_failure
  check-Denied w v before code h =
      elim code
          as (λ k.
            gateway.current_user_id w ≡ (refused k, v)
            → Denied w before k
                (on_session_failure k (record { world = v; losses = before })).losses) [
                  | CloudErrorCode.session_expired ↦ λ e. expired v e
                  | k ↦ λ e. unread k v e (λ q. cc)
                ]
        h

  assert_identity-Checked :
      (s : Session W)
      → let out = assert_identity gateway expected s in
        Checked s.world s.losses (out.0) (out.1.world) (out.1.losses)
  unfolding assert_identity check_user on_session_failure
  assert_identity-Checked s = elim (Reply-cases (gateway.current_user_id s.world)) [
    | inr (inl (code, v, e)) ↦ rw e (check-Denied s.world v s.losses code e)
    | inr (inr (v, e)) ↦ rw e refl
    | inl (none, v, e) ↦ rw e (nobody v e)
    | inl (some current, v, e) ↦ elim (Bool-cases (str_eq current expected)) [
      | inl f ↦ rw (e, f) (rw ((eq_iff current expected).0 f) at e, refl)
      | inr f ↦ rw (e, f) (another current v e (λ q. ground (arith, f, q, eq_iff current expected)))
    ]
  ]

  module _ {A : Type 0} (operation : Action W A) where
    -- Why the call itself is refused.
    pub data Failed (w : W) (before : List IdentityLoss)
        : CloudErrorCode → List IdentityLoss → Type 0 where
      removed :
          (v : W)
          → operation w ≡ (refused CloudErrorCode.no_membership, v)
          → Failed w before CloudErrorCode.no_membership (IdentityLoss.no_membership ∷ before)
      expired_during :
          (v : W)
          → operation w ≡ (refused CloudErrorCode.session_expired, v)
          → Failed w before CloudErrorCode.session_expired (IdentityLoss.session_expired ∷ before)
      refused_during :
          (code : CloudErrorCode) (v : W)
          → operation w ≡ (refused code, v)
          → code ≢ CloudErrorCode.no_membership
          → code ≢ CloudErrorCode.session_expired
          → Failed w before code before

    -- How a guarded call settles, with the losses that are reported after it.
    pub data Settled (names : Type 0) (w : W) (before : List IdentityLoss)
        : Reply A → List IdentityLoss → Type 0 where
      foreign :
          ¬ names
          → Settled names w before
              (refused CloudErrorCode.unexpected)
              (organization_changed ∷ before)
      denied_before :
          (code : CloudErrorCode) (after : List IdentityLoss)
          → names
          → Denied w before code after
          → Settled names w before (refused code) after
      failed :
          (w₁ : W) (code : CloudErrorCode) (after : List IdentityLoss)
          → names
          → gateway.current_user_id w ≡ (answer (some expected), w₁)
          → Failed w₁ before code after
          → Settled names w before (refused code) after
      denied_after :
          (w₁ w₂ : W) (a : A) (code : CloudErrorCode) (after : List IdentityLoss)
          → names
          → gateway.current_user_id w ≡ (answer (some expected), w₁)
          → operation w₁ ≡ (answer a, w₂)
          → Denied w₂ before code after
          → Settled names w before (refused code) after
      through :
          (w₁ w₂ w₃ : W) (a : A)
          → names
          → gateway.current_user_id w ≡ (answer (some expected), w₁)
          → operation w₁ ≡ (answer a, w₂)
          → gateway.current_user_id w₂ ≡ (answer (some expected), w₃)
          → Settled names w before (answer a) before
      thrown : names → Settled names w before crashed before

    call-Failed :
        (w v : W) (before : List IdentityLoss) (code : CloudErrorCode)
        → operation w ≡ (refused code, v)
        → Failed w before code (on_failure code (record { world = v; losses = before })).losses
    unfolding on_failure
    call-Failed w v before code h =
        elim code
            as (λ k.
              operation w ≡ (refused k, v)
              → Failed w before k (on_failure k (record { world = v; losses = before })).losses) [
                | CloudErrorCode.session_expired ↦ λ e. expired_during v e
                | CloudErrorCode.no_membership ↦ λ e. removed v e
                | k ↦ λ e. refused_during k v e (λ q. cc) (λ q. cc)
              ]
          h

    bracketed-Settled :
        {names : Type 0} (n : names) (s : Session W)
        → let out = bracketed gateway expected operation s in
          Settled names s.world s.losses (out.0) (out.1.losses)
    unfolding bracketed
    bracketed-Settled {names} n s =
        let check = assert_identity-Checked s in
        elim (Reply-cases (assert_identity gateway expected s)) [
          | inr (inl (code, v, e)) ↦ rw e (denied_before code _ n (rw e at check))
          | inr (inr (v, e)) ↦ rw e (
              subst (λ l. Settled names s.world s.losses crashed l) (sym (rw e at check))
                (thrown n))
          | inl (u, s₁, e) ↦
              let (before, same) = rw e at check in
              elim (Reply-cases (operation s₁.world)) [
                | inr (inl (code, v, f)) ↦
                    rw (e, f, same)
                      (failed s₁.world code _ n before (call-Failed s₁.world v s.losses code f))
                | inr (inr (v, f)) ↦ rw (e, f, same) (thrown n)
                | inl (b, w₂, f) ↦
                    let s₂ : Session W = record { world = w₂; losses = s₁.losses } in
                    let recheck = assert_identity-Checked s₂ in
                    elim (Reply-cases (assert_identity gateway expected s₂)) [
                      | inr (inl (code, v, g)) ↦
                          rw (e, f, g)
                            (denied_after s₁.world w₂ b code v.losses n before f
                              (rw (g, same) at recheck))
                      | inr (inr (v, g)) ↦ rw (e, f, g, rw (g, same) at recheck) (thrown n)
                      | inl (u', s₃, g) ↦
                          let (after, same') = rw (g, same) at recheck in
                          rw (e, f, g, same') (through s₁.world w₂ s₃.world b n before f after)
                    ]
              ]
        ]

    -- However a guarded call settles, the losses that it reports are those of the way that it took. A call
    -- for another organisation is refused and reported as that. A check of the identity that is
    -- refused reports that nobody is signed in, that another user is, or that the session has expired;
    -- a refused call reports a removed membership or an expired session; any other refusal, an answer
    -- and an unexpected throw report nothing.
    pub guard-Settled :
        (expected_organization : Option String) (scoped : Bool) (first : FirstArgument)
        (s : Session W)
        → let out = guard gateway expected expected_organization scoped first operation s in
          Settled
            (NamesExpected scoped expected_organization first)
            s.world
            s.losses
            (out.0)
            (out.1.losses)
    unfolding guard
    guard-Settled expected_organization scoped first s =
        elim (Bool-cases (names_another scoped expected_organization first)) [
          | inl e ↦ rw e (
              foreign
                (λ n. cc (e, NamesExpected-names_another scoped expected_organization first n)))
          | inr e ↦ rw e (
              bracketed-Settled (names_another-NamesExpected scoped expected_organization first e)
                s)
        ]
