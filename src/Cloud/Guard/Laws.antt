-- ===== src/Cloud/Guard/Laws.antt =====
-- What the guard lets through.
use landed_compare.Prelude.{
  String, Bool, true, false, Option, none, some, ◌≡◌, refl, sym, ap, str_eq, eq_iff, inl, inr,
  Bool-cases, Option-cases, arith,
}
use landed_compare.Cloud.Gateway.{answer, Action, DataGateway}
use landed_compare.Cloud.Boot.Identity.{Reply-cases}
use landed_compare.Cloud.Guard.{
  Session, FirstArgument, organization_of, names_another, assert_identity, bracketed, guard,
  check_user,
}

-- A call that names the expected organisation, where one is expected.
abbrev pub NamesExpected : Bool → Option String → FirstArgument → Type 0
NamesExpected scoped expected first =
    scoped ≡ true → (id : String) → expected ≡ some id → organization_of first ≡ some id

pub names_another-NamesExpected :
    (scoped : Bool) (expected : Option String) (first : FirstArgument)
    → names_another scoped expected first ≡ false
    → NamesExpected scoped expected first
unfolding names_another
names_another-NamesExpected false expected first h q id e = absurd (cc)
names_another-NamesExpected true none first h q id e = absurd (cc)
names_another-NamesExpected true (some expected) first h q id e =
    elim (Option-cases (organization_of first)) [
      | inl f ↦ absurd (cc)
      | inr (named, f) ↦
          let same : named ≡ expected = ground (arith, h, f, eq_iff named expected) in
          rw (f, same) e
    ]

pub NamesExpected-names_another :
    (scoped : Bool) (expected : Option String) (first : FirstArgument)
    → NamesExpected scoped expected first
    → names_another scoped expected first ≡ false
unfolding names_another
NamesExpected-names_another false expected first h = refl
NamesExpected-names_another true none first h = refl
NamesExpected-names_another true (some expected) first h =
    ground (arith, h refl expected refl, eq_iff expected expected)

module _ {W : Type 0} (gateway : DataGateway W) (expected : String) where
  -- The only way through a check of the identity: the expected user is signed in.
  assert_identity-answer :
      (s t : Session W) (u : Unit {0})
      → assert_identity gateway expected s ≡ (answer u, t)
      → (gateway.current_user_id s.world ≡ (answer (some expected), t.world))
        × (t.losses ≡ s.losses)
  unfolding assert_identity check_user
  assert_identity-answer s t u h = elim (Reply-cases (gateway.current_user_id s.world)) [
    | inr (inl (code, v, e)) ↦ absurd (cc)
    | inr (inr (v, e)) ↦ absurd (cc)
    | inl (none, v, e) ↦ absurd (cc)
    | inl (some current, v, e) ↦ elim (Bool-cases (str_eq current expected)) [
      | inr f ↦ absurd (ground (arith, h, e, f))
      | inl f ↦
          let q : record { world = v; losses = s.losses } ≡ t = ground (arith, h, e, f) in
          (
            rw (e, (eq_iff current expected).0 f, ap (λ x. x.world) q) refl,
            sym (ap (λ x. x.losses) q),
          )
    ]
  ]

  module _ {A : Type 0} (operation : Action W A) where
    -- An operation that ran between two checks for the expected user.
    abbrev pub RanBetween : A → Session W → Session W → Type 0
    RanBetween a s t =
        (w₁ : W) × (w₂ : W) × (gateway.current_user_id s.world ≡ (answer (some expected), w₁))
        × (operation w₁ ≡ (answer a, w₂))
        × (gateway.current_user_id w₂ ≡ (answer (some expected), t.world))

    bracketed-answer :
        (s t : Session W) (a : A)
        → bracketed gateway expected operation s ≡ (answer a, t)
        → RanBetween a s t × (t.losses ≡ s.losses)
    unfolding bracketed
    bracketed-answer s t a h = elim (Reply-cases (assert_identity gateway expected s)) [
      | inr (inl (code, v, e)) ↦ absurd (cc)
      | inr (inr (v, e)) ↦ absurd (cc)
      | inl (u, s₁, e) ↦ elim (Reply-cases (operation s₁.world)) [
        | inr (inl (code, v, f)) ↦ absurd (cc)
        | inr (inr (v, f)) ↦ absurd (cc)
        | inl (b, w₂, f) ↦
            let s₂ : Session W = record { world = w₂; losses = s₁.losses } in
            elim (Reply-cases (assert_identity gateway expected s₂)) [
              | inr (inl (code, v, g)) ↦ absurd (ground (arith, h, e, f, g))
              | inr (inr (v, g)) ↦ absurd (ground (arith, h, e, f, g))
              | inl (u', s₃, g) ↦
                  let (before, same) = assert_identity-answer s s₁ u e in
                  let (after, same') = assert_identity-answer s₂ s₃ u' g in
                  let q : b ≡ a = ground (arith, h, e, f, g) in
                  let r : s₃ ≡ t = ground (arith, h, e, f, g) in
                  (
                    (s₁.world, w₂, before, rw q at f, rw (ap (λ x. x.world) r) at after),
                    cc (same, same', ap (λ x. x.losses) r),
                  )
            ]
      ]
    ]

    -- An answer comes through the guard only when the call named the expected organisation, if it is
    -- bound to one, and the operation gave that answer between two readings of the session which both found the
    -- expected user signed in; nothing is reported as lost then.
    pub guard-answer :
        (expected_organization : Option String) (scoped : Bool) (first : FirstArgument)
        (s t : Session W) (a : A)
        → guard gateway expected expected_organization scoped first operation s ≡ (answer a, t)
        → NamesExpected scoped expected_organization first
          × RanBetween a s t
          × (t.losses ≡ s.losses)
    unfolding guard
    guard-answer expected_organization scoped first s t a h =
        elim (Bool-cases (names_another scoped expected_organization first)) [
          | inl e ↦ absurd (ground (arith, h, e))
          | inr e ↦
              let (ran, same) = bracketed-answer s t a (ground (arith, h, e)) in
              (names_another-NamesExpected scoped expected_organization first e, ran, same)
        ]
