-- ===== src/Backup/Payload/Laws.antt =====
-- A migration runs every version between the payload's and the build's, once and in order.
use landed_compare.Prelude.{
  ℕ, zero, suc, ◌+◌, ◌-◌, ◌≤◌, ◌<◌, ◌≡◌, refl, sym, ap, subst, ◌∙◌, ◌⊎◌, inl, inr, true, false,
  none, some, List, [], ◌∷◌, ltb, ◌==◌, ==_iff, filter, length, map, length-map, arith, Bool-cases,
  Option-cases, if◌then◌else◌, In,
}
use landed_compare.Prelude.Members.{In-filter}
use landed_compare.Backup.Payload.{
  PayloadMigration, MigrationFailure, Migrated, failed, done, MigratedPayload, is_contiguous,
  chain_failure, is_step, run_steps, migrate_along, migrate_checked, migrate_backup_payload,
}

-- `n` versions from `first` on.
abbrev pub versions : ℕ → ℕ → List ℕ
versions first zero = []
versions first (suc n) = first ∷ versions (suc first) n

length-versions : (first n : ℕ) → length (versions first n) ≡ n
length-versions first zero = refl
length-versions first (suc n) = ap suc (length-versions (suc first) n)

-- The first version of a chain from `expected` on that is above `from`.
abbrev first_above : ℕ → ℕ → ℕ
first_above from expected = if ltb from expected then expected else suc from

first_above-ge : (from expected : ℕ) → expected ≤ first_above from expected
first_above-ge from expected = ground arith

first_above-above : (from expected : ℕ) → from < first_above from expected
first_above-above from expected = ground arith

done_same : {A : Type 0} {a b : A} → ◌≡◌ {A = Migrated A} (done a) (done b) → a ≡ b
done_same h = cc

Migrated-cases :
    {A : Type 0} (r : Migrated A)
    → ((f : MigrationFailure) × (r ≡ failed f)) ⊎ ((a : A) × (r ≡ done a))
Migrated-cases (failed f) = inl (f, refl)
Migrated-cases (done a) = inr (a, refl)

module _ {Data : Type 0} where
  is_step-within :
      (from target expected : ℕ) (m : PayloadMigration Data)
      → m.to ≡ expected
      → is_step from target m ≡ true
      → (from < expected) × (expected ≤ target)
  unfolding is_step
  is_step-within from target expected m here e = ground arith

  is_step-outside :
      (from target expected : ℕ) (m : PayloadMigration Data)
      → m.to ≡ expected
      → is_step from target m ≡ false
      → (expected ≤ from) ⊎ (target < expected)
  unfolding is_step
  is_step-outside from target expected m here e = elim (Bool-cases (ltb from expected)) [
    | inl p ↦ inr (ground arith)
    | inr p ↦ inl (ground arith)
  ]

  tos : List (PayloadMigration Data) → List ℕ
  tos = map (λ m. m.to)

  -- The steps of a contiguous chain that are needed are contiguous too, and end at the target at most.
  selected :
      (from target expected : ℕ) (ms : List (PayloadMigration Data))
      → is_contiguous expected ms ≡ true
      → (n : ℕ) × (tos (filter (is_step from target) ms) ≡ versions (first_above from expected) n)
        × ((n ≡ 0) ⊎ (first_above from expected + n ≤ suc target))
  unfolding is_contiguous tos
  selected from target expected [] h = (0, refl, inl refl)
  selected from target expected (m ∷ ms) h =
      let here : m.to ≡ expected = ground (arith, h) in
      let (n, same, bound) = selected from target (suc expected) ms (ground (arith, h)) in
      elim (Bool-cases (is_step from target m)) [
        | inl e ↦
            let above : (from < expected) × (expected ≤ target) =
              is_step-within from target expected m here e in
            let at : first_above from expected ≡ expected = ground (arith, above.0) in
            let after : first_above from (suc expected) ≡ suc expected = ground (arith, above.0) in
            let taken : tos (filter (is_step from target) (m ∷ ms))
                ≡ m.to ∷ tos (filter (is_step from target) ms) =
              rw e refl in
            (
              suc n,
              taken
                  ∙ (ap (λ l. m.to ∷ l) (same ∙ ap (λ x. versions x n) after)
                      ∙ (ap (λ x. x ∷ versions (suc expected) n) here
                          ∙ ap (λ x. versions x (suc n)) (sym at))),
              inr (elim bound [
                | inl z ↦ omega (arith, z, at, above.1)
                | inr b ↦ omega (arith, b, at, after)
              ]),
            )
        | inr e ↦
            let skipped : tos (filter (is_step from target) (m ∷ ms))
                ≡ tos (filter (is_step from target) ms) =
              rw e refl in
            elim (is_step-outside from target expected m here e) [
              | inl low ↦
                  let one : first_above from (suc expected) ≡ first_above from expected =
                    ground (arith, low) in
                  (
                    n,
                    skipped ∙ (same ∙ ap (λ x. versions x n) one),
                    elim bound [ inl z ↦ inl z | inr b ↦ inr (omega (arith, b, one)) ],
                  )
              | inr high ↦
                  let nothing : n ≡ 0 = elim bound [
                    | inl z ↦ z
                    | inr b ↦ absurd (omega (arith, b, high, first_above-ge from (suc expected)))
                  ] in
                  (
                    n,
                    skipped
                        ∙ (same
                            ∙ (ap (versions _) nothing
                                ∙ ap (versions (first_above from expected)) (sym nothing))),
                    inl nothing,
                  )
            ]
      ]

  -- The payload is taken through the steps to these versions, each on what the one in front gave.
  abbrev pub Migrates : List (PayloadMigration Data) → Data → List ℕ → Data → Type 0
  Migrates migrations payload [] result = payload ≡ result
  Migrates migrations payload (v ∷ vs) result =
      (m : PayloadMigration Data) × (next : Data) × In m migrations
      × (m.to ≡ v)
      × (m.migrate payload ≡ some next)
      × Migrates migrations next vs result

  run_steps-Migrates :
      (migrations ms : List (PayloadMigration Data)) (payload result : Data) (applied : List ℕ)
      → ((m : PayloadMigration Data) → In m ms → In m migrations)
      → run_steps payload ms ≡ done (result, applied)
      → Migrates migrations payload applied result
  unfolding run_steps
  run_steps-Migrates migrations [] payload result applied sub h =
      let whole : ◌≡◌ {A = Data × List ℕ} (payload, []) (result, applied) = done_same h in
      subst (λ l. Migrates migrations payload l result) (ap (λ x. x.1) whole) (ap (λ x. x.0) whole)
  run_steps-Migrates migrations (m ∷ ms) payload result applied sub h =
      elim (Option-cases (m.migrate payload)) [
        | inl e ↦ absurd (ground (arith, e, h))
        | inr (next, e) ↦ elim (Migrated-cases (run_steps next ms)) [
          | inl (f, q) ↦ absurd (ground (arith, e, q, h))
          | inr ((r, as'), q) ↦
              let whole : ◌≡◌ {A = Data × List ℕ} (r, m.to ∷ as') (result, applied) =
                done_same (ground (arith, e, q, h)) in
              let rest = run_steps-Migrates migrations ms next r as' (λ m' i. sub m' (inr i)) q in
              subst (λ z. Migrates migrations payload z.1 z.0) whole
                (m, next, sub m (inl refl), refl, e, rest)
        ]
      ]

  run_steps-applied :
      (ms : List (PayloadMigration Data)) (payload result : Data) (applied : List ℕ)
      → run_steps payload ms ≡ done (result, applied)
      → applied ≡ tos ms
  unfolding run_steps tos
  run_steps-applied [] payload result applied h = ground (arith, h)
  run_steps-applied (m ∷ ms) payload result applied h = elim (Option-cases (m.migrate payload)) [
    | inl e ↦ absurd (ground (arith, e, h))
    | inr (next, e) ↦ elim (Migrated-cases (run_steps next ms)) [
      | inl (f, q) ↦ absurd (ground (arith, e, q, h))
      | inr ((r, as'), q) ↦
          let rest = run_steps-applied ms next r as' q in
          let same : applied ≡ m.to ∷ as' = ground (arith, e, q, h) in
          same ∙ ap (λ l. m.to ∷ l) rest
    ]
  ]

  contiguous :
      (migrations : List (PayloadMigration Data)) (target : ℕ)
      → chain_failure migrations target ≡ none
      → is_contiguous 2 migrations ≡ true
  unfolding chain_failure
  contiguous migrations target c = ground (arith, c)

  along-applied :
      (migrations : List (PayloadMigration Data)) (payload : Data) (from target : ℕ)
      (steps : List (PayloadMigration Data)) (result : MigratedPayload Data)
      → ((m : PayloadMigration Data) → In m steps → In m migrations)
      → migrate_along payload from target steps ≡ done result
      → (length steps ≡ target - from)
        × (result.from_version ≡ from)
        × (result.to_version ≡ target)
        × (result.applied ≡ tos steps)
        × Migrates migrations payload result.applied result.payload
  unfolding migrate_along
  along-applied migrations payload from target steps result sub h =
      elim (Bool-cases (length steps == target - from)) [
        | inr e ↦ absurd (ground (arith, e, h))
        | inl e ↦ elim (Migrated-cases (run_steps payload steps)) [
          | inl (f, q) ↦ absurd (ground (arith, e, q, h))
          | inr ((r, as'), q) ↦
              let whole : done (record {
                payload = r;
                from_version = from;
                to_version = target;
                applied = as';
              })
                  ≡ done result =
                ground (arith, e, q, h) in
              let parts = done_same whole in
              (
                (==_iff (length steps) (target - from)).0 e,
                sym (ap (λ x. x.from_version) parts),
                sym (ap (λ x. x.to_version) parts),
                sym (ap (λ x. x.applied) parts) ∙ run_steps-applied steps payload r as' q,
                subst (λ x. Migrates migrations payload x.applied x.payload) parts
                    (run_steps-Migrates migrations steps payload r as' sub q),
              )
        ]
      ]

  checked-applied :
      (payload : Data) (from target : ℕ) (migrations : List (PayloadMigration Data))
      (result : MigratedPayload Data)
      → chain_failure migrations target ≡ none
      → migrate_checked payload from migrations target ≡ done result
      → (from ≤ target)
        × (result.from_version ≡ from)
        × (result.to_version ≡ target)
        × (result.applied ≡ versions (suc from) (target - from))
        × Migrates migrations payload result.applied result.payload
  unfolding migrate_checked tos
  checked-applied payload from target migrations result c h = elim (Bool-cases (ltb target from)) [
    | inl e ↦ absurd (ground (arith, e, h))
    | inr e ↦ elim (Bool-cases (from == target)) [
      | inl f ↦
          let whole : done (record {
            payload = payload;
            from_version = from;
            to_version = target;
            applied = [];
          })
              ≡ done result =
            ground (arith, e, f, h) in
          let parts = done_same whole in
          let none_left : target - from ≡ 0 = ground (arith, f) in
          (
            ground (arith, e),
            sym (ap (λ x. x.from_version) parts),
            sym (ap (λ x. x.to_version) parts),
            sym (ap (λ x. x.applied) parts) ∙ ap (versions (suc from)) (sym none_left),
            subst (λ x. Migrates migrations payload x.applied x.payload) parts refl,
          )
      | inr f ↦
          let steps = filter (is_step from target) migrations in
          let (len, from_eq, to_eq, applied_eq, migrates) =
            along-applied migrations payload from target steps result
              (λ m i. (In-filter (is_step from target) migrations m i).0)
              (ground (arith, e, f, h)) in
          let (n, same, bound) =
            selected from target 2 migrations (contiguous migrations target c) in
          let count : n ≡ target - from =
            sym (length-versions _ n)
            ∙ (ap length (sym same) ∙ (length-map (λ m. m.to) steps ∙ len)) in
          let below : from < target = ground (arith, e, f) in
          let first : first_above from 2 ≡ suc from = elim bound [
            | inl z ↦ absurd (omega (arith, z, count, below))
            | inr b ↦ omega (arith, b, count, below, first_above-above from 2)
          ] in
          (
            omega (arith, below),
            from_eq,
            to_eq,
            applied_eq ∙ (same ∙ (ap (λ x. versions x n) first ∙ ap (versions (suc from)) count)),
            migrates,
          )
    ]
  ]

  -- A migration that succeeds starts at no newer version, ends at the target, and has applied each
  -- version after the payload's up to the target once, in order: the step of the chain to each version
  -- ran on what the step in front gave, the first one on the payload, and the result is what the last
  -- one gave.
  pub migrate_backup_payload-applied :
      (payload : Data) (from target : ℕ) (migrations : List (PayloadMigration Data))
      (result : MigratedPayload Data)
      → migrate_backup_payload payload from migrations target ≡ done result
      → (from ≤ target)
        × (result.from_version ≡ from)
        × (result.to_version ≡ target)
        × (result.applied ≡ versions (suc from) (target - from))
        × Migrates migrations payload result.applied result.payload
  unfolding migrate_backup_payload
  migrate_backup_payload-applied payload from target migrations result h =
      elim (Option-cases (chain_failure migrations target)) [
        | inr (f, e) ↦ absurd (ground (arith, e, h))
        | inl e ↦ checked-applied payload from target migrations result e (
            subst
              (λ o.
                elim o as (λ _. Migrated (MigratedPayload Data)) [
                  | some f ↦ failed f
                  | none ↦ migrate_checked payload from migrations target
                ]
                ≡ done result)
              e h)
      ]
