-- ===== src/Backup/Payload.antt =====
-- `src/backup/payloadMigrations.ts`: the migration of a backup payload to the schema of this build. The
-- data of a payload is a parameter; a step that throws returns none.
pub mod Laws
use landed_compare.Prelude.{
  ℕ, suc, ◌-◌, Bool, true, not, ◌&&◌, Option, none, some, List, [], ◌∷◌, ltb, leb, ◌==◌, filter,
  length, map, if◌then◌else◌,
}

pub record PayloadMigration (Data : Type 0) : Type 0 where
  pub to : ℕ
  pub migrate : Data → Option Data

-- A broken chain is a plain error of the program; the others are codes of a backup error.
pub data MigrationFailure : Type 0 where
  chain_not_contiguous chain_beyond_schema : MigrationFailure
  schema_too_new schema_unsupported : MigrationFailure
  migration_failed : ℕ → MigrationFailure

pub data Migrated (A : Type 0) : Type 0 where
  failed : MigrationFailure → Migrated A
  done : A → Migrated A

pub record MigratedPayload (Data : Type 0) : Type 0 where
  pub payload : Data
  pub from_version : ℕ
  pub to_version : ℕ
  pub applied : List ℕ

abbrev pub unchanged : ℕ → {Data : Type 0} → PayloadMigration Data
unchanged version = record { to = version; migrate = λ payload. some payload }

-- Both released steps leave the payload as it is.
abbrev pub payload_migrations : {Data : Type 0} → List (PayloadMigration Data)
payload_migrations = unchanged 2 ∷ unchanged 3 ∷ []

module _ {Data : Type 0} where
  unfoldable pub is_contiguous : ℕ → List (PayloadMigration Data) → Bool
  is_contiguous expected [] = true
  is_contiguous expected (m ∷ ms) = m.to == expected && is_contiguous (suc expected) ms

  -- `migrations.at(-1)?.to ?? 1`
  unfoldable pub highest_from : ℕ → List (PayloadMigration Data) → ℕ
  highest_from last [] = last
  highest_from last (m ∷ ms) = highest_from m.to ms

  -- What `assertPayloadMigrationChain` throws, if it throws.
  unfoldable pub chain_failure : List (PayloadMigration Data) → ℕ → Option MigrationFailure
  chain_failure migrations schema_version =
      if not (is_contiguous 2 migrations)
      then some chain_not_contiguous
      else if ltb schema_version (highest_from 1 migrations)
      then some chain_beyond_schema
      else none

  unfoldable pub is_step : ℕ → ℕ → PayloadMigration Data → Bool
  is_step from target m = ltb from m.to && leb m.to target

  with_applied : ℕ → Migrated (Data × List ℕ) → Migrated (Data × List ℕ)
  with_applied version (failed f) = failed f
  with_applied version (done (payload, applied)) = done (payload, version ∷ applied)

  -- The loop over the steps, with the versions that it applied.
  unfoldable pub run_steps : Data → List (PayloadMigration Data) → Migrated (Data × List ℕ)
  unfolding with_applied
  run_steps payload [] = done (payload, [])
  run_steps payload (m ∷ ms) = elim (m.migrate payload) [
    | none ↦ failed (migration_failed m.to)
    | some next ↦ with_applied m.to (run_steps next ms)
  ]

  migrated : ℕ → ℕ → Migrated (Data × List ℕ) → Migrated (MigratedPayload Data)
  migrated from target (failed f) = failed f
  migrated from target (done (payload, applied)) =
      done
        (record { payload = payload; from_version = from; to_version = target; applied = applied })

  migrate_along : Data → ℕ → ℕ → List (PayloadMigration Data) → Migrated (MigratedPayload Data)
  unfolding migrated
  migrate_along payload from target steps =
      if length steps == target - from
      then migrated from target (run_steps payload steps)
      else failed schema_unsupported

  -- Past the check of the chain.
  migrate_checked : Data → ℕ → List (PayloadMigration Data) → ℕ → Migrated (MigratedPayload Data)
  unfolding migrate_along
  migrate_checked payload from migrations target =
      if ltb target from
      then failed schema_too_new
      else if from == target
      then migrated from target (done (payload, []))
      else migrate_along payload from target (filter (is_step from target) migrations)

  unfoldable pub migrate_backup_payload :
      Data → ℕ → List (PayloadMigration Data) → ℕ → Migrated (MigratedPayload Data)
  unfolding migrate_checked
  migrate_backup_payload payload from migrations target = elim (chain_failure migrations target) [
    | some f ↦ failed f
    | none ↦ migrate_checked payload from migrations target
  ]
