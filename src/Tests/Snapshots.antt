-- ===== src/Tests/Snapshots.antt =====
-- A plan for four snapshots with no space for any.
use landed_compare.Prelude.{
  ℕ, ◌+◌, ◌≤◌, String, true, false, Option, some, List, [], ◌∷◌, refl, inl, inr, ◌≡◌, arith,
}
use landed_compare.Prelude.Maps.{contains}
use landed_compare.Prelude.{not, ◌⊎◌, In, str_eq, if◌then◌else◌, Ordering}
use landed_compare.Prelude.Text.{compare_text}
use landed_compare.Backup.Payload.{
  PayloadMigration, migrate_backup_payload, chain_failure, is_contiguous, highest_from, is_step,
  run_steps,
}
use landed_compare.Backup.Payload.Laws.{versions, Migrates, migrate_backup_payload-applied}
use landed_compare.Backup.Retention.{
  SnapshotKind, SnapshotSummary, RetentionPolicy, RetentionPlan, default_retention_policy,
  plan_retention, pre_migration, pre_restore, manual,
}
use landed_compare.Backup.Retention.Laws.{
  plan_retention-partition, plan_retention-young, plan_retention-newest_pre_restore,
}

-- The instants of the snapshots below.
abbrev parse_days : String → Option ℕ
parse_days instant = if str_eq instant "2026-01-01" then some 86400000 else some 172800000

abbrev snapshot : String → SnapshotKind → String → SnapshotSummary
snapshot id kind created_at = record {
  id = id;
  kind = kind;
  created_at = created_at;
  schema_version = 1;
  app_version = "1.0";
  entity_counts = [];
  size_bytes = 100;
  total_records = 10;
}

abbrev restore_point : SnapshotSummary
restore_point = snapshot "r2" pre_restore "2026-01-02"

abbrev migration_point : SnapshotSummary
migration_point = snapshot "m1" pre_migration "2026-01-01"

abbrev snapshots : List SnapshotSummary
snapshots =
    snapshot "r1" pre_restore "2026-01-01"
    ∷ restore_point
    ∷ migration_point
    ∷ snapshot "x" manual "2026-01-01"
    ∷ []

abbrev no_space : RetentionPolicy
no_space = default_retention_policy (λ _. 0)

abbrev the_plan : RetentionPlan
the_plan = plan_retention parse_days no_space "2026-01-02" (some 1000) snapshots

plan_retention-partition_example :
    (contains "r2" the_plan.prune_ids ≡ not (contains "r2" the_plan.keep_ids))
    × (contains "r2" the_plan.protected_ids ≡ true → contains "r2" the_plan.keep_ids ≡ true)
    × (the_plan.over_ceiling ≡ true
        → contains "r2" the_plan.keep_ids ≡ true
        → contains "r2" the_plan.protected_ids ≡ true)
plan_retention-partition_example =
    plan_retention-partition parse_days no_space "2026-01-02" (some 1000) snapshots restore_point
      (inr (inl refl))

plan_retention-young_example :
    (contains "m1" the_plan.keep_ids ≡ true) × (contains "m1" the_plan.prune_ids ≡ false)
plan_retention-young_example =
    plan_retention-young parse_days no_space "2026-01-02" (some 1000) snapshots migration_point
      86400000 172800000 (inr (inr (inl refl))) refl refl refl (omega arith)

newest_restore :
    (r : SnapshotSummary)
    → In r snapshots
    → r.kind ≡ pre_restore
    → (r ≡ restore_point) ⊎ (compare_text r.created_at "2026-01-02" ≡ Ordering.lt)
unfolding compare_text
newest_restore r (inl q) e = inr (rw q refl)
newest_restore r (inr (inl q)) e = inl q
newest_restore r (inr (inr (inl q))) e = absurd (cc)
newest_restore r (inr (inr (inr (inl q)))) e = absurd (cc)
newest_restore r (inr (inr (inr (inr i)))) e = absurd (i tt)

plan_retention-newest_pre_restore_example :
    (contains "r2" the_plan.keep_ids ≡ true) × (contains "r2" the_plan.prune_ids ≡ false)
plan_retention-newest_pre_restore_example =
    plan_retention-newest_pre_restore parse_days no_space "2026-01-02" (some 1000) snapshots
      restore_point (inr (inl refl)) refl newest_restore

-- Steps on a payload that is a number.
abbrev adding : ℕ → ℕ → PayloadMigration ℕ
adding version amount = record { to = version; migrate = λ n. some (n + amount) }

abbrev chain : List (PayloadMigration ℕ)
chain = adding 2 10 ∷ adding 3 100 ∷ []

migrate_backup_payload-applied_example :
    (1 ≤ 3)
    × (◌≡◌ {A = ℕ} 1 1)
    × (◌≡◌ {A = ℕ} 3 3)
    × (◌≡◌ {A = List ℕ} (2 ∷ 3 ∷ []) (versions 2 2))
    × Migrates chain 5 (2 ∷ 3 ∷ []) 115
unfolding migrate_backup_payload chain_failure is_contiguous highest_from is_step run_steps
migrate_backup_payload-applied_example =
    migrate_backup_payload-applied 5 1 3 chain
      (record { payload = 115; from_version = 1; to_version = 3; applied = 2 ∷ 3 ∷ [] }) refl
