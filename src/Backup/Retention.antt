-- ===== src/Backup/Retention.antt =====
-- `src/backup/retention.ts`: the plan of which snapshots to keep and which to prune.
-- `Date.parse` is a parameter: the milliseconds since 1970 of an instant, or nothing for `NaN`, which
-- no comparison holds of. The share of the quota is a parameter of the policy, since the
-- code computes it with floating-point numbers.
pub mod Ceiling
pub mod Snapshots
pub mod Laws
use landed_compare.Prelude.{
  ℕ, ◌+◌, ◌-◌, ◌*◌, ◌/◌, String, Bool, true, false, not, ◌&&◌, ◌||◌, Option, none, some, List, [],
  ◌∷◌, ◌++◌, map, filter, take, ltb, leb, ◌==◌, if◌then◌else◌, Ordering,
}
use landed_compare.Prelude.Text.{compare_text}
use landed_compare.Prelude.Sorting.{sort_by}
use landed_compare.Prelude.Maps.{contains}

pub data SnapshotKind : Type 0 where
  manual daily pre_migration pre_import pre_restore : SnapshotKind

pub record SnapshotSummary : Type 0 where
  pub id : String
  pub kind : SnapshotKind
  pub created_at : String
  pub schema_version : ℕ
  pub app_version : String
  pub entity_counts : List (String × ℕ)
  pub size_bytes : ℕ
  pub total_records : ℕ

pub record RetentionPolicy : Type 0 where
  pub daily_keep : ℕ
  pub weekly_promotion_weeks : ℕ
  pub pre_migration_keep : ℕ
  pub pre_migration_protect_days : ℕ
  pub pre_import_keep : ℕ
  pub pre_restore_keep : ℕ
  pub manual_keep : ℕ
  -- `Math.floor(quotaBytes * quotaFraction)`
  pub quota_share : ℕ → ℕ

pub record RetentionPlan : Type 0 where
  pub keep_ids : List String
  pub prune_ids : List String
  pub protected_ids : List String
  pub total_bytes_before : ℕ
  pub total_bytes_after : ℕ
  pub ceiling_bytes : Option ℕ
  pub quota_known : Bool
  pub over_ceiling : Bool

abbrev pub default_retention_policy : (ℕ → ℕ) → RetentionPolicy
default_retention_policy quota_share = record {
  daily_keep = 7;
  weekly_promotion_weeks = 4;
  pre_migration_keep = 3;
  pre_migration_protect_days = 30;
  pre_import_keep = 3;
  pre_restore_keep = 3;
  manual_keep = 5;
  quota_share = quota_share;
}

abbrev pub day_ms : ℕ
day_ms = 24 * 60 * 60 * 1000

abbrev pub kind_eq : SnapshotKind → SnapshotKind → Bool
kind_eq manual manual = true
kind_eq daily daily = true
kind_eq pre_migration pre_migration = true
kind_eq pre_import pre_import = true
kind_eq pre_restore pre_restore = true
kind_eq _ _ = false

-- `a < b ? 1 : -1`
abbrev pub later_first : Ordering → Ordering
later_first Ordering.lt = Ordering.gt
later_first _ = Ordering.lt

unfoldable pub newest_first : SnapshotSummary → SnapshotSummary → Ordering
newest_first a b = elim (compare_text a.created_at b.created_at) [
  | Ordering.eq ↦ later_first (compare_text a.id b.id)
  | Ordering.lt ↦ Ordering.gt
  | Ordering.gt ↦ Ordering.lt
]

unfoldable pub of_kind : List SnapshotSummary → SnapshotKind → List SnapshotSummary
of_kind summaries kind = sort_by newest_first (filter (λ s. kind_eq s.kind kind) summaries)

abbrev pub ids : List SnapshotSummary → List String
ids = map (λ s. s.id)

abbrev pub total_size : List SnapshotSummary → ℕ
total_size [] = 0
total_size (s ∷ ss) = s.size_bytes + total_size ss

abbrev pub first_of : List SnapshotSummary → List SnapshotSummary
first_of = take 1

-- A `Set` in its order of insertion, of texts that are added one by one.
unfoldable pub distinct : List String → List String → List String
distinct seen [] = []
distinct seen (x ∷ xs) =
    let rest = distinct (x ∷ seen) xs in if contains x seen then rest else x ∷ rest

has_week : ℕ → List (ℕ × SnapshotSummary) → Bool
has_week week [] = false
has_week week ((w, s) ∷ m) = w == week || has_week week m

module _ (parse_date : String → Option ℕ) where
  unfoldable pub week_index : String → Option ℕ
  week_index instant = elim (parse_date instant) [
    | none ↦ none
    | some ms ↦ some ((ms / day_ms + 3) / 7)
  ]

  -- `week <= currentWeek && week > currentWeek - weeks`
  unfoldable pub in_window : ℕ → Option ℕ → Option ℕ → Bool
  in_window weeks none week = false
  in_window weeks (some current) none = false
  in_window weeks (some current) (some week) = leb week current && ltb current (week + weeks)

  -- The first of each week that is in the window.
  unfoldable pub newest_per_week :
      ℕ → Option ℕ → List (ℕ × SnapshotSummary) → List SnapshotSummary → List (ℕ × SnapshotSummary)
  unfolding has_week
  newest_per_week weeks current known [] = known
  newest_per_week weeks current known (s ∷ ss) =
      newest_per_week weeks current
        (elim (week_index s.created_at) [
          | none ↦ known
          | some week ↦
              if in_window weeks current (some week) && not (has_week week known)
              then known ++ ((week, s) ∷ [])
              else known
        ])
        ss

  -- `nowMs - Date.parse(createdAt) < days * DAY_MS`
  unfoldable pub is_young : Option ℕ → ℕ → SnapshotSummary → Bool
  is_young none days s = false
  is_young (some now) days s = elim (parse_date s.created_at) [
    | none ↦ false
    | some created ↦ ltb now (created + days * day_ms)
  ]

  unfoldable pub young_migrations :
      RetentionPolicy → String → List SnapshotSummary → List SnapshotSummary
  young_migrations policy now summaries =
      filter (is_young (parse_date now) policy.pre_migration_protect_days)
        (of_kind summaries pre_migration)

  unfoldable pub protected_set : RetentionPolicy → String → List SnapshotSummary → List String
  protected_set policy now summaries = distinct [] (
      ids (young_migrations policy now summaries) ++ ids (first_of (of_kind summaries pre_restore)))

  -- Every id that some rule keeps.
  unfoldable pub keep_set : RetentionPolicy → String → List SnapshotSummary → List String
  keep_set policy now summaries =
      let dailies = of_kind summaries daily in
      let migrations = of_kind summaries pre_migration in
      let restores = of_kind summaries pre_restore in
      let weekly = newest_per_week policy.weekly_promotion_weeks (week_index now) [] dailies in
      ids (take policy.daily_keep dailies)
      ++ (ids (map (λ w. w.1) weekly)
          ++ (ids (take policy.pre_migration_keep migrations)
              ++ (ids (young_migrations policy now summaries)
                  ++ (ids (take policy.pre_import_keep (of_kind summaries pre_import))
                      ++ (ids (take policy.pre_restore_keep restores)
                          ++ (ids (first_of restores)
                              ++ ids (take policy.manual_keep (of_kind summaries manual))))))))

abbrev pub reverse_onto : List SnapshotSummary → List SnapshotSummary → List SnapshotSummary
reverse_onto [] acc = acc
reverse_onto (x ∷ xs) acc = reverse_onto xs (x ∷ acc)

-- The loop under the ceiling: the pruned ids and the bytes that are left.
unfoldable pub enforce_ceiling :
    List String → ℕ → List String → ℕ → List SnapshotSummary → List String × ℕ
enforce_ceiling protected ceiling pruned total [] = (pruned, total)
enforce_ceiling protected ceiling pruned total (c ∷ cs) =
    let kept = contains c.id protected in
    let rest =
      enforce_ceiling protected ceiling (if kept then pruned else c.id ∷ pruned)
        (if kept then total else total - c.size_bytes) cs in
    if leb total ceiling then (pruned, total) else rest

abbrev pub is_pruned : List String → SnapshotSummary → Bool
is_pruned pruned s = contains s.id pruned

abbrev pub is_retained : List String → SnapshotSummary → Bool
is_retained pruned s = not (contains s.id pruned)

-- `typeof quotaBytes === 'number' && quotaBytes > 0`
abbrev pub ceiling_of : RetentionPolicy → Option ℕ → Option ℕ
ceiling_of policy none = none
ceiling_of policy (some quota) = if ltb 0 quota then some (policy.quota_share quota) else none

abbrev pub is_known : Option ℕ → Bool
is_known none = false
is_known (some ceiling) = true

abbrev pub is_over : Option ℕ → ℕ → Bool
is_over none total = false
is_over (some ceiling) total = ltb ceiling total

-- The set of pruned ids and the bytes that are left, after both passes.
unfoldable pub pruned_set :
    List String → Option ℕ → List String → List SnapshotSummary → List String × ℕ
pruned_set protected none unwanted retained = (unwanted, total_size retained)
pruned_set protected (some ceiling) unwanted retained =
    enforce_ceiling protected ceiling unwanted (total_size retained)
      (reverse_onto (sort_by newest_first retained) [])

unfoldable pub plan_retention :
    (String → Option ℕ) → RetentionPolicy → String → Option ℕ → List SnapshotSummary → RetentionPlan
plan_retention parse_date policy now quota summaries =
    let protected = protected_set parse_date policy now summaries in
    let unwanted =
      ids (filter (is_retained (keep_set parse_date policy now summaries)) summaries) in
    let ceiling = ceiling_of policy quota in
    let out = pruned_set protected ceiling unwanted (filter (is_retained unwanted) summaries) in
    record {
      keep_ids = ids (filter (is_retained (out.0)) summaries);
      prune_ids = ids (sort_by newest_first (filter (is_pruned (out.0)) summaries));
      protected_ids = protected;
      total_bytes_before = total_size summaries;
      total_bytes_after = out.1;
      ceiling_bytes = ceiling;
      quota_known = is_known ceiling;
      over_ceiling = is_over ceiling (out.1);
    }
