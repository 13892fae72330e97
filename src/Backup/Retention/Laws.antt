-- ===== src/Backup/Retention/Laws.antt =====
-- What a retention plan keeps, whatever the pressure.
use landed_compare.Prelude.{
  ℕ, ◌+◌, ◌*◌, ◌≡◌, ◌<◌, refl, String, true, false, not, Option, some, List, [], ◌++◌, filter,
  arith, eq_iff, In, ◌⊎◌, inl, inr, Ordering, ltb_iff,
}
use landed_compare.Prelude.Text.{compare_text}
use landed_compare.Prelude.Maps.{contains}
use landed_compare.Backup.Retention.{
  SnapshotSummary, RetentionPolicy, newest_first, of_kind, ids, first_of, young_migrations,
  protected_set, plan_retention, pre_migration, pre_restore, is_young, kind_eq, day_ms,
}
use landed_compare.Backup.Retention.Ceiling.{
  contains-append, contains-distinct, kept_iff, pruned_iff, pruned_set-unprotected, over-protected,
}
use landed_compare.Backup.Retention.Snapshots.{
  In-sort_by, In-filter, contains-In, kind_eq-pre_restore, All-filter, Behind, sort_by-first,
  earlier-Precedes,
}

module _ (parse_date : String → Option ℕ) (policy : RetentionPolicy) (now : String)
    (quota : Option ℕ) (summaries : List SnapshotSummary) (s : SnapshotSummary) where
  -- Each snapshot is kept or pruned and never both, by its id; a protected snapshot is kept; and if
  -- the ceiling is still exceeded then every snapshot that is kept is protected.
  pub plan_retention-partition :
      In s summaries
      → let plan = plan_retention parse_date policy now quota summaries in
        (contains s.id plan.prune_ids ≡ not (contains s.id plan.keep_ids))
        × (contains s.id plan.protected_ids ≡ true → contains s.id plan.keep_ids ≡ true)
        × (plan.over_ceiling ≡ true
            → contains s.id plan.keep_ids ≡ true
            → contains s.id plan.protected_ids ≡ true)
  unfolding plan_retention
  plan_retention-partition i =
      let known = contains-In s summaries i in
      let kept = kept_iff s.id parse_date policy now quota summaries in
      let pruned = pruned_iff s.id parse_date policy now quota summaries in
      (
        ground (arith, known, kept, pruned),
        λ p. ground (
          arith,
          known,
          kept,
          pruned_set-unprotected s.id parse_date policy now quota summaries p,
        ),
        over-protected s.id parse_date policy now quota summaries,
      )

  protected-kept :
      In s summaries
      → contains s.id (protected_set parse_date policy now summaries) ≡ true
      → let plan = plan_retention parse_date policy now quota summaries in
        (contains s.id plan.keep_ids ≡ true) × (contains s.id plan.prune_ids ≡ false)
  unfolding plan_retention
  protected-kept i p =
      let known = contains-In s summaries i in
      let kept = kept_iff s.id parse_date policy now quota summaries in
      let pruned = pruned_iff s.id parse_date policy now quota summaries in
      let stays = pruned_set-unprotected s.id parse_date policy now quota summaries p in
      (ground (arith, known, kept, stays), ground (arith, known, pruned, stays))

  -- A `PRE_MIGRATION` snapshot that is younger than the protected days is kept and never pruned,
  -- under any ceiling.
  pub plan_retention-young :
      (created at : ℕ)
      → In s summaries
      → s.kind ≡ pre_migration
      → parse_date s.created_at ≡ some created
      → parse_date now ≡ some at
      → at < created + policy.pre_migration_protect_days * day_ms
      → let plan = plan_retention parse_date policy now quota summaries in
        (contains s.id plan.keep_ids ≡ true) × (contains s.id plan.prune_ids ≡ false)
  unfolding protected_set young_migrations of_kind is_young
  plan_retention-young created at i e c n h =
      let days = policy.pre_migration_protect_days in
      let young : is_young parse_date (parse_date now) days s ≡ true =
        rw (n, is_young) (rw (c) ((ltb_iff at _).1 h)) in
      let kind : kind_eq s.kind pre_migration ≡ true = rw e refl in
      let listed =
        In-filter (is_young parse_date (parse_date now) days) s _
          (In-sort_by newest_first s _
            (In-filter (λ x. kind_eq x.kind pre_migration) s summaries i kind))
          young in
      protected-kept i (
        ground (
          arith,
          contains-In s _ listed,
          contains-distinct s.id [] (
              ids (young_migrations parse_date policy now summaries)
              ++ ids (first_of (of_kind summaries pre_restore))),
          contains-append s.id (ids (young_migrations parse_date policy now summaries))
              (ids (first_of (of_kind summaries pre_restore))),
        ))

  -- A `PRE_RESTORE` snapshot that every other one was created before is kept and never pruned, under
  -- any ceiling.
  pub plan_retention-newest_pre_restore :
      In s summaries
      → s.kind ≡ pre_restore
      → ((r : SnapshotSummary)
          → In r summaries
          → r.kind ≡ pre_restore
          → (r ≡ s) ⊎ (compare_text r.created_at s.created_at ≡ Ordering.lt))
      → let plan = plan_retention parse_date policy now quota summaries in
        (contains s.id plan.keep_ids ≡ true) × (contains s.id plan.prune_ids ≡ false)
  unfolding protected_set of_kind
  plan_retention-newest_pre_restore i e newest =
      let kinds = filter (λ x. kind_eq x.kind pre_restore) summaries in
      let kind : kind_eq s.kind pre_restore ≡ true = rw e refl in
      let (rest, q) =
        sort_by-first newest_first s kinds
          (In-filter (λ x. kind_eq x.kind pre_restore) s summaries i kind)
          (All-filter (λ x. kind_eq x.kind pre_restore) (Behind newest_first s) summaries
            (λ r k c. behind r (newest r k (kind_eq-pre_restore r.kind c)))) in
      protected-kept i (
        ground (
          arith,
          rw q at (
              contains-append s.id (ids (young_migrations parse_date policy now summaries))
                (ids (first_of (of_kind summaries pre_restore)))),
          contains-distinct s.id [] (
              ids (young_migrations parse_date policy now summaries)
              ++ ids (first_of (of_kind summaries pre_restore))),
          q,
          eq_iff s.id s.id,
        ))
    where
      behind :
          (r : SnapshotSummary)
          → (r ≡ s) ⊎ (compare_text r.created_at s.created_at ≡ Ordering.lt)
          → Behind newest_first s r
      behind r (inl q) = inl q
      behind r (inr h) = inr (earlier-Precedes s r h)
