-- ===== src/Backup/Retention/Ceiling.antt =====
-- Which ids the two passes of a retention plan prune.
use landed_compare.Prelude.{
  ℕ, ◌-◌, ◌≡◌, ◌<◌, refl, sym, ap, ◌∙◌, String, Bool, true, false, not, ◌&&◌, ◌||◌, Option, List,
  [], ◌∷◌, ◌++◌, filter, arith, str_eq, eq_iff, Bool-cases, Option-cases, ◌⊎◌, inl, inr, Ordering,
  ltb_iff,
}
use landed_compare.Prelude.Sorting.{sort_by, insert_by}
use landed_compare.Prelude.Maps.{contains}
use landed_compare.Backup.Retention.{
  SnapshotSummary, RetentionPolicy, RetentionPlan, newest_first, ids, total_size, distinct,
  protected_set, keep_set, reverse_onto, enforce_ceiling, is_retained, ceiling_of, pruned_set,
  plan_retention,
}

pub contains-append :
    (k : String) (xs ys : List String) → contains k (xs ++ ys) ≡ (contains k xs || contains k ys)
contains-append k [] ys = refl
contains-append k (x ∷ xs) ys = ground (arith, contains-append k xs ys)

pub contains-distinct :
    (k : String) (seen xs : List String)
    → contains k (distinct seen xs) ≡ (contains k xs && not (contains k seen))
unfolding distinct
contains-distinct k seen [] = refl
contains-distinct k seen (x ∷ xs) = ground (arith, contains-distinct k (x ∷ seen) xs, eq_iff x k)

module _ (k : String) where
  contains-insert_by :
      (cmp : SnapshotSummary → SnapshotSummary → Ordering) (s : SnapshotSummary)
      (ss : List SnapshotSummary)
      → contains k (ids (insert_by cmp s ss)) ≡ (str_eq s.id k || contains k (ids ss))
  contains-insert_by cmp s [] = refl
  contains-insert_by cmp s (t ∷ ts) = ground (arith, contains-insert_by cmp s ts)

  contains-sort_by :
      (cmp : SnapshotSummary → SnapshotSummary → Ordering) (ss : List SnapshotSummary)
      → contains k (ids (sort_by cmp ss)) ≡ contains k (ids ss)
  contains-sort_by cmp [] = refl
  contains-sort_by cmp (s ∷ ss) =
      contains-insert_by cmp s (sort_by cmp ss)
      ∙ ap (λ b. str_eq s.id k || b) (contains-sort_by cmp ss)

  -- A test of the id alone, at the ids that pass it.
  contains-filter :
      (p : String → Bool) (ss : List SnapshotSummary)
      → contains k (ids (filter (λ s. p s.id) ss)) ≡ (p k && contains k (ids ss))
  contains-filter p [] = ground arith
  contains-filter p (s ∷ ss) = elim (Bool-cases (str_eq s.id k)) [
    | inl e ↦ ground (arith, contains-filter p ss, e, ap p ((eq_iff s.id k).0 e))
    | inr e ↦ ground (arith, contains-filter p ss, e)
  ]

  contains-reverse_onto :
      (xs acc : List SnapshotSummary)
      → contains k (ids (reverse_onto xs acc)) ≡ (contains k (ids xs) || contains k (ids acc))
  contains-reverse_onto [] acc = refl
  contains-reverse_onto (x ∷ xs) acc = ground (arith, contains-reverse_onto xs (x ∷ acc))

  -- The ceiling prunes nothing that is protected, and never takes a pruned id back.
  enforce_ceiling-pruned :
      (protected : List String) (ceiling : ℕ) (pruned : List String) (total : ℕ)
      (cs : List SnapshotSummary)
      → let out = (enforce_ceiling protected ceiling pruned total cs).0 in
        (contains k out ≡ true → (contains k pruned ≡ true) ⊎ (contains k protected ≡ false))
        × (contains k pruned ≡ true → contains k out ≡ true)
  unfolding enforce_ceiling
  enforce_ceiling-pruned protected ceiling pruned total [] = (inl, λ h. h)
  enforce_ceiling-pruned protected ceiling pruned total (c ∷ cs) =
      elim (Bool-cases (contains c.id protected)) [
        | inl e ↦
            ground
              (arith, e, eq_iff c.id k, enforce_ceiling-pruned protected ceiling pruned total cs)
        | inr e ↦ ground (
          arith,
          e,
          eq_iff c.id k,
          enforce_ceiling-pruned protected ceiling (c.id ∷ pruned) (total - c.size_bytes) cs,
        )
      ]

  -- The ceiling is still exceeded only after each candidate that is not protected has gone.
  enforce_ceiling-over :
      (protected : List String) (ceiling : ℕ) (pruned : List String) (total : ℕ)
      (cs : List SnapshotSummary)
      → let out = enforce_ceiling protected ceiling pruned total cs in
        ceiling < out.1
        → contains k (ids cs) ≡ true
        → contains k protected ≡ false
        → contains k (out.0) ≡ true
  unfolding enforce_ceiling
  enforce_ceiling-over protected ceiling pruned total [] h i u = absurd (cc)
  enforce_ceiling-over protected ceiling pruned total (c ∷ cs) h i u =
      elim (Bool-cases (contains c.id protected)) [
        | inl e ↦
            ground (arith, e, eq_iff c.id k, enforce_ceiling-over protected ceiling pruned total cs)
        | inr e ↦ ground (
          arith,
          e,
          eq_iff c.id k,
          enforce_ceiling-over protected ceiling (c.id ∷ pruned) (total - c.size_bytes) cs,
          enforce_ceiling-pruned protected ceiling (c.id ∷ pruned) (total - c.size_bytes) cs,
        )
      ]

  module _ (parse_date : String → Option ℕ) (policy : RetentionPolicy) (now : String)
      (quota : Option ℕ) (summaries : List SnapshotSummary) where
    protected-keep_set :
        contains k (protected_set parse_date policy now summaries) ≡ true
        → contains k (keep_set parse_date policy now summaries) ≡ true
    unfolding protected_set keep_set
    protected-keep_set h =
        simp (contains-append) (ground (arith, simp (contains-distinct, contains-append) at h))

    -- The set of pruned ids of the plan.
    abbrev pruned_ids : List String × ℕ
    pruned_ids =
        let unwanted =
          ids (filter (is_retained (keep_set parse_date policy now summaries)) summaries) in
        pruned_set (protected_set parse_date policy now summaries) (ceiling_of policy quota)
          unwanted (filter (is_retained unwanted) summaries)

    abbrev pub plan : RetentionPlan
    plan = plan_retention parse_date policy now quota summaries

    pub kept_iff :
        contains k plan.keep_ids ≡ (not (contains k (pruned_ids.0)) && contains k (ids summaries))
    unfolding plan_retention
    kept_iff = contains-filter (λ i. not (contains i (pruned_ids.0))) summaries

    pub pruned_iff :
        contains k plan.prune_ids ≡ (contains k (pruned_ids.0) && contains k (ids summaries))
    unfolding plan_retention
    pruned_iff =
        contains-sort_by newest_first _ ∙ contains-filter (λ i. contains i (pruned_ids.0)) summaries

    unwanted-unprotected :
        contains k (protected_set parse_date policy now summaries) ≡ true
        → contains k
            (ids (filter (is_retained (keep_set parse_date policy now summaries)) summaries))
          ≡ false
    unwanted-unprotected h = ground (
      arith,
      protected-keep_set h,
      contains-filter (λ i. not (contains i (keep_set parse_date policy now summaries))) summaries,
    )

    pub pruned_set-unprotected :
        contains k (protected_set parse_date policy now summaries) ≡ true
        → contains k (pruned_ids.0) ≡ false
    unfolding pruned_set
    pruned_set-unprotected h = elim (Option-cases (ceiling_of policy quota)) [
      | inl e ↦ rw e (unwanted-unprotected h)
      | inr (ceiling, e) ↦
          let unwanted =
            ids (filter (is_retained (keep_set parse_date policy now summaries)) summaries) in
          let retained = filter (is_retained unwanted) summaries in
          rw e (
            ground (
              arith,
              h,
              unwanted-unprotected h,
              enforce_ceiling-pruned (protected_set parse_date policy now summaries) ceiling
                  unwanted (total_size retained) (reverse_onto (sort_by newest_first retained) []),
            ))
    ]

    -- Over the ceiling, whatever is left is protected.
    pub over-protected :
        plan.over_ceiling ≡ true
        → contains k plan.keep_ids ≡ true
        → contains k plan.protected_ids ≡ true
    unfolding plan_retention pruned_set
    over-protected h i = elim (Option-cases (ceiling_of policy quota)) [
      | inl e ↦ absurd (ground (arith, rw e at h))
      | inr (ceiling, e) ↦
          let protected = protected_set parse_date policy now summaries in
          let unwanted =
            ids (filter (is_retained (keep_set parse_date policy now summaries)) summaries) in
          let retained = filter (is_retained unwanted) summaries in
          let candidates = reverse_onto (sort_by newest_first retained) [] in
          let over : ceiling
              < (enforce_ceiling protected ceiling unwanted (total_size retained) candidates).1 =
            (ltb_iff ceiling _).0 (rw e at h) in
          let stays : (not (
                  contains k (
                    (enforce_ceiling protected ceiling unwanted (total_size retained)
                      candidates).0))
                && contains k (ids summaries))
              ≡ true =
            rw e at (sym kept_iff ∙ i) in
          ground (
            arith,
            stays,
            enforce_ceiling-over protected ceiling unwanted (total_size retained) candidates over,
            enforce_ceiling-pruned protected ceiling unwanted (total_size retained) candidates,
            contains-reverse_onto (sort_by newest_first retained) [],
            contains-sort_by newest_first retained,
            contains-filter (λ x. not (contains x unwanted)) summaries,
          )
    ]
