-- ===== src/Cloud/Boot/Laws.antt =====
-- What the boot gate may publish.
use landed_compare.Prelude.Members.{In-filter}
use landed_compare.Prelude.{
  String, Bool, false, Option, none, some, List, [], ◌∷◌, filter, ◌≡◌, refl, Option-cases, str_eq,
  eq_iff, ◌⊎◌, inl, inr, length, All, In, arith,
}
use landed_compare.Prelude.Sorting.{sort_by, sort_by-All}
use landed_compare.Cloud.Gateway.{
  MembershipStatus, Organization, Membership, Profile, Reply, answer, refused, crashed,
}
use landed_compare.Cloud.Boot.{
  OrganizationChoice, CloudBootResult, ready, selection, stopped, CloudBootOptions, choices_of,
  by_name, remembered_choice, selected_choice, enter, select, admit, decide, without_membership,
  active_for,
}
use landed_compare.Cloud.Boot.Choices.{
  find-some, find-In, All-of_In, All-at, Offered, choices_of-Offered, selected_choice-In,
}

-- The ground for a published result: the user, what the server answered, and the result.
module _ (user_id : String) (options : CloudBootOptions) (profile : Option Profile)
    (memberships : List Membership) (organizations : List Organization) where
  -- An active membership of this user for a visible organisation.
  abbrev pub Grants : Membership → Organization → Type 0
  Grants m o =
      In m memberships
      × (m.status ≡ MembershipStatus.active)
      × (m.user_id ≡ user_id)
      × (m.organization_id ≡ o.id)
      × In o organizations

  abbrev pub Enterable : OrganizationChoice → Type 0
  Enterable c = (m : Membership) × Grants m c.organization × (c.role ≡ m.role)

  -- A single organisation is entered as it is, one of several only as the remembered one.
  abbrev pub Chosen : List OrganizationChoice → String → Type 0
  Chosen choices id =
      (length choices ≡ 1)
      ⊎ ((options.preferred_organization_id user_id ≡ some id) × (options.force_selection ≡ false))

  abbrev pub Grounded : CloudBootResult → Type 0
  Grounded (ready r) =
      (profile ≡ some r.profile)
      × (r.user_id ≡ user_id)
      × Grants r.membership r.organization
      × (r.role ≡ r.membership.role)
      × (r.organization_locked ≡ r.organization.write_locked)
      × All Enterable r.choices
      × Chosen r.choices r.organization.id
  Grounded (selection s) =
      (profile ≡ some s.profile)
      × (s.user_id ≡ user_id)
      × All Enterable s.choices
      × ¬ (length s.choices ≡ 1)
  Grounded (stopped s) = s.user_id ≡ some user_id

  -- An answer, and one with a ground.
  abbrev pub Sound : Reply CloudBootResult → Type 0
  Sound (answer result) = Grounded result
  Sound (refused code) = ⊥
  Sound crashed = ⊥

  active-Grants :
      (m : Membership) (o : Organization)
      → In m (filter (active_for user_id) memberships)
      → m.organization_id ≡ o.id
      → In o organizations
      → Grants m o
  active-Grants m o i e k =
      let (known, passes) = In-filter (active_for user_id) memberships m i in
      (known, ground (arith, passes), ground (arith, passes, eq_iff m.user_id user_id), e, k)

  Offered-Enterable :
      (c : OrganizationChoice)
      → Offered (filter (active_for user_id) memberships) organizations c
      → Enterable c
  Offered-Enterable c (m, i, e, k, q) = (m, active-Grants m c.organization i e k, q)

  All-Enterable :
      (choices : List OrganizationChoice)
      → All (Offered (filter (active_for user_id) memberships) organizations) choices
      → All Enterable choices
  All-Enterable [] a = tt
  All-Enterable (c ∷ cs) (o, a) = (Offered-Enterable c o, All-Enterable cs a)

  enter-Sound :
      (p : Profile) (choices : List OrganizationChoice) (lost : Bool)
      (selected : OrganizationChoice)
      → profile ≡ some p
      → let active = filter (active_for user_id) memberships in
        All (Offered active organizations) choices
        → Offered active organizations selected
        → Chosen choices selected.organization.id
        → Sound (enter user_id p active choices lost selected)
  unfolding enter
  enter-Sound p choices lost selected q a (m, i, e, k, r) chosen =
      let active = filter (active_for user_id) memberships in
      let test = λ (x : Membership). str_eq x.organization_id selected.organization.id in
      let (n, f) =
        find-In test active m i ((eq_iff m.organization_id selected.organization.id).1 e) in
      let (j, g) = find-some test active n f in
      rw (f, enter)
        (
          q,
          refl,
          active-Grants n selected.organization j
              ((eq_iff n.organization_id selected.organization.id).0 g) k,
          refl,
          refl,
          All-Enterable choices a,
          chosen,
        )

  -- The choice that is selected is one of those listed, and chosen.
  selected_choice-Chosen :
      (choices : List OrganizationChoice) (c : OrganizationChoice)
      → selected_choice choices
          (remembered_choice (options.preferred_organization_id user_id) choices)
          options.force_selection
        ≡ some c
      → In c choices × Chosen choices c.organization.id
  selected_choice-Chosen choices c h =
      selected_choice-In choices (options.preferred_organization_id user_id) options.force_selection
        c h

  none_selected :
      (choices : List OrganizationChoice) (remembered : Option OrganizationChoice) (force : Bool)
      → selected_choice choices remembered force ≡ none
      → ¬ (length choices ≡ 1)
  unfolding selected_choice
  none_selected [] remembered force h e = omega arith
  none_selected (c ∷ []) remembered force h e = absurd (cc)
  none_selected (c ∷ d ∷ cs) remembered force h e = omega arith

  select-Sound :
      (p : Profile) (choices : List OrganizationChoice)
      → profile ≡ some p
      → All (Offered (filter (active_for user_id) memberships) organizations) choices
      → Sound (select user_id options p (filter (active_for user_id) memberships) choices)
  unfolding select
  select-Sound p choices q a =
      let preferred = options.preferred_organization_id user_id in
      let force = options.force_selection in
      elim (Option-cases (selected_choice choices (remembered_choice preferred choices) force)) [
        | inl e ↦ rw (e, select) (q, refl, All-Enterable choices a, none_selected choices _ force e)
        | inr (c, e) ↦
            let (i, chosen) = selected_choice-Chosen choices c e in
            rw (e, select) (enter-Sound p choices _ c q a (All-at _ choices c a i) chosen)
      ]

  admit-Sound :
      (p : Profile) (active : List Membership)
      → profile ≡ some p
      → filter (active_for user_id) memberships ≡ active
      → Sound (admit user_id options p memberships active organizations)
  unfolding admit without_membership
  admit-Sound p [] q e = refl
  admit-Sound p (m ∷ ms) q e = elim (Option-cases (choices_of organizations (m ∷ ms))) [
    | inl f ↦ rw (f, admit) refl
    | inr (choices, f) ↦
        let offered =
          choices_of-Offered (m ∷ ms) organizations (m ∷ ms) choices
            (All-of_In (λ x. In x (m ∷ ms)) (m ∷ ms) (λ x i. i)) f in
        rw (f, admit)
          (rw e at (
            select-Sound p (sort_by by_name choices) q
              (rw (← e) at (sort_by-All by_name (Offered (m ∷ ms) organizations) choices offered))))
  ]

-- Whatever the three reads answered, the decision on them never fails, and it is grounded in those
-- answers: a sequence that stops names the user; a user who is let in has the given profile, and enters an organisation that the
-- server showed through an active membership of that very user, with that membership's role and that
-- organisation's lock, and it is the only one to enter or the one that is remembered and not overruled;
-- and every organisation offered for selection is such a one, and there is not just one of them.
pub decide-Sound :
    (user_id : String) (options : CloudBootOptions) (profile : Option Profile)
    (memberships : List Membership) (organizations : List Organization)
    → Sound user_id options profile memberships organizations
        (decide user_id options profile memberships organizations)
unfolding decide without_membership
decide-Sound user_id options none memberships organizations = refl
decide-Sound user_id options (some p) memberships organizations =
    admit-Sound user_id options (some p) memberships organizations p _ refl refl
