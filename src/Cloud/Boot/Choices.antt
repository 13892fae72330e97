-- ===== src/Cloud/Boot/Choices.antt =====
-- The organisations that a user may choose from, and the one that is selected.
use landed_compare.Prelude.{
  String, Bool, true, false, Option, none, some, List, [], ◌∷◌, find, ◌≡◌, refl, sym, ap,
  Option-cases, str_eq, eq_iff, ◌⊎◌, inl, inr, Bool-cases, length, All, In, arith,
}
use landed_compare.Cloud.Gateway.{Organization, Membership}
use landed_compare.Cloud.Boot.{OrganizationChoice, choices_of, remembered_choice, selected_choice}

-- An element that `find` answers is of the list and passes the test.
pub find-some :
    {A : Type 0} (p : A → Bool) (xs : List A) (x : A) → find p xs ≡ some x → In x xs × (p x ≡ true)
find-some p [] x h = absurd (cc)
find-some p (y ∷ ys) x h = elim (Bool-cases (p y)) [
  | inl e ↦ let q : y ≡ x = ground (arith, h, e) in (inl (sym q), rw (← q) e)
  | inr e ↦ let (i, q) = find-some p ys x (ground (arith, h, e)) in (inr i, q)
]

-- An element that passes the test makes `find` answer one.
pub find-In :
    {A : Type 0} (p : A → Bool) (xs : List A) (x : A)
    → In x xs
    → p x ≡ true
    → (y : A) × (find p xs ≡ some y)
find-In p [] x i e = absurd (i tt)
find-In p (y ∷ ys) x (inl q) e = (y, rw (← q, e) refl)
find-In p (y ∷ ys) x (inr i) e = elim (Bool-cases (p y)) [
  | inl f ↦ (y, rw f refl)
  | inr f ↦ let (z, q) = find-In p ys x i e in (z, rw (f, q) refl)
]

-- An element of a filtered list is of the list and passes the test.
pub All-of_In : {A : Type 0} (P : A → Type 0) (xs : List A) → ((x : A) → In x xs → P x) → All P xs
All-of_In P [] h = tt
All-of_In P (x ∷ xs) h = (h x (inl refl), All-of_In P xs (λ y i. h y (inr i)))

pub All-at : {A : Type 0} (P : A → Type 0) (xs : List A) (x : A) → All P xs → In x xs → P x
All-at P [] x a i = absurd (i tt)
All-at P (y ∷ ys) x (p, a) (inl q) = rw q p
All-at P (y ∷ ys) x (p, a) (inr i) = All-at P ys x a i

-- A choice for one of the memberships, among the visible organisations.
abbrev pub Offered : List Membership → List Organization → OrganizationChoice → Type 0
Offered memberships organizations c =
    (m : Membership) × In m memberships
    × (m.organization_id ≡ c.organization.id)
    × In c.organization organizations
    × (c.role ≡ m.role)

pub choices_of-Offered :
    (active : List Membership) (organizations : List Organization) (ms : List Membership)
    (choices : List OrganizationChoice)
    → All (λ m. In m active) ms
    → choices_of organizations ms ≡ some choices
    → All (Offered active organizations) choices
unfolding choices_of
choices_of-Offered active organizations [] choices a h =
    let q : [] ≡ choices = ground (arith, h) in rw (← q) tt
choices_of-Offered active organizations (m ∷ ms) choices (i, a) h =
    elim (Option-cases (find (λ o. str_eq o.id m.organization_id) organizations)) [
      | inl e ↦ absurd (cc)
      | inr (o, e) ↦
          let (visible, same) = find-some (λ o. str_eq o.id m.organization_id) organizations o e in
          elim (Option-cases (choices_of organizations ms)) [
            | inl f ↦ absurd (ground (arith, h, e, f))
            | inr (rest, f) ↦
                let q : record { organization = o; role = m.role } ∷ rest ≡ choices =
                  ground (arith, h, e, f) in
                rw (← q) (
                  (m, i, sym ((eq_iff o.id m.organization_id).0 same), visible, refl),
                  choices_of-Offered active organizations ms rest a f,
                )
          ]
    ]

remembered_choice-In :
    (choices : List OrganizationChoice) (preferred : Option String) (c : OrganizationChoice)
    → remembered_choice preferred choices ≡ some c
    → In c choices × (preferred ≡ some c.organization.id)
unfolding remembered_choice
remembered_choice-In choices none c h = absurd (cc)
remembered_choice-In choices (some id) c h =
    let (i, e) = find-some (λ x. str_eq x.organization.id id) choices c h in
    (i, ap some (sym ((eq_iff c.organization.id id).0 e)))

pub selected_choice-In :
    (choices : List OrganizationChoice) (preferred : Option String) (force : Bool)
    (c : OrganizationChoice)
    → selected_choice choices (remembered_choice preferred choices) force ≡ some c
    → In c choices
      × ((length choices ≡ 1) ⊎ ((preferred ≡ some c.organization.id) × (force ≡ false)))
unfolding selected_choice
selected_choice-In [] preferred true c h = absurd (cc)
selected_choice-In [] preferred false c h =
    let (i, e) = remembered_choice-In [] preferred c h in (i, inr (e, refl))
selected_choice-In (d ∷ []) preferred force c h = (inl (ground (arith, h)), inl refl)
selected_choice-In (d ∷ e ∷ ds) preferred true c h = absurd (cc)
selected_choice-In (d ∷ e ∷ ds) preferred false c h =
    let (i, e) = remembered_choice-In (d ∷ e ∷ ds) preferred c h in (i, inr (e, refl))
