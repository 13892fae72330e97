-- ===== src/Calculation/Allocation/Distribution.antt =====
-- `distributeByLargestRemainder` of `src/calculation/Allocation.ts` and what it calls.
pub mod Units
pub mod HandOuts
use landed_compare.Prelude.{
  ℕ, zero, suc, ◌+◌, ◌^◌, Bool, true, false, not, ◌&&◌, Option, none, some, List, [], ◌∷◌, map,
  Ordering, compare, String, if◌then◌else◌, then_by,
}
use landed_compare.Prelude.Sorting.{sort_by}
use landed_compare.Errors.{
  Result, ok, ◌>>=◌, ◌>>◌, throw_if, reduce, allocation_invariant, allocation_capacity,
}
use landed_compare.Domain.DecimalJs.{DecimalJs}
use landed_compare.Domain.Decimal.{integer_digits_of}
use landed_compare.Domain.Money
use landed_compare.Domain.Money.{Money}

-- `'0'.repeat(n)` and then `'1'`.
unit_digits : ℕ → String
unit_digits zero = "1"
unit_digits (suc n) = String.◌∷◌ "0" (unit_digits n)

-- The text of one minor unit: "1", or "0." and its digits.
unfoldable pub minor_unit_text : ℕ → String
unfolding unit_digits
minor_unit_text zero = "1"
minor_unit_text (suc n) = String.◌∷◌ "0" (String.◌∷◌ "." (unit_digits n))

-- A line during the hand-out.
pub record AllocationSlot (D : Type 0) : Type 0 where
  pub order : ℕ
  pub remainder : Money D
  pub capacity : Option (Money D)
  pub allocated : Money D

-- The variables of the hand-out loop. The slots stand in the order of their remainders; the source
-- holds the same objects in input order too, so an assignment to `allocated` is seen in both.
pub record HandOut (D : Type 0) : Type 0 where
  pub slots : List (AllocationSlot D)
  pub undistributed : Money D
  pub placed : Bool

module _ {D : Type 0} ⦃j : DecimalJs D⦄ where
  unfoldable pub minor_unit_step : ℕ → String → Result (Money D)
  minor_unit_step minor_unit currency = Money.from_string (minor_unit_text minor_unit) currency

  -- A truncated share above the line's ceiling is capped at it.
  capped : Money D → Option (Money D) → Result (Money D)
  capped truncated none = ok truncated
  capped truncated (some capacity) = do
    over ← Money.is_greater_than truncated capacity
    ok (if over then capacity else truncated)

  unfoldable pub open_slot : ℕ → ℕ → Money D → Option (Money D) → Result (AllocationSlot D)
  unfolding capped
  open_slot minor_unit order share capacity = do
    let truncated = Money.truncate_to_minor_unit share minor_unit
    remainder ← Money.subtract share truncated
    allocated ← capped truncated capacity
    ok (record { order = order; remainder = remainder; capacity = capacity; allocated = allocated })

  -- `capacities?.[order]`
  first_capacity : Option (List (Money D)) → Option (Money D)
  first_capacity (some (c ∷ cs)) = some c
  first_capacity _ = none

  other_capacities : Option (List (Money D)) → Option (List (Money D))
  other_capacities (some (c ∷ cs)) = some cs
  other_capacities cs = cs

  unfoldable pub open_slots :
      ℕ → ℕ → List (Money D) → Option (List (Money D)) → Result (List (AllocationSlot D))
  unfolding first_capacity other_capacities
  open_slots minor_unit order [] capacities = ok []
  open_slots minor_unit order (share ∷ shares) capacities = do
    slot ← open_slot minor_unit order share (first_capacity capacities)
    rest ← open_slots minor_unit (suc order) shares (other_capacities capacities)
    ok (slot ∷ rest)

  unfoldable pub by_largest_remainder : AllocationSlot D → AllocationSlot D → Ordering
  by_largest_remainder a b =
      then_by (j.compared_to b.remainder.amount a.remainder.amount) (compare a.order b.order)

  -- `slot.capacity !== undefined && slot.allocated.add(step).isGreaterThan(slot.capacity)`
  is_full : Money D → Option (Money D) → Result Bool
  is_full next none = ok false
  is_full next (some capacity) = Money.is_greater_than next capacity

  -- One unit onto a slot that is not full.
  place_unless : Bool → Money D → Money D → AllocationSlot D → HandOut D → Result (HandOut D)
  place_unless true step next slot h = ok (record h { slots = slot ∷ h.slots })
  place_unless false step next slot h = do
    left ← Money.subtract h.undistributed step
    ok (record {
      slots = record slot { allocated = next } ∷ h.slots;
      undistributed = left;
      placed = true;
    })

  -- One round of the `for` loop on its slot.
  unfoldable pub place : Money D → AllocationSlot D → HandOut D → Result (HandOut D)
  unfolding is_full place_unless
  place step slot h =
      if Money.is_zero h.undistributed then ok (record h { slots = slot ∷ h.slots }) else (do
        next ← Money.add slot.allocated step
        full ← is_full next slot.capacity
        place_unless full step next slot h)

  -- The `for` loop. The slots that it has passed are collected in front, last one first.
  unfoldable pub hand_out_pass : Money D → List (AllocationSlot D) → HandOut D → Result (HandOut D)
  hand_out_pass step [] h = ok h
  hand_out_pass step (slot ∷ slots) h = do h' ← place step slot h; hand_out_pass step slots h'

  reversed : List (AllocationSlot D) → List (AllocationSlot D) → List (AllocationSlot D)
  reversed done [] = done
  reversed done (x ∷ xs) = reversed (x ∷ done) xs

  unfoldable pub one_pass : Money D → List (AllocationSlot D) → Money D → Result (HandOut D)
  unfolding reversed
  one_pass step slots undistributed = do
    h ←
        hand_out_pass step slots
          (record { slots = []; undistributed = undistributed; placed = false })
    ok (record h { slots = reversed [] h.slots })

  -- The `do … while` loop, on fuel. Without capacities it runs once.
  unfoldable pub hand_out :
      ℕ → Bool → Money D → List (AllocationSlot D) → Money D → Result (HandOut D)
  hand_out zero constrained step slots undistributed =
      ok (record { slots = slots; undistributed = undistributed; placed = false })
  hand_out (suc fuel) constrained step slots undistributed =
      one_pass step slots undistributed >>= λ h.
      let again = hand_out fuel constrained step h.slots h.undistributed in
      if h.placed && constrained && not (Money.is_zero h.undistributed) then again else ok h

  unfoldable pub by_order : AllocationSlot D → AllocationSlot D → Ordering
  by_order a b = compare a.order b.order

  sum_allocated : Money D → List (AllocationSlot D) → Result (Money D)
  sum_allocated start slots = reduce (λ sum slot. Money.add sum slot.allocated) start slots

  is_some : Option (List (Money D)) → Bool
  is_some none = false
  is_some (some _) = true

  -- More rounds than units are left: each round that is followed by another places one.
  unfoldable pub rounds : Money D → ℕ → ℕ
  rounds undistributed minor_unit = suc (10 ^ (integer_digits_of undistributed.amount + minor_unit))

  unfoldable pub distribute_by_largest_remainder :
      Money D → List (Money D) → ℕ → Option (List (Money D)) → Result (List (Money D))
  unfolding sum_allocated is_some
  distribute_by_largest_remainder settled shares minor_unit capacities = do
    step ← minor_unit_step minor_unit settled.currency
    slots ← open_slots minor_unit 0 shares capacities
    nothing ← Money.zero settled.currency
    given ← sum_allocated nothing slots
    undistributed ← Money.subtract settled given
    throw_if (Money.is_negative undistributed) allocation_invariant
    let ordered = sort_by by_largest_remainder slots
    h ← hand_out (rounds undistributed minor_unit) (is_some capacities) step ordered undistributed
    throw_if (not (Money.is_zero h.undistributed))
        (if is_some capacities then allocation_capacity else allocation_invariant)
    ok (map (λ slot. slot.allocated) (sort_by by_order h.slots))
