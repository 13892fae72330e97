-- ===== src/Calculation/Allocation.antt =====
-- `src/calculation/Allocation.ts`: the largest-remainder split of an amount over lines. The hand-out
-- of the leftover units is in Allocation/Distribution.antt, the weights are in
-- Allocation/Weighting.antt.
pub mod Distribution
pub mod Weighting
pub mod Split
