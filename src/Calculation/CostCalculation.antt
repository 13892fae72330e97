-- ===== src/Calculation/CostCalculation.antt =====
-- `src/calculation/CostCalculation.ts`: the landed total of a supplier, its settlement, and the
-- explanation of it line by line.
pub mod Entries
pub mod Settlement
pub mod Based
pub mod Stages
pub mod Supplier
pub mod Discounts
pub mod Lines
