-- ===== src/Calculation.antt =====
-- `src/calculation`: the landed-cost engine.
pub mod CurrencyMinorUnit
pub mod Percentage
pub mod ExchangeRate
pub mod Merchandise
pub mod QuantityResolution
pub mod AdditionalCost
pub mod Allocation
pub mod CostCalculation
