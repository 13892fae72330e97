-- ===== src/Tests.antt =====
-- The theorems at concrete inputs.
pub mod Amounts
pub mod Cloud
pub mod Snapshots
pub mod Running
pub mod Suppliers
pub mod Costs
pub mod Insights
