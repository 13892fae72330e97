-- ===== src/Comparison.antt =====
-- `src/comparison`: the comparison of suppliers.
pub mod Ranking
pub mod Evaluation
pub mod Structure
pub mod Insights
pub mod Suppliers
