-- ===== src/Domain.antt =====
-- `src/domain`: decimals, money and quantities.
pub mod DecimalJs
pub mod Decimal
pub mod CurrencyCode
pub mod Scaled
pub mod Money
pub mod Quantity
pub mod Project
