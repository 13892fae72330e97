-- ===== src/Cloud.antt =====
-- `src/cloud`: which user and which company a session may show, what failures of the server become, and
-- the decimals of the catalogue.
pub mod Gateway
pub mod Boot
pub mod Guard
pub mod CatalogRules
pub mod Failures
