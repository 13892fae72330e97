-- ===== src/Lib.antt =====
-- A model of LandedCompare: what it computes for the landed cost of supplier quotes, and the rules of its
-- cloud session and its snapshots.
--
-- The program compares suppliers. The domain layer (src/domain) holds exact decimals, money and
-- quantities; the calculation layer (src/calculation) resolves order quantities, converts currencies,
-- evaluates costs stage by stage, settles the totals at the minor unit and allocates them to lines;
-- the comparison layer (src/comparison) evaluates each supplier, and ranks the settled totals of the
-- complete ones. Around them the cloud boot gate
-- (src/cloud) decides which user and company a session shows, and the retention plan (src/backup)
-- decides which snapshots are pruned.
--
-- Which file models which part:
--   Prelude            Boolean tests, lists, integers, powers of ten, stable sorting, texts in the order of
--                      UTF-16 code units, maps, rounding to the nearest
--   Errors             the error classes of the calculation as values, and results that carry them
--   Domain/DecimalJs   the interface of the third-party package decimal.js and the laws that state
--                      its documentation; Domain/Scaled is a concrete value of it, with the laws proved
--   Domain/Decimal     src/domain/monetary/decimal.ts; Domain/Decimal/Exact: its operations are exact
--   Domain/Money       src/domain/monetary/Money.ts; Domain/Money/Laws: what each operation computes
--   Domain/Money/Sums  sums of amounts in one currency
--   Domain/Project     src/domain: project, requirements, suppliers, quotes and their items
--   Domain/CurrencyCode, Domain/Quantity   the files of these names under src/domain
--   Calculation/CurrencyMinorUnit, Percentage, QuantityResolution, AdditionalCost   the files of these
--                      names under src/calculation; ExchangeRate also models ExchangeRateTable.ts and
--                      CurrencyConversion.ts, Merchandise models MerchandiseCalculation.ts
--   Calculation/Allocation   src/calculation/Allocation.ts: Weighting (the weights), Distribution (largest
--                      remainders), Split (allocateAmount, exactAllocationShares, settleTotalAcrossParts)
--   Calculation/CostCalculation   src/calculation/CostCalculation.ts: Entries (one cost), Settlement
--                      (reconcileSettledEffects), Supplier (calculateSupplierCosts), Discounts
--                      (validateDiscountLineAllocations), Lines (allocateSupplierCosts)
--   Comparison/Ranking src/comparison/Ranking.ts
--   Comparison/Evaluation   src/comparison/SupplierEvaluation.ts: a supplier's quote judged and
--                      calculated; Evaluation/Lines: its lines
--   Comparison/Structure   src/comparison/ComparisonStructuralValidation.ts
--   Comparison/Insights src/comparison/ComparisonInsights.ts
--   Comparison/Suppliers   src/comparison/SupplierComparison.ts: all of it together
--   Cloud/Gateway      the records of src/cloud/gateway.ts and the codes of src/cloud/errors.ts
--   Cloud/Boot         src/cloud/boot.ts; Cloud/Guard: src/cloud/guardedGateway.ts
--   Cloud/CatalogRules src/cloud/catalogRules.ts: its decimals and trimmed texts
--   Cloud/Failures     src/cloud/errors.ts: the codes of failures
--   Backup/Retention   src/backup/retention.ts; Backup/Payload: src/backup/payloadMigrations.ts
--   Tests              concrete inputs
--
-- How state and operations correspond. A class of values is a record and each method a function of the
-- same name in snake case. A function that throws returns a Result with the error's class; messages
-- are not modelled. Maps and sets are lists in order of insertion. An asynchronous call is an action on a
-- world: it answers and returns the world after it, so every change that other tabs and the server
-- make while the call waits is in the world that it returns.
--
-- Bounds and fuel. The boot loop runs on the attempts that are left, which are the code's own. The
-- hand-out of Distribution runs its rounds on fuel, one for every unit that the amount can hold: each
-- round of the code hands out at least one unit or stops.
--
-- What is not modelled: decimal.js itself, Date.parse and the floating-point share of the quota, which
-- are parameters; the exponent limits and the non-finite values of decimal.js; instants before 1970 in
-- the retention of snapshots; JSON forms; checks of run-time types, since fields are typed; screens,
-- texts, IndexedDB and Supabase access, SQL. Canonical JSON and restores have no model here.
pub mod Prelude
pub mod Errors
pub mod Domain
pub mod Calculation
pub mod Comparison
pub mod Cloud
pub mod Backup
pub mod Tests
