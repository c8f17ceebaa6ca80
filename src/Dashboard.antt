-- ===== src/Dashboard.antt =====
-- web/src/features/dashboard: the filters and the order of the dashboard's subscriptions
-- (hooks/use-dashboard-filters.ts), with the amounts that it compares (dashboard-amount-utils.ts)
-- and its constants (dashboard-filter-constants.ts).
pub mod Amount
pub mod Selection
pub mod Rows
pub mod Filters
pub mod Order
pub mod Members
pub mod Wanted
pub mod Placed
mod Witnesses
