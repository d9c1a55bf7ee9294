-- ===== src/Balance.antt =====
-- internal/infra/adapters/shared/accounting.go: the balances of an adapter's account.
pub mod Manager
pub mod Fills
pub mod Bounds
mod Examples
