-- ===== src/Lambda.antt =====
-- internal/app/lambda/runtime: the instances of strategies, their life cycle and the revisions that they
-- run.
pub mod Spec
pub mod Usage
pub mod Manager
pub mod Refresh
pub mod Restore
pub mod Accounting
pub mod Own
pub mod Sound
pub mod Calls
pub mod Histories
pub mod Pins
pub mod Race
mod Examples
