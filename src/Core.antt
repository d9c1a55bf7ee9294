-- ===== src/Core.antt =====
-- internal/app/lambda/core: what every strategy instance has under it: the filters on events, the market
-- state, and orders on their way through the risk manager.
pub mod Config
pub mod Orders
pub mod Submission
pub mod Events
pub mod Reports
mod Examples
