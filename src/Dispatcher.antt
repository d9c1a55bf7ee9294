-- ===== src/Dispatcher.antt =====
-- internal/app/dispatcher: the routing table, the runtime that deduplicates and publishes events, and
-- the trading switches of consumers.
pub mod Table
pub mod Runtime
pub mod Dedupe
pub mod Trading
pub mod Filters
pub mod Compare
pub mod Sample
pub mod Registrar
mod Examples
