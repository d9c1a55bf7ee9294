-- ===== src/Bus.antt =====
-- internal/infra/bus/eventbus: the bus in memory, which fans events out to subscriptions.
pub mod Memory
pub mod Channel
pub mod Ownership
pub mod Durable
pub mod Outbox
mod Examples
