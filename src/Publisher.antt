-- ===== src/Publisher.antt =====
-- internal/infra/adapters/shared/publisher.go: how an adapter numbers its events and emits them.
pub mod Emit
pub mod Numbers
pub mod Report
mod Examples
