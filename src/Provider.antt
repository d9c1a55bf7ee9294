-- ===== src/Provider.antt =====
-- internal/app/provider: the providers and the life cycle of their instances.
pub mod Manager
pub mod Sound
pub mod Starts
pub mod Changes
pub mod Histories
mod Examples
