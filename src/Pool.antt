-- ===== src/Pool.antt =====
-- internal/infra/pool: the bounded pools of reusable objects.
pub mod Object
pub mod Reach
pub mod Close
mod Examples
