-- ===== src/Risk.antt =====
-- internal/app/risk/risk.go: the risk manager that every order submission passes.
pub mod Types
pub mod Breach
pub mod Fills
pub mod Check
pub mod Handlers
pub mod Frame
pub mod Acceptance
pub mod Admission
pub mod Halt
pub mod Switch
pub mod Ledger
pub mod Positions
pub mod Slots
pub mod Examples
