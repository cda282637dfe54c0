-- ===== src/Instructions.antt =====
-- The instruction handlers of programs/hedge_vault/src/instructions.
pub mod Deposits
pub mod Withdrawals
pub mod Navs
pub mod Settings
pub mod Strategies
pub mod Lifecycle
pub mod Migration
