-- ===== src/System.antt =====
-- The program as a whole: what each instruction does to the accounts, and what holds of all of them
-- after any sequence of instructions.
pub mod Effects
pub mod Books
pub mod Ledgers
pub mod Balanced
pub mod Steps
pub mod Phases
pub mod Guards
pub mod Pricing
pub mod Trading
pub mod Settings
pub mod Tests
