-- ===== src/Recovery.antt =====
-- controllers/transaction_recovery.go: transactions of a pod are recovered before it is removed.
pub mod Types
pub mod Check
pub mod Setup
pub mod Labels
pub mod Statuses
pub mod Process
pub mod Race
