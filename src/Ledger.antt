-- ===== src/Ledger.antt =====
-- services/ledger_store/store.py: the local accounting store.
pub mod Rows
pub mod Checks
pub mod Lines
pub mod Tables
pub mod Health
pub mod Store
pub mod Grows
pub mod Calls
pub mod Balance
pub mod Conflicts
pub mod Delivery
pub mod Retries
mod Tests
