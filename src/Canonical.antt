-- ===== src/Canonical.antt =====
-- shared/canonical.py: the values that may be hashed, and their canonical bytes.
pub mod Value
pub mod Decimal
pub mod Alias
pub mod Checks
pub mod Bytes
pub mod Loads
pub mod Address
pub mod RoundTrip
mod Tests
