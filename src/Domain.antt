-- ===== src/Domain.antt =====
-- shared/domain.py: the fail-closed objects that the adapters and services share.
pub mod Checks
pub mod Capsule
pub mod Store
pub mod Gate
pub mod Saga
pub mod Policy
pub mod Draft
pub mod Registry
pub mod Quote
pub mod Compile
mod Tests
