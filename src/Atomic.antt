-- ===== src/Atomic.antt =====
-- shared/atomic_signer_contract.py and shared/signature_trust_store.py: the protected boundary in front
-- of the signer, the keys that it trusts and the journal that it writes.
pub mod Operation
pub mod Journal
pub mod Trust
pub mod Decode
pub mod Values
pub mod Request
pub mod Boundary
