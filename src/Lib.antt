-- ===== src/Lib.antt =====
-- The core of the One Intent wallet preview (the directory
-- one-intent-hyperliquid-wallet-complete-reviewed-2026-07-29.3, from which the paths below start),
-- modelled from its Python source.
--
-- Parts and files
--   Base        tests, results with exceptions, tables of rows, dictionaries, integers, sums, texts
--   Canonical   shared/canonical.py: JSON values (Value), the checks of ensure_nfc and the limits
--               (Checks), decimal texts (Decimal), canonical_bytes and canonical_hash (Bytes),
--               strict_loads and strict_loads_bytes (Loads), canonical_decimal_string, the network
--               address and the fingerprints (Address), validate_alias (Alias)
--   Domain      shared/domain.py: the validators (Checks), ActionPlanDraft and parse_intent_locally
--               (Draft), SignedRegistry (Registry), CanonicalQuote (Quote), evaluate_policy (Policy),
--               compile_capsule (Compile), ExecutionCapsule.validate and
--               AuthorizationEnvelope.validate (Capsule), DurableAuthorizationStore.reserve and
--               MemoryAuthorizationStore.reserve (Store), SignerGate.sign and reconcile (Gate),
--               DurableSaga with services/reconciler/reconciler.py (Saga)
--   Atomic      shared/atomic_signer_contract.py: the typed operation (Operation), the configuration
--               and _typed_operation (Decode), the comparison and filtering of values
--               (Values), the checks of a request (Request), AtomicSignerBoundary (Boundary) and
--               SQLiteOperationJournal with assert_clock, reserve, transition, operation and
--               unresolved_operations (Journal); shared/signature_trust_store.py (Trust)
--   Ledger      services/ledger_store/store.py: tables (Rows), validators (Checks), _normalize_lines
--               (Lines), INSERT statements with the constraints of the schema (Tables),
--               _collect_health (Health), the transaction, register_account and the readers (Store),
--               post_operation (Store.Post), claim_outbox, mark_outbox_delivered and
--               mark_outbox_retry (Store.Outbox), reconcile_operation (Store.Reconcile) and
--               recover (Store.Recover)
--   Fee         adapters/fee_route/fee.py: eligibility and readiness plan, reimbursement ledger
--   Venue       adapters/hyperliquid/fake_adapter.py: orders, fills, cancels and the review check
-- A draft is parsed and confirmed, and compiled with the registry and a quote to a capsule. The signer
-- gate calls the capsule's and the authorization's validation, which call the canonical encoding.
-- The signer boundary loads canonical bytes, decodes the operation, asks the trust store for three
-- signatures and reserves the request in the journal. The ledger store stands alone over its
-- database.
--
-- Conventions
--   A call that may raise gives a Result; an exception is its class, and its message is left out. A
--   call that changes an object takes and returns its state. A database is a record of lists of rows
--   in the order of insertion; a transaction that raises leaves the database as it was. Arguments
--   have the types that the signatures declare. Python's integers are unbounded, and the bounds that
--   the code checks are written out. Recursion is structural, and no definition uses fuel but
--   digits_from, where a number has fewer digits than the fuel it is given.
--   Libraries are parameters: SHA-256 and NFC normalization (Host), json.loads in the ledger
--   (LedgerHost), the grammar of JSON and UTF-8 (JsonHost), Ed25519 and base64 (TrustHost), the
--   tables of characters (Unicode), and the validator of the pinned JSON schemas (Signer).
--   An object that a method returns by reference is returned as the value that it has then.
--   In the health check of the ledger, what SQLite reports of its file is a parameter (FileReport),
--   and an issue is a constructor with the name of the row it is about.
--   CHECK clauses that every written row satisfies are left out, among them the order of updated_at
--   and created_at, and the length of a digest. The journal refuses a parameter that does not fit an
--   INTEGER (bind_integer); the ledger checks its times and amounts itself. SQLite's 64-bit range for
--   sums, and for the number of an operation's events, is not modelled.
--
-- Not modelled: opening and verifying database files, locks between threads and processes, the reading
-- of the pinned schema files, the JPYC hand-off adapter, the control, signer and registry services,
-- HTTP services, tools, front ends.
pub mod Base
pub mod Canonical
pub mod Domain
pub mod Atomic
pub mod Ledger
pub mod Fee
pub mod Venue
