-- ===== src/Atomic/Trust.antt =====
-- `SignatureTrustStore` of shared/signature_trust_store.py: public keys, each for one role and a scope.
-- The source keeps a dictionary by issuer, key id and algorithm; the model keeps its values in order.
pub mod Roles
use cryptogpt_one_intent_wal.Base.{
  ℕ, ◌+◌, ◌-◌, String, Bool, true, false, not, ◌&&◌, ◌||◌, Option, none, some, List, [], ◌∷◌, ◌++◌,
  leb, ltb, ◌==◌, str_eq, if◌then◌else◌, Result, ok, err, ◌>>=◌, ◌>>◌, guard, length, any, all,
  find,
}
use Prim.Native.Nat.{◌%◌}
use cryptogpt_one_intent_wal.Base.Int.{ℤ, pos, eq_ℤ, leb_ℤ, ltb_ℤ}
use cryptogpt_one_intent_wal.Base.Text.{codes}
use cryptogpt_one_intent_wal.Canonical.Loads.{eq_bytes}

-- What the source takes of other libraries: Ed25519, base64 (on codes of a text) and strict UTF-8.
pub record TrustHost : Type 0 where
  pub accepts_key : List ℕ → Bool
  pub ed25519 : (public_key signature payload : List ℕ) → Bool
  pub b64decode : List ℕ → Option (List ℕ)
  pub b64encode : List ℕ → List ℕ
  pub decode_utf8 : List ℕ → Option String

pub data VerifierRole : Type 0 where
  human_review runtime_policy orchestration attestation release : VerifierRole

abbrev role_index : VerifierRole → ℕ
role_index human_review = 0
role_index runtime_policy = 1
role_index orchestration = 2
role_index attestation = 3
role_index release = 4

-- `is` on the members of the enumeration
abbrev pub same_role : VerifierRole → VerifierRole → Bool
same_role r s = role_index r == role_index s

pub record TrustedVerifierKey : Type 0 where
  pub issuer : String
  pub key_id : String
  pub public_key : List ℕ
  pub role : VerifierRole
  pub allowed_domains : List String
  pub allowed_audiences : List String
  pub allowed_environments : List String
  pub allowed_deployments : List String
  pub allowed_policy_bundle_digests : List String
  pub allowed_release_subject_digests : List String
  pub not_before : ℤ
  pub not_after : ℤ
  pub minimum_revocation_epoch : ℤ
  pub revoked : Bool
  pub algorithm : String

abbrev pub unbounded_not_after : ℕ
unbounded_not_after = 9007199254740991

abbrev is_nonempty : String → Bool
is_nonempty s = not (str_eq s "")

-- `_frozen_text_scope`
abbrev is_scope : List String → Bool
is_scope scope = all is_nonempty scope

abbrev has_any : List String → Bool
has_any [] = false
has_any (s ∷ ss) = true

-- the tests of `__post_init__`, whose exceptions are all `ValueError`
unfoldable pub key_is_valid : TrustedVerifierKey → Bool
key_is_valid k =
    is_nonempty k.issuer
    && is_nonempty k.key_id
    && has_any k.allowed_domains
    && is_scope k.allowed_domains
    && is_scope k.allowed_audiences
    && is_scope k.allowed_environments
    && is_scope k.allowed_deployments
    && is_scope k.allowed_policy_bundle_digests
    && is_scope k.allowed_release_subject_digests
    && str_eq k.algorithm "Ed25519"
    && length k.public_key == 32
    && leb_ℤ (pos 0) k.minimum_revocation_epoch
    && leb_ℤ (pos 0) k.not_before
    && ltb_ℤ k.not_before k.not_after

pub data TrustError : Type 0 where
  value_error : TrustError

abbrev pub same_identity : String → String → String → TrustedVerifierKey → Bool
same_identity issuer key_id algorithm k =
    str_eq k.issuer issuer && str_eq k.key_id key_id && str_eq k.algorithm algorithm

module _ (host : TrustHost) where
  -- the loop of `SignatureTrustStore.__init__`, with the entries that it has registered
  unfoldable pub register :
      List TrustedVerifierKey
      → List TrustedVerifierKey
      → Result TrustError (List TrustedVerifierKey)
  register registry [] = ok registry
  register registry (k ∷ ks) =
      guard (key_is_valid k) value_error
      >> guard (not (any (same_identity k.issuer k.key_id k.algorithm) registry)) value_error
      >> guard (not (any (λ r. eq_bytes r.public_key k.public_key) registry)) value_error
      >> guard (host.accepts_key k.public_key) value_error
      >> register (k ∷ registry) ks

  -- `SignatureTrustStore(keys)`
  unfoldable pub new_store : List TrustedVerifierKey → Result TrustError (List TrustedVerifierKey)
  unfolding register
  new_store [] = err value_error
  new_store (k ∷ ks) = register [] (k ∷ ks)

-- the arguments of `verify`
pub record VerifyCall : Type 0 where
  pub issuer : String
  pub key_id : String
  pub algorithm : String
  pub payload : List ℕ
  pub signature : String
  pub revocation_epoch : ℤ
  pub domain : Option String
  pub required_role : Option VerifierRole
  pub audience : Option String
  pub environment : Option String
  pub deployment : Option String
  pub policy_bundle_digest : Option String
  pub release_subject_digest : Option String
  pub now : Option ℤ

-- what comes before the first zero byte, if there is one
abbrev pub before_zero : List ℕ → Option (List ℕ)
before_zero [] = none
before_zero (c ∷ cs) =
    let rest = before_zero cs in
    if c == 0 then some [] else elim rest [ none ↦ none | some p ↦ some (c ∷ p) ]

unfoldable pub domain_allowed : Option String → Option String → List String → Bool
domain_allowed none expected allowed = false
domain_allowed (some d) none allowed = any (str_eq d) allowed
domain_allowed (some d) (some expected) allowed = str_eq d expected && any (str_eq d) allowed

abbrev pub role_allowed : VerifierRole → Option VerifierRole → Bool
role_allowed role none = true
role_allowed role (some required) = same_role role required

unfoldable pub in_window : TrustedVerifierKey → Option ℤ → Bool
in_window k none = eq_ℤ k.not_before (pos 0) && eq_ℤ k.not_after (pos unbounded_not_after)
in_window k (some now) = leb_ℤ k.not_before now && ltb_ℤ now k.not_after

unfoldable pub scope_allows : List String → Option String → Bool
scope_allows [] none = true
scope_allows [] (some supplied) = false
scope_allows (s ∷ ss) none = false
scope_allows (s ∷ ss) (some supplied) = any (str_eq supplied) (s ∷ ss)

abbrev strip_padding : List ℕ → List ℕ
strip_padding [] = []
strip_padding (c ∷ cs) =
    let rest = strip_padding cs in
    elim rest [ [] ↦ if c == 61 then [] else c ∷ [] | d ∷ ds ↦ c ∷ d ∷ ds ]

abbrev padding : ℕ → List ℕ
padding n =
    if n == 1
    then 61 ∷ 61 ∷ 61 ∷ []
    else if n == 2
    then 61 ∷ 61 ∷ []
    else if n == 3
    then 61 ∷ []
    else []

module _ (host : TrustHost) where
  abbrev canonical_decoding : List ℕ → Option (List ℕ) → Option (List ℕ)
  canonical_decoding value none = none
  canonical_decoding value (some decoded) =
      if eq_bytes (strip_padding (host.b64encode decoded)) value then some decoded else none

  -- `_decode_unpadded_base64url`; none is its exception
  unfoldable pub decode_unpadded_base64url : List ℕ → Option (List ℕ)
  decode_unpadded_base64url value =
      if length value == 0 || any (λ c. c == 61) value
      then none
      else canonical_decoding value (host.b64decode (value ++ padding (length value % 4)))

  abbrev signs : List ℕ → List ℕ → Option (List ℕ) → Bool
  signs public_key payload none = false
  signs public_key payload (some raw) = length raw == 64 && host.ed25519 public_key raw payload

  abbrev payload_domain : Option (List ℕ) → Option String
  payload_domain none = none
  payload_domain (some prefix) = host.decode_utf8 prefix

  -- the tests of `verify` on the key that it has found
  unfoldable pub key_verifies : VerifyCall → TrustedVerifierKey → Bool
  key_verifies c k =
      not k.revoked
      && leb_ℤ k.minimum_revocation_epoch c.revocation_epoch
      && domain_allowed (payload_domain (before_zero c.payload)) c.domain k.allowed_domains
      && role_allowed k.role c.required_role
      && in_window k c.now
      && scope_allows k.allowed_audiences c.audience
      && scope_allows k.allowed_environments c.environment
      && scope_allows k.allowed_deployments c.deployment
      && scope_allows k.allowed_policy_bundle_digests c.policy_bundle_digest
      && scope_allows k.allowed_release_subject_digests c.release_subject_digest
      && signs k.public_key c.payload (decode_unpadded_base64url (codes c.signature))

  abbrev verify_found : VerifyCall → Option TrustedVerifierKey → Bool
  verify_found c none = false
  verify_found c (some k) = key_verifies c k

  -- `SignatureTrustStore.verify`
  unfoldable pub verify : List TrustedVerifierKey → VerifyCall → Bool
  verify registry c =
      not (length c.payload == 0)
      && verify_found c (find (same_identity c.issuer c.key_id c.algorithm) registry)
