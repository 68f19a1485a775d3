-- ===== src/Domain/Registry.antt =====
-- `AssetIdentity` and `SignedRegistry` of shared/domain.py. The entries are a dictionary, so its keys
-- differ; whether the signature verifies is a field, as in the source.
use cryptogpt_one_intent_wal.Base.{
  String, Bool, not, ◌&&◌, ◌||◌, Option, none, some, [], ◌∷◌, leb, str_eq, Result, ok, err, ◌>>=◌,
  ◌>>◌, guard, length,
}
use cryptogpt_one_intent_wal.Base.Int.{ℤ, pos, leb_ℤ, ltb_ℤ}
use cryptogpt_one_intent_wal.Base.Dict.{Dict, lookup}
use cryptogpt_one_intent_wal.Canonical.Value.{Value, Fields, bool, int, str, obj, end, field}
use cryptogpt_one_intent_wal.Canonical.Checks.{Host}
use cryptogpt_one_intent_wal.Canonical.Bytes.{canonical_hash}
use cryptogpt_one_intent_wal.Domain.Checks.{
  Error, domain_error, raise_through, bounded_text, strict_int, strict_bool, int_within,
  max_text_field, max_signature_field,
}
use cryptogpt_one_intent_wal.Domain.Draft.{is_caip2}

pub record AssetIdentity : Type 0 where
  pub asset_id : String
  pub caip2_network : String
  pub contract : String
  pub decimals : ℤ
  pub code_hash : String
  pub production_eligible : Bool

-- `AssetIdentity.as_dict`
abbrev pub asset_dict : AssetIdentity → Value
asset_dict a = obj (
    field "assetId" (str a.asset_id) (
      field "caip2Network" (str a.caip2_network) (
        field "contract" (str a.contract) (
          field "decimals" (int a.decimals) (
            field "codeHash" (str a.code_hash)
              (field "productionEligible" (bool a.production_eligible) end))))))

-- `AssetIdentity.validate`, which is called with the key of the entry
unfoldable pub asset_validate : Host → String → AssetIdentity → Result Error (Unit {0})
asset_validate host expected_asset_id a = do
  bounded_text host (str a.asset_id) max_text_field
  network ← bounded_text host (str a.caip2_network) max_text_field
  guard (is_caip2 network) domain_error
  bounded_text host (str a.contract) 512
  int_within (int a.decimals) (pos 0) (pos 255)
  bounded_text host (str a.code_hash) 512
  strict_bool (bool a.production_eligible)
  guard (str_eq a.asset_id expected_asset_id) domain_error
  ok tt

pub record SignedRegistry : Type 0 where
  pub registry_id : String
  pub sequence : ℤ
  pub valid_from : ℤ
  pub expires_at : ℤ
  pub signer_key_id : String
  pub signature : String
  pub signature_valid : Bool
  pub revoked : Bool
  pub entries : Dict AssetIdentity

abbrev entry_fields : Dict AssetIdentity → Fields
entry_fields [] = end
entry_fields ((key, a) ∷ rest) = field key (asset_dict a) (entry_fields rest)

abbrev registry_payload : SignedRegistry → Value
registry_payload r = obj (
    field "registryId" (str r.registry_id) (
      field "sequence" (int r.sequence) (
        field "validFrom" (int r.valid_from) (
          field "expiresAt" (int r.expires_at) (
            field "signerKeyId" (str r.signer_key_id)
              (field "entries" (obj (entry_fields r.entries)) end))))))

module _ (host : Host) where
  -- the property `digest`
  unfoldable pub registry_digest : SignedRegistry → Result Error String
  registry_digest r = raise_through (canonical_hash host "asset-registry-v1" (registry_payload r))

  -- the loop over the entries
  unfoldable pub entries_valid : Dict AssetIdentity → Result Error (Unit {0})
  entries_valid [] = ok tt
  entries_valid ((key, a) ∷ rest) =
      bounded_text host (str key) max_text_field >> asset_validate host key a >> entries_valid rest

  -- `SignedRegistry.verify`
  unfoldable pub registry_verify : ℤ → SignedRegistry → Result Error (Unit {0})
  registry_verify now r = do
    strict_int (int now) (some (pos 0))
    bounded_text host (str r.registry_id) max_text_field
    strict_int (int r.sequence) (some (pos 1))
    valid_from ← strict_int (int r.valid_from) (some (pos 0))
    expires_at ← strict_int (int r.expires_at) (some (pos 0))
    bounded_text host (str r.signer_key_id) max_text_field
    bounded_text host (str r.signature) max_signature_field
    strict_bool (bool r.signature_valid)
    strict_bool (bool r.revoked)
    guard (ltb_ℤ valid_from expires_at) domain_error
    guard r.signature_valid domain_error
    guard (not r.revoked) domain_error
    guard (leb_ℤ valid_from now && ltb_ℤ now expires_at) domain_error
    guard (leb 1 (length r.entries) && leb (length r.entries) 4096) domain_error
    entries_valid r.entries
    registry_digest r
    ok tt

  abbrev pub entry_for : String → Bool → Option AssetIdentity → Result Error AssetIdentity
  entry_for network production none = err domain_error
  entry_for network production (some a) = do
    guard (str_eq a.caip2_network network) domain_error
    guard (not production || a.production_eligible) domain_error
    ok a

  -- `SignedRegistry.resolve`
  unfoldable pub resolve : String → String → ℤ → Bool → SignedRegistry → Result Error AssetIdentity
  resolve asset_id network now production r = do
    bounded_text host (str asset_id) max_text_field
    bounded_text host (str network) max_text_field
    strict_bool (bool production)
    registry_verify now r
    entry_for network production (lookup asset_id r.entries)
