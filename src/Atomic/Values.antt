-- ===== src/Atomic/Values.antt =====
-- Values of a request, as shared/atomic_signer_contract.py compares and filters them: the trust fields
-- that no request may carry, equality, and the fields that a signature covers.
use cryptogpt_one_intent_wal.Base.{
  String, Bool, true, false, not, ◌&&◌, ◌||◌, Option, none, some, List, [], ◌∷◌, ◌==◌, str_eq,
  if◌then◌else◌,
}
use cryptogpt_one_intent_wal.Base.Int.{ℤ, pos, eq_ℤ}
use cryptogpt_one_intent_wal.Canonical.Value.{
  Value, Items, Fields, null, bool, int, str, arr, obj, nil, cons, end, field, get, size,
}
use cryptogpt_one_intent_wal.Domain.Store.{contains}

-- `_TRUST_BOOLEAN_KEYS`
abbrev trust_boolean_keys : List String
trust_boolean_keys =
    "allowed" ∷ "release_go" ∷ "runtime_lease_valid" ∷ "server_verified" ∷ "signature_valid"
    ∷ "trust_valid" ∷ "verified" ∷ []

-- `_reject_trust_booleans`: no key of the value, at any depth, is a trust field
unfoldable mutual
  pub claims_no_trust : (String → String) → Value → Bool
  claims_no_trust lower (obj fs) = fields_claim_no_trust lower fs
  claims_no_trust lower (arr xs) = items_claim_no_trust lower xs
  claims_no_trust lower _ = true

  pub fields_claim_no_trust : (String → String) → Fields → Bool
  fields_claim_no_trust lower end = true
  fields_claim_no_trust lower (field k v fs) =
      not (contains (lower k) trust_boolean_keys)
      && claims_no_trust lower v
      && fields_claim_no_trust lower fs

  pub items_claim_no_trust : (String → String) → Items → Bool
  items_claim_no_trust lower nil = true
  items_claim_no_trust lower (cons v vs) = claims_no_trust lower v && items_claim_no_trust lower vs

abbrev bool_number : Bool → ℤ
bool_number true = pos 1
bool_number false = pos 0

-- `==` of two values that have no floats; a Boolean equals its number, and the order of keys is free
unfoldable mutual
  pub eq_value : Value → Value → Bool
  eq_value null null = true
  eq_value (bool b) (bool c) = eq_ℤ (bool_number b) (bool_number c)
  eq_value (bool b) (int z) = eq_ℤ (bool_number b) z
  eq_value (int z) (bool c) = eq_ℤ z (bool_number c)
  eq_value (int y) (int z) = eq_ℤ y z
  eq_value (str s) (str t) = str_eq s t
  eq_value (arr xs) (arr ys) = eq_items xs ys
  eq_value (obj fs) (obj gs) = size fs == size gs && eq_fields fs gs
  eq_value _ _ = false

  pub eq_items : Items → Items → Bool
  eq_items nil nil = true
  eq_items (cons x xs) (cons y ys) = eq_value x y && eq_items xs ys
  eq_items _ _ = false

  pub eq_fields : Fields → Fields → Bool
  eq_fields end gs = true
  eq_fields (field k v fs) gs =
      elim (get k gs) [ none ↦ false | some w ↦ eq_value v w ] && eq_fields fs gs

abbrev pub eq_optional : Option Value → Option Value → Bool
eq_optional none none = true
eq_optional none (some null) = true
eq_optional none (some w) = false
eq_optional (some null) none = true
eq_optional (some v) none = false
eq_optional (some v) (some w) = eq_value v w

abbrev pub is_text : String → Option Value → Bool
is_text s (some (str t)) = str_eq t s
is_text s _ = false

abbrev pub is_empty_array : Option Value → Bool
is_empty_array (some (arr nil)) = true
is_empty_array _ = false

-- `_signed_material`
unfoldable pub signed_material : Fields → Fields
signed_material end = end
signed_material (field k v fs) =
    let rest = signed_material fs in
    if str_eq k "canonicalDigest" || str_eq k "signature" then rest else field k v rest
