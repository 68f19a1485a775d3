-- ===== src/Atomic/Trust/Roles.antt =====
-- Which key has signed: a role, a domain and a window that the store pins, and never one key for two
-- roles.
use cryptogpt_one_intent_wal.Base.{
  ℕ, ◌≡◌, refl, Bool, true, false, some, List, [], ◌∷◌, ok, any, find, arith, inl, inr,
  Option-cases, Bool-cases, ap, sym, ◌∙◌, subst, ◌≢◌,
}
use cryptogpt_one_intent_wal.Base.Text.{codes}
use mathlib.Core.Option.{some-injective}
use cryptogpt_one_intent_wal.Canonical.Loads.{eq_bytes}
use cryptogpt_one_intent_wal.Atomic.Trust.{
  TrustHost, VerifierRole, same_role, TrustedVerifierKey, VerifyCall, same_identity, register,
  new_store, key_verifies, decode_unpadded_base64url, verify, in_window,
}

-- Keys of the registry with one public key are one key.
pub data PairwiseDistinct : List TrustedVerifierKey → Type 0 where
  none_yet : PairwiseDistinct []
  one_more :
      (k : TrustedVerifierKey) {ks : List TrustedVerifierKey}
      → any (λ r. eq_bytes r.public_key k.public_key) ks ≡ false
      → PairwiseDistinct ks
      → PairwiseDistinct (k ∷ ks)

module _ (host : TrustHost) where
  register-PairwiseDistinct :
      (registry keys : List TrustedVerifierKey) {store : List TrustedVerifierKey}
      → register host registry keys ≡ ok store
      → PairwiseDistinct registry
      → PairwiseDistinct store
  unfolding register
  register-PairwiseDistinct registry [] {store} h d = subst PairwiseDistinct (ground arith) d
  register-PairwiseDistinct registry (k ∷ ks) h d =
      register-PairwiseDistinct (k ∷ registry) ks (ground arith) (one_more k (ground arith) d)

  eq_bytes_refl : (xs : List ℕ) → eq_bytes xs xs ≡ true
  eq_bytes_refl [] = refl
  eq_bytes_refl (x ∷ xs) = ground (arith, eq_bytes_refl xs)

  any-found :
      (p q : TrustedVerifierKey → Bool) (ks : List TrustedVerifierKey) {k : TrustedVerifierKey}
      → find q ks ≡ some k
      → p k ≡ true
      → any p ks ≡ true
  any-found p q [] e h = cc
  any-found p q (x ∷ ks) {k} e h = elim (Bool-cases (q x)) [
    | inl here ↦ let same : x ≡ k = some-injective x k (rw here at e) in rw same (rw h refl)
    | inr later ↦ ground (arith, any-found p q ks (rw later at e) h)
  ]

  -- Two entries of a registry with one public key are one entry.
  one_entry :
      (p q : TrustedVerifierKey → Bool) {ks : List TrustedVerifierKey} {k l : TrustedVerifierKey}
      → PairwiseDistinct ks
      → find p ks ≡ some k
      → find q ks ≡ some l
      → k.public_key ≡ l.public_key
      → k ≡ l
  one_entry p q none_yet e f same = cc
  one_entry p q {k = k} {l = l} (one_more x {ks = ks} apart d) e f same = elim (Bool-cases (p x)) [
    | inl first ↦ elim (Bool-cases (q x)) [
      | inl second ↦ sym (some-injective x k (rw first at e)) ∙ some-injective x l (rw second at f)
      | inr later ↦
          let is_first : x ≡ k = some-injective x k (rw first at e) in
          absurd (
            cc (
              apart,
              any-found (λ r. eq_bytes r.public_key x.public_key) q ks (rw later at f)
                  (rw (ap (λ y. y.public_key) is_first, same) (eq_bytes_refl l.public_key)),
            ))
    ]
    | inr later ↦ elim (Bool-cases (q x)) [
      | inl second ↦
          let is_second : x ≡ l = some-injective x l (rw second at f) in
          absurd (
            cc (
              apart,
              any-found (λ r. eq_bytes r.public_key x.public_key) p ks (rw later at e)
                  (rw (ap (λ y. y.public_key) is_second, same) (eq_bytes_refl l.public_key)),
            ))
      | inr after ↦ one_entry p q d (rw later at e) (rw after at f) same
    ]
  ]

  -- The entry `k` of the store verified the call in the role `r`: it is not revoked, the time is in
  -- its window, and its public key verifies the decoded signature over the payload.
  pub record VerifiedBy (store : List TrustedVerifierKey) (c : VerifyCall) (r : VerifierRole)
      (k : TrustedVerifierKey) : Type 0 where
    pub listed : find (same_identity c.issuer c.key_id c.algorithm) store ≡ some k
    pub in_role : same_role k.role r ≡ true
    pub not_revoked : k.revoked ≡ false
    pub timely : in_window k c.now ≡ true
    pub signature : List ℕ
    pub decoded : decode_unpadded_base64url host (codes c.signature) ≡ some signature
    pub signed : host.ed25519 k.public_key signature c.payload ≡ true

  key-VerifiedBy :
      (store : List TrustedVerifierKey) (c : VerifyCall) (r : VerifierRole) (k : TrustedVerifierKey)
      → find (same_identity c.issuer c.key_id c.algorithm) store ≡ some k
      → c.required_role ≡ some r
      → key_verifies host c k ≡ true
      → VerifiedBy store c r k
  unfolding key_verifies
  key-VerifiedBy store c r k e role h =
      elim (Option-cases (decode_unpadded_base64url host (codes c.signature))) [
        | inl bad ↦ absurd (ground arith)
        | inr (signature, decoded) ↦ record {
          listed = e;
          in_role = ground arith;
          not_revoked = ground arith;
          timely = ground arith;
          signature = signature;
          decoded = decoded;
          signed = ground arith;
        }
      ]

  pub verify-VerifiedBy :
      (store : List TrustedVerifierKey) (c : VerifyCall) (r : VerifierRole)
      → c.required_role ≡ some r
      → verify host store c ≡ true
      → (k : TrustedVerifierKey) × VerifiedBy store c r k
  unfolding verify
  verify-VerifiedBy store c r role h =
      elim (Option-cases (find (same_identity c.issuer c.key_id c.algorithm) store)) [
        | inl missing ↦ absurd (ground arith)
        | inr (k, found) ↦ (k, key-VerifiedBy store c r k found role (ground arith))
      ]

  store-PairwiseDistinct :
      (keys : List TrustedVerifierKey) {store : List TrustedVerifierKey}
      → new_store host keys ≡ ok store
      → PairwiseDistinct store
  unfolding new_store
  store-PairwiseDistinct [] h = absurd (cc h)
  store-PairwiseDistinct (k ∷ ks) h = register-PairwiseDistinct [] (k ∷ ks) h none_yet

  roles_differ :
      (a r s : VerifierRole)
      → same_role a r ≡ true
      → same_role a s ≡ true
      → ¬ (same_role r s ≡ false)
  roles_differ a r s h k apart = ground arith

  -- Keys of a store that verify in two different roles have different public keys.
  pub verified_apart :
      (keys : List TrustedVerifierKey) (c d : VerifyCall) (r s : VerifierRole)
      {store : List TrustedVerifierKey} {k l : TrustedVerifierKey}
      → new_store host keys ≡ ok store
      → same_role r s ≡ false
      → VerifiedBy store c r k
      → VerifiedBy store d s l
      → k.public_key ≢ l.public_key
  verified_apart keys c d r s made apart by_k by_l same =
      let one = one_entry _ _ (store-PairwiseDistinct keys made) by_k.listed by_l.listed same in
      roles_differ _ r s by_k.in_role (rw one (by_l.in_role)) apart

  -- In a store that its constructor has accepted, calls of `verify` in two different roles that
  -- both return true are verified by two keys with different public keys.
  pub distinct_roles_need_distinct_keys :
      (keys : List TrustedVerifierKey) (c d : VerifyCall) (r s : VerifierRole)
      {store : List TrustedVerifierKey}
      → new_store host keys ≡ ok store
      → c.required_role ≡ some r
      → d.required_role ≡ some s
      → same_role r s ≡ false
      → verify host store c ≡ true
      → verify host store d ≡ true
      → (k : TrustedVerifierKey) × (l : TrustedVerifierKey) × VerifiedBy store c r k
        × VerifiedBy store d s l
        × (k.public_key ≢ l.public_key)
  unfolding new_store
  distinct_roles_need_distinct_keys keys c d r s {store} made role_c role_d apart first second =
      let (k, by_k) = verify-VerifiedBy store c r role_c first in
      let (l, by_l) = verify-VerifiedBy store d s role_d second in
      (k, l, by_k, by_l, verified_apart keys c d r s made apart by_k by_l)
