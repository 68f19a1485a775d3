-- ===== src/Domain/Compile/Bound.antt =====
-- What a compiled capsule is bound to: the confirmed draft, the registry and the quote.
use cryptogpt_one_intent_wal.Base.{◌≡◌, String, Bool, true, ok, arith, eq_iff, returns}
use cryptogpt_one_intent_wal.Base.Int.{ℤ, leb_ℤ}
use cryptogpt_one_intent_wal.Canonical.Value.{Fields, get, obj}
use cryptogpt_one_intent_wal.Canonical.Checks.{Host}
use cryptogpt_one_intent_wal.Canonical.Alias.{Unicode}
use cryptogpt_one_intent_wal.Canonical.Bytes.{canonical_hash}
use cryptogpt_one_intent_wal.Domain.Checks.{raise_through, mapping}
use cryptogpt_one_intent_wal.Domain.Capsule.{ExecutionCapsule, capsule_validate, capsule_hash}
use cryptogpt_one_intent_wal.Domain.Draft.{
  ActionPlanDraft, executable, draft_validate, intent_commitment,
}
use cryptogpt_one_intent_wal.Domain.Registry.{
  SignedRegistry, AssetIdentity, resolve, registry_digest,
}
use cryptogpt_one_intent_wal.Domain.Quote.{CanonicalQuote, quote_verify, quote_digest}
use cryptogpt_one_intent_wal.Domain.Compile.{
  LiveState, read_live_state, capsule_of, bind_capsule, compile_capsule, amount_agrees,
  asset_agrees, agree_with_draft,
}

module _ (host : Host) (unicode : Unicode) where
  pub record Bound (registry : SignedRegistry) (quote : CanonicalQuote) (now : ℤ)
      (production : Bool) (c : ExecutionCapsule) : Type 0 where
    pub asset : AssetIdentity
    pub listed : resolve host c.asset_id c.network now production registry ≡ ok asset
    pub quoted : quote_verify host now c.network c.asset_id c.account c.amount quote ≡ ok tt
    pub payload :
        raise_through (canonical_hash host "final-payload-v1" (obj c.final_payload))
        ≡ ok quote.final_payload_commitment
    pub registry_bound : registry_digest host registry ≡ ok c.registry_digest
    pub quote_bound : quote_digest host quote ≡ ok c.quote_digest
    pub valid : capsule_validate host now c ≡ ok tt
    pub hash_bound : capsule_hash host c ≡ ok quote.execution_capsule_hash
    pub within_quote : leb_ℤ c.expires_at quote.expires_at ≡ true

  module _ (s : LiveState) (registry : SignedRegistry) (quote : CanonicalQuote) (now : ℤ)
      (production : Bool) where
    -- The calls of `bind_capsule` that return, and the tests that pass, when it returns `c`.
    record Returned (c : ExecutionCapsule) : Type 0 where
      asset : AssetIdentity
      commitment : String
      registry_hash : String
      quote_hash : String
      hash : String
      listed : resolve host s.asset_id s.network now production registry ≡ ok asset
      payload :
          raise_through (canonical_hash host "final-payload-v1" (obj s.final_payload))
          ≡ ok commitment
      registry_bound : registry_digest host registry ≡ ok registry_hash
      quote_bound : quote_digest host quote ≡ ok quote_hash
      hashed :
          capsule_hash host (capsule_of host unicode s quote registry_hash quote_hash) ≡ ok hash

    bind-Returned :
        {c : ExecutionCapsule}
        → bind_capsule host unicode s registry quote now production ≡ ok c
        → Returned c
    unfolding bind_capsule
    bind-Returned {c} h =
        let (asset, listed) =
          returns (resolve host s.asset_id s.network now production registry)
            (λ e bad. ground arith) in
        let (commitment, payload) =
          returns (raise_through (canonical_hash host "final-payload-v1" (obj s.final_payload)))
            (λ e bad. ground arith) in
        let (registry_hash, registry_bound) =
          returns (registry_digest host registry) (λ e bad. ground arith) in
        let (quote_hash, quote_bound) = returns (quote_digest host quote) (λ e bad. ground arith) in
        let (hash, hashed) =
          returns (capsule_hash host (capsule_of host unicode s quote registry_hash quote_hash))
            (λ e bad. ground arith) in
        record {
          asset = asset;
          commitment = commitment;
          registry_hash = registry_hash;
          quote_hash = quote_hash;
          hash = hash;
          listed = listed;
          payload = payload;
          registry_bound = registry_bound;
          quote_bound = quote_bound;
          hashed = hashed;
        }

  bind-Bound :
      (s : LiveState) (registry : SignedRegistry) (quote : CanonicalQuote) (now : ℤ)
      (production : Bool) {c : ExecutionCapsule}
      → bind_capsule host unicode s registry quote now production ≡ ok c
      → Bound registry quote now production c
  unfolding bind_capsule
  bind-Bound s registry quote now production {c} h =
      let r = bind-Returned s registry quote now production h in
      let made : c ≡ capsule_of host unicode s quote r.registry_hash r.quote_hash =
        ground (arith, r.listed, r.payload, r.registry_bound, r.quote_bound, r.hashed) in
      record {
        asset = r.asset;
        listed = rw made (r.listed);
        quoted = rw made (ground (arith, r.listed));
        payload = rw made (
            ground
              (arith, r.listed, r.payload, eq_iff quote.final_payload_commitment r.commitment));
        registry_bound = rw made (r.registry_bound);
        quote_bound = rw made (r.quote_bound);
        valid = rw made (ground (arith, r.listed, r.payload, r.registry_bound, r.quote_bound));
        hash_bound = rw made (
            ground (
              arith,
              r.listed,
              r.payload,
              r.registry_bound,
              r.quote_bound,
              r.hashed,
              eq_iff quote.execution_capsule_hash r.hash,
            ));
        within_quote = rw made (ground arith);
      }

  bind-kept :
      (s : LiveState) (registry : SignedRegistry) (quote : CanonicalQuote) (now : ℤ)
      (production : Bool) {c : ExecutionCapsule}
      → bind_capsule host unicode s registry quote now production ≡ ok c
      → (c.intent_commitment ≡ s.commitment) × (c.amount ≡ s.amount) × (c.asset_id ≡ s.asset_id)
  unfolding bind_capsule
  bind-kept s registry quote now production h = (ground arith, ground arith, ground arith)

  module _ (draft : ActionPlanDraft) (live_state : Fields) where
    -- What the live state agrees with, where `read_live_state` returns `s`.
    pub record Agrees (s : LiveState) : Type 0 where
      pub committed : intent_commitment host unicode draft ≡ ok s.commitment
      pub amount : amount_agrees (get "amountCandidate" draft.proposed) s.amount ≡ true
      pub asset : asset_agrees unicode (get "assetSymbolCandidate" draft.proposed) s.asset_id ≡ true

    draft-Agrees :
        (state : Fields) (asset_id amount : String) {commitment : String}
        → agree_with_draft host unicode draft state asset_id amount ≡ ok commitment
        → (intent_commitment host unicode draft ≡ ok commitment)
          × (amount_agrees (get "amountCandidate" draft.proposed) amount ≡ true)
          × (asset_agrees unicode (get "assetSymbolCandidate" draft.proposed) asset_id ≡ true)
    unfolding agree_with_draft
    draft-Agrees state asset_id amount h = (ground arith, ground arith, ground arith)

    read-Agrees : {s : LiveState} → read_live_state host unicode draft live_state ≡ ok s → Agrees s
    unfolding read_live_state
    read-Agrees {s} h =
        let (state, mapped) = returns (mapping host (obj live_state) 11) (λ e bad. ground arith) in
        let agreed : agree_with_draft host unicode draft state s.asset_id s.amount
            ≡ ok s.commitment =
          ground arith in
        let (committed, amount, asset) = draft-Agrees state s.asset_id s.amount agreed in
        record { committed = committed; amount = amount; asset = asset }

  -- A capsule that is compiled comes from a confirmed draft without ambiguities and carries its
  -- commitment; its asset is in the verified registry, its quote verifies for its own network,
  -- asset, account and amount, it carries the digests of both, the quote names its hash and the
  -- commitment to its payload, it is valid now, and it expires no later than the quote.
  pub compile_capsule-Bound :
      (draft : ActionPlanDraft) (live_state : Fields) (registry : SignedRegistry)
      (quote : CanonicalQuote) (now : ℤ) (production : Bool) {c : ExecutionCapsule}
      → compile_capsule host unicode draft live_state registry quote now production ≡ ok c
      → (draft_validate host unicode draft ≡ ok tt)
        × (executable draft ≡ true)
        × (intent_commitment host unicode draft ≡ ok c.intent_commitment)
        × (amount_agrees (get "amountCandidate" draft.proposed) c.amount ≡ true)
        × (asset_agrees unicode (get "assetSymbolCandidate" draft.proposed) c.asset_id ≡ true)
        × Bound registry quote now production c
  unfolding compile_capsule
  compile_capsule-Bound draft live_state registry quote now production {c} h =
      let (s, read) =
        returns (read_live_state host unicode draft live_state) (λ e bad. ground arith) in
      let bound : bind_capsule host unicode s registry quote now production ≡ ok c = ground arith in
      let agrees = read-Agrees draft live_state read in
      let kept = bind-kept s registry quote now production bound in
      (
        ground arith,
        ground arith,
        rw (kept.0) (agrees.committed),
        rw (kept.1) (agrees.amount),
        rw (kept.2) (agrees.asset),
        bind-Bound s registry quote now production bound,
      )
