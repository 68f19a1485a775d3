-- ===== src/Domain/Compile/Spoken.antt =====
-- From the utterance to the capsule: what the parser proposed is what is compiled.
use cryptogpt_one_intent_wal.Base.{
  ◌≡◌, refl, String, Bool, true, false, Option, some, ok, arith, eq_iff, ◌∙◌,
}
use cryptogpt_one_intent_wal.Base.Int.{ℤ}
use cryptogpt_one_intent_wal.Base.Dict.{Dict}
use cryptogpt_one_intent_wal.Base.Text.{codes, text_in}
use cryptogpt_one_intent_wal.Canonical.Value.{Value, Fields, get, str}
use cryptogpt_one_intent_wal.Canonical.Checks.{Host}
use cryptogpt_one_intent_wal.Canonical.Alias.{Unicode}
use cryptogpt_one_intent_wal.Domain.Capsule.{ExecutionCapsule}
use cryptogpt_one_intent_wal.Domain.Draft.{
  ActionPlanDraft, executable, confirm, parse_intent_locally, proposed_of, finds_500_usdc,
}
use cryptogpt_one_intent_wal.Domain.Draft.Confirmed.{confirm_settles_the_draft}
use cryptogpt_one_intent_wal.Domain.Registry.{SignedRegistry}
use cryptogpt_one_intent_wal.Domain.Quote.{CanonicalQuote}
use cryptogpt_one_intent_wal.Domain.Compile.{
  compile_capsule, base_asset, amount_agrees, asset_agrees,
}
use cryptogpt_one_intent_wal.Domain.Compile.Bound.{compile_capsule-Bound}

module _ (unicode : Unicode) (u : String) where
  proposed-amount :
      finds_500_usdc (codes u) ≡ true
      → get "amountCandidate" (proposed_of unicode u) ≡ some (str "500")
  proposed-amount h = ground arith

  proposed-asset :
      text_in "BTC" (unicode.upper u) ≡ true
      → get "assetSymbolCandidate" (proposed_of unicode u) ≡ some (str "BTC")
  proposed-asset h = ground arith

agreed-amount :
    (o : Option Value) (proposed amount : String)
    → o ≡ some (str proposed)
    → amount_agrees o amount ≡ true
    → proposed ≡ amount
unfolding amount_agrees
agreed-amount o proposed amount e h = (eq_iff proposed amount).0 (rw e at h)

agreed-asset :
    (unicode : Unicode) (o : Option Value) (proposed asset_id : String)
    → o ≡ some (str proposed)
    → asset_agrees unicode o asset_id ≡ true
    → unicode.upper (base_asset asset_id) ≡ unicode.upper proposed
unfolding asset_agrees
agreed-asset unicode o proposed asset_id e h =
    (eq_iff (unicode.upper (base_asset asset_id)) (unicode.upper proposed)).0 (rw e at h)

module _ (host : Host) (unicode : Unicode) where
  parse-proposed :
      (u : String) {d : ActionPlanDraft}
      → parse_intent_locally host unicode u ≡ ok d
      → (d.proposed ≡ proposed_of unicode u) × (executable d ≡ false)
  unfolding parse_intent_locally
  parse-proposed u h = (ground arith, ground arith)

  -- An utterance is parsed, the draft is confirmed, and the confirmed draft is compiled: the
  -- parsed draft could not be executed itself; if the utterance named 500 USDC, the capsule has
  -- the amount "500"; if it named BTC, once put into upper case, the capsule's base asset is BTC,
  -- both in upper case.
  pub spoken_terms_are_compiled :
      (u : String) (resolved : Dict String) (interpretation : String) (live_state : Fields)
      (registry : SignedRegistry) (quote : CanonicalQuote) (now : ℤ) (production : Bool)
      {d confirmed : ActionPlanDraft} {c : ExecutionCapsule}
      → parse_intent_locally host unicode u ≡ ok d
      → confirm host unicode resolved interpretation d ≡ ok confirmed
      → compile_capsule host unicode confirmed live_state registry quote now production ≡ ok c
      → (executable d ≡ false)
        × (finds_500_usdc (codes u) ≡ true → "500" ≡ c.amount)
        × (text_in "BTC" (unicode.upper u) ≡ true
            → unicode.upper (base_asset c.asset_id) ≡ unicode.upper "BTC")
  spoken_terms_are_compiled u resolved interpretation live_state registry quote now production {d}
        {confirmed} {c} parsed confirms compiled =
      let (proposed, not_yet) = parse-proposed u parsed in
      let settled = confirm_settles_the_draft host unicode resolved interpretation d confirms in
      let (_, _, _, amount, asset, _) =
        compile_capsule-Bound host unicode confirmed live_state registry quote now production
          compiled in
      (
        not_yet,
        λ named.
            agreed-amount _ "500" c.amount
              (settled.kept "amountCandidate" refl ∙ rw proposed (proposed-amount unicode u named))
              amount,
        λ named.
            agreed-asset unicode _ "BTC" c.asset_id
              (settled.kept "assetSymbolCandidate" refl
                ∙ rw proposed (proposed-asset unicode u named))
              asset,
      )
