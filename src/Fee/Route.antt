-- ===== src/Fee/Route.antt =====
-- What an offered fee route is bound to.
use cryptogpt_one_intent_wal.Base.{
  ◌≡◌, refl, String, Bool, true, false, not, ◌&&◌, Option, none, some, ok, arith, returns, eq_iff,
  ap, subst, ◌∙◌, str_eq,
}
use cryptogpt_one_intent_wal.Base.Int.{ℤ, ltb_ℤ}
use cryptogpt_one_intent_wal.Canonical.Checks.{Host}
use cryptogpt_one_intent_wal.Canonical.Decimal.{Decimal, decimal_string, is_zero, leb_decimal}
use cryptogpt_one_intent_wal.Fee.{
  FeeRouteCapability, OperationBoundQuote, Expected, verified_operation_bound_route, quote_digest,
  capability_is_live, evidence_is_current, plan_for, plan_without_balance, quote_is_live,
  fees_are_bounded, zero_native_balance_eligible, is_bound, fee_readiness_plan, same_capability,
}

-- The numbers of a quote against its own maximum and the capability's cap.
pub record FeesBounded (c : FeeRouteCapability) (q : OperationBoundQuote) : Type 0 where
  pub amount : Decimal
  pub estimated_fee : Decimal
  pub maximum_fee : Decimal
  pub failure_charge : Decimal
  pub cap : Decimal
  pub amount_read : decimal_string q.amount none ≡ ok amount
  pub estimated_fee_read : decimal_string q.estimated_fee none ≡ ok estimated_fee
  pub maximum_fee_read : decimal_string q.maximum_fee none ≡ ok maximum_fee
  pub failure_charge_read : decimal_string q.failure_charge none ≡ ok failure_charge
  pub cap_read : decimal_string c.failure_charge_cap none ≡ ok cap
  pub is_positive : is_zero amount ≡ false
  pub fee_within : leb_decimal estimated_fee maximum_fee ≡ true
  pub charge_within : leb_decimal failure_charge cap ≡ true

module _ {c d : FeeRouteCapability} {q r : OperationBoundQuote} {x y : String}
    (h : verified_operation_bound_route c q x ≡ verified_operation_bound_route d r y) where
  capability_of : c ≡ d
  capability_of = cc h

  quote_of : q ≡ r
  quote_of = cc h

  digest_of : x ≡ y
  digest_of = cc h

three_tests : (a b c : Bool) → (not a && b && c) ≡ true → (a ≡ false) × (b ≡ true) × (c ≡ true)
three_tests a b c h = (ground arith, ground arith, ground arith)

module _ (host : Host) where
  fees_read :
      (c : FeeRouteCapability) (q : OperationBoundQuote)
      (amount estimated_fee maximum_fee failure_charge cap : Decimal)
      → decimal_string q.amount none ≡ ok amount
      → decimal_string q.estimated_fee none ≡ ok estimated_fee
      → decimal_string q.maximum_fee none ≡ ok maximum_fee
      → decimal_string q.failure_charge none ≡ ok failure_charge
      → decimal_string c.failure_charge_cap none ≡ ok cap
      → fees_are_bounded host c q ≡ true
      → FeesBounded c q
  unfolding fees_are_bounded
  fees_read c q amount estimated_fee maximum_fee failure_charge cap a f m r k h =
      let tests =
        three_tests (is_zero amount) (leb_decimal estimated_fee maximum_fee)
          (leb_decimal failure_charge cap) (rw (a, f, m, r, k) at h) in
      record {
        amount = amount;
        estimated_fee = estimated_fee;
        maximum_fee = maximum_fee;
        failure_charge = failure_charge;
        cap = cap;
        amount_read = a;
        estimated_fee_read = f;
        maximum_fee_read = m;
        failure_charge_read = r;
        cap_read = k;
        is_positive = tests.0;
        fee_within = tests.1;
        charge_within = tests.2;
      }

  fees-FeesBounded :
      (c : FeeRouteCapability) (q : OperationBoundQuote)
      → fees_are_bounded host c q ≡ true
      → FeesBounded c q
  unfolding fees_are_bounded
  fees-FeesBounded c q h =
      let (amount, a) = returns (decimal_string q.amount none) (λ e bad. ground arith) in
      let (estimated_fee, f) =
        returns (decimal_string q.estimated_fee none) (λ e bad. ground arith) in
      let (maximum_fee, m) = returns (decimal_string q.maximum_fee none) (λ e bad. ground arith) in
      let (failure_charge, r) =
        returns (decimal_string q.failure_charge none) (λ e bad. ground arith) in
      let (cap, k) = returns (decimal_string c.failure_charge_cap none) (λ e bad. ground arith) in
      fees_read c q amount estimated_fee maximum_fee failure_charge cap a f m r k h

  -- What an offered route guarantees: there is no native balance, the evidence is verified, reviewed,
  -- not revoked and current, the quote is for this capability, signed, current and bound to the
  -- expected account, operation and amount, and its fees are bounded.
  pub record Offered (native_balance : String) (e : Expected) (c : FeeRouteCapability) (now : ℤ)
      (q : OperationBoundQuote) (digest : String) : Type 0 where
    pub balance : Decimal
    pub balance_read : decimal_string native_balance none ≡ ok balance
    pub no_balance : is_zero balance ≡ true
    pub evidence_verified : c.evidence_status ≡ "VERIFIED"
    pub not_revoked : c.revoked ≡ false
    pub reviewed : c.reviewed ≡ true
    pub evidence_current : ltb_ℤ now c.evidence_expires_at ≡ true
    pub quote_current : ltb_ℤ now q.expiry ≡ true
    pub signed : q.signature_valid ≡ true
    pub same_route : same_capability q.capability c ≡ true
    pub bound : is_bound host e (some q) ≡ true
    pub fees : FeesBounded c q
    pub digested : quote_digest host q ≡ ok digest

  current_evidence :
      (c : FeeRouteCapability) (now : ℤ)
      → capability_is_live host c now ≡ true
      → evidence_is_current host c now ≡ true
  unfolding capability_is_live
  current_evidence c now h = ground arith

  evidence-facts :
      (c : FeeRouteCapability) (now : ℤ)
      → evidence_is_current host c now ≡ true
      → (str_eq c.evidence_status "VERIFIED" ≡ true)
        × (c.revoked ≡ false)
        × (c.reviewed ≡ true)
        × (ltb_ℤ now c.evidence_expires_at ≡ true)
  unfolding evidence_is_current
  evidence-facts c now h = (ground arith, ground arith, ground arith, ground arith)

  live-quote :
      (c : FeeRouteCapability) (q : OperationBoundQuote) (now : ℤ)
      → quote_is_live host c q now ≡ true
      → (same_capability q.capability c ≡ true)
        × (ltb_ℤ now q.expiry ≡ true)
        × (q.signature_valid ≡ true)
  unfolding quote_is_live
  live-quote c q now h = (ground arith, ground arith, ground arith)

  eligible-parts :
      (c : FeeRouteCapability) (q : OperationBoundQuote) (now : ℤ)
      → zero_native_balance_eligible host c (some q) now ≡ true
      → (capability_is_live host c now ≡ true)
        × (quote_is_live host c q now ≡ true)
        × (fees_are_bounded host c q ≡ true)
  unfolding zero_native_balance_eligible
  eligible-parts c q now h = (ground arith, ground arith, ground arith)

  -- the plan without a native balance, where it offers a route
  record Route (e : Expected) (c : FeeRouteCapability) (quote : Option OperationBoundQuote)
      (now : ℤ) (c' : FeeRouteCapability) (q : OperationBoundQuote) (digest : String) : Type 0 where
    bound : is_bound host e (some q) ≡ true
    eligible : zero_native_balance_eligible host c (some q) now ≡ true
    digested : quote_digest host q ≡ ok digest
    capability : c ≡ c'
    quoted : quote ≡ some q

  offer-Route :
      (e : Expected) (c : FeeRouteCapability) (quote : Option OperationBoundQuote) (now : ℤ)
      {c' : FeeRouteCapability} {q : OperationBoundQuote} {digest : String}
      → plan_without_balance host e c quote now ≡ verified_operation_bound_route c' q digest
      → Route e c quote now c' q digest
  unfolding plan_without_balance
  offer-Route e c none now h = absurd (cc h)
  offer-Route e c (some r) now {c'} {q} {digest} h =
      let (d, digested) = returns (quote_digest host r) (λ x bad. ground arith) in
      let route : verified_operation_bound_route c r d
          ≡ verified_operation_bound_route c' q digest =
        ground arith in
      let same : r ≡ q = quote_of route in
      subst (λ (x : OperationBoundQuote). Route e c (some r) now c' x digest) same
        (record {
          bound = ground arith;
          eligible = ground arith;
          digested = digested ∙ ap ok (digest_of route);
          capability = capability_of route;
          quoted = refl;
        })

  plan-balance :
      (native_balance : String) (e : Expected) (c : FeeRouteCapability)
      (quote : Option OperationBoundQuote) (now : ℤ) {c' : FeeRouteCapability}
      {q : OperationBoundQuote} {digest : String}
      → fee_readiness_plan host native_balance e c quote now
        ≡ verified_operation_bound_route c' q digest
      → (balance : Decimal) × (decimal_string native_balance none ≡ ok balance)
        × (is_zero balance ≡ true)
        × (plan_without_balance host e c quote now ≡ verified_operation_bound_route c' q digest)
  unfolding fee_readiness_plan plan_for
  plan-balance native_balance e c quote now h =
      let (balance, read) = returns (decimal_string native_balance none) (λ x bad. ground arith) in
      (balance, read, ground arith, ground arith)

  -- A plan that offers a route is for the capability and quote it was asked about, and only
  -- without native balance: the evidence is verified, reviewed, current and not revoked; the quote
  -- is signed, current, for this capability, and bound to the expected account, operation and
  -- amount; the amount is positive, the estimated fee within the maximum, the failure charge
  -- within the cap.
  pub fee_readiness_plan-Offered :
      (native_balance : String) (e : Expected) (c : FeeRouteCapability)
      (quote : Option OperationBoundQuote) (now : ℤ) {c' : FeeRouteCapability}
      {q : OperationBoundQuote} {digest : String}
      → fee_readiness_plan host native_balance e c quote now
        ≡ verified_operation_bound_route c' q digest
      → (c ≡ c') × (quote ≡ some q) × Offered native_balance e c now q digest
  fee_readiness_plan-Offered native_balance e c quote now {c'} {q} {digest} h =
      let (balance, read, empty, offers) = plan-balance native_balance e c quote now h in
      let route = offer-Route e c quote now offers in
      let (live, quote_live, bounded) = eligible-parts c q now route.eligible in
      let (verified, not_revoked, reviewed, current) =
        evidence-facts c now (current_evidence c now live) in
      let (same, fresh, signed) = live-quote c q now quote_live in
      (
        route.capability,
        route.quoted,
        record {
          balance = balance;
          balance_read = read;
          no_balance = empty;
          evidence_verified = (eq_iff c.evidence_status "VERIFIED").0 verified;
          not_revoked = not_revoked;
          reviewed = reviewed;
          evidence_current = current;
          quote_current = fresh;
          signed = signed;
          same_route = same;
          bound = route.bound;
          fees = fees-FeesBounded c q bounded;
          digested = route.digested;
        },
      )
