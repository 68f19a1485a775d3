-- ===== src/Venue/Bounds.antt =====
-- Fills stay within the order, and the state says how much is filled, after any calls.
use cryptogpt_one_intent_wal.Base.{
  ◌≡◌, refl, String, Bool, true, false, not, ◌&&◌, Option, none, some, [], ◌∷◌, str_eq, ok, arith,
  inl, inr, Bool-cases, Option-cases, Result-cases, returns, All, subst,
}
use mathlib.Core.Option.{some-injective}
use cryptogpt_one_intent_wal.Base.Dict.{Dict, lookup, insert}
use cryptogpt_one_intent_wal.Canonical.Checks.{Host}
use cryptogpt_one_intent_wal.Canonical.Decimal.{
  Decimal, is_zero, leb_decimal, decimal_string, decimal_codes,
}
use cryptogpt_one_intent_wal.Domain.Checks.{decimal_field, bounded_text, max_text_field}
use cryptogpt_one_intent_wal.Canonical.Value.{str}
use cryptogpt_one_intent_wal.Venue.{
  OrderState, simulated_accepted, simulated_partial, simulated_filled, simulated_cancelled,
  is_terminal, FakeOrder, FakeHyperliquidAdapter, Placement, new_order, check_placement,
  place_checked, place_order, cancelled, cancel_orders, cancel_all, Fill, fill_state, fill_order,
  fill_found, apply_fill, same_material,
}

-- The state agrees with what is filled out of the total; a cancelled order may hold any part.
abbrev pub state_agrees : OrderState → Decimal → Decimal → Bool
state_agrees simulated_accepted filled total = is_zero filled
state_agrees simulated_partial filled total = not (is_zero filled) && not (leb_decimal total filled)
state_agrees simulated_filled filled total = leb_decimal total filled
state_agrees simulated_cancelled filled total = true

-- The amounts of the order are decimals, the total is positive, no more than it is filled, and the
-- state agrees.
pub record IsSound (o : FakeOrder) : Type 0 where
  pub filled : Decimal
  pub total : Decimal
  pub filled_read : decimal_field o.filled_amount ≡ ok filled
  pub total_read : decimal_field o.amount ≡ ok total
  pub is_positive : is_zero total ≡ false
  pub within : leb_decimal filled total ≡ true
  pub agrees : state_agrees o.state filled total ≡ true

fill_state-agrees :
    (filled total : Decimal)
    → is_zero total ≡ false
    → leb_decimal filled total ≡ true
    → state_agrees (fill_state filled total) filled total ≡ true
fill_state-agrees filled total p w = elim (Bool-cases (leb_decimal total filled)) [
  | inl full ↦ rw (w, full) full
  | inr part ↦ elim (Bool-cases (is_zero filled)) [
    | inl empty ↦ rw (w, part, empty) empty
    | inr some_filled ↦ rw (w, part, some_filled) (rw (part, some_filled) refl)
  ]
]

-- what `fill_order` keeps and sets
fill-kept :
    (f : Fill) (o : FakeOrder) (filled total : Decimal) {later : FakeOrder}
    → decimal_field f.filled_amount ≡ ok filled
    → decimal_field o.amount ≡ ok total
    → fill_order f o ≡ ok later
    → (later.filled_amount ≡ f.filled_amount)
      × (later.amount ≡ o.amount)
      × (later.state ≡ fill_state filled total)
      × (leb_decimal filled total ≡ true)
unfolding fill_order
fill-kept f o filled total read known h = (ground arith, ground arith, ground arith, ground arith)

zero_agrees :
    (d : Decimal) → state_agrees simulated_accepted (record { coefficient = 0; scale = 0 }) d ≡ true
zero_agrees d = refl

zero_within : (d : Decimal) → leb_decimal (record { coefficient = 0; scale = 0 }) d ≡ true
zero_within d = ground arith

fill-IsSound :
    (f : Fill) (o : FakeOrder) {later : FakeOrder}
    → fill_order f o ≡ ok later
    → IsSound o
    → IsSound later
unfolding fill_order
fill-IsSound f o {later} h s =
    let (filled, read) = returns (decimal_field f.filled_amount) (λ e bad. ground arith) in
    let kept = fill-kept f o filled s.total read s.total_read h in
    record {
      filled = filled;
      total = s.total;
      filled_read = rw (kept.0) read;
      total_read = rw (kept.1) s.total_read;
      is_positive = s.is_positive;
      within = kept.3;
      agrees = rw (kept.2) (fill_state-agrees filled s.total s.is_positive (kept.3));
    }

cancelled-IsSound : (o : FakeOrder) → IsSound o → IsSound (cancelled o)
cancelled-IsSound o s = elim (Bool-cases (is_terminal o.state)) [
  | inl done ↦ rw done s
  | inr waiting ↦ rw waiting (record {
    filled = s.filled;
    total = s.total;
    filled_read = s.filled_read;
    total_read = s.total_read;
    is_positive = s.is_positive;
    within = s.within;
    agrees = refl;
  })
]

-- Every order of the table satisfies the predicate.
abbrev pub AllOrders : (FakeOrder → Type 0) → Dict FakeOrder → Type 0
AllOrders P = All (λ o. P (o.1))

All-insert :
    (P : FakeOrder → Type 0) (key : String) (o : FakeOrder) (orders : Dict FakeOrder)
    → P o
    → AllOrders P orders
    → AllOrders P (insert key o orders)
All-insert P key o [] p h = (p, tt)
All-insert P key o ((name, old) ∷ rest) p h = elim (Bool-cases (str_eq name key)) [
  | inl same ↦ rw same (p, h.1)
  | inr other ↦ rw other (h.0, All-insert P key o rest p (h.1))
]

All-lookup :
    (P : FakeOrder → Type 0) (key : String) (orders : Dict FakeOrder) {o : FakeOrder}
    → AllOrders P orders
    → lookup key orders ≡ some o
    → P o
All-lookup P key [] h e = cc
All-lookup P key ((name, old) ∷ rest) {o} h e = elim (Bool-cases (str_eq name key)) [
  | inl same ↦ subst P (some-injective old o (rw same at e)) (h.0)
  | inr other ↦ All-lookup P key rest (h.1) (rw other at e)
]

All-cancelled :
    (orders : Dict FakeOrder) → AllOrders IsSound orders → AllOrders IsSound (cancel_orders orders)
unfolding cancel_orders
All-cancelled [] h = tt
All-cancelled ((key, o) ∷ rest) h = (cancelled-IsSound o (h.0), All-cancelled rest (h.1))

module _ (host : Host) where
  -- Any call of the adapter that may change it, whether it returns or raises.
  pub data VenueStep (a : FakeHyperliquidAdapter) : FakeHyperliquidAdapter → Type 0 where
    place_call : (p : Placement) → VenueStep a (place_order host p a).1
    cancel_call : VenueStep a (cancel_all a).1
    fill_call : (f : Fill) → VenueStep a (apply_fill host f a).1

  pub data VenueSteps (a : FakeHyperliquidAdapter) : FakeHyperliquidAdapter → Type 0 where
    here : VenueSteps a a
    next : {b c : FakeHyperliquidAdapter} → VenueSteps a b → VenueStep b c → VenueSteps a c

  placement-IsSound :
      (p : Placement) (a : FakeHyperliquidAdapter)
      → check_placement host p a ≡ ok tt
      → IsSound (new_order p)
  unfolding check_placement decimal_string decimal_codes
  placement-IsSound p a h =
      let (total, read) = returns (decimal_field p.amount) (λ e bad. ground arith) in
      record {
        filled = record { coefficient = 0; scale = 0 };
        total = total;
        filled_read = refl;
        total_read = read;
        is_positive = ground arith;
        within = zero_within total;
        agrees = zero_agrees total;
      }

  place-IsSound :
      (p : Placement) (a : FakeHyperliquidAdapter) (o : Option FakeOrder)
      → check_placement host p a ≡ ok tt
      → AllOrders IsSound a.orders
      → AllOrders IsSound (place_checked host p a o).1.orders
  place-IsSound p a (some o) checked h = elim (Bool-cases (same_material host p o)) [
    | inl same ↦ rw same h
    | inr other ↦ rw other h
  ]
  place-IsSound p a none checked h =
      All-insert IsSound p.client_id (new_order p) a.orders (placement-IsSound p a checked) h

  fill_found-IsSound :
      (f : Fill) (orders : Dict FakeOrder) {o : FakeOrder}
      → fill_found f (lookup f.client_id orders) ≡ ok o
      → AllOrders IsSound orders
      → IsSound o
  fill_found-IsSound f orders e h = elim (Option-cases (lookup f.client_id orders)) [
    | inl missing ↦ absurd (ground arith)
    | inr (old, found) ↦
        fill-IsSound f old (rw found at e) (All-lookup IsSound f.client_id orders h found)
  ]

  step-IsSound :
      {a b : FakeHyperliquidAdapter}
      → VenueStep a b
      → AllOrders IsSound a.orders
      → AllOrders IsSound b.orders
  unfolding place_order cancel_all apply_fill
  step-IsSound {a} (place_call p) h = elim (Result-cases (check_placement host p a)) [
    | inr (e, bad) ↦ rw (place_order, bad) h
    | inl (u, checked) ↦
        rw (place_order, checked) (place-IsSound p a (lookup p.client_id a.orders) checked h)
  ]
  step-IsSound {a} cancel_call h = elim (Bool-cases a.emergency_cancel_enabled) [
    | inl enabled ↦ rw enabled (All-cancelled a.orders h)
    | inr disabled ↦ rw disabled h
  ]
  step-IsSound {a} (fill_call f) h =
      elim (Result-cases (bounded_text host (str f.client_id) max_text_field)) [
        | inr (e, bad) ↦ rw bad h
        | inl (u, text) ↦ elim (Result-cases (fill_found f (lookup f.client_id a.orders))) [
          | inr (e, bad) ↦ rw (text, bad) h
          | inl (o, filled) ↦
              rw (text, filled)
                (All-insert IsSound f.client_id o a.orders (fill_found-IsSound f a.orders filled h)
                  h)
        ]
      ]

  -- From an adapter without orders, after any calls, every order has a positive decimal amount, a
  -- filled amount that is a decimal no greater than it, and the state that this part calls for.
  pub fills_stay_within_the_order :
      {a b : FakeHyperliquidAdapter} → a.orders ≡ [] → VenueSteps a b → AllOrders IsSound b.orders
  fills_stay_within_the_order fresh here = rw fresh tt
  fills_stay_within_the_order fresh (next steps call) =
      step-IsSound call (fills_stay_within_the_order fresh steps)
