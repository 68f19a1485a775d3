-- ===== src/Venue/Final.antt =====
-- A filled or cancelled order stays as it is, whatever calls the adapter sees.
use cryptogpt_one_intent_wal.Base.{
  ◌≡◌, refl, String, true, false, none, some, [], ◌∷◌, str_eq, ok, arith, eq_iff, inl, inr,
  Bool-cases, Option-cases, Result-cases, ap, ◌∙◌,
}
use mathlib.Core.Option.{some-injective}
use cryptogpt_one_intent_wal.Base.Dict.{Dict, lookup, insert, lookup-insert}
use cryptogpt_one_intent_wal.Canonical.Value.{str}
use cryptogpt_one_intent_wal.Canonical.Checks.{Host}
use cryptogpt_one_intent_wal.Domain.Checks.{bounded_text, max_text_field}
use cryptogpt_one_intent_wal.Venue.{
  is_terminal, FakeOrder, FakeHyperliquidAdapter, new_order, check_placement, same_material,
  place_order, cancel_orders, cancel_all, Fill, fill_order, fill_found, apply_fill,
}
use cryptogpt_one_intent_wal.Venue.Bounds.{
  VenueStep, place_call, cancel_call, fill_call, VenueSteps, here, next,
}

lookup-cancel_orders :
    (key : String) (orders : Dict FakeOrder) {o : FakeOrder}
    → lookup key orders ≡ some o
    → is_terminal o.state ≡ true
    → lookup key (cancel_orders orders) ≡ some o
unfolding cancel_orders
lookup-cancel_orders key [] e t = cc
lookup-cancel_orders key ((name, old) ∷ rest) {o} e t = elim (Bool-cases (str_eq name key)) [
  | inl same ↦ let it : old ≡ o = some-injective old o (rw same at e) in rw (same, it, t) refl
  | inr other ↦ rw other (lookup-cancel_orders key rest (rw other at e) t)
]

fill-not_terminal :
    (f : Fill) (o : FakeOrder) {later : FakeOrder}
    → fill_order f o ≡ ok later
    → is_terminal o.state ≡ false
unfolding fill_order
fill-not_terminal f o h = ground arith

module _ (host : Host) where
  insert-other :
      (key name : String) (orders : Dict FakeOrder) (o new : FakeOrder)
      → str_eq name key ≡ false
      → lookup key orders ≡ some o
      → lookup key (insert name new orders) ≡ some o
  insert-other key name orders o new apart e = rw (lookup-insert name key new orders, apart) e

  missing_differs :
      (key name : String) (orders : Dict FakeOrder) {o : FakeOrder}
      → lookup name orders ≡ none
      → lookup key orders ≡ some o
      → str_eq name key ≡ false
  missing_differs key name orders missing e = elim (Bool-cases (str_eq name key)) [
    | inr apart ↦ apart
    | inl same ↦ absurd (cc (missing, e, ap (λ k. lookup k orders) ((eq_iff name key).0 same)))
  ]

  filled_differs :
      (key : String) (f : Fill) (orders : Dict FakeOrder) {o new : FakeOrder}
      → fill_found f (lookup f.client_id orders) ≡ ok new
      → lookup key orders ≡ some o
      → is_terminal o.state ≡ true
      → str_eq f.client_id key ≡ false
  filled_differs key f orders {o} filled e t = elim (Bool-cases (str_eq f.client_id key)) [
    | inr apart ↦ apart
    | inl same ↦
        let found : lookup f.client_id orders ≡ some o =
          ap (λ k. lookup k orders) ((eq_iff f.client_id key).0 same) ∙ e in
        absurd (cc (t, fill-not_terminal f o (rw found at filled)))
  ]

  step-kept :
      (key : String) {a b : FakeHyperliquidAdapter} (o : FakeOrder)
      → VenueStep host a b
      → lookup key a.orders ≡ some o
      → is_terminal o.state ≡ true
      → lookup key b.orders ≡ some o
  unfolding place_order cancel_all apply_fill
  step-kept key {a} o (place_call p) e t = elim (Result-cases (check_placement host p a)) [
    | inr (x, bad) ↦ rw (place_order, bad) e
    | inl (u, checked) ↦ elim (Option-cases (lookup p.client_id a.orders)) [
      | inr (old, found) ↦ elim (Bool-cases (same_material host p old)) [
        | inl same ↦ rw (place_order, checked, found, same) e
        | inr other ↦ rw (place_order, checked, found, other) e
      ]
      | inl missing ↦
          rw (place_order, checked, missing)
            (insert-other key p.client_id a.orders o (new_order p)
              (missing_differs key p.client_id a.orders missing e) e)
    ]
  ]
  step-kept key {a} o cancel_call e t = elim (Bool-cases a.emergency_cancel_enabled) [
    | inl enabled ↦ rw enabled (lookup-cancel_orders key a.orders e t)
    | inr disabled ↦ rw disabled e
  ]
  step-kept key {a} o (fill_call f) e t =
      elim (Result-cases (bounded_text host (str f.client_id) max_text_field)) [
        | inr (x, bad) ↦ rw bad e
        | inl (u, text) ↦ elim (Result-cases (fill_found f (lookup f.client_id a.orders))) [
          | inr (x, bad) ↦ rw (text, bad) e
          | inl (new, filled) ↦
              rw (text, filled)
                (insert-other key f.client_id a.orders o new
                  (filled_differs key f a.orders filled e t) e)
        ]
      ]

  -- An order that is filled or cancelled keeps its state, its filled amount and all else, whatever
  -- calls the adapter sees afterwards.
  pub terminal_orders_are_final :
      (client_id : String) {a b : FakeHyperliquidAdapter} (o : FakeOrder)
      → lookup client_id a.orders ≡ some o
      → is_terminal o.state ≡ true
      → VenueSteps host a b
      → lookup client_id b.orders ≡ some o
  terminal_orders_are_final client_id o e t here = e
  terminal_orders_are_final client_id o e t (next steps call) =
      step-kept client_id o call (terminal_orders_are_final client_id o e t steps) t
