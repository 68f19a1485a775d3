-- ===== src/Venue.antt =====
-- adapters/hyperliquid/fake_adapter.py: a venue that simulates orders, fills and cancels. The orders are
-- a dictionary by client id; a call returns its result or exception beside the adapter, and an
-- order that the source returns by reference is returned as a value.
pub mod Bounds
pub mod Final
mod Tests
use cryptogpt_one_intent_wal.Base.{
  ℕ, String, Bool, true, false, not, ◌&&◌, ◌||◌, Option, none, some, List, [], ◌∷◌, str_eq,
  if◌then◌else◌, Result, ok, err, ◌>>=◌, ◌>>◌, guard, map, select, sorted,
}
use cryptogpt_one_intent_wal.Base.Dict.{Dict, lookup, insert}
use cryptogpt_one_intent_wal.Base.Int.{ℤ, pos, leb_ℤ}
use cryptogpt_one_intent_wal.Base.Text.{codes}
use cryptogpt_one_intent_wal.Canonical.Value.{str}
use cryptogpt_one_intent_wal.Canonical.Checks.{Host}
use cryptogpt_one_intent_wal.Canonical.Decimal.{Decimal, is_zero, leb_decimal}
use cryptogpt_one_intent_wal.Canonical.Bytes.{leb_units}
use cryptogpt_one_intent_wal.Domain.Checks.{
  Error, domain_error, bounded_text, decimal_field, max_text_field,
}

pub data OrderState : Type 0 where
  simulated_accepted simulated_partial simulated_filled simulated_cancelled : OrderState

pub record FakeOrder : Type 0 where
  pub account : String
  pub client_id : String
  pub market_id : String
  pub side : String
  pub amount : String
  pub state : OrderState
  pub filled_amount : String
  pub liquidation_price : Option String
  pub reference_price_age_seconds : Option ℤ

pub record FakeHyperliquidAdapter : Type 0 where
  pub testnet_write_enabled : Bool
  pub orders : Dict FakeOrder
  pub emergency_cancel_enabled : Bool

-- the arguments of `place_order`
pub record Placement : Type 0 where
  pub account : String
  pub market_id : String
  pub side : String
  pub amount : String
  pub client_id : String

abbrev pub new_order : Placement → FakeOrder
new_order p = record {
  account = p.account;
  client_id = p.client_id;
  market_id = p.market_id;
  side = p.side;
  amount = p.amount;
  state = simulated_accepted;
  filled_amount = "0";
  liquidation_price = none;
  reference_price_age_seconds = none;
}

abbrev in_text_order : String → String → Bool
in_text_order s t = leb_units (codes s) (codes t)

abbrev client_ids : Dict FakeOrder → List String
client_ids orders = map (λ o. o.0) orders

abbrev pub is_terminal : OrderState → Bool
is_terminal simulated_filled = true
is_terminal simulated_cancelled = true
is_terminal _ = false

module _ (host : Host) where
  -- `read_account`: the client ids of the account's orders
  unfoldable pub read_account : String → FakeHyperliquidAdapter → Result Error (List String)
  read_account account a = do
    bounded_text host (str account) max_text_field
    ok (
        sorted in_text_order
          (client_ids (select (λ (o : String × FakeOrder). str_eq o.1.account account) a.orders)))

  -- the checks of `place_order`
  unfoldable pub check_placement : Placement → FakeHyperliquidAdapter → Result Error (Unit {0})
  check_placement p a = do
    guard a.testnet_write_enabled domain_error
    bounded_text host (str p.account) max_text_field
    bounded_text host (str p.market_id) max_text_field
    bounded_text host (str p.client_id) max_text_field
    guard (str_eq p.side "buy" || str_eq p.side "sell") domain_error
    amount ← decimal_field p.amount
    guard (not (is_zero amount)) domain_error

  abbrev pub same_material : Placement → FakeOrder → Bool
  same_material p o =
      str_eq o.account p.account
      && str_eq o.market_id p.market_id
      && str_eq o.side p.side
      && str_eq o.amount p.amount

  abbrev pub place_checked :
      Placement
      → FakeHyperliquidAdapter
      → Option FakeOrder
      → Result Error FakeOrder × FakeHyperliquidAdapter
  place_checked p a (some o) = if same_material p o then (ok o, a) else (err domain_error, a)
  place_checked p a none =
      (ok (new_order p), record a { orders = insert p.client_id (new_order p) a.orders })

  unfoldable pub place_order :
      Placement → FakeHyperliquidAdapter → Result Error FakeOrder × FakeHyperliquidAdapter
  place_order p a = elim (check_placement p a) [
    | err e ↦ (err e, a)
    | ok _ ↦ place_checked p a (lookup p.client_id a.orders)
  ]

abbrev pub cancelled : FakeOrder → FakeOrder
cancelled o = if is_terminal o.state then o else record o { state = simulated_cancelled }

unfoldable pub cancel_orders : Dict FakeOrder → Dict FakeOrder
cancel_orders [] = []
cancel_orders ((key, o) ∷ rest) = (key, cancelled o) ∷ cancel_orders rest

-- `cancel_all`
unfoldable pub cancel_all :
    FakeHyperliquidAdapter → Result Error (List String) × FakeHyperliquidAdapter
cancel_all a =
    if a.emergency_cancel_enabled
    then (
      ok (sorted in_text_order (client_ids a.orders)),
      record a { orders = cancel_orders a.orders },
    )
    else (err domain_error, a)

-- the arguments of `apply_fill`
pub record Fill : Type 0 where
  pub client_id : String
  pub filled_amount : String
  pub liquidation_price : Option String
  pub reference_price_age_seconds : Option ℤ

abbrev price_is_valid : Option String → Result Error (Unit {0})
price_is_valid none = ok tt
price_is_valid (some s) = decimal_field s >>= λ d. guard (not (is_zero d)) domain_error

abbrev age_is_valid : Option ℤ → Bool
age_is_valid none = true
age_is_valid (some z) = leb_ℤ (pos 0) z

abbrev equal_decimal : Decimal → Decimal → Bool
equal_decimal a b = leb_decimal a b && leb_decimal b a

-- the state after a fill of `filled` out of `total`
abbrev pub fill_state : Decimal → Decimal → OrderState
fill_state filled total =
    if equal_decimal filled total
    then simulated_filled
    else if is_zero filled
    then simulated_accepted
    else simulated_partial

-- the checks of `apply_fill` on an order, and the order that it becomes; no decimal text is negative
unfoldable pub fill_order : Fill → FakeOrder → Result Error FakeOrder
fill_order f o = do
  guard (not (is_terminal o.state)) domain_error
  filled ← decimal_field f.filled_amount
  total ← decimal_field o.amount
  guard (leb_decimal filled total) domain_error
  price_is_valid f.liquidation_price
  guard (age_is_valid f.reference_price_age_seconds) domain_error
  ok (record o {
    filled_amount = f.filled_amount;
    state = fill_state filled total;
    liquidation_price = f.liquidation_price;
    reference_price_age_seconds = f.reference_price_age_seconds;
  })

abbrev pub fill_found : Fill → Option FakeOrder → Result Error FakeOrder
fill_found f none = err domain_error
fill_found f (some o) = fill_order f o

abbrev store_filled :
    String
    → FakeHyperliquidAdapter
    → Result Error FakeOrder
    → Result Error FakeOrder × FakeHyperliquidAdapter
store_filled client_id a (err e) = (err e, a)
store_filled client_id a (ok o) = (ok o, record a { orders = insert client_id o a.orders })

module _ (host : Host) where
  unfoldable pub apply_fill :
      Fill → FakeHyperliquidAdapter → Result Error FakeOrder × FakeHyperliquidAdapter
  apply_fill f a = store_filled f.client_id a (
      bounded_text host (str f.client_id) max_text_field
      >> fill_found f (lookup f.client_id a.orders))

  abbrev review_order : ℤ → Option FakeOrder → Result Error (Unit {0})
  review_order limit none = err domain_error
  review_order limit (some o) = elim (o.liquidation_price) [
    | none ↦ err domain_error
    | some price ↦ elim (o.reference_price_age_seconds) [
      | none ↦ err domain_error
      | some age ↦ do
        d ← decimal_field price
        guard (not (is_zero d)) domain_error
        guard (leb_ℤ (pos 0) age && leb_ℤ age limit) domain_error
    ]
  ]

  -- `validate_perpetual_review`
  unfoldable pub validate_perpetual_review :
      String → ℤ → FakeHyperliquidAdapter → Result Error (Unit {0})
  validate_perpetual_review client_id now_age_limit a = do
    bounded_text host (str client_id) max_text_field
    guard (leb_ℤ (pos 0) now_age_limit) domain_error
    review_order now_age_limit (lookup client_id a.orders)
