-- ===== src/Venue/Tests.antt =====
-- An order that is filled in parts, and the theorems at it. The host is a stand-in: every text is in
-- NFC, and every digest is one text.
use cryptogpt_one_intent_wal.Base.{◌≡◌, refl, true, some, [], ◌∷◌, ok, err}
use cryptogpt_one_intent_wal.Base.Dict.{lookup}
use cryptogpt_one_intent_wal.Base.Int.{pos}
use cryptogpt_one_intent_wal.Canonical.Checks.{
  Host, validate_string, is_default_ignorable, visit, ensure_nfc,
}
use cryptogpt_one_intent_wal.Canonical.Bytes.{leb_units}
use cryptogpt_one_intent_wal.Canonical.Decimal.{decimal_string, decimal_codes}
use cryptogpt_one_intent_wal.Domain.Checks.{bounded_text, domain_error}
use cryptogpt_one_intent_wal.Venue.{
  FakeOrder, FakeHyperliquidAdapter, Placement, Fill, new_order, simulated_filled, read_account,
  check_placement, place_order, cancel_orders, cancel_all, fill_order, apply_fill,
  validate_perpetual_review,
}
use cryptogpt_one_intent_wal.Venue.Bounds.{
  AllOrders, IsSound, VenueSteps, here, next, place_call, cancel_call, fill_call,
  fills_stay_within_the_order,
}
use cryptogpt_one_intent_wal.Venue.Final.{terminal_orders_are_final}

program : Unit {0}
unfolding validate_string is_default_ignorable visit ensure_nfc leb_units decimal_string
    decimal_codes bounded_text read_account check_placement place_order cancel_orders cancel_all
    fill_order apply_fill validate_perpetual_review
program = tt

abbrev host : Host
host = record { is_nfc = λ _. true; sha256 = λ _. "digest" }

abbrev empty_venue : FakeHyperliquidAdapter
empty_venue = record { testnet_write_enabled = true; orders = []; emergency_cancel_enabled = true }

abbrev placement : Placement
placement = record {
  account = "0xabc";
  market_id = "BTC-PERP";
  side = "buy";
  amount = "2.50";
  client_id = "order-1";
}

abbrev fill : Fill
fill = record {
  client_id = "order-1";
  filled_amount = "2.5";
  liquidation_price = some "100";
  reference_price_age_seconds = some (pos 3);
}

abbrev placed : FakeHyperliquidAdapter
placed = (place_order host placement empty_venue).1

abbrev filled : FakeHyperliquidAdapter
filled = (apply_fill host fill placed).1

abbrev filled_order : FakeOrder
filled_order = record (new_order placement) {
  state = simulated_filled;
  filled_amount = "2.5";
  liquidation_price = some "100";
  reference_price_age_seconds = some (pos 3);
}

run :
    (lookup "order-1" filled.orders ≡ some filled_order)
    × ((apply_fill host (record fill { filled_amount = "3" }) placed).0 ≡ err domain_error)
    × ((apply_fill host fill filled).0 ≡ err domain_error)
    × (validate_perpetual_review host "order-1" (pos 10) filled ≡ ok tt)
    × (read_account host "0xabc" filled ≡ ok ("order-1" ∷ []))
    × ((cancel_all filled).0 ≡ ok ("order-1" ∷ []))
unfolding program
run = (refl, refl, refl, refl, refl, refl)

calls : VenueSteps host empty_venue filled
calls = next (next here (place_call placement)) (fill_call fill)

fills_stay_within_the_order_example : AllOrders IsSound filled.orders
fills_stay_within_the_order_example = fills_stay_within_the_order host refl calls

terminal_orders_are_final_example :
    lookup "order-1" (cancel_all filled).1.orders ≡ some filled_order
terminal_orders_are_final_example =
    terminal_orders_are_final host "order-1" filled_order (run.0) refl (next here cancel_call)
