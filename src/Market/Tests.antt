-- ===== src/Market/Tests.antt =====
-- A run of the market: an order is admitted, a part of it reserved, and the settlement confirmed; and examples
-- of what is proved.
use blueballs.Prelude.{
  ℕ, ◌≡◌, refl, String, Bool, true, false, none, some, List, [], ◌∷◌, ok, str_ltb,
}
use blueballs.Prelude.Dict.{lookup, insert}
use blueballs.Prelude.Sorting.{sort_by, insert_by}
use blueballs.Market.Validation.{
  Payload, Admission, validate_admission, validate_maker_order, check_order, normalize_address,
  require_bytes32, require_signature, to_positive, safe_natural,
}
use blueballs.Market.Orders.{
  Order, new_order, reserved_order, available_sell, is_candidate, taker_pay, ceil_div,
}
use blueballs.Market.Book.{Hold, Market, admit_order, store_order, audit, update_order}
use blueballs.Market.Reserving.{
  ReservedRoute, reserve_exact_output, future_expiry, candidate_rows, keep_available, reserve_found,
  reserve_rows, reserve_next, insert_hold, end_route, hold_for,
}
use blueballs.Market.Closing.{Fill, confirm_route}
use blueballs.Market.Soundness.Closings.{Sound}
use blueballs.Market.Soundness.Confirming.{confirm_route_succeeds}
use blueballs.Market.Soundness.Reserving.{IsExact, reserve_exact_output-IsExact}
use blueballs.Market.Soundness.History.{
  empty_market, Reach, begin, next, admit, reserve, Reach-Sound,
}

abbrev token_a : String
token_a = "0x00000000000000000000000000000000000000aa"

abbrev token_b : String
token_b = "0x00000000000000000000000000000000000000bb"

abbrev maker : String
maker = "0x00000000000000000000000000000000000000cc"

abbrev hash : String
hash = "0x00000000000000000000000000000000000000000000000000000000000000dd"

abbrev payload : Payload
payload = record {
  order_hash = hash;
  order = record {
    maker = maker;
    sell_token = token_a;
    buy_token = token_b;
    sell_amount = "10";
    buy_amount = "15";
    recipient = maker;
    valid_after = some 0;
    valid_until = some 100;
    epoch = some 1;
    salt = hash;
  };
  signature = "0xabcd";
  policy_authorization_id = "auth";
  policy_snapshot_hash = hash;
}

abbrev admission : Admission
admission = record {
  order_hash = hash;
  order = record {
    maker = maker;
    sell_token = token_a;
    buy_token = token_b;
    sell_amount = 10;
    buy_amount = 15;
    recipient = maker;
    valid_after = 0;
    valid_until = 100;
    epoch = 1;
    salt = hash;
  };
  signature = "0xabcd";
  policy_authorization_id = "auth";
  policy_snapshot_hash = hash;
}

abbrev accept : Admission → Bool
accept a = true

abbrev order : Order
unfolding new_order
order = new_order 1 5 admission

abbrev admitted : Market
unfolding audit
admitted =
    audit "ORDER_ADMITTED" (some hash) none 5 (record empty_market { orders = (hash, order) ∷ [] })

admitted_lem : admit_order accept accept 5 payload empty_market ≡ ok (order, admitted)
unfolding admit_order validate_admission validate_maker_order check_order normalize_address
    require_bytes32 require_signature to_positive safe_natural store_order new_order audit lookup
    insert
admitted_lem = refl

abbrev hold : Hold
unfolding taker_pay
hold = hold_for "r0" "route" 7 50 order 4

abbrev new_id : ℕ → String
new_id n = "r0"

abbrev route : ReservedRoute
route = record {
  route_id = "route";
  input_token = token_b;
  output_token = token_a;
  total_input = 6;
  total_output = 4;
  expires_at = 50;
  fills = hold ∷ [];
}

abbrev reserved : Market
unfolding audit
reserved = audit "ROUTE_RESERVED" none (some "route") 7 (record admitted {
  orders = (hash, record order { reserved_sell = 4; state = reserved_order }) ∷ [];
  holds = hold ∷ [];
})

reserved_lem :
    reserve_exact_output str_ltb new_id 7 "route" token_b token_a 4 (some 50) admitted
    ≡ ok (route, reserved)
unfolding reserve_exact_output normalize_address future_expiry candidate_rows keep_available
    available_sell is_candidate sort_by insert_by reserve_found reserve_rows reserve_next
    insert_hold update_order end_route new_order audit taker_pay ceil_div lookup insert
reserved_lem = refl

reach_admitted : Reach admitted
reach_admitted = next begin (admit accept accept 5 payload order admitted_lem)

Reach-Sound_example : Sound reserved
Reach-Sound_example = Reach-Sound (
    next (next begin (admit accept accept 5 payload order admitted_lem))
      (reserve str_ltb new_id 7 "route" token_b token_a 4 (some 50) route reserved_lem))

reserve_exact_output-IsExact_example : IsExact admitted.holds 4 route reserved
reserve_exact_output-IsExact_example =
    reserve_exact_output-IsExact str_ltb new_id 7 "route" token_b token_a 4 (some 50) admitted
      (Reach-Sound reach_admitted) reserved_lem

abbrev fill : Fill
fill = record { order_hash = hash; maker_sell = 4; taker_pay = 6 }

confirm_route_succeeds_example :
    (m' : Market) × (confirm_route 9 "route" "event" (fill ∷ []) reserved ≡ ok (false, m'))
    × Sound m'
    × ((later : ℕ) (others : List Fill)
        → confirm_route later "route" "event" others m' ≡ ok (true, m'))
unfolding audit taker_pay ceil_div order
confirm_route_succeeds_example =
    confirm_route_succeeds 9 "route" "event" (fill ∷ []) reserved
      (Reach-Sound (
        next reach_admitted
          (reserve str_ltb new_id 7 "route" token_b token_a 4 (some 50) route reserved_lem)))
      refl refl refl (refl, tt)
