-- ===== src/Market/Closing.antt =====
-- How reservations end in packages/fx-market/src/sqlite-market.js: `releaseRoute`, `expireReservations`,
-- `confirmRoute` and `failRoute`.
use blueballs.Prelude.{
  ℕ, ◌+◌, String, Bool, true, false, ◌&&◌, ◌||◌, not, Option, none, some, List, [], ◌∷◌, ◌++◌, map,
  keep, any, length, ltb, leb, ◌==◌, str_eq, is_empty, if◌then◌else◌, unique, Outcome, ok, err,
  ◌>>=◌, ◌>>◌, throw_if, require,
}
use blueballs.Prelude.Dict.{lookup, insert}
use blueballs.Market.Validation.{
  MarketError, event_id_required, no_active_reservations, fill_count_mismatch, fill_mismatch,
  exceeds_order, order_missing,
}
use blueballs.Market.Orders.{Order, partially_filled, filled_order, restored}
use blueballs.Market.Book.{
  Hold, ChainEvent, Market, audit, update_order, is_active, with_state, active_of_route,
}

-- The row of a reservation is closed, and its order restored.
unfoldable pub close_hold : (reason : String) → Market → Hold → Market
unfolding update_order restored
close_hold reason m h = record m {
  holds = map (with_state h.reservation_id reason) m.holds;
  orders = update_order h.order_hash restored m.orders;
}

unfoldable pub close_holds : (reason : String) → Market → List Hold → Market
unfolding close_hold
close_holds reason m [] = m
close_holds reason m (h ∷ hs) = close_holds reason (close_hold reason m h) hs

unfoldable pub release_route : (now : ℕ) → (route_id reason : String) → Market → ℕ × Market
unfolding close_holds audit
release_route now route_id reason m =
    let found = active_of_route route_id m in
    let m' = close_holds reason m found in
    (
      length found,
      if ltb 0 (length found) then audit "ROUTE_RELEASED" none (some route_id) now m' else m',
    )

-- The loop of `expireReservations` over the routes.
unfoldable pub expire_routes : (now : ℕ) → Market → List String → ℕ × Market
unfolding close_holds audit
expire_routes now m [] = (0, m)
expire_routes now m (route_id ∷ routes) =
    let found = active_of_route route_id m in
    let (count, end) =
      expire_routes now
        (audit "ROUTE_EXPIRED" none (some route_id) now (close_holds "EXPIRED" m found)) routes in
    (length found + count, end)

unfoldable pub expire_reservations : (now : ℕ) → Market → ℕ × Market
unfolding expire_routes
expire_reservations now m =
    expire_routes now m
      (unique (map (λ h. h.route_id) (keep (λ h. is_active h && leb h.expires_at now) m.holds)))

-- A fill that the settlement reports.
pub record Fill : Type 0 where
  pub order_hash : String
  pub maker_sell : ℕ
  pub taker_pay : ℕ

abbrev pub matches : Fill → Hold → Bool
matches f h =
    str_eq f.order_hash h.order_hash && f.maker_sell == h.maker_sell && f.taker_pay == h.taker_pay

-- The row of an order after a confirmed fill.
unfoldable pub filled_by : Hold → Order → Order
filled_by h o = record o {
  filled_sell = o.filled_sell + h.maker_sell;
  filled_buy = o.filled_buy + h.taker_pay;
  reserved_sell = 0;
  state =
      if (o.filled_sell + h.maker_sell) == o.sell_amount then filled_order else partially_filled;
}

unfoldable pub confirm_order : Hold → Option Order → Outcome MarketError Order
unfolding filled_by
confirm_order h none = err order_missing
confirm_order h (some o) =
    if ltb o.sell_amount (o.filled_sell + h.maker_sell)
      || ltb o.buy_amount (o.filled_buy + h.taker_pay)
    then err exceeds_order
    else ok (filled_by h o)

-- One round of the loop of `confirmRoute`.
unfoldable pub confirm_hold : Fill → Hold → Market → Outcome MarketError Market
unfolding confirm_order
confirm_hold f h m = do
  require (matches f h) fill_mismatch
  o ← confirm_order h (lookup h.order_hash m.orders)
  ok (record m {
    orders = insert h.order_hash o m.orders;
    holds = map (with_state h.reservation_id "CONSUMED") m.holds;
  })

-- The lists are of equal length.
unfoldable pub confirm_holds : List Fill → List Hold → Market → Outcome MarketError Market
unfolding confirm_hold
confirm_holds (f ∷ fs) (h ∷ hs) m = confirm_hold f h m >>= confirm_holds fs hs
confirm_holds fs [] m = ok m
confirm_holds [] (h ∷ hs) m = ok m

abbrev pub has_event : String → List ChainEvent → Bool
has_event event_id es = any (λ e. str_eq e.event_id event_id) es

abbrev pub event_of : (event_id route_id kind : String) → (now : ℕ) → ChainEvent
event_of event_id route_id kind now = record {
  event_id = event_id;
  route_id = route_id;
  kind = kind;
  created_at = now;
}

-- `confirmRoute`, of an event that is new.
unfoldable pub confirm_new :
    (now : ℕ)
    → (route_id event_id : String) → List Fill
    → Market
    → Outcome MarketError (Bool × Market)
unfolding confirm_holds audit
confirm_new now route_id event_id fills m = do
  let found = active_of_route route_id m
  throw_if (length found == 0) no_active_reservations
  throw_if (not (length found == length fills)) fill_count_mismatch
  m' ← confirm_holds fills found m
  ok (
    false,
    audit "SETTLEMENT_CONFIRMED" none (some route_id) now (record m' {
      chain_events = m'.chain_events ++ event_of event_id route_id "SETTLEMENT_CONFIRMED" now ∷ [];
    }),
  )

-- The answer says whether the event is a duplicate.
unfoldable pub confirm_route :
    (now : ℕ)
    → (route_id event_id : String) → List Fill
    → Market
    → Outcome MarketError (Bool × Market)
unfolding confirm_new
confirm_route now route_id event_id fills m =
    if is_empty event_id
    then err event_id_required
    else if has_event event_id m.chain_events
    then ok (true, m)
    else confirm_new now route_id event_id fills m

-- `eventId` is "" where there is none. The answer says whether the event is a duplicate, and how many
-- reservations were released.
unfoldable pub fail_route : (now : ℕ) → (route_id event_id : String) → Market → Bool × ℕ × Market
unfolding close_holds audit
fail_route now route_id event_id m =
    if not (is_empty event_id) && has_event event_id m.chain_events
    then (true, 0, m)
    else let noted = if is_empty event_id then m else record m {
      chain_events = m.chain_events ++ event_of event_id route_id "SETTLEMENT_FAILED" now ∷ [];
    } in
      let found = active_of_route route_id m in
      (
        false,
        length found,
        audit "SETTLEMENT_FAILED" none (some route_id) now (close_holds "RELEASED" noted found),
      )
