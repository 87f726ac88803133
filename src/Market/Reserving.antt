-- ===== src/Market/Reserving.antt =====
-- `#candidateRows` and `reserveExactOutput` of packages/fx-market/src/sqlite-market.js. The identifiers of new
-- reservations are an argument.
use blueballs.Prelude.{
  ℕ, ◌+◌, ◌-◌, ◌/◌, String, Bool, ◌&&◌, ◌||◌, not, Option, none, some, List, [], ◌∷◌, ◌++◌, keep,
  any, length, min, ltb, leb, ◌==◌, str_eq, is_empty, if◌then◌else◌, Outcome, ok, err, ◌>>=◌, ◌>>◌,
  throw_if,
}
use blueballs.Prelude.Dict.{Dict}
use blueballs.Prelude.Rows.{rows}
use blueballs.Prelude.Sorting.{sort_by}
use blueballs.Market.Validation.{
  MarketError, route_id_required, same_tokens, desired_not_positive, expiry_not_future,
  route_already_reserved, unique_violation, insufficient_liquidity, normalize_address,
}
use blueballs.Market.Orders.{
  Order, reserved_order, is_after, available_sell, is_candidate, taker_pay,
}
use blueballs.Market.Book.{Hold, Market, audit, update_order, active_of_route}

-- The test of `#candidateRows` on the available quantity.
unfoldable pub keep_available : List Order → Outcome MarketError (List Order)
unfolding available_sell
keep_available [] = ok []
keep_available (o ∷ os) = do
  available ← available_sell o
  rest ← keep_available os
  ok (if ltb 0 available then o ∷ rest else rest)

unfoldable pub candidate_rows :
    (locale_after : String → String → Bool) (input output : String) (now_seconds : ℕ)
    → Dict Order
    → Outcome MarketError (List Order)
unfolding is_candidate keep_available is_after sort_by
candidate_rows locale_after input output now_seconds orders = do
  found ← keep_available (keep (is_candidate input output now_seconds) (rows orders))
  ok (sort_by (is_after locale_after) found)

-- The constraints of the table `reservations`.
unfoldable pub insert_hold : Hold → List Hold → Outcome MarketError (List Hold)
insert_hold h hs =
    if any
      (λ j.
        str_eq j.reservation_id h.reservation_id
        || (str_eq j.route_id h.route_id && str_eq j.order_hash h.order_hash))
      hs
    then err unique_violation
    else ok (hs ++ h ∷ [])

-- The variables of the loop of `reserveExactOutput`; the fills are the rows that it inserts.
pub record Progress : Type 0 where
  pub remaining : ℕ
  pub total_input : ℕ
  pub fills : List Hold
  pub market : Market

abbrev pub hold_for : (id route_id : String) (now expires_at : ℕ) → Order → (maker_sell : ℕ) → Hold
hold_for id route_id now expires_at o maker_sell = record {
  reservation_id = id;
  route_id = route_id;
  order_hash = o.order_hash;
  maker_sell = maker_sell;
  taker_pay = taker_pay o maker_sell;
  created_at = now;
  expires_at = expires_at;
  state = "ACTIVE";
}

module _ (new_id : ℕ → String) (route_id : String) (now expires_at : ℕ) where
  -- One round of the loop that is not left.
  unfoldable pub reserve_next : Progress → Order → Outcome MarketError Progress
  unfolding available_sell taker_pay insert_hold update_order
  reserve_next p o = do
    available ← available_sell o
    let maker_sell = min available p.remaining
    let h = hold_for (new_id (length p.market.holds)) route_id now expires_at o maker_sell
    holds ← insert_hold h p.market.holds
    ok (record {
      remaining = p.remaining - maker_sell;
      total_input = p.total_input + h.taker_pay;
      fills = p.fills ++ h ∷ [];
      market = record p.market {
        holds = holds;
        orders =
            update_order o.order_hash
              (λ row. record row { reserved_sell = maker_sell; state = reserved_order })
              p.market.orders;
      };
    })

  -- The loop, which ends where nothing remains.
  unfoldable pub reserve_rows : Progress → List Order → Outcome MarketError Progress
  unfolding reserve_next
  reserve_rows p [] = ok p
  reserve_rows p (o ∷ os) =
      if p.remaining == 0 then ok p else (reserve_next p o >>= λ q. reserve_rows q os)

pub record ReservedRoute : Type 0 where
  pub route_id : String
  pub input_token : String
  pub output_token : String
  pub total_input : ℕ
  pub total_output : ℕ
  pub expires_at : ℕ
  pub fills : List Hold

unfoldable pub future_expiry : (now : ℕ) → Option ℕ → Outcome MarketError ℕ
future_expiry now none = err expiry_not_future
future_expiry now (some t) = if leb t now then err expiry_not_future else ok t

-- What `reserveExactOutput` answers once its loop has ended.
unfoldable pub end_route :
    (now : ℕ) (route_id input output : String) (desired expires_at : ℕ)
    → Progress
    → Outcome MarketError (ReservedRoute × Market)
unfolding audit
end_route now route_id input output desired expires_at p = do
  throw_if (not (p.remaining == 0)) insufficient_liquidity
  ok (
    record {
      route_id = route_id;
      input_token = input;
      output_token = output;
      total_input = p.total_input;
      total_output = desired;
      expires_at = expires_at;
      fills = p.fills;
    },
    audit "ROUTE_RESERVED" none (some route_id) now p.market,
  )

abbrev pub first_round : (desired : ℕ) → Market → Progress
first_round desired m = record { remaining = desired; total_input = 0; fills = []; market = m }

-- The loop over the candidates, and what follows it.
unfoldable pub reserve_found :
    (new_id : ℕ → String) (now : ℕ) (route_id input output : String) (desired expires_at : ℕ)
    → List Order
    → Market
    → Outcome MarketError (ReservedRoute × Market)
unfolding reserve_rows end_route
reserve_found new_id now route_id input output desired expires_at candidates m =
    reserve_rows new_id route_id now expires_at (first_round desired m) candidates
    >>= end_route now route_id input output desired expires_at

-- `desired` is the number that the text of the request stands for, 0 for a negative one; `expires_at` is
-- `none` where it is no safe natural number.
unfoldable pub reserve_exact_output :
    (locale_after : String → String → Bool) (new_id : ℕ → String) (now : ℕ)
    (route_id input_token output_token : String) (desired : ℕ) (expires_at : Option ℕ)
    → Market
    → Outcome MarketError (ReservedRoute × Market)
unfolding normalize_address future_expiry candidate_rows reserve_found
reserve_exact_output locale_after new_id now route_id input_token output_token desired expires_at
      m =
    do
      throw_if (is_empty route_id) route_id_required
      input ← normalize_address input_token "inputToken"
      output ← normalize_address output_token "outputToken"
      throw_if (str_eq input output) same_tokens
      throw_if (desired == 0) desired_not_positive
      expiry ← future_expiry now expires_at
      throw_if (ltb 0 (length (active_of_route route_id m))) route_already_reserved
      candidates ← candidate_rows locale_after input output (now / 1000) m.orders
      reserve_found new_id now route_id input output desired expiry candidates m
