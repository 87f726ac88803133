-- ===== src/Market/Withdrawing.antt =====
-- How orders are taken out of the book in packages/fx-market/src/sqlite-market.js, and put back:
-- `blockPolicy`, `unblockPolicy`, `cancelOffchain` and `markOnChainInvalidated`.
use blueballs.Prelude.{
  ℕ, String, Bool, true, false, ◌||◌, none, some, List, [], ◌∷◌, map, length, if◌then◌else◌,
  Outcome, ok, err,
}
use blueballs.Prelude.Dict.{lookup}
use blueballs.Market.Validation.{MarketError, order_missing, order_cancelled}
use blueballs.Market.Orders.{Order, policy_blocked_order, cancelled, filled_state}
use blueballs.Market.Book.{Hold, Market, audit, update_order, with_state, active_of_order}

-- The rows of the reservations, without their orders.
unfoldable pub release_holds : List Hold → List Hold → List Hold
release_holds [] hs = hs
release_holds (h ∷ found) hs = release_holds found (map (with_state h.reservation_id "RELEASED") hs)

-- What `blockPolicy` and `cancelOffchain` share: the order's reservations are released, and its row changes.
abbrev pub withdraw : String → (Order → Order) → Market → Market
withdraw order_hash change m = record m {
  holds = release_holds (active_of_order order_hash m) m.holds;
  orders = update_order order_hash change m.orders;
}

unfoldable pub blocked : String → Order → Order
blocked reason o = record o {
  policy_blocked = true;
  policy_reason = some reason;
  reserved_sell = 0;
  state = policy_blocked_order;
}

unfoldable pub block_policy :
    (now : ℕ) → (order_hash reason : String) → Market → Outcome MarketError (ℕ × Market)
unfolding release_holds update_order blocked audit
block_policy now order_hash reason m = elim (lookup order_hash m.orders) [
  | none ↦ err order_missing
  | some o ↦ ok (
    length (active_of_order order_hash m),
    audit "POLICY_BLOCKED" (some order_hash) none now (withdraw order_hash (blocked reason) m),
  )
]

unfoldable pub unblocked : Order → Order
unfolding filled_state
unblocked o = record o { policy_blocked = false; policy_reason = none; state = filled_state o }

unfoldable pub unblock_policy :
    (now : ℕ) → (order_hash : String) → Market → Outcome MarketError Market
unfolding update_order unblocked audit
unblock_policy now order_hash m = elim (lookup order_hash m.orders) [
  | none ↦ err order_missing
  | some o ↦
      if o.offchain_hidden || o.onchain_invalidated
      then err order_cancelled
      else ok (
          audit "POLICY_UNBLOCKED" (some order_hash) none now
            (record m { orders = update_order order_hash unblocked m.orders }))
]

unfoldable pub hidden : (on_chain_invalidated : Bool) → Order → Order
hidden on_chain_invalidated o = record o {
  offchain_hidden = true;
  onchain_invalidated = on_chain_invalidated || o.onchain_invalidated;
  reserved_sell = 0;
  state = cancelled;
}

unfoldable pub cancel_offchain :
    (now : ℕ)
    → (order_hash : String) (on_chain_invalidated : Bool) → Market
    → Outcome MarketError (ℕ × Market)
unfolding release_holds update_order hidden audit
cancel_offchain now order_hash on_chain_invalidated m = elim (lookup order_hash m.orders) [
  | none ↦ err order_missing
  | some o ↦ ok (
    length (active_of_order order_hash m),
    audit "ORDER_CANCELLED" (some order_hash) none now
        (withdraw order_hash (hidden on_chain_invalidated) m),
  )
]

unfoldable pub mark_on_chain_invalidated :
    (now : ℕ) → (order_hash : String) → Market → Outcome MarketError Market
unfolding update_order hidden audit
mark_on_chain_invalidated now order_hash m = elim (lookup order_hash m.orders) [
  | none ↦ err order_missing
  | some o ↦ ok (
      audit "ONCHAIN_INVALIDATION_OBSERVED" (some order_hash) none now
        (record m { orders = update_order order_hash (hidden true) m.orders }))
]
