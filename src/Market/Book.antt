-- ===== src/Market/Book.antt =====
-- The tables of `SqliteFxMarket` of packages/fx-market/src/sqlite-market.js, and `admitOrder`. The tables are
-- a dictionary by order hash and lists in order of insertion. A call that throws returns no state, since
-- its transaction is rolled back. The verifier, the authorizer and the clock are arguments. The details of
-- an audit event are left out.
use blueballs.Prelude.{
  ℕ, ◌+◌, ◌/◌, String, Bool, ◌&&◌, Option, none, some, List, [], ◌∷◌, ◌++◌, keep, length, ltb,
  str_eq, if◌then◌else◌, Outcome, ok, err, ◌>>=◌, ◌>>◌, throw_if, require,
}
use blueballs.Prelude.Dict.{Dict, lookup, insert}
use blueballs.Market.Validation.{
  MarketError, order_expired, signature_rejected, policy_rejected, payload_conflict, Payload,
  Admission, validate_admission,
}
use blueballs.Market.Orders.{Order, new_order, same_admission}

-- A row of `reservations`. `state` is "ACTIVE", "CONSUMED", "EXPIRED", "RELEASED", or the reason that
-- `releaseRoute` is given.
pub record Hold : Type 0 where
  pub reservation_id : String
  pub route_id : String
  pub order_hash : String
  pub maker_sell : ℕ
  pub taker_pay : ℕ
  pub created_at : ℕ
  pub expires_at : ℕ
  pub state : String

pub record ChainEvent : Type 0 where
  pub event_id : String
  pub route_id : String
  pub kind : String
  pub created_at : ℕ

pub record AuditEvent : Type 0 where
  pub kind : String
  pub order_hash : Option String
  pub route_id : Option String
  pub created_at : ℕ

pub record Market : Type 0 where
  pub orders : Dict Order
  pub holds : List Hold
  pub chain_events : List ChainEvent
  pub audit_events : List AuditEvent

unfoldable pub audit : (kind : String) → Option String → Option String → (now : ℕ) → Market → Market
audit kind order_hash route_id now m = record m {
  audit_events =
      m.audit_events
      ++ record { kind = kind; order_hash = order_hash; route_id = route_id; created_at = now }
        ∷ [];
}

-- `UPDATE orders … WHERE order_hash = ?`
unfoldable pub update_order : String → (Order → Order) → Dict Order → Dict Order
update_order order_hash change orders = elim (lookup order_hash orders) [
  | none ↦ orders
  | some o ↦ insert order_hash (change o) orders
]

abbrev pub is_active : Hold → Bool
is_active h = str_eq h.state "ACTIVE"

-- `UPDATE reservations SET state = ? WHERE reservation_id = ?`
abbrev pub with_state : (reservation_id state : String) → Hold → Hold
with_state reservation_id state h =
    if str_eq h.reservation_id reservation_id then record h { state = state } else h

abbrev pub active_of_route : String → Market → List Hold
active_of_route route_id m = keep (λ h. str_eq h.route_id route_id && is_active h) m.holds

abbrev pub active_of_order : String → Market → List Hold
active_of_order order_hash m = keep (λ h. str_eq h.order_hash order_hash && is_active h) m.holds

-- `admitOrder`, once the payload is valid and both callbacks have let it pass.
unfoldable pub store_order : ℕ → Admission → Market → Outcome MarketError (Order × Market)
unfolding same_admission new_order audit
store_order now a m = elim (lookup a.order_hash m.orders) [
  | some existing ↦
      if same_admission existing.admission a then ok (existing, m) else err payload_conflict
  | none ↦
      let o = new_order (length m.orders + 1) now a in
      ok (
        o,
        audit "ORDER_ADMITTED" (some a.order_hash) none now
            (record m { orders = insert a.order_hash o m.orders }),
      )
]

unfoldable pub admit_order :
    (verify authorize : Admission → Bool)
    → ℕ
    → Payload
    → Market
    → Outcome MarketError (Order × Market)
unfolding validate_admission store_order
admit_order verify authorize now payload m = do
  admission ← validate_admission payload
  throw_if (ltb admission.order.valid_until (now / 1000)) order_expired
  require (verify admission) signature_rejected
  require (authorize admission) policy_rejected
  store_order now admission m
