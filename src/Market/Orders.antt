-- ===== src/Market/Orders.antt =====
-- The rows of the order book: the row of `orders` in packages/fx-market/src/sqlite-market.js, what math.js
-- computes of it, and the state that the book gives it. Amounts are decimal texts in the code and numbers
-- here.
use blueballs.Prelude.{
  ℕ, ◌+◌, ◌-◌, ◌*◌, ◌/◌, String, Bool, true, false, ◌&&◌, ◌||◌, not, Option, none, ltb, leb, ◌==◌,
  str_eq, if◌then◌else◌, Outcome, ok, err,
}
use blueballs.Market.Validation.{MarketError, negative_available, MakerOrder, Admission}

pub data OrderState : Type 0 where
  open_order partially_filled filled_order reserved_order policy_blocked_order cancelled :
      OrderState

-- A row of `orders`; its sequence number and its hash come first.
pub record Order : Type 0 where
  pub sequence : ℕ
  pub order_hash : String
  pub sell_token : String
  pub buy_token : String
  pub sell_amount : ℕ
  pub buy_amount : ℕ
  pub valid_after : ℕ
  pub valid_until : ℕ
  -- The payload as admitted, of which the columns above are copies.
  pub admission : Admission
  pub received_at : ℕ
  pub state : OrderState
  pub filled_sell : ℕ
  pub filled_buy : ℕ
  pub reserved_sell : ℕ
  pub offchain_hidden : Bool
  pub onchain_invalidated : Bool
  pub policy_blocked : Bool
  pub policy_reason : Option String

-- The row that `admitOrder` inserts.
unfoldable pub new_order : (sequence now : ℕ) → Admission → Order
new_order sequence now a = record {
  sequence = sequence;
  order_hash = a.order_hash;
  sell_token = a.order.sell_token;
  buy_token = a.order.buy_token;
  sell_amount = a.order.sell_amount;
  buy_amount = a.order.buy_amount;
  valid_after = a.order.valid_after;
  valid_until = a.order.valid_until;
  admission = a;
  received_at = now;
  state = open_order;
  filled_sell = 0;
  filled_buy = 0;
  reserved_sell = 0;
  offchain_hidden = false;
  onchain_invalidated = false;
  policy_blocked = false;
  policy_reason = none;
}

-- `sameJson(existingPayload, admission)`
unfoldable pub same_order : MakerOrder → MakerOrder → Bool
same_order a b =
    str_eq a.maker b.maker
    && str_eq a.sell_token b.sell_token
    && str_eq a.buy_token b.buy_token
    && a.sell_amount == b.sell_amount
    && a.buy_amount == b.buy_amount
    && str_eq a.recipient b.recipient
    && a.valid_after == b.valid_after
    && a.valid_until == b.valid_until
    && a.epoch == b.epoch
    && str_eq a.salt b.salt

-- The code compares the JSON texts of two admissions. Amounts are compared by value here, so that a
-- text with leading zeros counts as equal.
unfoldable pub same_admission : Admission → Admission → Bool
unfolding same_order
same_admission a b =
    str_eq a.order_hash b.order_hash
    && same_order a.order b.order
    && str_eq a.signature b.signature
    && str_eq a.policy_authorization_id b.policy_authorization_id
    && str_eq a.policy_snapshot_hash b.policy_snapshot_hash

-- `compareMakerPrice(a, b) > 0`, where the second argument decides between equal sequence numbers.
unfoldable pub is_after : (locale_after : String → String → Bool) → Order → Order → Bool
is_after locale_after a b =
    let left = a.buy_amount * b.sell_amount in
    let right = b.buy_amount * a.sell_amount in
    if ltb left right
    then false
    else if ltb right left
    then true
    else if ltb a.sequence b.sequence
    then false
    else if ltb b.sequence a.sequence
    then true
    else locale_after a.order_hash b.order_hash

unfoldable pub available_sell : Order → Outcome MarketError ℕ
available_sell o =
    if ltb o.sell_amount (o.filled_sell + o.reserved_sell)
    then err (negative_available o.order_hash)
    else ok (o.sell_amount - o.filled_sell - o.reserved_sell)

-- `ceilDiv`, of a positive denominator.
unfoldable pub ceil_div : ℕ → ℕ → ℕ
ceil_div n d = (n + d - 1) / d

-- `ACTIVE_STATES.has(state)`
abbrev pub is_active_state : OrderState → Bool
is_active_state open_order = true
is_active_state partially_filled = true
is_active_state filled_order = false
is_active_state reserved_order = false
is_active_state policy_blocked_order = false
is_active_state cancelled = false

-- The conditions of the query of `#candidateRows`.
unfoldable pub is_candidate : (input output : String) → (now_seconds : ℕ) → Order → Bool
is_candidate input output now_seconds o =
    str_eq o.sell_token output
    && str_eq o.buy_token input
    && is_active_state o.state
    && not o.offchain_hidden
    && not o.onchain_invalidated
    && not o.policy_blocked
    && o.reserved_sell == 0
    && leb o.valid_after now_seconds
    && leb now_seconds o.valid_until

-- What the order is by what has been filled of it.
unfoldable pub filled_state : Order → OrderState
filled_state o =
    if o.filled_sell == 0
    then open_order
    else if ltb o.filled_sell o.sell_amount
    then partially_filled
    else filled_order

-- `#restoreOrderAfterReservation`, of the row that it finds.
unfoldable pub restored : Order → Order
unfolding filled_state
restored o = record o {
  reserved_sell = 0;
  state =
      if o.offchain_hidden || o.onchain_invalidated
      then cancelled
      else if o.policy_blocked
      then policy_blocked_order
      else filled_state o;
}

-- What the taker pays for `maker_sell` more of the order.
unfoldable pub taker_pay : Order → (maker_sell : ℕ) → ℕ
unfolding ceil_div
taker_pay o maker_sell =
    ceil_div ((o.filled_sell + maker_sell) * o.buy_amount) o.sell_amount - o.filled_buy
