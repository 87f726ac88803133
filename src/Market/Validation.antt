-- ===== src/Market/Validation.antt =====
-- packages/fx-market/src/validation.js, with the amounts of math.js: what an order that asks for admission
-- must be. Amounts are decimal texts in the code and numbers here; a text that is no text at all counts as
-- one that its pattern refuses.
use Prim.Native.Char.{code}
use blueballs.Prelude.{
  ℕ, zero, suc, ◌+◌, ◌-◌, ◌*◌, String, Bool, true, false, ◌&&◌, ◌||◌, not, Option, none, some, ltb,
  leb, ◌==◌, str_eq, if◌then◌else◌, Outcome, ok, err, ◌>>=◌, ◌>>◌, throw_if, lower, is_empty,
  text_length,
}

pub data MarketError : Type 0 where
  invalid : (field : String) → MarketError
  order_expired signature_rejected policy_rejected payload_conflict : MarketError
  negative_available : (order_hash : String) → MarketError
  route_id_required same_tokens desired_not_positive expiry_not_future : MarketError
  route_already_reserved unique_violation insufficient_liquidity : MarketError
  event_id_required no_active_reservations fill_count_mismatch fill_mismatch : MarketError
  exceeds_order order_missing order_cancelled : MarketError

pub record RawOrder : Type 0 where
  pub maker : String
  pub sell_token : String
  pub buy_token : String
  pub sell_amount : String
  pub buy_amount : String
  pub recipient : String
  -- `none` is a number that is no natural one.
  pub valid_after : Option ℕ
  pub valid_until : Option ℕ
  pub epoch : Option ℕ
  pub salt : String

pub record Payload : Type 0 where
  pub order_hash : String
  pub order : RawOrder
  pub signature : String
  pub policy_authorization_id : String
  pub policy_snapshot_hash : String

pub record MakerOrder : Type 0 where
  pub maker : String
  pub sell_token : String
  pub buy_token : String
  pub sell_amount : ℕ
  pub buy_amount : ℕ
  pub recipient : String
  pub valid_after : ℕ
  pub valid_until : ℕ
  pub epoch : ℕ
  pub salt : String

pub record Admission : Type 0 where
  pub order_hash : String
  pub order : MakerOrder
  pub signature : String
  pub policy_authorization_id : String
  pub policy_snapshot_hash : String

abbrev pub is_digit : ℕ → Bool
is_digit c = leb 48 c && leb c 57

abbrev is_hex_code : ℕ → Bool
is_hex_code c = is_digit c || (leb 97 c && leb c 102) || (leb 65 c && leb c 70)

abbrev pub all_chars : (ℕ → Bool) → String → Bool
all_chars p String.[] = true
all_chars p (String.◌∷◌ c s) = p (code c) && all_chars p s

-- `/^0x[0-9a-fA-F]{n}$/`, where `size` tests the number of digits.
abbrev is_hex : (size : ℕ → Bool) → String → Bool
is_hex size (String.◌∷◌ z (String.◌∷◌ x s)) =
    code z == 48 && code x == 120 && size (text_length s) && all_chars is_hex_code s
is_hex size s = false

abbrev pub checked_text : Bool → (field text : String) → Outcome MarketError String
checked_text valid field text = if valid then ok (lower text) else err (invalid field)

unfoldable pub normalize_address : String → (field : String) → Outcome MarketError String
normalize_address s field = checked_text (is_hex (λ n. n == 40) s) field s

unfoldable pub require_bytes32 : String → (field : String) → Outcome MarketError String
require_bytes32 s field = checked_text (is_hex (λ n. n == 64) s) field s

abbrev is_even : ℕ → Bool
is_even zero = true
is_even (suc zero) = false
is_even (suc (suc n)) = is_even n

-- At least one pair of digits.
abbrev is_pairs : ℕ → Bool
is_pairs n = ltb 0 n && is_even n

unfoldable pub require_signature : String → Outcome MarketError String
require_signature s = checked_text (is_hex is_pairs s) "signature" s

-- `BigInt(value)` of a text of digits, from the value of those before.
abbrev pub digits_value : ℕ → String → ℕ
digits_value n String.[] = n
digits_value n (String.◌∷◌ c s) = digits_value (n * 10 + (code c - 48)) s

unfoldable pub to_positive : String → (field : String) → Outcome MarketError ℕ
to_positive s field =
    if is_empty s || not (all_chars is_digit s) || digits_value 0 s == 0
    then err (invalid field)
    else ok (digits_value 0 s)

-- A non-negative safe integer.
unfoldable pub safe_natural : Option ℕ → (field : String) → Outcome MarketError ℕ
safe_natural none field = err (invalid field)
safe_natural (some n) field = if leb n 9007199254740991 then ok n else err (invalid field)

-- The checks that follow those of the texts.
unfoldable pub check_order :
    (maker sell_token buy_token recipient salt : String) (sell_amount buy_amount : ℕ)
    → RawOrder
    → Outcome MarketError MakerOrder
unfolding safe_natural
check_order maker sell_token buy_token recipient salt sell_amount buy_amount raw = do
  throw_if (str_eq sell_token buy_token) same_tokens
  valid_after ← safe_natural raw.valid_after "order.validAfter"
  valid_until ← safe_natural raw.valid_until "order.validUntil"
  epoch ← safe_natural raw.epoch "order.epoch"
  throw_if (ltb valid_until valid_after) (invalid "order validity window")
  ok (record {
    maker = maker;
    sell_token = sell_token;
    buy_token = buy_token;
    sell_amount = sell_amount;
    buy_amount = buy_amount;
    recipient = recipient;
    valid_after = valid_after;
    valid_until = valid_until;
    epoch = epoch;
    salt = salt;
  })

unfoldable pub validate_maker_order : RawOrder → Outcome MarketError MakerOrder
unfolding normalize_address require_bytes32 to_positive check_order
validate_maker_order raw = do
  maker ← normalize_address raw.maker "order.maker"
  sell_token ← normalize_address raw.sell_token "order.sellToken"
  buy_token ← normalize_address raw.buy_token "order.buyToken"
  recipient ← normalize_address raw.recipient "order.recipient"
  salt ← require_bytes32 raw.salt "order.salt"
  sell_amount ← to_positive raw.sell_amount "order.sellAmount"
  buy_amount ← to_positive raw.buy_amount "order.buyAmount"
  check_order maker sell_token buy_token recipient salt sell_amount buy_amount raw

unfoldable pub validate_admission : Payload → Outcome MarketError Admission
validate_admission payload = do
  order_hash ← require_bytes32 payload.order_hash "orderHash"
  order ← validate_maker_order payload.order
  signature ← require_signature payload.signature
  policy_snapshot_hash ← require_bytes32 payload.policy_snapshot_hash "policySnapshotHash"
  ok (record {
    order_hash = order_hash;
    order = order;
    signature = signature;
    policy_authorization_id = payload.policy_authorization_id;
    policy_snapshot_hash = policy_snapshot_hash;
  })
