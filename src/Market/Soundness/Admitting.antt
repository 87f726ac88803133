-- ===== src/Market/Soundness/Admitting.antt =====
-- `admitOrder` of packages/fx-market/src/sqlite-market.js keeps the tables sound.
use blueballs.Prelude.{
  ℕ, ◌+◌, ◌/◌, ◌<◌, String, Bool, not, ◌||◌, ◌≡◌, refl, sym, ap, subst, inl, inr, length, arith,
  str_eq, is_empty, ltb, ◌==◌, Bool-cases, Option-cases, ok, require, throw_if, >>=-eq-ok, >>-eq-ok,
  ok-injective,
}
use native.Mathlib.Nat.{div-eq_of_lt}
use blueballs.Prelude.Dict.{lookup}
use blueballs.Market.Validation.{
  RawOrder, MakerOrder, Payload, Admission, same_tokens, invalid, safe_natural, normalize_address,
  require_bytes32, require_signature, all_chars, is_digit, digits_value, order_expired,
  signature_rejected, policy_rejected, to_positive, check_order, validate_maker_order,
  validate_admission,
}
use blueballs.Market.Orders.{Order, ceil_div, new_order, same_admission}
use blueballs.Market.Book.{Market, audit, store_order, admit_order}
use blueballs.Market.Soundness.Invariant.{IsPriced}
use blueballs.Market.Soundness.Closings.{Sound}
use blueballs.Market.Soundness.Rows.{free-IsSound, missing-IsFree}

to_positive-pos : (s field : String) {n : ℕ} → to_positive s field ≡ ok n → 0 < n
unfolding to_positive
to_positive-pos s field done =
    elim (Bool-cases (is_empty s || not (all_chars is_digit s) || digits_value 0 s == 0)) [
      | inl bad ↦ let wrong = rw bad at done in cc
      | inr good ↦ let value = ok-injective (rw good at done) in ground arith
    ]

new_order-IsPriced :
    (sequence now : ℕ) (a : Admission)
    → 0 < a.order.sell_amount
    → IsPriced (new_order sequence now a)
unfolding new_order ceil_div
new_order-IsPriced sequence now a some_sell = record {
  some_sell = some_sell;
  within = omega arith;
  priced = sym (div-eq_of_lt (omega arith));
}

check_order-amount :
    (maker sell_token buy_token recipient salt : String) (sell_amount buy_amount : ℕ)
    (raw : RawOrder) {o : MakerOrder}
    → check_order maker sell_token buy_token recipient salt sell_amount buy_amount raw ≡ ok o
    → o.sell_amount ≡ sell_amount
unfolding check_order
check_order-amount maker sell_token buy_token recipient salt sell_amount buy_amount raw d7 =
    let (_, d8) = >>-eq-ok (throw_if (str_eq sell_token buy_token) same_tokens) _ d7 in
    let (valid_after, _, d9) = >>=-eq-ok (safe_natural raw.valid_after "order.validAfter") _ d8 in
    let (valid_until, _, d10) = >>=-eq-ok (safe_natural raw.valid_until "order.validUntil") _ d9 in
    let (epoch, _, d11) = >>=-eq-ok (safe_natural raw.epoch "order.epoch") _ d10 in
    let (_, result) =
      >>-eq-ok (throw_if (ltb valid_until valid_after) (invalid "order validity window")) _ d11 in
    sym (ap (λ x. x.sell_amount) (ok-injective result))

validate_maker_order-pos :
    (raw : RawOrder) {o : MakerOrder} → validate_maker_order raw ≡ ok o → 0 < o.sell_amount
unfolding validate_maker_order
validate_maker_order-pos raw {o} done =
    let (maker, _, d1) = >>=-eq-ok (normalize_address raw.maker "order.maker") _ done in
    let (sell_token, _, d2) = >>=-eq-ok (normalize_address raw.sell_token "order.sellToken") _ d1 in
    let (buy_token, _, d3) = >>=-eq-ok (normalize_address raw.buy_token "order.buyToken") _ d2 in
    let (recipient, _, d4) = >>=-eq-ok (normalize_address raw.recipient "order.recipient") _ d3 in
    let (salt, _, d5) = >>=-eq-ok (require_bytes32 raw.salt "order.salt") _ d4 in
    let (sell_amount, positive, d6) =
      >>=-eq-ok (to_positive raw.sell_amount "order.sellAmount") _ d5 in
    let (buy_amount, _, d7) = >>=-eq-ok (to_positive raw.buy_amount "order.buyAmount") _ d6 in
    subst (λ n. 0 < n)
      (sym (
        check_order-amount maker sell_token buy_token recipient salt sell_amount buy_amount raw d7))
      (to_positive-pos raw.sell_amount "order.sellAmount" positive)

validate_admission-pos :
    (payload : Payload) {a : Admission}
    → validate_admission payload ≡ ok a
    → 0 < a.order.sell_amount
unfolding validate_admission
validate_admission-pos payload done =
    let (hash, _, d1) = >>=-eq-ok (require_bytes32 payload.order_hash "orderHash") _ done in
    let (order, valid, d2) = >>=-eq-ok (validate_maker_order payload.order) _ d1 in
    let (signature, _, d3) = >>=-eq-ok (require_signature payload.signature) _ d2 in
    let (snapshot, _, result) =
      >>=-eq-ok (require_bytes32 payload.policy_snapshot_hash "policySnapshotHash") _ d3 in
    subst (λ x. 0 < x.order.sell_amount) (ok-injective result)
      (validate_maker_order-pos payload.order valid)

store_order-Sound :
    (now : ℕ) (a : Admission) (m : Market) {answer : Order × Market}
    → 0 < a.order.sell_amount
    → Sound m
    → store_order now a m ≡ ok answer
    → Sound answer.1
unfolding store_order new_order audit
store_order-Sound now a m {answer} some_sell s done =
    elim (Option-cases (lookup a.order_hash m.orders)) [
      | inl fresh ↦
          let stored = ok-injective (rw (fresh, store_order) at done) in
          subst (λ x. Sound x.1) stored
            (free-IsSound a.order_hash (new_order (length m.orders + 1) now a) m.orders m.holds refl
              (new_order-IsPriced (length m.orders + 1) now a some_sell)
              (missing-IsFree a.order_hash m.orders m.holds fresh s.backed) s)
      | inr (o, found) ↦ elim (Bool-cases (same_admission o.admission a)) [
        | inl same ↦
            let kept = ok-injective (rw (found, same, store_order) at done) in
            subst (λ x. Sound x.1) kept s
        | inr differs ↦ let wrong = rw (found, differs, store_order) at done in cc
      ]
    ]

pub admit_order-Sound :
    (verify authorize : Admission → Bool) (now : ℕ) (payload : Payload) (m : Market)
    {answer : Order × Market}
    → Sound m
    → admit_order verify authorize now payload m ≡ ok answer
    → Sound answer.1
unfolding admit_order
admit_order-Sound verify authorize now payload m s done =
    let (a, valid, d1) = >>=-eq-ok (validate_admission payload) _ done in
    let (_, d2) = >>-eq-ok (throw_if (ltb a.order.valid_until (now / 1000)) order_expired) _ d1 in
    let (_, d3) = >>-eq-ok (require (verify a) signature_rejected) _ d2 in
    let (_, stored) = >>-eq-ok (require (authorize a) policy_rejected) _ d3 in
    store_order-Sound now a m (validate_admission-pos payload valid) s stored
