-- ===== src/Market/Soundness/Rounds.antt =====
-- The loop of `reserveExactOutput` of packages/fx-market/src/sqlite-market.js: what each round keeps.
use blueballs.Prelude.{
  ℕ, ◌+◌, ◌-◌, ◌≤◌, ◌<◌, min, String, ◌≡◌, refl, sym, ap, ap₂, ◌∙◌, subst, inl, inr, List, [], ◌∷◌,
  ◌++◌, length, All, arith, ◌==◌, Bool-cases, ok, >>=-eq-ok, ok-injective,
}
use blueballs.Prelude.Dict.{Dict, insert}
use blueballs.Prelude.Sorting.{Pairwise}
use blueballs.Market.Orders.{Order, available_sell}
use blueballs.Market.Book.{Hold}
use blueballs.Market.Reserving.{insert_hold, hold_for, Progress, reserve_next, reserve_rows}
use blueballs.Market.Soundness.Candidates.{IsOffered, OtherOrder}
use blueballs.Market.Soundness.Placing.{held, place-IsSound, IsOffered-insert}
use blueballs.Market.Soundness.Closings.{Sound, update_order-found}

abbrev pub sell_sum : List Hold → ℕ
sell_sum [] = 0
sell_sum (h ∷ hs) = h.maker_sell + sell_sum hs

abbrev pub pay_sum : List Hold → ℕ
pay_sum [] = 0
pay_sum (h ∷ hs) = h.taker_pay + pay_sum hs

sell_sum-snoc : (hs : List Hold) (h : Hold) → sell_sum (hs ++ h ∷ []) ≡ sell_sum hs + h.maker_sell
sell_sum-snoc [] h = omega arith
sell_sum-snoc (j ∷ hs) h = omega (arith, sell_sum-snoc hs h)

pay_sum-snoc : (hs : List Hold) (h : Hold) → pay_sum (hs ++ h ∷ []) ≡ pay_sum hs + h.taker_pay
pay_sum-snoc [] h = omega arith
pay_sum-snoc (j ∷ hs) h = omega (arith, pay_sum-snoc hs h)

append_assoc-snoc : (hs js : List Hold) (h : Hold) → (hs ++ js) ++ h ∷ [] ≡ hs ++ (js ++ h ∷ [])
append_assoc-snoc [] js h = refl
append_assoc-snoc (x ∷ hs) js h = ap (λ t. x ∷ t) (append_assoc-snoc hs js h)

insert_hold-eq-ok :
    (h : Hold) (hs : List Hold) {all : List Hold} → insert_hold h hs ≡ ok all → all ≡ hs ++ h ∷ []
unfolding insert_hold
insert_hold-eq-ok h hs done = ground arith

-- The loop's invariant: what is left and what is reserved make up what was asked for, the input is what the
-- fills pay, and the fills stand behind the reservations that were there.
pub record IsReserving (start : List Hold) (desired : ℕ) (p : Progress) : Type 0 where
  pub sound : Sound p.market
  pub total : p.remaining + sell_sum p.fills ≡ desired
  pub paid : p.total_input ≡ pay_sum p.fills
  pub stored : p.market.holds ≡ start ++ p.fills

abbrev Offered : Progress → List Order → Type 0
Offered p os = All (IsOffered p.market.orders) os

All-IsOffered-insert :
    (orders : Dict Order) (o row : Order) (os : List Order)
    → IsOffered orders o
    → All (OtherOrder o) os
    → All (IsOffered orders) os
    → All (IsOffered (insert o.order_hash row orders)) os
All-IsOffered-insert orders o row [] here d f = tt
All-IsOffered-insert orders o row (q ∷ os) here d f = (
  IsOffered-insert orders o here q row d.0 f.0,
  All-IsOffered-insert orders o row os here d.1 f.1,
)

available_sell-IsOffered :
    (orders : Dict Order) (o : Order)
    → IsOffered orders o
    → available_sell o ≡ ok (o.sell_amount - o.filled_sell)
unfolding available_sell
available_sell-IsOffered orders o f = ground arith

module _ (new_id : ℕ → String) (route_id : String) (now expires_at : ℕ) where
  -- The variables after `part` of the order `o` has been reserved.
  abbrev placed : Progress → Order → (part : ℕ) → Progress
  placed p o part =
      let h = hold_for (new_id (length p.market.holds)) route_id now expires_at o part in
      record {
        remaining = p.remaining - part;
        total_input = p.total_input + h.taker_pay;
        fills = p.fills ++ h ∷ [];
        market = record p.market {
          holds = p.market.holds ++ h ∷ [];
          orders = insert o.order_hash (held part o) p.market.orders;
        };
      }

  reserve_next-eq :
      (p : Progress) (o : Order) {q : Progress}
      → IsOffered p.market.orders o
      → reserve_next new_id route_id now expires_at p o ≡ ok q
      → q ≡ placed p o (min (o.sell_amount - o.filled_sell) p.remaining)
  unfolding reserve_next
  reserve_next-eq p o f done =
      let part = min (o.sell_amount - o.filled_sell) p.remaining in
      let h = hold_for (new_id (length p.market.holds)) route_id now expires_at o part in
      let next = rw (available_sell-IsOffered p.market.orders o f) at done in
      let (holds, stored, result) = >>=-eq-ok (insert_hold h p.market.holds) _ next in
      sym (ok-injective result)
      ∙ ap₂
          (λ hs rows. record {
            remaining = p.remaining - part;
            total_input = p.total_input + h.taker_pay;
            fills = p.fills ++ h ∷ [];
            market = record p.market { holds = hs; orders = rows };
          })
          (insert_hold-eq-ok h p.market.holds stored)
          (update_order-found o.order_hash (held part) p.market.orders o f.current)

  module _ (start : List Hold) (desired : ℕ) where
    placed-IsReserving :
        (p : Progress) (o : Order) (part : ℕ)
        → 0 < part
        → part ≤ p.remaining
        → o.filled_sell + part ≤ o.sell_amount
        → IsOffered p.market.orders o
        → IsReserving start desired p
        → IsReserving start desired (placed p o part)
    placed-IsReserving p o part some_part some_left fits f inv =
        let id = new_id (length p.market.holds) in
        let h = hold_for id route_id now expires_at o part in
        record {
          sound =
              place-IsSound p.market.orders o f id route_id now expires_at part p.market.holds
                inv.sound some_part fits;
          total = omega (arith, sell_sum-snoc p.fills h, inv.total);
          paid = omega (arith, pay_sum-snoc p.fills h, inv.paid);
          stored = ap (λ hs. hs ++ h ∷ []) inv.stored ∙ append_assoc-snoc start p.fills h;
        }

    pub reserve_rows-IsReserving :
        (p : Progress) (os : List Order) {q : Progress}
        → IsReserving start desired p
        → Offered p os
        → Pairwise OtherOrder os
        → reserve_rows new_id route_id now expires_at p os ≡ ok q
        → IsReserving start desired q
    unfolding reserve_rows
    reserve_rows-IsReserving p [] {q} inv f d done =
        subst (IsReserving start desired) (ok-injective done) inv
    reserve_rows-IsReserving p (o ∷ os) {q} inv f d done = elim (Bool-cases (p.remaining == 0)) [
      | inl nothing ↦
          let end = rw nothing at done in subst (IsReserving start desired) (ok-injective end) inv
      | inr more ↦
          let (r, first, rest) =
            >>=-eq-ok (reserve_next new_id route_id now expires_at p o) _ (rw more at done) in
          let part = min (o.sell_amount - o.filled_sell) p.remaining in
          let r_is = reserve_next-eq p o f.0 first in
          reserve_rows-IsReserving (placed p o part) os
            (placed-IsReserving p o part (ground (arith, f.0.some_left)) (omega arith)
              (omega (arith, f.0.some_left)) f.0 inv)
            (All-IsOffered-insert p.market.orders o (held part o) os f.0 d.0 f.1) d.1
            (subst (λ t. reserve_rows new_id route_id now expires_at t os ≡ ok q) r_is rest)
    ]
