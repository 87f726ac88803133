-- ===== src/Market/Soundness/Placing.antt =====
-- One reservation of `reserveExactOutput` in packages/fx-market/src/sqlite-market.js keeps the tables sound.
use blueballs.Prelude.{
  ℕ, ◌+◌, ◌*◌, ◌≤◌, ◌<◌, String, true, false, ◌≡◌, refl, sym, ◌∙◌, subst, inl, inr, some, List, [],
  ◌∷◌, ◌++◌, All, All-weaken, All-append, arith, str_eq, str_eq_iff, Bool-cases,
}
use blueballs.Prelude.Dict.{Dict, lookup, insert, lookup-insert, str_eq_refl}
use blueballs.Prelude.Sorting.{Pairwise}
use blueballs.Market.Orders.{Order, reserved_order, ceil_div, taker_pay}
use blueballs.Market.Book.{Hold}
use blueballs.Market.Reserving.{hold_for}
use blueballs.Market.Soundness.Invariant.{
  IsPriced, Fits, IsBacked, Apart, IsSound, ceil_div_mono, insert-HasSoundRows, IsFree,
  IsBacked-insert,
}
use blueballs.Market.Soundness.Candidates.{IsOffered, OtherOrder}

Pairwise-snoc :
    {A : Type 0} (R : A → A → Type 0) (xs : List A) (y : A)
    → Pairwise R xs
    → All (λ x. R x y) xs
    → Pairwise R (xs ++ y ∷ [])
Pairwise-snoc R [] y p a = (tt, tt)
Pairwise-snoc R (x ∷ xs) y p a =
    (All-append (R x) xs (y ∷ []) p.0 (a.0, tt), Pairwise-snoc R xs y p.1 a.1)

-- What a taker pays is the difference of what is due after and before, which is not negative.
taker_pay-Fits :
    (o : Order) (part : ℕ)
    → IsPriced o
    → o.filled_buy + taker_pay o part
      ≡ ceil_div ((o.filled_sell + part) * o.buy_amount) o.sell_amount
unfolding taker_pay
taker_pay-Fits o part p = omega (
  arith,
  p.priced,
  ceil_div_mono (o.filled_sell * o.buy_amount) ((o.filled_sell + part) * o.buy_amount) o.sell_amount
      p.some_sell (grind arith),
)

-- The row of an order of which `part` is reserved.
abbrev pub held : ℕ → Order → Order
held part o = record o { reserved_sell = part; state = reserved_order }

held-IsPriced :
    (part : ℕ) (o : Order)
    → IsPriced o
    → o.filled_sell + part ≤ o.sell_amount
    → IsPriced (held part o)
held-IsPriced part o p fits = record { some_sell = p.some_sell; within = fits; priced = p.priced }

module _ (orders : Dict Order) (o : Order) (offered : IsOffered orders o) where
  -- No active reservation draws on an order that is offered.
  IsOffered-IsFree : (holds : List Hold) → All (IsBacked orders) holds → IsFree o.order_hash holds
  IsOffered-IsFree [] b = tt
  IsOffered-IsFree (j ∷ js) b = (
    (λ active. elim (Bool-cases (str_eq o.order_hash j.order_hash)) [
      | inr differs ↦ differs
      | inl same ↦
          let (row, found, fits) = b.0 active in
          let hash : o.order_hash ≡ j.order_hash = (str_eq_iff o.order_hash j.order_hash).0 same in
          let rows_are : some o ≡ some row =
            sym offered.current ∙ subst (λ k. lookup k orders ≡ some row) (sym hash) found in
          let row_is : o ≡ row = cc rows_are in
          let fits_o : Fits o j = subst (λ x. Fits x j) (sym row_is) fits in
          absurd (elim fits_o.noted [
            | inl reserved ↦ omega (arith, reserved, offered.unreserved, fits_o.some_part)
            | inr invalid ↦ let wrong : false ≡ true = sym offered.valid ∙ invalid in cc
          ])
    ]),
    IsOffered-IsFree js b.1,
  )

  module _ (id route_id : String) (now expires_at part : ℕ) where
    abbrev new_hold : Hold
    new_hold = hold_for id route_id now expires_at o part

    pub place-IsSound :
        (holds : List Hold)
        → IsSound orders holds
        → 0 < part
        → o.filled_sell + part ≤ o.sell_amount
        → IsSound (insert o.order_hash (held part o) orders) (holds ++ new_hold ∷ [])
    place-IsSound holds s some_part fits =
        let p : IsPriced o = s.sound_rows.priced o.order_hash o offered.current in
        let free = IsOffered-IsFree holds s.backed in
        let fitting : Fits (held part o) new_hold = record {
          some_part = some_part;
          fits = fits;
          pays = taker_pay-Fits o part p;
          noted = inl refl;
        } in
        let stored : lookup o.order_hash (insert o.order_hash (held part o) orders)
            ≡ some (held part o) =
          lookup-insert o.order_hash o.order_hash (held part o) orders
          ∙ rw (str_eq_refl o.order_hash) refl in
        record {
          sound_rows =
              insert-HasSoundRows o.order_hash (held part o) orders refl
                (held-IsPriced part o p fits) s.sound_rows;
          backed =
              All-append (IsBacked (insert o.order_hash (held part o) orders)) holds (new_hold ∷ [])
                (IsBacked-insert o.order_hash (held part o) orders holds free s.backed)
                ((λ _. (held part o, stored, fitting)), tt);
          apart = Pairwise-snoc Apart holds new_hold s.apart (
              All-weaken _ (λ j. Apart j new_hold)
                (λ j other _ active. ground (
                  arith,
                  other active,
                  str_eq_iff o.order_hash j.order_hash,
                  str_eq_iff j.order_hash o.order_hash,
                ))
                holds free);
        }

  pub IsOffered-insert :
      (q row : Order)
      → OtherOrder o q
      → IsOffered orders q
      → IsOffered (insert o.order_hash row orders) q
  IsOffered-insert q row other f = record {
    current = ground (arith, f.current, other, lookup-insert o.order_hash q.order_hash row orders);
    unreserved = f.unreserved;
    valid = f.valid;
    some_left = f.some_left;
  }
