-- ===== src/Market/Soundness/Candidates.antt =====
-- The orders that `#candidateRows` of packages/fx-market/src/sqlite-market.js finds in sound tables.
use blueballs.Prelude.{
  ℕ, ◌+◌, ◌<◌, String, Bool, false, ◌≡◌, sym, subst, inl, inr, some, List, [], ◌∷◌, keep,
  keep_passes, All, All-weaken, All-keep, arith, str_eq, str_eq_iff, ltb, if◌then◌else◌, Bool-cases,
  ok, >>=-eq-ok, ok-injective,
}
use blueballs.Prelude.Dict.{Dict, lookup}
use blueballs.Prelude.Rows.{rows, rows-All, rows-Pairwise}
use blueballs.Prelude.Sorting.{Pairwise, Pairwise-keep, All-sort_by, Pairwise-sort_by}
use blueballs.Market.Orders.{Order, available_sell, is_candidate, is_after}
use blueballs.Market.Reserving.{keep_available, candidate_rows}
use blueballs.Market.Soundness.Invariant.{HasSoundRows}

-- The row of the table, with nothing reserved and something to sell, not invalidated.
pub record IsOffered (orders : Dict Order) (o : Order) : Type 0 where
  pub current : lookup o.order_hash orders ≡ some o
  pub unreserved : o.reserved_sell ≡ 0
  pub valid : o.onchain_invalidated ≡ false
  pub some_left : o.filled_sell < o.sell_amount

abbrev pub OtherOrder : Order → Order → Type 0
OtherOrder o q = str_eq o.order_hash q.order_hash ≡ false

keep_available-All :
    (P : Order → Type 0) (os : List Order) {found : List Order}
    → keep_available os ≡ ok found
    → All P os
    → All (λ o. P o × (o.filled_sell + o.reserved_sell < o.sell_amount)) found
unfolding keep_available available_sell
keep_available-All P [] done h = subst (All _) (ok-injective done) tt
keep_available-All P (o ∷ os) done h =
    let (available, here, next) = >>=-eq-ok (available_sell o) _ done in
    let (rest, there, result) = >>=-eq-ok (keep_available os) _ next in
    let ih = keep_available-All P os there h.1 in
    let kept : All (λ q. P q × (q.filled_sell + q.reserved_sell < q.sell_amount))
        (if ltb 0 available then o ∷ rest else rest) =
      elim (Bool-cases (ltb 0 available)) [
        | inl left ↦ rw left ((h.0, ground arith), ih)
        | inr empty ↦ rw empty ih
      ] in
    subst (All _) (ok-injective result) kept

keep_available-Pairwise :
    (os : List Order) {found : List Order}
    → keep_available os ≡ ok found
    → Pairwise OtherOrder os
    → Pairwise OtherOrder found
unfolding keep_available
keep_available-Pairwise [] done h = subst (Pairwise OtherOrder) (ok-injective done) tt
keep_available-Pairwise (o ∷ os) done h =
    let (available, here, next) = >>=-eq-ok (available_sell o) _ done in
    let (rest, there, result) = >>=-eq-ok (keep_available os) _ next in
    let ih = keep_available-Pairwise os there h.1 in
    let kept : Pairwise OtherOrder (if ltb 0 available then o ∷ rest else rest) =
      elim (Bool-cases (ltb 0 available)) [
        | inl left ↦ rw left (
          All-weaken _ (OtherOrder o) (λ q both. both.0) rest
              (keep_available-All (OtherOrder o) os there h.0),
          ih,
        )
        | inr empty ↦ rw empty ih
      ] in
    subst (Pairwise OtherOrder) (ok-injective result) kept

OtherOrder-sym : (o q : Order) → OtherOrder o q → OtherOrder q o
OtherOrder-sym o q h =
    ground (arith, str_eq_iff o.order_hash q.order_hash, str_eq_iff q.order_hash o.order_hash)

All-and :
    {A : Type 0} (P Q : A → Type 0) (xs : List A) → All P xs → All Q xs → All (λ x. P x × Q x) xs
All-and P Q [] p q = tt
All-and P Q (x ∷ xs) p q = ((p.0, q.0), All-and P Q xs p.1 q.1)

pub candidate_rows-IsOffered :
    (locale_after : String → String → Bool) (input output : String) (now_seconds : ℕ)
    (orders : Dict Order) {found : List Order}
    → HasSoundRows orders
    → candidate_rows locale_after input output now_seconds orders ≡ ok found
    → All (IsOffered orders) found × Pairwise OtherOrder found
unfolding candidate_rows is_candidate
candidate_rows-IsOffered locale_after input output now_seconds orders s done =
    let test = is_candidate input output now_seconds in
    let kept = keep test (rows orders) in
    let (available, there, result) = >>=-eq-ok _ _ done in
    let current =
      All-keep (λ o. lookup o.order_hash orders ≡ some o) test (rows orders)
        (rows-All _ orders s.distinct
          (λ k o found. subst (λ j. lookup j orders ≡ some o) (sym (s.keyed k o found)) found)) in
    let both = All-and _ _ kept current (keep_passes test (rows orders)) in
    let offered =
      All-weaken _ (IsOffered orders)
        (λ o h. record {
          current = h.0.0;
          unreserved = ground (arith, h.0.1);
          valid = ground (arith, h.0.1);
          some_left = omega (arith, h.1);
        })
        available (keep_available-All _ kept there both) in
    let apart = keep_available-Pairwise kept there (
      Pairwise-keep OtherOrder test (rows orders)
        (rows-Pairwise (λ o. o.order_hash) orders s.distinct s.keyed)) in
    subst (λ os. All (IsOffered orders) os × Pairwise OtherOrder os) (ok-injective result)
      (
        All-sort_by (is_after locale_after) (IsOffered orders) available offered,
        Pairwise-sort_by (is_after locale_after) OtherOrder OtherOrder-sym available apart,
      )
