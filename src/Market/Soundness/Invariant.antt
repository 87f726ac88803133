-- ===== src/Market/Soundness/Invariant.antt =====
-- The invariant of the tables `orders` and `reservations` of packages/fx-market/src/sqlite-market.js, and what
-- it becomes where a reservation is closed and an order changes.
use blueballs.Prelude.{
  ℕ, ◌+◌, ◌-◌, ◌*◌, ◌≤◌, ◌<◌, String, true, false, ◌≡◌, refl, sym, ◌∙◌, subst, ◌⊎◌, inl, inr, some,
  List, [], ◌∷◌, map, All, All-weaken, All-Among, Among, arith, str_eq, str_eq_iff, Bool-cases,
}
use native.Mathlib.Nat.{div-lt_iff_lt-mul, le-div_iff_mul-le, div-mul-le_self, mul-le-mul_right}
use blueballs.Prelude.Dict.{
  Dict, lookup, insert, lookup-insert, HasDistinctKeys, insert-HasDistinctKeys, str_eq_refl,
}
use blueballs.Prelude.Sorting.{Pairwise}
use blueballs.Market.Orders.{Order, ceil_div}
use blueballs.Market.Book.{Hold, is_active, with_state}

-- The maker has been paid the price of what is filled, rounded up once, and what is filled or reserved does
-- not exceed what is offered.
pub record IsPriced (o : Order) : Type 0 where
  pub some_sell : 0 < o.sell_amount
  pub within : o.filled_sell + o.reserved_sell ≤ o.sell_amount
  pub priced : o.filled_buy ≡ ceil_div (o.filled_sell * o.buy_amount) o.sell_amount

-- A reservation draws on what the order has left, pays what its fill will make due, and is noted in the
-- order unless the order was invalidated on the chain.
pub record Fits (o : Order) (h : Hold) : Type 0 where
  pub some_part : 0 < h.maker_sell
  pub fits : o.filled_sell + h.maker_sell ≤ o.sell_amount
  pub pays :
      o.filled_buy + h.taker_pay
      ≡ ceil_div ((o.filled_sell + h.maker_sell) * o.buy_amount) o.sell_amount
  pub noted : (o.reserved_sell ≡ h.maker_sell) ⊎ (o.onchain_invalidated ≡ true)

pub record HasSoundRows (orders : Dict Order) : Type 0 where
  pub distinct : HasDistinctKeys orders
  pub keyed : (k : String) (o : Order) → lookup k orders ≡ some o → o.order_hash ≡ k
  pub priced : (k : String) (o : Order) → lookup k orders ≡ some o → IsPriced o

abbrev pub FitsIn : Dict Order → Hold → Type 0
FitsIn orders h = (o : Order) × (lookup h.order_hash orders ≡ some o) × Fits o h

abbrev pub IsBacked : Dict Order → Hold → Type 0
IsBacked orders h = is_active h ≡ true → FitsIn orders h

-- No two active reservations draw on one order.
abbrev pub Apart : Hold → Hold → Type 0
Apart h j = is_active j ≡ true → is_active h ≡ true → str_eq h.order_hash j.order_hash ≡ false

pub record IsSound (orders : Dict Order) (holds : List Hold) : Type 0 where
  pub sound_rows : HasSoundRows orders
  pub backed : All (IsBacked orders) holds
  pub apart : Pairwise Apart holds

pub ceil_div-le : (x b s : ℕ) → 0 < s → x ≤ s → ceil_div (x * b) s ≤ b
unfolding ceil_div
ceil_div-le x b s h k =
    let below : x * b + s - 1 < (b + 1) * s = grind (arith, mul-le-mul_right b k) in
    omega (arith, (div-lt_iff_lt-mul h).1 below)

pub ceil_div_mono : (a b d : ℕ) → 0 < d → a ≤ b → ceil_div a d ≤ ceil_div b d
unfolding ceil_div
ceil_div_mono a b d pos h = (le-div_iff_mul-le pos).1 (omega (arith, div-mul-le_self (a + d - 1) d))

pub insert-HasSoundRows :
    (k : String) (o : Order) (orders : Dict Order)
    → o.order_hash ≡ k
    → IsPriced o
    → HasSoundRows orders
    → HasSoundRows (insert k o orders)
insert-HasSoundRows k o orders own p s = record {
  distinct = insert-HasDistinctKeys k o orders s.distinct;
  keyed = λ j e found. elim (Bool-cases (str_eq k j)) [
    | inl same ↦
        let written : o ≡ e = ground (arith, lookup-insert k j o orders) in
        subst (λ x. x.order_hash ≡ j) written (own ∙ (str_eq_iff k j).0 same)
    | inr differs ↦ s.keyed j e (ground (arith, lookup-insert k j o orders))
  ];
  priced = λ j e found. elim (Bool-cases (str_eq k j)) [
    | inl same ↦
        let written : o ≡ e = ground (arith, lookup-insert k j o orders) in subst IsPriced written p
    | inr differs ↦ s.priced j e (ground (arith, lookup-insert k j o orders))
  ];
}

-- No active reservation draws on the order `k`.
abbrev pub IsFree : String → List Hold → Type 0
IsFree k holds = All (λ j. is_active j ≡ true → str_eq k j.order_hash ≡ false) holds

pub FitsIn-insert :
    (k : String) (o : Order) (orders : Dict Order) (h : Hold)
    → str_eq k h.order_hash ≡ false
    → FitsIn orders h
    → FitsIn (insert k o orders) h
FitsIn-insert k o orders h other (row, found, fits) =
    (row, ground (arith, lookup-insert k h.order_hash o orders), fits)

pub IsBacked-insert :
    (k : String) (o : Order) (orders : Dict Order) (holds : List Hold)
    → IsFree k holds
    → All (IsBacked orders) holds
    → All (IsBacked (insert k o orders)) holds
IsBacked-insert k o orders [] free b = tt
IsBacked-insert k o orders (h ∷ hs) free b = (
  (λ active. FitsIn-insert k o orders h (free.0 active) (b.0 active)),
  IsBacked-insert k o orders hs free.1 b.1,
)

module _ (id state : String) (ends : str_eq state "ACTIVE" ≡ false) where
  -- What is active after a reservation ended was so before, and is unchanged.
  pub with_state-active :
      (h : Hold) → is_active (with_state id state h) ≡ true → with_state id state h ≡ h
  with_state-active h active = elim (Bool-cases (str_eq h.reservation_id id)) [
    | inl same ↦ let now : is_active (record h { state = state }) ≡ true = rw same at active in cc
    | inr other ↦ rw other refl
  ]

  -- What holds of the active reservations holds of those that are left.
  pub All-with_state :
      (P : Hold → Type 0) (hs : List Hold)
      → All (λ h. is_active h ≡ true → P h) hs
      → All (λ h. is_active h ≡ true → P h) (map (with_state id state) hs)
  All-with_state P [] a = tt
  All-with_state P (h ∷ hs) a = (
    (λ active.
        let same = with_state-active h active in
        subst P (sym same) (a.0 (subst (λ j. is_active j ≡ true) same active))),
    All-with_state P hs a.1,
  )

  pub Apart-with_state :
      (hs : List Hold) → Pairwise Apart hs → Pairwise Apart (map (with_state id state) hs)
  Apart-with_state [] a = tt
  Apart-with_state (h ∷ hs) a = (
    All-with_state _ hs (
        All-weaken (Apart h) (Apart (with_state id state h))
          (λ j apart active' active.
            let same = with_state-active h active in
            rw same (apart active' (subst (λ x. is_active x ≡ true) same active)))
          hs a.0),
    Apart-with_state hs a.1,
  )

-- Every active reservation of the same order is the same reservation.
abbrev pub IsSole : List Hold → Hold → Type 0
IsSole holds h =
    All
      (λ j.
        is_active j ≡ true
        → str_eq h.order_hash j.order_hash ≡ true
        → str_eq j.reservation_id h.reservation_id ≡ true)
      holds

-- Ending the only active reservation of an order makes the order free.
pub IsSole-IsFree :
    (h : Hold) (state : String) (holds : List Hold)
    → str_eq state "ACTIVE" ≡ false
    → IsSole holds h
    → IsFree h.order_hash (map (with_state h.reservation_id state) holds)
IsSole-IsFree h state [] ends sole = tt
IsSole-IsFree h state (j ∷ js) ends sole = (
  (λ active. elim (Bool-cases (str_eq j.reservation_id h.reservation_id)) [
    | inl same ↦ let now : str_eq state "ACTIVE" ≡ true = rw same at active in cc
    | inr other ↦
        let was : is_active j ≡ true = rw other at active in
        elim (Bool-cases (str_eq h.order_hash j.order_hash)) [
          | inl hash ↦ cc (sole.0 was hash)
          | inr differs ↦ rw other differs
        ]
  ]),
  IsSole-IsFree h state js ends sole.1,
)

pub Apart-IsSole :
    (h : Hold) (holds : List Hold)
    → is_active h ≡ true
    → Pairwise Apart holds
    → Among h holds
    → IsSole holds h
Apart-IsSole h [] active a m = absurd m
Apart-IsSole h (x ∷ xs) active a (inl here) = (
  (λ _ _. rw here (str_eq_refl x.reservation_id)),
  All-weaken (Apart x) _ (λ j apart now same. cc (apart now (rw here at active))) xs a.0,
)
Apart-IsSole h (x ∷ xs) active a (inr later) = (
  (λ now same. ground (
    arith,
    All-Among (Apart x) h xs a.0 later active now,
    str_eq_iff x.order_hash h.order_hash,
    str_eq_iff h.order_hash x.order_hash,
  )),
  Apart-IsSole h xs active a.1 later,
)
