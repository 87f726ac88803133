-- ===== src/Market/Soundness/Withdrawals.antt =====
-- `blockPolicy`, `unblockPolicy`, `cancelOffchain` and `markOnChainInvalidated` of
-- packages/fx-market/src/sqlite-market.js keep the tables sound.
use blueballs.Prelude.{
  ℕ, String, Bool, true, false, ◌&&◌, ◌||◌, ◌≡◌, refl, subst, inl, inr, some, List, [], ◌∷◌, any,
  keep, map, All, All-weaken, Among, arith, str_eq, str_eq_iff, Bool-cases, Option-cases, ok,
  ok-injective,
}
use blueballs.Prelude.Dict.{Dict, lookup, str_eq_refl}
use blueballs.Market.Orders.{Order}
use blueballs.Market.Book.{Hold, Market, is_active, with_state, active_of_order, audit}
use blueballs.Market.Withdrawing.{
  release_holds, withdraw, blocked, block_policy, unblocked, unblock_policy, hidden,
  cancel_offchain, mark_on_chain_invalidated,
}
use blueballs.Market.Soundness.Invariant.{
  IsPriced, Fits, FitsIn, IsSound, IsFree, All-with_state, Apart-with_state,
}
use blueballs.Market.Soundness.Closings.{Sound, update_order-found}
use blueballs.Market.Soundness.Rows.{free-IsSound, change-IsSound}
use blueballs.Market.Soundness.Ending.{All-self_Among}

-- Every active reservation of the order `k` is among those to be released.
abbrev AreListed : String → List Hold → List Hold → Type 0
AreListed k found holds =
    All
      (λ j.
        is_active j ≡ true
        → str_eq k j.order_hash ≡ true
        → any (λ h. str_eq j.reservation_id h.reservation_id) found ≡ true)
      holds

AreListed-next :
    (k : String) (h : Hold) (found holds : List Hold)
    → AreListed k (h ∷ found) holds
    → AreListed k found (map (with_state h.reservation_id "RELEASED") holds)
AreListed-next k h found [] a = tt
AreListed-next k h found (j ∷ js) a = (
  (λ active. elim (Bool-cases (str_eq j.reservation_id h.reservation_id)) [
    | inl same ↦ let now : false ≡ true = rw same at active in cc
    | inr other ↦
        let was : is_active j ≡ true = rw other at active in
        rw other (λ hash. rw other at (a.0 was hash))
  ]),
  AreListed-next k h found js a.1,
)

release_holds-IsFree :
    (k : String) (found holds : List Hold)
    → AreListed k found holds
    → IsFree k (release_holds found holds)
unfolding release_holds
release_holds-IsFree k [] holds a =
    All-weaken _ _
      (λ j listed active. elim (Bool-cases (str_eq k j.order_hash)) [
        | inl same ↦ let wrong : false ≡ true = listed active same in cc
        | inr other ↦ other
      ])
      holds a
release_holds-IsFree k (h ∷ found) holds a =
    release_holds-IsFree k found (map (with_state h.reservation_id "RELEASED") holds)
      (AreListed-next k h found holds a)

release_holds-IsSound :
    (orders : Dict Order) (found holds : List Hold)
    → IsSound orders holds
    → IsSound orders (release_holds found holds)
unfolding release_holds
release_holds-IsSound orders [] holds s = s
release_holds-IsSound orders (h ∷ found) holds s =
    release_holds-IsSound orders found (map (with_state h.reservation_id "RELEASED") holds)
      (record {
        sound_rows = s.sound_rows;
        backed = All-with_state h.reservation_id "RELEASED" refl (FitsIn orders) holds s.backed;
        apart = Apart-with_state h.reservation_id "RELEASED" refl holds s.apart;
      })

any-keep :
    (test : Hold → Bool) (j : Hold) (holds : List Hold)
    → test j ≡ true
    → Among j holds
    → any (λ h. str_eq j.reservation_id h.reservation_id) (keep test holds) ≡ true
any-keep test j [] passes m = absurd m
any-keep test j (h ∷ hs) passes (inl here) =
    let kept : test h ≡ true = rw here at passes in
    rw (kept, here, str_eq_refl h.reservation_id) refl
any-keep test j (h ∷ hs) passes (inr later) =
    let rest = any-keep test j hs passes later in
    elim (Bool-cases (test h)) [
      | inl kept ↦ rw kept (ground (arith, rest))
      | inr dropped ↦ rw dropped rest
    ]

active_of_order-AreListed : (k : String) (m : Market) → AreListed k (active_of_order k m) m.holds
active_of_order-AreListed k m =
    All-weaken _ _
      (λ j among active hash.
        any-keep (λ h. str_eq h.order_hash k && is_active h) j m.holds
          (ground (arith, active, str_eq_iff k j.order_hash, str_eq_iff j.order_hash k)) among)
      m.holds (All-self_Among m.holds)

withdraw-Sound :
    (k : String) (change : Order → Order) (m : Market) (o : Order)
    → lookup k m.orders ≡ some o
    → (change o).order_hash ≡ k
    → IsPriced (change o)
    → Sound m
    → Sound (withdraw k change m)
withdraw-Sound k change m o found own p s = rw (update_order-found k change m.orders o found) (
    free-IsSound k (change o) m.orders (release_holds (active_of_order k m) m.holds) own p
      (release_holds-IsFree k (active_of_order k m) m.holds (active_of_order-AreListed k m))
      (release_holds-IsSound m.orders (active_of_order k m) m.holds s))

unreserved-IsPriced :
    (o : Order) {o' : Order}
    → IsPriced o
    → o'.sell_amount ≡ o.sell_amount
    → o'.buy_amount ≡ o.buy_amount
    → o'.filled_sell ≡ o.filled_sell
    → o'.filled_buy ≡ o.filled_buy
    → o'.reserved_sell ≡ 0
    → IsPriced o'
unreserved-IsPriced o p a b c d e = record {
  some_sell = omega (arith, p.some_sell, a);
  within = omega (arith, p.within, a, c, e);
  priced = rw (a, b, c, d) p.priced;
}

pub block_policy-Sound :
    (now : ℕ) (k reason : String) (m : Market) {answer : ℕ × Market}
    → Sound m
    → block_policy now k reason m ≡ ok answer
    → Sound answer.1
unfolding block_policy blocked audit
block_policy-Sound now k reason m s done = elim (Option-cases (lookup k m.orders)) [
  | inl missing ↦ let wrong = rw (missing, block_policy) at done in cc
  | inr (o, found) ↦
      let result = ok-injective (rw (found, block_policy) at done) in
      subst (λ x. Sound x.1) result
        (withdraw-Sound k (blocked reason) m o found (s.sound_rows.keyed k o found)
          (unreserved-IsPriced o (s.sound_rows.priced k o found) refl refl refl refl refl) s)
]

pub cancel_offchain-Sound :
    (now : ℕ) (k : String) (on_chain : Bool) (m : Market) {answer : ℕ × Market}
    → Sound m
    → cancel_offchain now k on_chain m ≡ ok answer
    → Sound answer.1
unfolding cancel_offchain hidden audit
cancel_offchain-Sound now k on_chain m s done = elim (Option-cases (lookup k m.orders)) [
  | inl missing ↦ let wrong = rw (missing, cancel_offchain) at done in cc
  | inr (o, found) ↦
      let result = ok-injective (rw (found, cancel_offchain) at done) in
      subst (λ x. Sound x.1) result
        (withdraw-Sound k (hidden on_chain) m o found (s.sound_rows.keyed k o found)
          (unreserved-IsPriced o (s.sound_rows.priced k o found) refl refl refl refl refl) s)
]

-- An order that is invalidated on the chain keeps its reservations.
invalidated-Fits : (o : Order) (h : Hold) → Fits o h → Fits (hidden true o) h
unfolding hidden
invalidated-Fits o h f = record {
  some_part = f.some_part;
  fits = f.fits;
  pays = f.pays;
  noted = inr refl;
}

pub mark_on_chain_invalidated-Sound :
    (now : ℕ) (k : String) (m : Market) {m' : Market}
    → Sound m
    → mark_on_chain_invalidated now k m ≡ ok m'
    → Sound m'
unfolding mark_on_chain_invalidated hidden audit
mark_on_chain_invalidated-Sound now k m s done = elim (Option-cases (lookup k m.orders)) [
  | inl missing ↦ let wrong = rw (missing, mark_on_chain_invalidated) at done in cc
  | inr (o, found) ↦
      let result = ok-injective (rw (found, mark_on_chain_invalidated) at done) in
      subst Sound result (
        rw (update_order-found k (hidden true) m.orders o found) (
          change-IsSound k o (hidden true o) m.orders m.holds found (s.sound_rows.keyed k o found)
            (unreserved-IsPriced o (s.sound_rows.priced k o found) refl refl refl refl refl)
            (invalidated-Fits o) s))
]

unblocked-IsPriced : (o : Order) → IsPriced o → IsPriced (unblocked o)
unfolding unblocked
unblocked-IsPriced o p = record { some_sell = p.some_sell; within = p.within; priced = p.priced }

unblocked-Fits : (o : Order) (h : Hold) → Fits o h → Fits (unblocked o) h
unfolding unblocked
unblocked-Fits o h f = record {
  some_part = f.some_part;
  fits = f.fits;
  pays = f.pays;
  noted = f.noted;
}

pub unblock_policy-Sound :
    (now : ℕ) (k : String) (m : Market) {m' : Market}
    → Sound m
    → unblock_policy now k m ≡ ok m'
    → Sound m'
unfolding unblock_policy unblocked audit
unblock_policy-Sound now k m s done = elim (Option-cases (lookup k m.orders)) [
  | inl missing ↦ let wrong = rw (missing, unblock_policy) at done in cc
  | inr (o, found) ↦ elim (Bool-cases (o.offchain_hidden || o.onchain_invalidated)) [
    | inl gone ↦ let wrong = rw (found, gone, unblock_policy) at done in cc
    | inr there ↦
        let result = ok-injective (rw (found, there, unblock_policy) at done) in
        subst Sound result (
          rw (update_order-found k unblocked m.orders o found) (
            change-IsSound k o (unblocked o) m.orders m.holds found (s.sound_rows.keyed k o found)
              (unblocked-IsPriced o (s.sound_rows.priced k o found)) (unblocked-Fits o) s))
  ]
]
