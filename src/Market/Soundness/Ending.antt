-- ===== src/Market/Soundness/Ending.antt =====
-- What keeps the tables of packages/fx-market/src/sqlite-market.js sound where a loop ends reservations one
-- after the other, as those of `releaseRoute`, `expireReservations`, `confirmRoute` and `failRoute` do.
use blueballs.Prelude.{
  String, Bool, true, false, ◌≡◌, refl, inl, inr, List, [], ◌∷◌, map, keep, All, All-weaken, Among,
  str_eq, Bool-cases,
}
use blueballs.Prelude.Dict.{Dict, insert}
use blueballs.Prelude.Sorting.{Pairwise}
use blueballs.Market.Orders.{Order}
use blueballs.Market.Book.{Hold, is_active, with_state}
use blueballs.Market.Soundness.Invariant.{
  IsPriced, FitsIn, Apart, IsSound, insert-HasSoundRows, FitsIn-insert, IsBacked-insert,
  All-with_state, Apart-with_state, IsSole, IsSole-IsFree, Apart-IsSole,
}

abbrev Differ : Hold → Hold → Type 0
Differ h j = str_eq h.order_hash j.order_hash ≡ false

-- What a loop relies on for the reservations that it has still to end.
pub record IsReady (orders : Dict Order) (holds pending : List Hold) : Type 0 where
  pub fit : All (FitsIn orders) pending
  pub differ : Pairwise Differ pending
  pub sole : All (IsSole holds) pending

pub All-self_Among : {A : Type 0} (xs : List A) → All (λ x. Among x xs) xs
All-self_Among [] = tt
All-self_Among (x ∷ xs) = (inl refl, All-weaken _ _ (λ y m. inr m) xs (All-self_Among xs))

module _ (p : Hold → Bool) (active : (h : Hold) → p h ≡ true → is_active h ≡ true) where
  All-kept :
      (P : Hold → Type 0) (hs : List Hold)
      → All (λ h. is_active h ≡ true → P h) hs
      → All P (keep p hs)
  All-kept P [] a = tt
  All-kept P (h ∷ hs) a = elim (Bool-cases (p h)) [
    | inl kept ↦ rw kept (a.0 (active h kept), All-kept P hs a.1)
    | inr dropped ↦ rw dropped (All-kept P hs a.1)
  ]

  Differ-kept : (hs : List Hold) → Pairwise Apart hs → Pairwise Differ (keep p hs)
  Differ-kept [] a = tt
  Differ-kept (h ∷ hs) a = elim (Bool-cases (p h)) [
    | inl kept ↦ rw kept (
      All-kept (Differ h) hs
          (All-weaken (Apart h) _ (λ j apart now. apart now (active h kept)) hs a.0),
      Differ-kept hs a.1,
    )
    | inr dropped ↦ rw dropped (Differ-kept hs a.1)
  ]

  -- The active reservations that a query finds are ready.
  pub keep-IsReady :
      (orders : Dict Order) (holds : List Hold)
      → IsSound orders holds
      → IsReady orders holds (keep p holds)
  keep-IsReady orders holds s = record {
    fit = All-kept (FitsIn orders) holds s.backed;
    differ = Differ-kept holds s.apart;
    sole = All-kept (IsSole holds) holds (
        All-weaken _ _ (λ h m now. Apart-IsSole h holds now s.apart m) holds
          (All-self_Among holds));
  }

module _ (orders : Dict Order) (holds : List Hold) (state : String)
    (ends : str_eq state "ACTIVE" ≡ false) (h : Hold) (hs : List Hold) (o : Order) where
  FitsIn-ended :
      (js : List Hold)
      → All (Differ h) js
      → All (FitsIn orders) js
      → All (FitsIn (insert h.order_hash o orders)) js
  FitsIn-ended [] d f = tt
  FitsIn-ended (j ∷ js) d f =
      (FitsIn-insert h.order_hash o orders j d.0 f.0, FitsIn-ended js d.1 f.1)

  -- The first reservation ends, and its order becomes `o`.
  pub end-IsSound :
      IsSound orders holds
      → IsReady orders holds (h ∷ hs)
      → IsPriced o
      → o.order_hash ≡ h.order_hash
      → IsSound (insert h.order_hash o orders) (map (with_state h.reservation_id state) holds)
        × IsReady (insert h.order_hash o orders) (map (with_state h.reservation_id state) holds) hs
  end-IsSound s r p own = (
    record {
      sound_rows = insert-HasSoundRows h.order_hash o orders own p s.sound_rows;
      backed =
          IsBacked-insert h.order_hash o orders (map (with_state h.reservation_id state) holds)
            (IsSole-IsFree h state holds ends r.sole.0)
            (All-with_state h.reservation_id state ends (FitsIn orders) holds s.backed);
      apart = Apart-with_state h.reservation_id state ends holds s.apart;
    },
    record {
      fit = FitsIn-ended hs r.differ.0 r.fit.1;
      differ = r.differ.1;
      sole =
          All-weaken (IsSole holds) (IsSole (map (with_state h.reservation_id state) holds))
            (λ j only. All-with_state h.reservation_id state ends _ holds only) hs r.sole.1;
    },
  )
