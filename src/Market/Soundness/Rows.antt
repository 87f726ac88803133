-- ===== src/Market/Soundness/Rows.antt =====
-- What keeps the tables of packages/fx-market/src/sqlite-market.js sound where a call inserts or changes an
-- order.
use blueballs.Prelude.{
  String, ◌≡◌, refl, sym, ◌∙◌, subst, inl, inr, none, some, List, All, All-weaken, str_eq,
  str_eq_iff, Bool-cases,
}
use blueballs.Prelude.Dict.{Dict, lookup, insert, lookup-insert}
use blueballs.Market.Orders.{Order}
use blueballs.Market.Book.{Hold}
use blueballs.Market.Soundness.Invariant.{
  IsPriced, Fits, IsBacked, IsSound, insert-HasSoundRows, IsFree, FitsIn-insert, IsBacked-insert,
}

-- An order that no active reservation draws on may become any priced row.
pub free-IsSound :
    (k : String) (o : Order) (orders : Dict Order) (holds : List Hold)
    → o.order_hash ≡ k
    → IsPriced o
    → IsFree k holds
    → IsSound orders holds
    → IsSound (insert k o orders) holds
free-IsSound k o orders holds own p free s = record {
  sound_rows = insert-HasSoundRows k o orders own p s.sound_rows;
  backed = IsBacked-insert k o orders holds free s.backed;
  apart = s.apart;
}

-- An order may become a row that fits what it fitted.
pub change-IsSound :
    (k : String) (o o' : Order) (orders : Dict Order) (holds : List Hold)
    → lookup k orders ≡ some o
    → o'.order_hash ≡ k
    → IsPriced o'
    → ((h : Hold) → Fits o h → Fits o' h)
    → IsSound orders holds
    → IsSound (insert k o' orders) holds
change-IsSound k o o' orders holds found own p fitting s = record {
  sound_rows = insert-HasSoundRows k o' orders own p s.sound_rows;
  backed =
      All-weaken (IsBacked orders) (IsBacked (insert k o' orders))
        (λ h backed active. elim (Bool-cases (str_eq k h.order_hash)) [
          | inr other ↦ FitsIn-insert k o' orders h other (backed active)
          | inl same ↦
              let (row, there, fits) = backed active in
              let hash : k ≡ h.order_hash = (str_eq_iff k h.order_hash).0 same in
              let rows_are : some row ≡ some o =
                sym there ∙ subst (λ j. lookup j orders ≡ some o) hash found in
              let row_is : row ≡ o = cc rows_are in
              (
                o',
                lookup-insert k h.order_hash o' orders ∙ rw same refl,
                fitting h (subst (λ x. Fits x h) row_is fits),
              )
        ])
        holds s.backed;
  apart = s.apart;
}

pub missing-IsFree :
    (k : String) (orders : Dict Order) (holds : List Hold)
    → lookup k orders ≡ none
    → All (IsBacked orders) holds
    → IsFree k holds
missing-IsFree k orders holds missing b =
    All-weaken (IsBacked orders) _
      (λ h backed active. elim (Bool-cases (str_eq k h.order_hash)) [
        | inr other ↦ other
        | inl same ↦
            let (row, there, fits) = backed active in
            let hash : k ≡ h.order_hash = (str_eq_iff k h.order_hash).0 same in
            let wrong : none ≡ some row =
              sym (subst (λ j. lookup j orders ≡ none) hash missing) ∙ there in
            cc wrong
      ])
      holds b
