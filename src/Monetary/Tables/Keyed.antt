-- ===== src/Monetary/Tables/Keyed.antt =====
-- The table of reserve deposits of packages/fx-monetary/src/index.js, by its primary key.
use blueballs.Prelude.{
  String, false, ◌≡◌, refl, ◌∙◌, subst, inl, inr, none, some, [], ◌∷◌, arith, str_eq, str_eq_iff,
  All, Bool-cases,
}
use blueballs.Prelude.Dict.{
  Dict, lookup, insert, lookup-insert, HasDistinctKeys, insert-HasDistinctKeys, str_eq_refl,
}
use blueballs.Prelude.Sorting.{Pairwise}
use blueballs.Monetary.Tables.{Deposit, rows}

-- The table has one row for each id, which stands under it.
pub record IsKeyed (ds : Dict Deposit) : Type 0 where
  pub distinct : HasDistinctKeys ds
  pub keyed : (id : String) (d : Deposit) → lookup id ds ≡ some d → d.deposit_id ≡ id

pub insert-IsKeyed :
    (id : String) (d : Deposit) (ds : Dict Deposit)
    → d.deposit_id ≡ id
    → IsKeyed ds
    → IsKeyed (insert id d ds)
insert-IsKeyed id d ds own k = record {
  distinct = insert-HasDistinctKeys id d ds k.distinct;
  keyed = λ other e found. elim (Bool-cases (str_eq id other)) [
    | inl same ↦
        let written : d ≡ e = ground (arith, lookup-insert id other d ds) in
        subst (λ x. x.deposit_id ≡ other) written (own ∙ (str_eq_iff id other).0 same)
    | inr differs ↦ k.keyed other e (ground (arith, lookup-insert id other d ds))
  ];
}

abbrev pub Differs : Deposit → Deposit → Type 0
Differs d e = str_eq d.deposit_id e.deposit_id ≡ false

-- What a row that is looked up is not, a row behind a fresh key is not either.
behind :
    (id other : String) (d e : Deposit) (ds : Dict Deposit)
    → lookup id ds ≡ none
    → lookup other ds ≡ some e
    → (str_eq id other ≡ false) × (lookup other ((id, d) ∷ ds) ≡ some e)
unfolding lookup
behind id other d e ds fresh found = ground (arith, str_eq_iff id other)

-- What holds of each row that is looked up holds of all rows.
pub rows-All :
    (P : Deposit → Type 0) (ds : Dict Deposit)
    → HasDistinctKeys ds
    → ((id : String) (d : Deposit) → lookup id ds ≡ some d → P d)
    → All P (rows ds)
unfolding lookup
rows-All P [] h f = tt
rows-All P ((id, d) ∷ ds) (fresh, h) f = (
  f id d (rw (str_eq_refl id) refl),
  rows-All P ds h (λ other e found. f other e (behind id other d e ds fresh found).1),
)

-- The rows of a keyed table differ in their ids.
pub rows-Pairwise :
    (ds : Dict Deposit)
    → HasDistinctKeys ds
    → ((id : String) (d : Deposit) → lookup id ds ≡ some d → d.deposit_id ≡ id)
    → Pairwise Differs (rows ds)
unfolding lookup
rows-Pairwise [] h own = tt
rows-Pairwise ((id, d) ∷ ds) (fresh, h) own =
    let here : d.deposit_id ≡ id = own id d (rw (str_eq_refl id) refl) in
    let later = λ (other : String) (e : Deposit) (found : lookup other ds ≡ some e).
      own other e (behind id other d e ds fresh found).1 in
    (
      rows-All (Differs d) ds h
          (λ other e found. rw (here, later other e found) (behind id other d e ds fresh found).0),
      rows-Pairwise ds h later,
    )

pub Differs-sym : (d e : Deposit) → Differs d e → Differs e d
Differs-sym d e h =
    ground (arith, str_eq_iff d.deposit_id e.deposit_id, str_eq_iff e.deposit_id d.deposit_id)
