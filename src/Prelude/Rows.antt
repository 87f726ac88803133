-- ===== src/Prelude/Rows.antt =====
-- A table with a primary key, as a dictionary whose rows hold their key.
use mathlib.Core.Path.{◌≡◌, refl}
use mathlib.Core.Bool.{false}
use mathlib.Core.Option.{none, some}
use mathlib.Core.List.{List, [], ◌∷◌}
use Prim.Native.String.{String}
use native.Mathlib.Omega.{arith}
use blueballs.Prelude.Tests.{str_eq, str_eq_iff}
use blueballs.Prelude.Lists.{All}
use blueballs.Prelude.Dict.{Dict, lookup, HasDistinctKeys, str_eq_refl}
use blueballs.Prelude.Sorting.{Pairwise}

-- `SELECT *`, and `[...map.values()]`
abbrev pub rows {ℓ} : {V : Type ℓ} → Dict V → List V
rows [] = []
rows ((k, v) ∷ d) = v ∷ rows d

module _ {V : Type 0} where
  behind :
      (k j : String) (v w : V) (d : Dict V)
      → lookup k d ≡ none
      → lookup j d ≡ some w
      → (str_eq k j ≡ false) × (lookup j ((k, v) ∷ d) ≡ some w)
  unfolding lookup
  behind k j v w d fresh found = ground (arith, str_eq_iff k j)

  -- What holds of each row that is looked up holds of all rows.
  pub rows-All :
      (P : V → Type 0) (d : Dict V)
      → HasDistinctKeys d
      → ((k : String) (v : V) → lookup k d ≡ some v → P v)
      → All P (rows d)
  unfolding lookup
  rows-All P [] h f = tt
  rows-All P ((k, v) ∷ d) (fresh, h) f = (
    f k v (rw (str_eq_refl k) refl),
    rows-All P d h (λ j w found. f j w (behind k j v w d fresh found).1),
  )

  -- The rows of a table differ in their keys.
  pub rows-Pairwise :
      (key : V → String) (d : Dict V)
      → HasDistinctKeys d
      → ((k : String) (v : V) → lookup k d ≡ some v → key v ≡ k)
      → Pairwise (λ v w. str_eq (key v) (key w) ≡ false) (rows d)
  unfolding lookup
  rows-Pairwise key [] h own = tt
  rows-Pairwise key ((k, v) ∷ d) (fresh, h) own =
      let here : key v ≡ k = own k v (rw (str_eq_refl k) refl) in
      let later = λ (j : String) (w : V) (found : lookup j d ≡ some w).
        own j w (behind k j v w d fresh found).1 in
      (
        rows-All (λ w. str_eq (key v) (key w) ≡ false) d h
            (λ j w found. rw (here, later j w found) (behind k j v w d fresh found).0),
        rows-Pairwise key d h later,
      )
