-- ===== src/Bank/Store/Rollback.antt =====
-- The collections of apps/api/src/lib.js at the end of a request that fails.
use blueballs.Prelude.{
  String, false, ◌≡◌, refl, ap, ◌∙◌, inl, inr, Option, none, some, List, [], ◌∷◌, arith, All,
  str_eq, str_eq_iff, if◌then◌else◌, Bool-cases, Option-cases,
}
use blueballs.Prelude.Dict.{Dict, is_some, lookup, insert, lookup-insert, lookup-erase}
use blueballs.Bank.Store.{
  Snapshots, Collection, snapshot_once, write_row, write, delete_from, mutate_from, Operation,
  set_row, delete_row, mutate_row, apply, apply_all, restore_all, scope_rows, begin, rollback,
}

module _ {V : Type 0} where
  pub lookup-write_row :
      (k j : String) (row : Option V) (d : Dict V)
      → lookup j (write_row k row d) ≡ (if str_eq k j then row else lookup j d)
  lookup-write_row k j none d = lookup-erase k j d
  lookup-write_row k j (some v) d = lookup-insert k j v d

  -- Each snapshot is the row that the collection held before the request, and a row without a
  -- snapshot has not changed.
  pub record Tracked (old cache : Dict V) (rows : Snapshots V) : Type 0 where
    pub saved : All (λ e. e.1 ≡ lookup e.0 old) rows
    pub untouched : (j : String) → lookup j rows ≡ none → lookup j cache ≡ lookup j old

  insert-saved :
      (old : Dict V) (k : String) (o : Option V) (rows : Snapshots V)
      → All (λ e. e.1 ≡ lookup e.0 old) rows
      → o ≡ lookup k old
      → All (λ e. e.1 ≡ lookup e.0 old) (insert k o rows)
  unfolding insert
  insert-saved old k o [] h p = (p, tt)
  insert-saved old k o ((j, w) ∷ rows) h p =
      ground (arith, str_eq_iff j k, insert-saved old k o rows h.1 p)

  lookup-snapshot_once :
      (rows : Snapshots V) (k j : String) (o : Option V)
      → lookup j (snapshot_once rows k o) ≡ none
      → (str_eq k j ≡ false) × (lookup j rows ≡ none)
  unfolding snapshot_once
  lookup-snapshot_once rows k j o h = ground (arith, str_eq_iff k j, lookup-insert k j o rows)

  snapshot_once-saved :
      (old : Dict V) (k : String) (o : Option V) (rows : Snapshots V)
      → All (λ e. e.1 ≡ lookup e.0 old) rows
      → (lookup k rows ≡ none → o ≡ lookup k old)
      → All (λ e. e.1 ≡ lookup e.0 old) (snapshot_once rows k o)
  unfolding snapshot_once
  snapshot_once-saved old k o rows h p = elim (Option-cases (lookup k rows)) [
    | inl new ↦ rw new (insert-saved old k o rows h (p new))
    | inr (_, found) ↦ rw found h
  ]

  write-Tracked :
      (old cache : Dict V) (rows : Snapshots V) (k : String) (row : Option V)
      → Tracked old cache rows
      → Tracked old (write_row k row cache) (snapshot_once rows k (lookup k cache))
  write-Tracked old cache rows k row t = record {
    saved = snapshot_once-saved old k (lookup k cache) rows t.saved (t.untouched k);
    untouched = λ j missing.
        let (other, before) = lookup-snapshot_once rows k j (lookup k cache) missing in
        rw (lookup-write_row k j row cache) (rw other (t.untouched j before));
  }

  -- The state of a collection in the middle of a request that began at `old`.
  abbrev pub InRequest : Collection V → Dict V → Dict V → Option (Snapshots V) → Type 0
  InRequest old cache table none = ⊥
  InRequest old cache table (some rows) = Tracked old.cache cache rows × (table ≡ old.table)

  abbrev pub IsInRequest : Collection V → Collection V → Type 0
  IsInRequest old c = InRequest old c.cache c.table c.scope

  write-InRequest :
      (old : Collection V) (cache table : Dict V) (scope : Option (Snapshots V)) (k : String)
      (row : Option V)
      → InRequest old cache table scope
      → IsInRequest old (write cache table scope k row)
  unfolding write
  write-InRequest old cache table none k row h = absurd h
  write-InRequest old cache table (some rows) k row (t, same) =
      (write-Tracked old.cache cache rows k row t, same)

  delete_from-InRequest :
      (old : Collection V) (cache table : Dict V) (scope : Option (Snapshots V)) (k : String)
      → InRequest old cache table scope
      → IsInRequest old (delete_from cache table scope k).1
  unfolding delete_from
  delete_from-InRequest old cache table none k h = absurd h
  delete_from-InRequest old cache table (some rows) k h =
      elim (Bool-cases (is_some (lookup k cache))) [
        | inl e ↦ rw e (write-InRequest old cache table (some rows) k none h)
        | inr e ↦ rw e h
      ]

  mutate_from-InRequest :
      (old : Collection V) (cache table : Dict V) (scope : Option (Snapshots V)) (k : String)
      (f : V → V) (row : Option V)
      → InRequest old cache table scope
      → IsInRequest old (mutate_from cache table scope k f row)
  unfolding mutate_from
  mutate_from-InRequest old cache table scope k f none h = h
  mutate_from-InRequest old cache table scope k f (some v) h =
      write-InRequest old cache table scope k (some (f v)) h

  apply-InRequest :
      (old c : Collection V) (o : Operation V) → IsInRequest old c → IsInRequest old (apply c o)
  unfolding apply
  apply-InRequest old c (set_row k v) h = write-InRequest old c.cache c.table c.scope k (some v) h
  apply-InRequest old c (delete_row k) h = delete_from-InRequest old c.cache c.table c.scope k h
  apply-InRequest old c (mutate_row k f) h =
      mutate_from-InRequest old c.cache c.table c.scope k f (lookup k c.cache) h

  pub apply_all-InRequest :
      (old c : Collection V) (os : List (Operation V))
      → IsInRequest old c
      → IsInRequest old (apply_all c os)
  unfolding apply_all
  apply_all-InRequest old c [] h = h
  apply_all-InRequest old c (o ∷ os) h =
      apply_all-InRequest old (apply c o) os (apply-InRequest old c o h)

  pub begin-InRequest : (c : Collection V) → IsInRequest c (begin c)
  unfolding begin
  begin-InRequest c = (record { saved = tt; untouched = λ j h. refl }, refl)

  restored :
      (old : Dict V) (j k : String) (o : Option V) (rows : Snapshots V) (cache : Dict V)
      → o ≡ lookup k old
      → (lookup j ((k, o) ∷ rows) ≡ none → lookup j cache ≡ lookup j old)
      → lookup j rows ≡ none
      → lookup j (write_row k o cache) ≡ lookup j old
  unfolding lookup
  restored old j k o rows cache e p later = elim (Bool-cases (str_eq k j)) [
    | inl same ↦
        rw (lookup-write_row k j o cache)
          (rw same (e ∙ ap (λ i. lookup i old) ((str_eq_iff k j).0 same)))
    | inr other ↦ rw (lookup-write_row k j o cache) (rw other (p (rw other later)))
  ]

  restore_all-lookup :
      (old : Dict V) (j : String) (rows : Snapshots V) (cache : Dict V)
      → All (λ e. e.1 ≡ lookup e.0 old) rows
      → (lookup j rows ≡ none → lookup j cache ≡ lookup j old)
      → lookup j (restore_all rows cache) ≡ lookup j old
  unfolding restore_all lookup
  restore_all-lookup old j [] cache h p = p refl
  restore_all-lookup old j ((k, o) ∷ rows) cache h p =
      restore_all-lookup old j rows (write_row k o cache) h.1 (restored old j k o rows cache h.0 p)

  rollback-InRequest :
      (old : Collection V) (cache table : Dict V) (scope : Option (Snapshots V)) (j : String)
      → InRequest old cache table scope
      → lookup j (restore_all (scope_rows scope) cache) ≡ lookup j old.cache
  rollback-InRequest old cache table none j h = absurd h
  rollback-InRequest old cache table (some rows) j (t, same) =
      restore_all-lookup old.cache j rows cache t.saved (t.untouched j)

  table_of_InRequest :
      (old : Collection V) (cache table : Dict V) (scope : Option (Snapshots V))
      → InRequest old cache table scope
      → table ≡ old.table
  table_of_InRequest old cache table none h = absurd h
  table_of_InRequest old cache table (some rows) (t, same) = same

  -- Whatever writes a request made before it failed, after the rollback the cache gives for every
  -- id the row that it gave before the request, the table is unchanged, and no request is active.
  pub rollback_restores :
      (c : Collection V) (os : List (Operation V))
      → let c' = rollback (apply_all (begin c) os) in
        ((id : String) → lookup id c'.cache ≡ lookup id c.cache)
        × (c'.table ≡ c.table)
        × (c'.scope ≡ none)
  unfolding rollback
  rollback_restores c os =
      let c' = apply_all (begin c) os in
      let h = apply_all-InRequest c (begin c) os (begin-InRequest c) in
      (
        λ id. rollback-InRequest c c'.cache c'.table c'.scope id h,
        table_of_InRequest c c'.cache c'.table c'.scope h,
        refl,
      )
