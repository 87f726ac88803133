-- ===== src/Bank/Store/Commit.antt =====
-- The collections of apps/api/src/lib.js at the end of a request that succeeds.
use blueballs.Prelude.{
  String, ◌≡◌, refl, sym, ap, ◌∙◌, inl, inr, Option, none, some, List, [], ◌∷◌, arith, str_eq,
  str_eq_iff, Bool-cases, Option-cases,
}
use blueballs.Prelude.Dict.{Dict, lookup, erase}
use blueballs.Bank.Store.{
  Snapshots, Collection, write_row, write, delete_from, mutate_from, Operation, set_row, delete_row,
  mutate_row, apply, apply_all, persist_all, scope_rows, begin, commit,
}
use blueballs.Bank.Store.Rollback.{
  lookup-write_row, InRequest, apply_all-InRequest, begin-InRequest,
}

module _ {V : Type 0} where
  -- The table holds the rows of the cache.
  abbrev pub IsInSync : Collection V → Type 0
  IsInSync c = (id : String) → lookup id c.cache ≡ lookup id c.table

  persisted :
      (cache : Dict V) (j k : String) (o : Option V) (rows : Snapshots V) (table : Dict V)
      → (lookup j ((k, o) ∷ rows) ≡ none → lookup j cache ≡ lookup j table)
      → lookup j rows ≡ none
      → lookup j cache ≡ lookup j (write_row k (lookup k cache) table)
  unfolding lookup
  persisted cache j k o rows table p later = elim (Bool-cases (str_eq k j)) [
    | inl same ↦
        rw (lookup-write_row k j (lookup k cache) table)
          (rw same (ap (λ i. lookup i cache) (sym ((str_eq_iff k j).0 same))))
    | inr other ↦ rw (lookup-write_row k j (lookup k cache) table) (rw other (p (rw other later)))
  ]

  persist_all-lookup :
      (cache : Dict V) (j : String) (rows : Snapshots V) (table : Dict V)
      → (lookup j rows ≡ none → lookup j cache ≡ lookup j table)
      → lookup j (persist_all cache rows table) ≡ lookup j cache
  unfolding persist_all lookup
  persist_all-lookup cache j [] table p = sym (p refl)
  persist_all-lookup cache j ((k, o) ∷ rows) table p =
      persist_all-lookup cache j rows (write_row k (lookup k cache) table)
        (persisted cache j k o rows table p)

  commit-InRequest :
      (old : Collection V) (cache table : Dict V) (scope : Option (Snapshots V)) (j : String)
      → IsInSync old
      → InRequest old cache table scope
      → lookup j (persist_all cache (scope_rows scope) table) ≡ lookup j cache
  commit-InRequest old cache table none j sync h = absurd h
  commit-InRequest old cache table (some rows) j sync (t, same) =
      persist_all-lookup cache j rows table
        (λ missing. t.untouched j missing ∙ sync j ∙ ap (lookup j) (sym same))

  -- If the table agreed with the cache before a request, then after its commit it agrees with the
  -- cache that the request's writes produced.
  pub commit-IsInSync :
      (c : Collection V) (os : List (Operation V))
      → IsInSync c
      → IsInSync (commit (apply_all (begin c) os))
  unfolding commit
  commit-IsInSync c os sync id =
      let c' = apply_all (begin c) os in
      sym (
        commit-InRequest c c'.cache c'.table c'.scope id sync
          (apply_all-InRequest c (begin c) os (begin-InRequest c)))

  erase_missing : (k : String) (d : Dict V) → lookup k d ≡ none → erase k d ≡ d
  unfolding lookup erase
  erase_missing k [] h = refl
  erase_missing k ((j, w) ∷ d) h = ground (arith, erase_missing k d)

  -- The cache after one write does not depend on whether a request is active.
  write-cache :
      (cache table table' : Dict V) (rows : Snapshots V) (k : String) (row : Option V)
      → (write cache table (some rows) k row).cache ≡ (write cache table' none k row).cache
  unfolding write
  write-cache cache table table' rows k row = refl

  -- A collection in a request, and one outside that has seen the same writes: the caches are the
  -- same, and outside the table follows at once.
  abbrev Mirrors : Dict V → Option (Snapshots V) → Dict V → Dict V → Option (Snapshots V) → Type 0
  Mirrors cache none cache' table' _ = ⊥
  Mirrors cache (some _) cache' table' none =
      (cache ≡ cache') × ((id : String) → lookup id cache' ≡ lookup id table')
  Mirrors cache (some _) cache' table' (some _) = ⊥

  abbrev IsMirror : Collection V → Collection V → Type 0
  IsMirror c d = Mirrors c.cache c.scope d.cache d.table d.scope

  write_row-agrees :
      (k j : String) (row : Option V) (d e : Dict V)
      → lookup j d ≡ lookup j e
      → lookup j (write_row k row d) ≡ lookup j (write_row k row e)
  write_row-agrees k j row d e h =
      rw (lookup-write_row k j row d) (rw (lookup-write_row k j row e) (rw h))

  write-IsMirror :
      (cache table : Dict V) (scope : Option (Snapshots V)) (cache' table' : Dict V)
      (scope' : Option (Snapshots V)) (k : String) (row : Option V)
      → Mirrors cache scope cache' table' scope'
      → IsMirror (write cache table scope k row) (write cache' table' scope' k row)
  unfolding write
  write-IsMirror cache table none cache' table' scope' k row h = absurd h
  write-IsMirror cache table (some r) cache' table' none k row (same, sync) =
      (ap (write_row k row) same, λ j. write_row-agrees k j row cache' table' (sync j))
  write-IsMirror cache table (some r) cache' table' (some _) k row h = absurd h

  delete_from-IsMirror :
      (cache table : Dict V) (scope : Option (Snapshots V)) (cache' table' : Dict V)
      (scope' : Option (Snapshots V)) (k : String)
      → Mirrors cache scope cache' table' scope'
      → IsMirror (delete_from cache table scope k).1 (delete_from cache' table' scope' k).1
  unfolding delete_from write
  delete_from-IsMirror cache table none cache' table' scope' k h = absurd h
  delete_from-IsMirror cache table (some r) cache' table' none k (same, sync) =
      elim (Option-cases (lookup k cache)) [
        | inl gone ↦ rw gone (
          sym (erase_missing k cache gone) ∙ ap (erase k) same,
          λ j. write_row-agrees k j none cache' table' (sync j),
        )
        | inr (v, found) ↦
            rw found (ap (erase k) same, λ j. write_row-agrees k j none cache' table' (sync j))
      ]
  delete_from-IsMirror cache table (some r) cache' table' (some _) k h = absurd h

  mutate_from-IsMirror :
      (cache table : Dict V) (scope : Option (Snapshots V)) (cache' table' : Dict V)
      (scope' : Option (Snapshots V)) (k : String) (f : V → V) (row : Option V)
      → Mirrors cache scope cache' table' scope'
      → IsMirror (mutate_from cache table scope k f row) (mutate_from cache' table' scope' k f row)
  unfolding mutate_from
  mutate_from-IsMirror cache table scope cache' table' scope' k f none h = h
  mutate_from-IsMirror cache table scope cache' table' scope' k f (some v) h =
      write-IsMirror cache table scope cache' table' scope' k (some (f v)) h

  -- The rows that a mutation reads are the same on both sides.
  row_of_mirror :
      (cache : Dict V) (scope : Option (Snapshots V)) (cache' table' : Dict V)
      (scope' : Option (Snapshots V)) (k : String)
      → Mirrors cache scope cache' table' scope'
      → lookup k cache ≡ lookup k cache'
  row_of_mirror cache none cache' table' scope' k h = absurd h
  row_of_mirror cache (some r) cache' table' none k (same, sync) = ap (lookup k) same
  row_of_mirror cache (some r) cache' table' (some _) k h = absurd h

  apply-IsMirror :
      (c d : Collection V) (o : Operation V) → IsMirror c d → IsMirror (apply c o) (apply d o)
  unfolding apply
  apply-IsMirror c d (set_row k v) h =
      write-IsMirror c.cache c.table c.scope d.cache d.table d.scope k (some v) h
  apply-IsMirror c d (delete_row k) h =
      delete_from-IsMirror c.cache c.table c.scope d.cache d.table d.scope k h
  apply-IsMirror c d (mutate_row k f) h =
      rw (← row_of_mirror c.cache c.scope d.cache d.table d.scope k h) (
        mutate_from-IsMirror c.cache c.table c.scope d.cache d.table d.scope k f (lookup k c.cache)
          h)

  apply_all-IsMirror :
      (c d : Collection V) (os : List (Operation V))
      → IsMirror c d
      → IsMirror (apply_all c os) (apply_all d os)
  unfolding apply_all
  apply_all-IsMirror c d [] h = h
  apply_all-IsMirror c d (o ∷ os) h =
      apply_all-IsMirror (apply c o) (apply d o) os (apply-IsMirror c d o h)

  mirror_agrees :
      (cache : Dict V) (scope : Option (Snapshots V)) (cache' table' : Dict V)
      (scope' : Option (Snapshots V)) (j : String)
      → Mirrors cache scope cache' table' scope'
      → lookup j cache ≡ lookup j table'
  mirror_agrees cache none cache' table' scope' j h = absurd h
  mirror_agrees cache (some r) cache' table' none j (same, sync) = ap (lookup j) same ∙ sync j
  mirror_agrees cache (some r) cache' table' (some _) j h = absurd h

  -- A collection outside of any request.
  abbrev pub idle : Dict V → Dict V → Collection V
  idle cache table = record { cache = cache; table = table; scope = none }

  -- Where no request is active and the table agrees with the cache, committing a request leaves the
  -- table with the same rows as making its writes one by one outside of a request.
  pub commit-eq-direct :
      (cache table : Dict V) (os : List (Operation V))
      → IsInSync (idle cache table)
      → (id : String)
      → lookup id (commit (apply_all (begin (idle cache table)) os)).table
        ≡ lookup id (apply_all (idle cache table) os).table
  unfolding begin commit
  commit-eq-direct cache table os sync id =
      let c = apply_all (begin (idle cache table)) os in
      let d = apply_all (idle cache table) os in
      let m = apply_all-IsMirror (begin (idle cache table)) (idle cache table) os (refl, sync) in
      sym (commit-IsInSync (idle cache table) os sync id)
      ∙ mirror_agrees c.cache c.scope d.cache d.table d.scope id m
