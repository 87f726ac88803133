-- ===== src/Bank/Store.antt =====
-- The write-through collections of apps/api/src/lib.js: `PersistentMap` and the part of
-- `inRequestScope` that snapshots, persists and restores its rows. A row is a JSON value, a
-- parameter here. A write through the proxy that `track` returns is `mutate`, on the row that the
-- cache holds. The SQLite table is a dictionary by its primary key.
pub mod Rollback
pub mod Commit
use blueballs.Prelude.{String, Bool, true, false, Option, none, some, List, [], ◌∷◌, if◌then◌else◌}
use blueballs.Prelude.Dict.{Dict, is_some, lookup, insert, erase}

-- What `snapshotOnce` has saved: `none` is MISSING.
abbrev pub Snapshots : Type 0 → Type 0
Snapshots V = Dict (Option V)

pub record Collection (V : Type 0) : Type 0 where
  pub cache : Dict V
  pub table : Dict V
  pub scope : Option (Snapshots V)

-- A write of a handler.
pub data Operation (V : Type 0) : Type 0 where
  set_row : String → V → Operation V
  delete_row : String → Operation V
  mutate_row : String → (V → V) → Operation V

module _ {V : Type 0} where
  -- The first snapshot of an id stays.
  unfoldable pub snapshot_once : Snapshots V → String → Option V → Snapshots V
  snapshot_once rows id root = if is_some (lookup id rows) then rows else insert id root rows

  -- `_upsert` and `_del`
  abbrev pub write_row : String → Option V → Dict V → Dict V
  write_row id none d = erase id d
  write_row id (some v) d = insert id v d

  unfoldable pub get : Collection V → String → Option V
  get c id = lookup id c.cache

  unfoldable pub has : Collection V → String → Bool
  has c id = is_some (lookup id c.cache)

  -- The state after the cache row of an id has become `row`, in a request and out of one.
  unfoldable pub write : Dict V → Dict V → Option (Snapshots V) → String → Option V → Collection V
  unfolding snapshot_once
  write cache table (some rows) id row = record {
    cache = write_row id row cache;
    table = table;
    scope = some (snapshot_once rows id (lookup id cache));
  }
  write cache table none id row = record {
    cache = write_row id row cache;
    table = write_row id row table;
    scope = none;
  }

  unfoldable pub set : Collection V → String → V → Collection V
  unfolding write
  set c id v = write c.cache c.table c.scope id (some v)

  -- In a request, an id that the cache lacks is left alone; out of one, the table's row goes too.
  delete_from : Dict V → Dict V → Option (Snapshots V) → String → Bool × Collection V
  unfolding write
  delete_from cache table (some rows) id =
      if is_some (lookup id cache)
      then (true, write cache table (some rows) id none)
      else (false, record { cache = cache; table = table; scope = some rows })
  delete_from cache table none id = (is_some (lookup id cache), write cache table none id none)

  unfoldable pub delete : Collection V → String → Bool × Collection V
  unfolding delete_from
  delete c id = delete_from c.cache c.table c.scope id

  -- Setting or deleting a property of a row that `get` has returned.
  mutate_from : Dict V → Dict V → Option (Snapshots V) → String → (V → V) → Option V → Collection V
  unfolding write
  mutate_from cache table scope id f none = record { cache = cache; table = table; scope = scope }
  mutate_from cache table scope id f (some v) = write cache table scope id (some (f v))

  unfoldable pub mutate : Collection V → String → (V → V) → Collection V
  unfolding mutate_from
  mutate c id f = mutate_from c.cache c.table c.scope id f (lookup id c.cache)

  unfoldable pub apply : Collection V → Operation V → Collection V
  unfolding set delete mutate
  apply c (set_row id v) = set c id v
  apply c (delete_row id) = (delete c id).1
  apply c (mutate_row id f) = mutate c id f

  unfoldable pub apply_all : Collection V → List (Operation V) → Collection V
  unfolding apply
  apply_all c [] = c
  apply_all c (o ∷ os) = apply_all (apply c o) os

  -- `_persist` of each id of the snapshots.
  unfoldable pub persist_all : Dict V → Snapshots V → Dict V → Dict V
  persist_all cache [] table = table
  persist_all cache ((id, _) ∷ rows) table =
      persist_all cache rows (write_row id (lookup id cache) table)

  -- `_restore` of each id of the snapshots.
  unfoldable pub restore_all : Snapshots V → Dict V → Dict V
  restore_all [] cache = cache
  restore_all ((id, snapshot) ∷ rows) cache = restore_all rows (write_row id snapshot cache)

  abbrev pub scope_rows : Option (Snapshots V) → Snapshots V
  scope_rows none = []
  scope_rows (some rows) = rows

  unfoldable pub begin : Collection V → Collection V
  begin c = record c { scope = some [] }

  unfoldable pub commit : Collection V → Collection V
  unfolding persist_all
  commit c = record {
    cache = c.cache;
    table = persist_all c.cache (scope_rows c.scope) c.table;
    scope = none;
  }

  unfoldable pub rollback : Collection V → Collection V
  unfolding restore_all
  rollback c = record {
    cache = restore_all (scope_rows c.scope) c.cache;
    table = c.table;
    scope = none;
  }
