-- ===== src/Kv/Table/Upkeep.antt =====
-- `Insert` and `Delete` of a table: what they do to its pages and its secondary index.
use go_db.Base.{
  ◌≡◌, refl, sym, bytes_eq_iff, ◌∙◌, ℕ, ◌+◌, ◌<◌, ◌^◌, true, arith, Option, none, some, List, [],
  ◌∷◌, ◌++◌, Bytes,
}
use mathlib.Core.Path.{subst}
use go_db.Base.Assoc.{Assoc, lookup, remove, lookup-remove}
use go_db.Base.Result.{Result, ok, err, panic, stuck}
use go_db.Base.Exec.{Exec, wrap, ◌>>◌}
use go_db.Storage.Page.{Page}
use go_db.Storage.Pool.{Io}
use go_db.Storage.Pool.View.{Disk}
use go_db.Kv.Record.{Record, flag_tombstone}
use go_db.Kv.Record.Append.{written}
use go_db.Kv.Value.{Value, Floats, Column, Row}
use go_db.Kv.Store.{Store, StoreError, Files}
use go_db.Kv.Store
use go_db.Kv.Store.Effects.{After, After-bind}
use go_db.Kv.Store.State.{Quiet, IsStore}
use go_db.Kv.Store.Deletes.{delete-IsStore}
use go_db.Kv.Table.{Table, index, unindex, unindex_found, on_store, delete_found, delete_row}
use go_db.Kv.Table
use go_db.Kv.Table.Rows.{TableError, in_store}
use go_db.Kv.Table.Secondary.{SecondaryMap, unindex_row}
use go_db.Kv.Table.Keys.{is_named}
use go_db.Kv.Table.Reindex.{IsIndexed, row_has, unindex_row-IsIndexed}

module _ {W : Type 0} (read_disk : ℕ → Io W Page) (write_disk : Page → Io W (Unit {0}))
    (f : Files W) (floats : Floats) (sprint index_value : Value → Bytes) where
  -- `Delete` behind the deletion of the row.
  unindex-IsIndexed :
      (t : Table W) (c : Column) (cs : List Column) (key : Bytes) (old : Row) (rows : Assoc Row)
      → t.schema.columns ≡ c ∷ cs
      → IsIndexed index_value cs t.secondary rows
      → lookup key rows ≡ some old
      → (m : SecondaryMap) × (unindex read_disk write_disk f floats sprint index_value key old t
          ≡ (ok tt, record t { secondary = m }))
        × IsIndexed index_value cs m (remove key rows)
  unfolding unindex
  unindex-IsIndexed t c cs key old rows e h q = (
    unindex_row index_value cs key old t.secondary,
    rw e refl,
    unindex_row-IsIndexed index_value cs key old t.secondary rows h q,
  )

-- The index depends on the values of the rows in its columns alone.
alike-IsIndexed :
    (index_value : Value → Bytes) (cs : List Column) (m : SecondaryMap) (rows others : Assoc Row)
    → IsIndexed index_value cs m rows
    → ((a v k : Bytes)
        → is_named a cs ≡ true
        → row_has index_value (lookup k rows) a v ≡ row_has index_value (lookup k others) a v)
    → IsIndexed index_value cs m others
alike-IsIndexed index_value cs m rows others h same = record {
  maps = h.maps;
  exact = λ a v k n. h.exact a v k n ∙ same a v k n;
}

-- A call of the store inside the table.
on_store-After :
    {W A : Type 0} (P : A → Store W → Type 0) (m : Exec StoreError (Store W) A) (t : Table W)
    → After (m t.store) P
    → After (on_store m t) (λ a u. (s : Store W) × (u ≡ record t { store = s }) × P a s)
on_store-After {W} {A} P m t h = go (m t.store).0 (m t.store).1 h
  where
    go :
        (r : Result StoreError A) (s : Store W)
        → After (r, s) P
        → After
            (wrap in_store r, record t { store = s })
            (λ a u. (s : Store W) × (u ≡ record t { store = s }) × P a s)
    go (ok a) s h = (s, refl, h)
    go (err e) s h = tt
    go panic s h = tt
    go stuck s h = h

-- The records that `Delete` of a key leaves, where it found this.
abbrev pub left_behind : Bytes → List Record → Option Row → List Record
left_behind key rs none = rs
left_behind key rs (some old) = rs ++ written key [] flag_tombstone ∷ []

module _ {W : Type 0} (d : Disk W) (f : Files W) (quiet : Quiet d f) (floats : Floats)
    (sprint index_value : Value → Bytes) (t : Table W) (c : Column) (cs : List Column)
    (rows : Assoc Row) (rs : List Record) (columns : t.schema.columns ≡ c ∷ cs)
    (indexed : IsIndexed index_value cs t.secondary rows) (holds : IsStore d t.store rs)
    (room : t.store.pager.num_pages + 2 < 2 ^ 32) (key : Bytes)
    (gets : Table.get key t ≡ (ok (lookup key rows), t)) where
  -- A table whose pages hold these records, with an index that is exact for these rows.
  abbrev Holds : List Record → Assoc Row → Table W → Type 0
  Holds more after u = IsStore d u.store more × IsIndexed index_value cs u.secondary after

  abbrev behind_put : Row → Exec TableError (Table W) (Unit {0})
  behind_put row =
      unindex_found d.read_disk d.write_disk f floats sprint index_value key (lookup key rows)
      >> index d.read_disk d.write_disk f floats sprint index_value key row

  deletes :
      (found : Option Row)
      → lookup key rows ≡ found
      → After
          (delete_found d.read_disk d.write_disk f floats sprint index_value key found t)
          (λ _ u. Holds (left_behind key rs found) (remove key rows) u)
  deletes none e = (
    holds,
    alike-IsIndexed index_value cs t.secondary rows (remove key rows) indexed
        (λ a v k n. ground (arith, lookup-remove key k rows, bytes_eq_iff key k)),
  )
  deletes (some old) e =
      After-bind _ (λ _ u. Holds (rs ++ written key [] flag_tombstone ∷ []) (remove key rows) u)
        (on_store (Store.delete d.read_disk d.write_disk f key))
        (λ _. unindex d.read_disk d.write_disk f floats sprint index_value key old) t
        (on_store-After _ (Store.delete d.read_disk d.write_disk f key) t
          (delete-IsStore d f quiet key t.store rs holds room))
        (λ _ u q.
          subst
            (λ u.
              After (unindex d.read_disk d.write_disk f floats sprint index_value key old u)
                (λ _ w. Holds (rs ++ written key [] flag_tombstone ∷ []) (remove key rows) w))
            (sym q.1) (unindexes q.0 q.2))
    where
      unindexes :
          (s : Store W)
          → IsStore d s (rs ++ written key [] flag_tombstone ∷ [])
          → After
              (unindex d.read_disk d.write_disk f floats sprint index_value key old
                (record t { store = s }))
              (λ _ w. Holds (rs ++ written key [] flag_tombstone ∷ []) (remove key rows) w)
      unindexes s h =
          let (m, ran, i) =
            unindex-IsIndexed d.read_disk d.write_disk f floats sprint index_value
              (record t { store = s }) c cs key old rows columns indexed e in
          rw ran (h, i)

  -- `Delete` comes back, and where it succeeds, the secondary index has, for each column behind the first and each
  -- value, the keys of exactly the rows that are left with that value; where there was a row of
  -- the key, the pages hold a tombstone of it behind all records, and else what they held.
  -- The index must be exact before, and `Get` of the key answer as the rows do. The pool must be
  -- coherent, the ids of two more pages below 2^32, and the calls on the log and the index file must come
  -- back and leave the pages alone.
  pub delete_row-IsIndexed :
      After (delete_row d.read_disk d.write_disk f floats sprint index_value key t) (λ _ u.
        IsStore d u.store (left_behind key rs (lookup key rows))
        × IsIndexed index_value cs u.secondary (remove key rows))
  unfolding delete_row
  delete_row-IsIndexed = rw gets (deletes (lookup key rows) refl)
