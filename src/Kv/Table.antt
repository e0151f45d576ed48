-- ===== src/Kv/Table.antt =====
-- `Table` of kv/table.go: rows with a schema, over a store, with a secondary index in memory.
-- `fmt.Sprint`, `indexValue` and the floats are parameters. Where a call changes rows and counts
-- them, the count comes with a success only, as its callers use it.
pub mod Secondary
pub mod Rows
pub mod Keys
pub mod Reindex
pub mod Upkeep
use go_db.Base.{
  ℕ, zero, suc, ◌+◌, ◌-◌, ◌*◌, ◌^◌, Bool, true, false, ◌&&◌, ◌||◌, not, Option, none, some, List,
  [], ◌∷◌, ◌++◌, map, Bytes, bytes_eq, length, get_elem?, ltb, ◌==◌, if◌then◌else◌,
}
use go_db.Base.Int.{pos, negsuc}
use go_db.Base.Assoc.{Assoc, lookup, insert}
use go_db.Base.Result.{Result, ok, err, panic, stuck}
use go_db.Base.Exec.{Exec, pure, wrap, continue, ◌>>=◌, ◌>>◌}
use go_db.Storage.Page.{Page}
use go_db.Storage.Pool.{Io}
use go_db.Kv.Value.{
  Value, null, int, text, boolean, float, blob, timestamp, Floats, ColumnType, int_type,
  string_type, bool_type, float_type, bytes_type, timestamp_type, Column, ColumnConstraint, Schema,
  Row,
}
use go_db.Kv.Snapshot.{begin_snapshot, release_snapshot, changed_since, get_at, keys_at}
use go_db.Kv.Codec.{RowError, validate, encode, decode}
use go_db.Kv.Wal.{BatchOp}
use go_db.Kv.Btree.{Btree, nil, root, Node}
use go_db.Kv.Store.{Store, StoreError, Files}
use go_db.Kv.Store
use go_db.Base.Result
use Rows.{
  TableError, in_store, in_row, no_columns, TransactionRow, tree_values, columns_behind,
  decode_found, decode_all, decode_visible, row_key, check_schema, batch_of, convert_row, assign,
}
use Secondary.{
  SecondaryMap, cell, field_of, keys_or_nil, map_or_nil, index_row, unindex_row, empty_secondary,
}

pub record Table (W : Type 0) : Type 0 where
  pub store : Store W
  pub schema : Schema
  pub secondary : SecondaryMap

module _ {W : Type 0} where
  abbrev pub on_store : {A : Type 0} → Exec StoreError (Store W) A → Exec TableError (Table W) A
  on_store m t = let (r, s) = m t.store in (wrap in_store r, record t { store = s })

  abbrev pub lift : {A : Type 0} → Result TableError A → Exec TableError (Table W) A
  lift r t = (r, t)

  abbrev pub set_secondary : SecondaryMap → Exec TableError (Table W) (Unit {0})
  set_secondary s t = (ok tt, record t { secondary = s })

  unfoldable pub get : Bytes → Exec TableError (Table W) (Option Row)
  get key = λ t. (on_store (Store.get key) >>= λ b. lift (decode_found t.schema b)) t

  unfoldable pub scan : Exec TableError (Table W) (List Row)
  scan t = (decode_all t.schema (tree_values t.store.index), t)

  unfoldable pub snapshot : Exec TableError (Table W) ℕ
  snapshot t =
      let (at, h) = begin_snapshot t.store.history in
      (ok at, record t { store = record (t.store) { history = h } })

  unfoldable pub release : ℕ → Exec TableError (Table W) (Unit {0})
  release at t = (
    ok tt,
    record t { store = record (t.store) { history = release_snapshot at t.store.history } },
  )

  unfoldable pub table_changed_since : ℕ → Bytes → Table W → Bool
  table_changed_since at key t = changed_since at key t.store.history

  unfoldable pub table_get_at : ℕ → Bytes → Table W → Result TableError (Option Row)
  table_get_at at key t = decode_visible t.schema (get_at at key t.store.history)

  unfoldable pub scan_keys : ℕ → List Bytes → Table W → Result TableError (List Row)
  scan_keys at [] t = ok []
  scan_keys at (key ∷ keys) t = Result.◌>>=◌ (table_get_at at key t) (λ found.
      Result.◌>>=◌ (scan_keys at keys t)
        (λ rest. ok (elim found as (λ _. List Row) [ none ↦ rest | some r ↦ r ∷ rest ])))

  unfoldable pub scan_at : ℕ → Exec TableError (Table W) (List Row)
  scan_at at t = (scan_keys at (keys_at at t.store.history) t, t)

  unfoldable pub has_index : Bytes → Table W → Bool
  has_index column t = elim (lookup column t.secondary) as (λ _. Bool) [
    | none ↦ false
    | some m ↦ true
  ]

  unfoldable pub get_all : List Bytes → Exec TableError (Table W) (List Row)
  get_all [] = pure []
  get_all (key ∷ keys) = do
    found ← get key
    rest ← get_all keys
    pure (elim found as (λ _. List Row) [ none ↦ rest | some r ↦ r ∷ rest ])

module _ {W : Type 0} (read_disk : ℕ → Io W Page) (write_disk : Page → Io W (Unit {0}))
    (f : Files W) (floats : Floats) (sprint index_value : Value → Bytes) where
  unfoldable pub validate_constraints : Bytes → Row → Exec TableError (Table W) (Unit {0})
  validate_constraints key row =
      scan >>= λ rows t. lift (check_schema sprint index_value t.schema key row rows) t

  unfoldable pub index : Bytes → Row → Exec TableError (Table W) (Unit {0})
  index key row = λ t.
      (lift (
            Result.◌>>=◌ (columns_behind t.schema.columns)
              (λ cs. index_row index_value cs key row t.secondary))
          >>= set_secondary)
        t

  unfoldable pub unindex : Bytes → Row → Exec TableError (Table W) (Unit {0})
  unindex key row = λ t.
      (lift (
            Result.◌>>=◌ (columns_behind t.schema.columns)
              (λ cs. ok (unindex_row index_value cs key row t.secondary)))
          >>= set_secondary)
        t

  -- `if found { t.unindexRow(key, old) }`
  abbrev pub unindex_found : Bytes → Option Row → Exec TableError (Table W) (Unit {0})
  unindex_found key none = pure tt
  unindex_found key (some old) = unindex key old

  unfoldable pub store_put : Bytes → Bytes → Exec TableError (Table W) (Unit {0})
  store_put key b = on_store (Store.put read_disk write_disk f key b)

  unfoldable pub insert_row : Bytes → Row → Exec TableError (Table W) (Unit {0})
  insert_row key row = do
    b ← λ t. lift (wrap in_row (encode floats t.schema row)) t
    validate_constraints key row
    old ← get key
    store_put key b
    unindex_found key old
    index key row

  -- `if !found { return nil }`, and else what follows
  abbrev pub delete_found : Bytes → Option Row → Exec TableError (Table W) (Unit {0})
  delete_found key none = pure tt
  delete_found key (some old) =
      on_store (Store.delete read_disk write_disk f key) >> unindex key old

  unfoldable pub delete_row : Bytes → Exec TableError (Table W) (Unit {0})
  delete_row key = get key >>= delete_found key

  -- `order` is the order in which a range over a map yields the keys.
  unfoldable pub find :
      (List Bytes → List Bytes) → Bytes → Value → Exec TableError (Table W) (List Row)
  find order column v = λ t.
      get_all
        (order (keys_or_nil (lookup (index_value v) (map_or_nil (lookup column t.secondary))))) t

  -- the loop of `updateRows`, with the number so far
  unfoldable pub update_loop : (Row → Bool) → Row → List Row → ℕ → Exec TableError (Table W) ℕ
  update_loop where_ set [] n = pure n
  update_loop where_ set (r ∷ rows) n =
      if where_ r
      then (do
        key ← λ t. lift (row_key sprint index_value t.schema (assign set r)) t
        insert_row key (assign set r)
        update_loop where_ set rows (n + 1))
      else update_loop where_ set rows n

  unfoldable pub update_rows :
      Exec TableError (Table W) (List Row) → (Row → Bool) → Row → Exec TableError (Table W) ℕ
  update_rows scanned where_ set = scanned >>= λ rows. update_loop where_ set rows 0

  unfoldable pub delete_loop : (Row → Bool) → List Row → ℕ → Exec TableError (Table W) ℕ
  delete_loop where_ [] n = pure n
  delete_loop where_ (r ∷ rows) n =
      if where_ r
      then (do
        key ← λ t. lift (row_key sprint index_value t.schema r) t
        delete_row key
        delete_loop where_ rows (n + 1))
      else delete_loop where_ rows n

  unfoldable pub delete_rows :
      Exec TableError (Table W) (List Row) → (Row → Bool) → Exec TableError (Table W) ℕ
  delete_rows scanned where_ = scanned >>= λ rows. delete_loop where_ rows 0

  unfoldable pub apply_rows_batch : ℕ → Assoc TransactionRow → Exec TableError (Table W) (Unit {0})
  apply_rows_batch id writes = do
    ops ← λ t. lift (batch_of floats t.schema writes) t
    on_store (Store.apply_batch read_disk write_disk f id ops)

  unfoldable pub index_all : List Row → Exec TableError (Table W) (Unit {0})
  index_all [] = pure tt
  index_all (r ∷ rows) = do
    key ← λ t. lift (row_key sprint index_value t.schema r) t
    index key r
    index_all rows

  -- `NewTable` on a store that is there: the table, or an error
  unfoldable pub new_table : Schema → Store W → Result TableError (Unit {0}) × Table W
  new_table schema s =
      let made : SecondaryMap → Table W =
        λ m. record { store = s; schema = schema; secondary = m } in
      (lift (wrap in_row (validate schema))
          >> elim schema.columns as (λ _. Exec TableError (Table W) (Unit {0})) [
            | [] ↦ lift (err no_columns)
            | c ∷ cs ↦ set_secondary (empty_secondary cs []) >> (scan >>= index_all)
          ])
        (made [])

  abbrev pub set_schema : Schema → SecondaryMap → Exec TableError (Table W) (Unit {0})
  set_schema s m t = (ok tt, record t { schema = s; secondary = m })

  unfoldable pub rewrite_rows : List Row → Exec TableError (Table W) (Unit {0})
  rewrite_rows [] = pure tt
  rewrite_rows (r ∷ rows) = do
    key ← λ t. lift (row_key sprint index_value t.schema r) t
    b ← λ t. lift (wrap in_row (encode floats t.schema r)) t
    store_put key b
    index key r
    rewrite_rows rows

  unfoldable pub alter_table : Schema → Exec TableError (Table W) (Unit {0})
  alter_table schema = λ t.
      (do
        lift (wrap in_row (validate schema))
        rows ← scan
        set_schema schema []
        cs ← lift (columns_behind schema.columns)
        set_secondary (empty_secondary cs [])
        rewrite_rows (
            map (λ r. convert_row floats t.schema.columns schema.columns 0 schema.columns r [])
              rows))
        t
