-- ===== src/Sql/Executor/Statements.antt =====
-- INSERT, UPDATE, DELETE, and the lists of tables and of columns, of the executor in sql/sql.go.
use Prim.Native.Nat.{Ordering}
use go_db.Base.{
  ℕ, ◌+◌, Bool, true, false, not, ◌&&◌, Option, none, some, List, [], ◌∷◌, Bytes, codes,
  if◌then◌else◌,
}
use go_db.Base.Int.{ℤ, pos}
use go_db.Base.Assoc.{Assoc, lookup, insert}
use go_db.Base.Result.{Result, ok, err, panic, stuck}
use go_db.Base.Result
use go_db.Base.Exec.{Exec, pure, wrap, ◌>>=◌, ◌>>◌}
use go_db.Storage.Page.{Page}
use go_db.Storage.Pool.{Io}
use go_db.Kv.Value.{
  Value, int, text, boolean, Floats, ColumnType, int_type, Column, ColumnConstraint, Reference,
  Schema, Row,
}
use go_db.Kv.Store.{Files}
use go_db.Kv.Table.{insert_row, delete_row}
use go_db.Kv.Table.Rows.{assign, is_nil}
use go_db.Kv.Table.Secondary.{field_of}
use go_db.Sql.Ast.{Insert, Update, Delete}
use go_db.Sql.Token.{equal_fold}
use go_db.Sql.Eval.{compare, coerce_value, match, column_type_name}
use go_db.Sql.Executor.{
  Executor, ExecutorError, in_coercion, unknown_column, no_columns, missing_key_column,
  foreign_key_failed, Held, lift, on_table, table, schema_at, in_transaction, record_write, new_row,
  change_row, value_of_held, next_id, key_of, held_rows, rows,
}

-- the column of that name, in any case
unfoldable pub column_of : Bytes → List Column → Option Column
column_of name [] = none
column_of name (c ∷ cs) =
    let rest = column_of name cs in if equal_fold c.name name then some c else rest

-- `q.Values[i]`
abbrev pub element : List Value → Result ExecutorError (Value × List Value)
element [] = panic
element (v ∷ vs) = ok (v, vs)

abbrev pub is_int_type : ColumnType → Bool
is_int_type int_type = true
is_int_type _ = false

unfoldable pub column_rows : Assoc ColumnConstraint → List Column → List Row
column_rows constraints [] = []
column_rows constraints (c ∷ cs) =
    ((codes "column", text c.name)
      ∷ (codes "type", text (column_type_name c.kind))
      ∷ (
        codes "nullable",
        boolean (elim (lookup c.name constraints) as (λ _. Bool) [
          | none ↦ true
          | some k ↦ not k.not_null
        ]),
      )
      ∷ (
        codes "unique",
        boolean
            (elim (lookup c.name constraints) as (λ _. Bool) [ none ↦ false | some k ↦ k.unique ]),
      )
      ∷ [])
    ∷ column_rows constraints cs

abbrev pub reference_of : Option ColumnConstraint → Option Reference
reference_of none = none
reference_of (some c) = c.references

-- the error dropped
abbrev pub rows_or_none : Result ExecutorError (List Row) → Result ExecutorError (List Row)
rows_or_none (ok held) = ok held
rows_or_none (err x) = ok []
rows_or_none panic = panic
rows_or_none stuck = stuck

module _ {W : Type 0} (read_disk : ℕ → Io W Page) (write_disk : Page → Io W (Unit {0}))
    (f : Files W) (floats : Floats) (sprint index_value : Value → Bytes)
    (parse_time : Bytes → Option ℤ) where
  abbrev rows_of : ℕ → Exec ExecutorError (Executor W) (List Row)
  rows_of = rows read_disk write_disk f floats sprint index_value parse_time

  abbrev key_in : Schema → Row → Result ExecutorError Bytes
  key_in = key_of read_disk write_disk f floats sprint index_value parse_time

  abbrev coerced : Option Column → Value → Result ExecutorError Value
  coerced none v = ok v
  coerced (some c) v = wrap in_coercion (coerce_value floats parse_time v c.kind)

  -- the row of an INSERT
  unfoldable pub row_of_values : Schema → List Bytes → List Value → Row → Result ExecutorError Row
  row_of_values s [] values r = ok r
  row_of_values s (c ∷ cs) values r = Result.◌>>=◌ (element values) (λ e.
      Result.◌>>=◌ (coerced (column_of c s.columns) e.0)
        (λ v. row_of_values s cs e.1 (insert c v r)))

  -- The value of the key column, and the row with it: the next id where the row has none.
  unfoldable pub with_key : ℕ → List Column → Row → Exec ExecutorError (Executor W) (Value × Row)
  with_key t [] r = lift (err no_columns)
  with_key t (c ∷ cs) r =
      elim (lookup c.name r) as (λ _. Exec ExecutorError (Executor W) (Value × Row)) [
        | some v ↦ pure (v, r)
        | none ↦
            if is_int_type c.kind
            then (rows_of t >>= λ held. pure (
              int (next_id c.name held (pos 1)),
              insert c.name (int (next_id c.name held (pos 1))) r,
            ))
            else lift (err (missing_key_column c.name))
      ]

  -- a row of the table that is referred to has that value
  unfoldable pub is_referred : Bytes → Value → List Row → Bool
  is_referred column v [] = false
  is_referred column v (r ∷ rows) =
      let rest = is_referred column v rows in
      if not (is_nil (field_of r column))
        && elim (compare floats sprint (field_of r column) v) as (λ _. Bool) [
          | Ordering.eq ↦ true
          | _ ↦ false
        ]
      then true
      else rest

  -- `e.refRows(t)`: none where they cannot be read
  unfoldable pub ref_rows : ℕ → Exec ExecutorError (Executor W) (List Row)
  ref_rows t e = let (r, u) = rows_of t e in (rows_or_none r, u)

  abbrev pub check_reference :
      Option Reference → Bytes → Value → Exec ExecutorError (Executor W) (Unit {0})
  check_reference none column v = pure tt
  check_reference (some r) column v =
      if is_nil v
      then pure tt
      else (table r.table >>= λ t. ref_rows t >>= λ held.
          if is_referred r.column v held then pure tt else lift (err (foreign_key_failed column)))

  unfoldable pub check_references :
      Assoc ColumnConstraint → List Column → Row → Exec ExecutorError (Executor W) (Unit {0})
  check_references constraints [] r = pure tt
  check_references constraints (c ∷ cs) r =
      check_reference (reference_of (lookup c.name constraints)) c.name (field_of r c.name)
      >> check_references constraints cs r

  -- a write of the transaction, or one of the table
  unfoldable pub save_row : ℕ → Bytes → Row → Exec ExecutorError (Executor W) (Unit {0})
  save_row t key r = λ e.
      if in_transaction e
      then (new_row r >>= λ i. record_write t key (record { row = i; deleted = false })) e
      else on_table t (insert_row read_disk write_disk f floats sprint index_value key r) e

  unfoldable pub insert_values : Insert → Exec ExecutorError (Executor W) ℕ
  insert_values q = do
    t ← table q.table
    s ← schema_at t
    r ← lift (row_of_values s q.columns q.values [])
    keyed ← with_key t s.columns r
    check_references s.constraints s.columns keyed.1
    save_row t (sprint keyed.0) keyed.1
    pure 1

  -- the columns that UPDATE sets
  unfoldable pub set_of : List Column → Assoc Value → Row → Result ExecutorError Row
  set_of columns [] set = ok set
  set_of columns ((name, v) ∷ assignments) set =
      elim (column_of name columns) as (λ _. Result ExecutorError Row) [
        | none ↦ err (unknown_column name)
        | some c ↦
            Result.◌>>=◌ (coerced (some c) v)
              (λ value. set_of columns assignments (insert name value set))
      ]

  -- One row of UPDATE, read when its turn comes: it is changed in place, and written.
  unfoldable pub update_held : ℕ → Row → Held → Exec ExecutorError (Executor W) (Unit {0})
  update_held t set h = do
    i ← λ e. change_row h (assign set (value_of_held e.row_store h)) e
    s ← schema_at t
    key ← λ e. lift (key_in s (value_of_held e.row_store (Held.shared i))) e
    λ e.
        if in_transaction e
        then (ok tt, e)
        else on_table t
            (insert_row read_disk write_disk f floats sprint index_value key
              (value_of_held e.row_store (Held.shared i)))
            e
    record_write t key (record { row = i; deleted = false })

  unfoldable pub update_each : ℕ → Update → Row → List Held → ℕ → Exec ExecutorError (Executor W) ℕ
  update_each t q set [] n = pure n
  update_each t q set (h ∷ hs) n = λ e.
      if match floats sprint q.condition (value_of_held e.row_store h)
      then (update_held t set h >> update_each t q set hs (n + 1)) e
      else update_each t q set hs n e

  unfoldable pub update_values : Update → Exec ExecutorError (Executor W) ℕ
  update_values q = do
    t ← table q.table
    s ← schema_at t
    set ← lift (set_of s.columns q.assignments [])
    hs ← held_rows read_disk write_disk f floats sprint index_value parse_time t
    update_each t q set hs 0

  unfoldable pub delete_held : ℕ → Row → Exec ExecutorError (Executor W) (Unit {0})
  delete_held t r = do
    s ← schema_at t
    key ← lift (key_in s r)
    λ e.
        if in_transaction e
        then (ok tt, e)
        else on_table t (delete_row read_disk write_disk f floats sprint index_value key) e
    record_write t key (record { row = 0; deleted = true })

  unfoldable pub delete_each : ℕ → Delete → List Row → ℕ → Exec ExecutorError (Executor W) ℕ
  delete_each t q [] n = pure n
  delete_each t q (r ∷ rs) n =
      if match floats sprint q.condition r
      then (delete_held t r >> delete_each t q rs (n + 1))
      else delete_each t q rs n

  unfoldable pub delete_values : Delete → Exec ExecutorError (Executor W) ℕ
  delete_values q = do t ← table q.table; rs ← rows_of t; delete_each t q rs 0

  -- EXPLAIN of a table: its columns
  unfoldable pub explain_table : Bytes → Exec ExecutorError (Executor W) (List Row)
  explain_table name = do
    t ← table name
    s ← schema_at t
    pure (column_rows s.constraints s.columns)
