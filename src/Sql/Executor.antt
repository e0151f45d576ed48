-- ===== src/Sql/Executor.antt =====
-- The executor of sql/sql.go: the tables by name, and the transaction of a session with its snapshots and
-- its writes. A table is a pointer, which stands for its place in `heap`. The rows of a transaction's
-- writes are maps that `rows` hands out and `update` changes in place, so that they are references too,
-- into `row_store`. A range over a map takes the order of its list. The field `status` of a transaction is
-- left out, as nothing reads it.
pub mod Statements
pub mod Queries
pub mod Definitions
pub mod Requests
pub mod Isolation
pub mod Private
pub mod Conflicts
use go_db.Base.{
  ℕ, zero, suc, ◌+◌, ◌-◌, ◌%◌, ◌^◌, Bool, true, false, not, Option, none, some, List, [], ◌∷◌, ◌++◌,
  map, Bytes, bytes_eq, length, get_elem?, set, take, drop, ltb, leb, ◌&&◌, ◌==◌, if◌then◌else◌,
}
use Prim.Native.Nat.{Ordering}
use go_db.Base.Int.{ℤ, pos, negsuc, ltb_ℤ}
use go_db.Base.Assoc.{Assoc, lookup, insert}
use go_db.Base.Result.{Result, ok, err, panic, stuck}
use go_db.Base.Result
use go_db.Base.Exec.{Exec, pure, wrap, continue, ◌>>=◌, ◌>>◌}
use go_db.Storage.Page.{Page}
use go_db.Storage.Pool.{Io}
use go_db.Kv.Value.{
  Value, null, int, Floats, Column, ColumnConstraint, Reference, int_type, Schema, Row,
}
use go_db.Kv.Store.{Files}
use go_db.Kv.Table.{
  Table, scan, scan_at, snapshot, release, table_changed_since, insert_row, delete_row, delete_rows,
  apply_rows_batch,
}
use go_db.Kv.Table.Rows.{TableError, TransactionRow, assign, is_nil}
use go_db.Kv.Table.Secondary.{field_of}
use go_db.Kv.Catalog.{Catalog, CatalogError}
use go_db.Sql.Select.Aggregates.{SelectError}
use go_db.Sql.Ast.{Condition}
use go_db.Sql.Ast
use go_db.Sql.Token.{SqlError}
use go_db.Sql.Eval.{CoercionError, compare, coerce_value, match}

pub data ExecutorError : Type 0 where
  in_table : TableError → ExecutorError
  in_coercion : CoercionError → ExecutorError
  unknown_table : Bytes → ExecutorError
  unknown_column : Bytes → ExecutorError
  transaction_active no_transaction no_columns : ExecutorError
  transaction_conflict : Bytes → ExecutorError
  missing_key_column : Bytes → ExecutorError
  foreign_key_failed : Bytes → ExecutorError
  in_select : SelectError → ExecutorError
  in_catalog : CatalogError → ExecutorError
  in_file : ℕ → ExecutorError
  table_exists : Bytes → ExecutorError
  unsupported_statement empty_request : ExecutorError
  in_parse : SqlError → ExecutorError
  rolled_back : ExecutorError → ExecutorError
  wrong_arguments : ℕ → ℕ → ExecutorError

-- A row of `rows`: one of its own, or the map of a write.
pub data Held : Type 0 where
  own : Row → Held
  shared : ℕ → Held

pub record TransactionWrite : Type 0 where
  pub row : ℕ
  pub deleted : Bool

pub record TransactionTableState : Type 0 where
  pub table : ℕ
  pub read_at : ℕ
  pub rollback : List Row
  pub writes : Assoc TransactionWrite

pub record Transaction : Type 0 where
  pub id : ℕ
  pub commit : ℕ
  pub tables : List TransactionTableState

pub record Executor (W : Type 0) : Type 0 where
  pub heap : List (Table W)
  pub row_store : List Row
  pub tables : Assoc ℕ
  pub tx : Option Transaction
  pub catalog : Option Catalog
  -- `nextTransactionID`, `nextCommitSequence`
  pub next_transaction : ℕ
  pub next_commit : ℕ

unfoldable pub lower_byte : ℕ → ℕ
lower_byte c = if leb b'A' c && leb c b'Z' then c + 32 else c

-- `strings.ToLower`
unfoldable pub to_lower : Bytes → Bytes
to_lower s = map lower_byte s

abbrev pub row_at : List Row → ℕ → Row
row_at rows i = elim (get_elem? rows i) as (λ _. Row) [ none ↦ [] | some r ↦ r ]

abbrev pub value_of_held : List Row → Held → Row
value_of_held rows (own r) = r
value_of_held rows (shared i) = row_at rows i

-- `j - 1` for the indices behind `i`
unfoldable pub shift_behind : ℕ → Assoc ℕ → Assoc ℕ
shift_behind i [] = []
shift_behind i ((k, j) ∷ m) = (k, if ltb i j then j - 1 else j) ∷ shift_behind i m

-- The loop of `rows` over the writes: a deleted row goes, a written one takes its place or comes last.
unfoldable pub overlay :
    Assoc TransactionWrite → List Held → Assoc ℕ → Result ExecutorError (List Held)
overlay [] rows by_key = ok rows
overlay ((key, w) ∷ writes) rows by_key =
    elim (lookup key by_key) as (λ _. Result ExecutorError (List Held)) [
      | none ↦
          if w.deleted
          then overlay writes rows by_key
          else overlay writes (rows ++ shared w.row ∷ []) (insert key (length rows) by_key)
      | some i ↦
          if not (ltb i (length rows))
          then panic
          else if w.deleted
          then overlay writes (take i rows ++ drop (suc i) rows) (shift_behind i by_key)
          else overlay writes (set rows i (shared w.row)) by_key
    ]

-- the state of a table in the transaction
unfoldable pub state_of : ℕ → List TransactionTableState → Option TransactionTableState
state_of t [] = none
state_of t (s ∷ states) = let rest = state_of t states in if s.table == t then some s else rest

unfoldable pub put_write :
    ℕ → Bytes → TransactionWrite → List TransactionTableState → List TransactionTableState
put_write t key w [] = []
put_write t key w (s ∷ states) =
    if s.table == t
    then record s { writes = insert key w s.writes } ∷ states
    else s ∷ put_write t key w states

-- `id + 1`, which wraps round
unfoldable pub next_int : ℤ → ℤ
next_int (pos n) = if n == 2 ^ 63 - 1 then negsuc (2 ^ 63 - 1) else pos (suc n)
next_int (negsuc zero) = pos 0
next_int (negsuc (suc n)) = negsuc n

-- the loop that finds the next id
unfoldable pub next_id : Bytes → List Row → ℤ → ℤ
next_id column [] next = next
next_id column (r ∷ rows) next = next_id column rows (elim (field_of r column) as (λ _. ℤ) [
  | int id ↦ if ltb_ℤ id next then next else next_int id
  | _ ↦ next
])

abbrev pub first_name : List Column → Result ExecutorError Bytes
first_name [] = panic
first_name (c ∷ cs) = ok c.name

abbrev pub scanned : Result TableError (List Row) → List Row
scanned (ok rows) = rows
scanned _ = []

abbrev pub with_writes :
    (List TransactionTableState → List TransactionTableState)
    → Option Transaction
    → Option Transaction
with_writes f none = none
with_writes f (some x) = some (record x { tables = f x.tables })

module _ {W : Type 0} where
  abbrev pub lift : {A : Type 0} → Result ExecutorError A → Exec ExecutorError (Executor W) A
  lift r e = (r, e)

  -- a call on the table behind a pointer
  abbrev pub run_at :
      {A : Type 0}
      → Exec TableError (Table W) A
      → ℕ
      → Option (Table W)
      → Exec ExecutorError (Executor W) A
  run_at m i none e = (panic, e)
  run_at m i (some t) e = let (r, u) = m t in (wrap in_table r, record e { heap = set e.heap i u })

  abbrev pub on_table :
      {A : Type 0} → ℕ → Exec TableError (Table W) A → Exec ExecutorError (Executor W) A
  on_table i m e = run_at m i (get_elem? e.heap i) e

  -- `e.table(name)`
  unfoldable pub table : Bytes → Exec ExecutorError (Executor W) ℕ
  table name = λ e.
      lift
        (elim (lookup (to_lower name) e.tables) as (λ _. Result ExecutorError ℕ) [
          | none ↦ err (unknown_table name)
          | some i ↦ ok i
        ])
        e

  abbrev pub schema_of : Option (Table W) → Result ExecutorError Schema
  schema_of none = panic
  schema_of (some t) = ok t.schema

  -- `t.Schema()`
  unfoldable pub schema_at : ℕ → Exec ExecutorError (Executor W) Schema
  schema_at i = λ e. lift (schema_of (get_elem? e.heap i)) e

  unfoldable pub in_transaction : Executor W → Bool
  in_transaction e = elim e.tx as (λ _. Bool) [ none ↦ false | some x ↦ true ]

  unfoldable pub record_write :
      ℕ → Bytes → TransactionWrite → Exec ExecutorError (Executor W) (Unit {0})
  record_write t key w e = (ok tt, record e { tx = with_writes (put_write t key w) e.tx })

  -- a map that is new
  unfoldable pub new_row : Row → Exec ExecutorError (Executor W) ℕ
  new_row r e = (ok (length e.row_store), record e { row_store = e.row_store ++ r ∷ [] })

  -- The row changed in place.
  unfoldable pub change_row : Held → Row → Exec ExecutorError (Executor W) ℕ
  change_row (own old) r = new_row r
  change_row (shared i) r = λ e. (ok i, record e { row_store = set e.row_store i r })

module _ {W : Type 0} (read_disk : ℕ → Io W Page) (write_disk : Page → Io W (Unit {0}))
    (f : Files W) (floats : Floats) (sprint index_value : Value → Bytes)
    (parse_time : Bytes → Option ℤ) where
  -- `fmt.Sprint(row[t.Schema().Columns[0].Name])`
  unfoldable pub key_of : Schema → Row → Result ExecutorError Bytes
  key_of s r = Result.◌>>=◌ (first_name s.columns) (λ name. ok (sprint (field_of r name)))

  unfoldable pub keys_by : Schema → List Row → ℕ → Assoc ℕ → Result ExecutorError (Assoc ℕ)
  keys_by s [] i m = ok m
  keys_by s (r ∷ rows) i m =
      Result.◌>>=◌ (key_of s r) (λ key. keys_by s rows (suc i) (insert key i m))

  -- the rows of a snapshot, none where they cannot be read, below the writes
  unfoldable pub rows_in :
      TransactionTableState → Option (Table W) → Result ExecutorError (List Held)
  rows_in state none = panic
  rows_in state (some t) =
      let rows = scanned (scan_at state.read_at t).0 in
      Result.◌>>=◌ (keys_by t.schema rows 0 []) (λ m. overlay state.writes (map own rows) m)

  abbrev pub state_in : ℕ → Option Transaction → Option TransactionTableState
  state_in t none = none
  state_in t (some x) = state_of t x.tables

  unfoldable pub held_rows : ℕ → Exec ExecutorError (Executor W) (List Held)
  held_rows t = λ e.
      elim (state_in t e.tx) as (λ _. Result ExecutorError (List Held) × Executor W) [
        | none ↦ (on_table t scan >>= λ rows. pure (map own rows)) e
        | some state ↦ (rows_in state (get_elem? e.heap t), e)
      ]

  -- `e.rows(t)`, as they are now
  unfoldable pub rows : ℕ → Exec ExecutorError (Executor W) (List Row)
  rows t = held_rows t >>= λ hs e. (ok (map (value_of_held e.row_store) hs), e)

  -- one table of `begin`: its snapshot, and its rows
  unfoldable pub open_tables :
      Assoc ℕ → Exec ExecutorError (Executor W) (List TransactionTableState)
  open_tables [] = pure []
  open_tables ((name, t) ∷ tables) = do
    at ← on_table t snapshot
    image ← on_table t scan
    rest ← open_tables tables
    pure (record { table = t; read_at = at; rollback = image; writes = [] } ∷ rest)

  abbrev pub next_of : ℕ → ℕ
  next_of n = (n + 1) % 2 ^ 64

  unfoldable pub begin : Exec ExecutorError (Executor W) (Unit {0})
  begin = λ e.
      if in_transaction e
      then (err transaction_active, e)
      else (open_tables e.tables >>= λ states e. (
        ok tt,
        record e {
          tx = some (record { id = next_of e.next_transaction; commit = 0; tables = states });
        },
      ))
          (record e { next_transaction = next_of e.next_transaction })

  -- the first key of a write that another commit has changed since the snapshot
  unfoldable pub changed_key : ℕ → Assoc TransactionWrite → Table W → Option Bytes
  changed_key at [] t = none
  changed_key at ((key, w) ∷ writes) t =
      let rest = changed_key at writes t in if table_changed_since at key t then some key else rest

  abbrev pub changed_at : TransactionTableState → Option (Table W) → Result ExecutorError (Unit {0})
  changed_at s none = panic
  changed_at s (some t) =
      elim (changed_key s.read_at s.writes t) as (λ _. Result ExecutorError (Unit {0})) [
        | none ↦ ok tt
        | some key ↦ err (transaction_conflict key)
      ]

  unfoldable pub check_conflicts :
      List TransactionTableState → Executor W → Result ExecutorError (Unit {0})
  check_conflicts [] e = ok tt
  check_conflicts (s ∷ states) e =
      Result.◌>>◌ (changed_at s (get_elem? e.heap s.table)) (check_conflicts states e)

  unfoldable pub written_rows : List Row → Assoc TransactionWrite → Assoc TransactionRow
  written_rows store [] = []
  written_rows store ((key, w) ∷ writes) =
      (key, record { row = if w.deleted then [] else row_at store w.row; deleted = w.deleted })
      ∷ written_rows store writes

  unfoldable pub apply_all :
      ℕ → List TransactionTableState → Exec ExecutorError (Executor W) (Unit {0})
  apply_all id [] = pure tt
  apply_all id (s ∷ states) = λ e.
      (on_table s.table (
            apply_rows_batch read_disk write_disk f floats sprint index_value id
              (written_rows e.row_store s.writes))
          >> apply_all id states)
        e

  unfoldable pub release_all :
      List TransactionTableState → Exec ExecutorError (Executor W) (Unit {0})
  release_all [] = pure tt
  release_all (s ∷ states) = on_table s.table (release s.read_at) >> release_all states

  abbrev pub end_transaction : Exec ExecutorError (Executor W) (Unit {0})
  end_transaction e = (ok tt, record e { tx = none })

  -- `atomic.AddUint64(&nextCommitSequence, 1)`
  abbrev pub next_commit : Transaction → Exec ExecutorError (Executor W) ℕ
  next_commit x e =
      let n = next_of e.next_commit in
      (ok n, record e { next_commit = n; tx = some (record x { commit = n }) })

  unfoldable pub commit_changes : Transaction → Exec ExecutorError (Executor W) (Unit {0})
  commit_changes x =
      next_commit x >>= λ n. apply_all n x.tables >> (release_all x.tables >> end_transaction)

  unfoldable pub commit_open : Option Transaction → Exec ExecutorError (Executor W) (Unit {0})
  commit_open none = lift (err no_transaction)
  commit_open (some x) = λ e. (lift (check_conflicts x.tables e) >> commit_changes x) e

  unfoldable pub commit : Exec ExecutorError (Executor W) (Unit {0})
  commit e = commit_open e.tx e

  -- the rows of the image, inserted again
  unfoldable pub restore : ℕ → List Row → Exec ExecutorError (Executor W) (Unit {0})
  restore t [] = pure tt
  restore t (r ∷ rows) = do
    s ← schema_at t
    key ← lift (key_of s r)
    on_table t (insert_row read_disk write_disk f floats sprint index_value key r)
    restore t rows

  unfoldable pub restore_all :
      List TransactionTableState → Exec ExecutorError (Executor W) (Unit {0})
  restore_all [] = pure tt
  restore_all (s ∷ states) = do
    n ←
        on_table s.table
          (delete_rows read_disk write_disk f floats sprint index_value scan (λ r. true))
    restore s.table s.rollback
    restore_all states

  unfoldable pub rollback_open : Option Transaction → Exec ExecutorError (Executor W) (Unit {0})
  rollback_open none = lift (err no_transaction)
  rollback_open (some x) = restore_all x.tables >> (release_all x.tables >> end_transaction)

  unfoldable pub rollback : Exec ExecutorError (Executor W) (Unit {0})
  rollback e = rollback_open e.tx e
