-- ===== src/Sql/Executor/Queries.antt =====
-- SELECT and SHOW TABLES of the executor in sql/sql.go, over the tables.
use Prim.Native.Nat.{Ordering}
use go_db.Base.{
  ℕ, ◌++◌, length, Bool, true, false, not, ◌&&◌, Option, none, some, List, [], ◌∷◌, Bytes, codes,
  bytes_eq, bytes_compare, get_elem?, if◌then◌else◌,
}
use go_db.Base.Int.{ℤ}
use go_db.Base.Assoc.{Assoc, lookup}
use go_db.Base.Result.{Result, ok, err, panic, stuck}
use go_db.Base.Exec.{Exec, pure, wrap, ◌>>=◌}
use go_db.Storage.Page.{Page}
use go_db.Storage.Pool.{Io}
use go_db.Kv.Value.{Value, text, Floats, Row}
use go_db.Kv.Store.{Files}
use go_db.Kv.Table.{Table, find, has_index}
use go_db.Kv.Table.Rows.{is_nil}
use go_db.Base.Int.{decimal}
use go_db.Sql.Ast.{Condition, comparison, both, Select, Statement, select, insert, update, delete}
use go_db.Sql.Select.{result_columns, select_from}
use go_db.Sql.Executor.{
  Executor, ExecutorError, in_select, unsupported_statement, to_lower, lift, on_table, table,
  schema_at, in_transaction, rows,
}

-- the `Result` of a statement
pub record Output : Type 0 where
  pub columns : List Bytes
  pub rows : List Row
  pub affected : ℕ

abbrev pub indexed : {W : Type 0} → Bytes → Option (Table W) → Bool
indexed column none = false
indexed column (some t) = has_index column t

abbrev pub is_blank : Bytes → Bool
is_blank [] = true
is_blank (c ∷ cs) = false

-- `isIndexedEquality`, with the column and the value that `Find` is asked for
unfoldable pub indexed_equality :
    {W : Type 0} → Option (Table W) → Option Condition → Option (Bytes × Value)
indexed_equality t none = none
indexed_equality t (some (both l a b)) = none
indexed_equality t (some (comparison column op v)) =
    if bytes_eq op (codes "=") && not (is_blank column) && not (is_nil v) && indexed column t
    then some (column, v)
    else none

-- the rows that `Find` gave, in place of those of the table where these could be read
abbrev pub in_place_of :
    Result ExecutorError (List Row) → List Row → Result ExecutorError (List Row)
in_place_of (ok held) found = ok found
in_place_of (err e) found = err e
in_place_of panic found = panic
in_place_of stuck found = stuck

unfoldable pub insert_name : Bytes → List Bytes → List Bytes
insert_name n [] = n ∷ []
insert_name n (x ∷ xs) =
    let rest = insert_name n xs in
    elim (bytes_compare x n) as (λ _. List Bytes) [ Ordering.lt ↦ x ∷ rest | _ ↦ n ∷ x ∷ xs ]

unfoldable pub sorted_names : Assoc ℕ → List Bytes
sorted_names [] = []
sorted_names ((n, t) ∷ tables) = insert_name n (sorted_names tables)

unfoldable pub name_rows : List Bytes → List Row
name_rows [] = []
name_rows (n ∷ ns) = ((codes "table_name", text n) ∷ []) ∷ name_rows ns

-- `strings.Join(names, ", ")`
unfoldable pub join_names : List Bytes → Bytes
join_names [] = []
join_names (n ∷ []) = n
join_names (n ∷ m ∷ ns) = n ++ codes ", " ++ join_names (m ∷ ns)

-- `mapKeys`
unfoldable pub map_keys : Assoc Value → List Bytes
map_keys [] = []
map_keys ((n, v) ∷ m) = insert_name n (map_keys m)

-- `listTables`
unfoldable pub list_tables : {W : Type 0} → Exec ExecutorError (Executor W) Output
list_tables e = (
  ok (record {
    columns = codes "table_name" ∷ [];
    rows = name_rows (sorted_names e.tables);
    affected = 0;
  }),
  e,
)

module _ {W : Type 0} (read_disk : ℕ → Io W Page) (write_disk : Page → Io W (Unit {0}))
    (f : Files W) (floats : Floats) (sprint index_value : Value → Bytes)
    (parse_time : Bytes → Option ℤ) (syntax : Value → Bytes) (order : List Bytes → List Bytes) where
  abbrev rows_of : ℕ → Exec ExecutorError (Executor W) (List Row)
  rows_of = rows read_disk write_disk f floats sprint index_value parse_time

  abbrev through_index :
      ℕ
      → Option (Bytes × Value)
      → Result ExecutorError (List Row)
      → Exec ExecutorError (Executor W) (List Row)
  through_index t none r = lift r
  through_index t (some (column, v)) panic = lift panic
  through_index t (some (column, v)) stuck = lift stuck
  through_index t (some (column, v)) r =
      on_table t (find read_disk write_disk f floats sprint index_value order column v) >>= λ found.
      lift (in_place_of r found)

  -- The rows of the table; outside of a transaction and a join, an indexed equality asks the index.
  unfoldable pub source_rows : Select → ℕ → Exec ExecutorError (Executor W) (List Row)
  source_rows q t e =
      let (r, u) = rows_of t e in
      through_index t
        (if not (in_transaction u) && is_blank q.join_table
          then indexed_equality (get_elem? u.heap t) q.condition
          else none)
        r u

  unfoldable pub other_rows : Select → Exec ExecutorError (Executor W) (Option (List Row))
  other_rows q =
      if is_blank q.join_table
      then pure none
      else (table q.join_table >>= λ t. rows_of t >>= λ held. pure (some held))

  unfoldable pub select_rows : Select → Exec ExecutorError (Executor W) Output
  select_rows q = do
    t ← table q.table
    held ← source_rows q t
    others ← other_rows q
    s ← schema_at t
    out ←
        lift (wrap in_select (select_from floats sprint index_value syntax q s.columns held others))
    pure (record { columns = result_columns q.columns s.columns; rows = out; affected = 0 })

  -- the rows of a table for the estimate, where it is there and can be read
  abbrev estimate : Result ExecutorError (List Row) → Result ExecutorError Bytes
  estimate (ok held) = ok (codes "rows=" ++ decimal (length held))
  estimate (err e) = ok (codes "rows=?")
  estimate panic = panic
  estimate stuck = stuck

  unfoldable pub estimated : Select → Exec ExecutorError (Executor W) Bytes
  estimated q e = let (r, u) = (table q.table >>= rows_of) e in (estimate r, u)

  -- the scan and the filter of a plan
  abbrev access : Option Condition → Option (Bytes × Value) → Bytes × Bytes
  access none i = (codes "Seq Scan", codes "none")
  access (some c) none = (codes "Seq Scan", codes "apply WHERE predicate")
  access (some c) (some (column, v)) =
      (codes "Index Scan", codes "index condition: " ++ column ++ codes " = " ++ sprint v)

  abbrev table_named : Bytes → Executor W → Option (Table W)
  table_named name e = elim (lookup (to_lower name) e.tables) as (λ _. Option (Table W)) [
    | none ↦ none
    | some t ↦ get_elem? e.heap t
  ]

  unfoldable pub plan : Statement → Exec ExecutorError (Executor W) Bytes
  plan (select q) = estimated q >>= λ rows e. (
    let (scan, filter) =
          access q.condition (indexed_equality (table_named q.table e) q.condition) in
        ok (
          scan
          ++ codes " on "
          ++ q.table
          ++ codes "; "
          ++ rows
          ++ codes "; filter: "
          ++ filter
          ++ codes "; projection: "
          ++ join_names q.columns),
    e,
  )
  plan (insert q) =
      pure (codes "Insert into " ++ q.table ++ codes "; columns: " ++ join_names q.columns)
  plan (update q) = pure (
      codes "Seq Scan on "
      ++ q.table
      ++ codes "; update columns: "
      ++ join_names (map_keys q.assignments))
  plan (delete q) = pure (codes "Seq Scan on " ++ q.table ++ codes "; delete matching rows")
  plan s = lift (err unsupported_statement)

  unfoldable pub explain_statement : Statement → Exec ExecutorError (Executor W) Output
  explain_statement s = plan s >>= λ text_of_plan. pure (record {
    columns = codes "plan" ∷ [];
    rows = ((codes "plan", text text_of_plan) ∷ []) ∷ [];
    affected = 0;
  })
