-- ===== src/Sql/Executor/Definitions.antt =====
-- CREATE, DROP and ALTER TABLE of the executor in sql/sql.go, and the dispatch on a statement. What
-- `os.CreateTemp` gives is an argument: a path and its files, or an error, where there are so many tables.
use go_db.Base.{
  ℕ, Bool, false, ◌||◌, Option, none, some, List, [], ◌∷◌, ◌++◌, Bytes, codes, length,
  if◌then◌else◌,
}
use go_db.Base.Int.{ℤ}
use go_db.Base.Assoc.{Assoc, lookup, insert, remove}
use go_db.Base.Result.{Result, ok, err, panic, stuck}
use go_db.Base.Exec.{Exec, pure, wrap, ◌>>=◌, ◌>>◌}
use go_db.Storage.Page.{Page}
use go_db.Storage.Pool.{Io}
use go_db.Storage.Pager.{Pager, OpenError, open_pager}
use go_db.Kv.Value.{Value, Floats, int_type, Column, ColumnConstraint, Schema}
use go_db.Kv.Store.{Store, StoreError, Files, flush}
use go_db.Kv.Store.Recovery.{open_store, new_store}
use go_db.Kv.Table.{Table, on_store, new_table, alter_table}
use go_db.Kv.Table.Rows.{TableError, in_store}
use go_db.Kv.Catalog.{Catalog, CatalogEntry, CatalogError, set_entry, delete_entry}
use go_db.Sql.Ast.{Statement, CreateTable, AlterAction, add, drop, rename}
use go_db.Sql.Ast
use go_db.Sql.Token.{equal_fold}
use go_db.Sql.Executor.{
  Executor, ExecutorError, in_table, in_catalog, in_file, table_exists, unknown_table, lift,
  on_table, table, schema_at, to_lower, begin, commit, rollback,
}
use go_db.Sql.Executor.Statements.{insert_values, update_values, delete_values, explain_table}
use go_db.Sql.Executor.Queries.{Output, list_tables, select_rows, explain_statement}

-- the columns with the key column that CREATE TABLE adds
unfoldable pub has_id : List Column → Bool
has_id [] = false
has_id (c ∷ cs) = equal_fold c.name (codes "id") || has_id cs

unfoldable pub with_id : List Column → List Column
with_id cs = if has_id cs then cs else record { name = codes "id"; kind = int_type } ∷ cs

unfoldable pub drop_column : Bytes → List Column → List Column
drop_column name [] = []
drop_column name (c ∷ cs) =
    let rest = drop_column name cs in if equal_fold c.name name then rest else c ∷ rest

unfoldable pub rename_column : Bytes → Bytes → List Column → List Column
rename_column name new [] = []
rename_column name new (c ∷ cs) =
    (if equal_fold c.name name then record c { name = new } else c) ∷ rename_column name new cs

abbrev pub move_constraint :
    Bytes → Bytes → Option ColumnConstraint → Assoc ColumnConstraint → Assoc ColumnConstraint
move_constraint name new none m = m
move_constraint name new (some k) m = insert new k (remove name m)

-- the schema that ALTER TABLE asks for
unfoldable pub altered : AlterAction → Schema → Schema
altered (add c) s = record s { columns = s.columns ++ c ∷ [] }
altered (drop name) s = record {
  columns = drop_column name s.columns;
  constraints = remove name s.constraints;
}
altered (rename name new) s = record {
  columns = rename_column name new s.columns;
  constraints = move_constraint name new (lookup name s.constraints) s.constraints;
}

abbrev pub path_of : Option CatalogEntry → Bytes
path_of none = []
path_of (some e) = e.path

abbrev pub entry_in : Bytes → Option Catalog → Option CatalogEntry
entry_in n none = none
entry_in n (some c) = lookup n c

abbrev pub done : ℕ → Output
done n = record { columns = []; rows = []; affected = n }

module _ {W : Type 0} (save : List CatalogEntry → Result CatalogError (Unit {0})) where
  -- a call on the catalog, where there is one
  abbrev pub run_catalog :
      Exec CatalogError Catalog (Unit {0})
      → Option Catalog
      → Exec ExecutorError (Executor W) (Unit {0})
  run_catalog m none e = (ok tt, e)
  run_catalog m (some c) e = let (r, d) = m c in (wrap in_catalog r, record e { catalog = some d })

  abbrev pub on_catalog :
      Exec CatalogError Catalog (Unit {0}) → Exec ExecutorError (Executor W) (Unit {0})
  on_catalog m e = run_catalog m e.catalog e

module _ {W : Type 0} (read_disk : ℕ → Io W Page) (write_disk : Page → Io W (Unit {0}))
    (f : Files W) (floats : Floats) (sprint index_value : Value → Bytes)
    (parse_time : Bytes → Option ℤ) (syntax : Value → Bytes) (order : List Bytes → List Bytes)
    (save : List CatalogEntry → Result CatalogError (Unit {0})) where
  -- the new table, behind the pointers that are there
  abbrev add_table : Bytes → Table W → Exec ExecutorError (Executor W) (Unit {0})
  add_table n t e =
      (ok tt, record e { heap = e.heap ++ t ∷ []; tables = insert n (length e.heap) e.tables })

  abbrev forget_table : Bytes → Executor W → Executor W
  forget_table n e = record e { tables = remove n e.tables }

  -- the table is forgotten again where the catalog cannot be saved
  abbrev or_forget :
      Bytes
      → Result ExecutorError (Unit {0}) × Executor W
      → Result ExecutorError (Unit {0}) × Executor W
  or_forget n (ok u, e) = (ok u, e)
  or_forget n (err x, e) = (err x, forget_table n e)
  or_forget n (panic, e) = (panic, e)
  or_forget n (stuck, e) = (stuck, e)

  abbrev made : Result TableError (Unit {0}) × Table W → Result ExecutorError (Table W)
  made (ok u, t) = ok t
  made (err e, t) = err (in_table e)
  made (panic, t) = panic
  made (stuck, t) = stuck

  abbrev opened : Schema → Result StoreError (Unit {0}) × Store W → Result ExecutorError (Table W)
  opened schema (ok u, s) =
      made (new_table read_disk write_disk f floats sprint index_value schema s)
  opened schema (err e, s) = err (in_table (in_store e))
  opened schema (panic, s) = panic
  opened schema (stuck, s) = stuck

  abbrev on_pages : Schema → Result OpenError (Pager W) → Result ExecutorError (Table W)
  on_pages schema (ok p) = opened schema (open_store read_disk write_disk f (new_store p))
  on_pages schema (err e) = err (in_file 0)
  on_pages schema panic = panic
  on_pages schema stuck = stuck

  -- `kv.Open` on the new file, which is empty, and `kv.NewTable`
  unfoldable pub open_table : Schema → W → Result ExecutorError (Table W)
  open_table schema w = on_pages schema (open_pager 0 w)

  unfoldable pub create :
      (ℕ → Result ExecutorError (Bytes × W)) → CreateTable → Exec ExecutorError (Executor W) Output
  create temp q = λ e.
      elim (lookup (to_lower q.table) e.tables) as (λ _. Result ExecutorError Output × Executor W) [
        | some t ↦ (err (table_exists q.table), e)
        | none ↦
            (do
              file ← lift (temp (length e.heap))
              let schema : Schema = record {
                columns = with_id q.columns;
                constraints = q.constraints;
              }
              t ← lift (open_table schema file.1)
              add_table (to_lower q.table) t
              λ e. or_forget (to_lower q.table) (
                  on_catalog save
                    (set_entry save
                      (record { name = to_lower q.table; path = file.0; schema = t.schema }))
                    e)
              pure (done 1))
              e
      ]

  -- `flushed` is the order in which the flush of the closed store takes its pages.
  unfoldable pub drop_table : List ℕ → Bytes → Exec ExecutorError (Executor W) Output
  drop_table flushed name = λ e.
      elim (lookup (to_lower name) e.tables) as (λ _. Result ExecutorError Output × Executor W) [
        | none ↦ (err (unknown_table name), e)
        | some t ↦
            (do
              λ e. (ok tt, forget_table (to_lower name) e)
              on_catalog save (delete_entry save (to_lower name))
              on_table t (on_store (flush read_disk write_disk f flushed))
              pure (done 1))
              e
      ]

  unfoldable pub alter : Bytes → AlterAction → Exec ExecutorError (Executor W) Output
  alter name action = do
    t ← table name
    s ← schema_at t
    on_table t (alter_table read_disk write_disk f floats sprint index_value (altered action s))
    λ e.
        on_catalog save
          (set_entry save (record {
            name = to_lower name;
            path = path_of (entry_in (to_lower name) e.catalog);
            schema = altered action s;
          }))
          e
    pure (done 1)

  -- the count of a call as its output
  abbrev counted : Exec ExecutorError (Executor W) ℕ → Exec ExecutorError (Executor W) Output
  counted m = m >>= λ n. pure (done n)

  abbrev finished :
      Exec ExecutorError (Executor W) (Unit {0}) → Exec ExecutorError (Executor W) Output
  finished m = m >> pure (done 0)

  -- the switch on the statement
  unfoldable pub execute_statement :
      (ℕ → Result ExecutorError (Bytes × W))
      → List ℕ
      → Statement
      → Exec ExecutorError (Executor W) Output
  execute_statement temp flushed Ast.begin =
      finished (begin read_disk write_disk f floats sprint index_value parse_time)
  execute_statement temp flushed Ast.commit =
      finished (commit read_disk write_disk f floats sprint index_value parse_time)
  execute_statement temp flushed Ast.rollback =
      finished (rollback read_disk write_disk f floats sprint index_value parse_time)
  execute_statement temp flushed Ast.list_tables = list_tables
  execute_statement temp flushed (Ast.explain s) =
      explain_statement read_disk write_disk f floats sprint index_value parse_time syntax order s
  execute_statement temp flushed (Ast.explain_table name) =
      explain_table read_disk write_disk f floats sprint index_value parse_time name >>= λ rows.
      pure (record {
        columns = codes "column" ∷ codes "type" ∷ codes "nullable" ∷ codes "unique" ∷ [];
        rows = rows;
        affected = 0;
      })
  execute_statement temp flushed (Ast.select q) =
      select_rows read_disk write_disk f floats sprint index_value parse_time syntax order q
  execute_statement temp flushed (Ast.insert q) =
      counted (insert_values read_disk write_disk f floats sprint index_value parse_time q)
  execute_statement temp flushed (Ast.create_table q) = create temp q
  execute_statement temp flushed (Ast.drop_table name) = drop_table flushed name
  execute_statement temp flushed (Ast.alter_table name action) = alter name action
  execute_statement temp flushed (Ast.update q) =
      counted (update_values read_disk write_disk f floats sprint index_value parse_time q)
  execute_statement temp flushed (Ast.delete q) =
      counted (delete_values read_disk write_disk f floats sprint index_value parse_time q)
