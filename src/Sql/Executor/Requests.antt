-- ===== src/Sql/Executor/Requests.antt =====
-- `Execute` of sql/sql.go: the statements of a request, with a transaction of its own around several of them.
use go_db.Base.{
  ℕ, Bool, not, length, ◌==◌, true, false, ◌||◌, Option, List, [], ◌∷◌, Bytes, if◌then◌else◌,
}
use go_db.Base.Int.{ℤ}
use go_db.Base.Assoc.{Assoc}
use go_db.Base.Result.{Result, ok, err, panic, stuck}
use go_db.Base.Result
use go_db.Base.Exec.{Exec, pure, wrap, ◌>>=◌, ◌>>◌}
use go_db.Storage.Page.{Page}
use go_db.Storage.Pool.{Io}
use go_db.Kv.Value.{Value, Floats, Row}
use go_db.Kv.Store.{Files}
use go_db.Kv.Table.{scan, insert_row, delete_rows}
use go_db.Kv.Catalog.{CatalogEntry, CatalogError}
use go_db.Sql.Ast.{Statement}
use go_db.Sql.Ast
use go_db.Sql.Parser.{parse}
use go_db.Sql.Bind.{bind_statement, count_statement_parameters}
use go_db.Sql.Split.{split_statements}
use go_db.Sql.Executor.{
  Executor, ExecutorError, empty_request, in_parse, rolled_back, wrong_arguments, lift, on_table,
  schema_at, in_transaction, key_of,
}
use go_db.Sql.Executor.Queries.{Output}
use go_db.Sql.Executor.Definitions.{done, execute_statement}

-- `case Begin, Commit, Rollback`
abbrev pub is_control : Statement → Bool
is_control Ast.begin = true
is_control Ast.commit = true
is_control Ast.rollback = true
is_control s = false

pub record PreparedStatement : Type 0 where
  pub statement : Statement
  pub parameters : ℕ

module _ (floats : Floats) where
  -- `Prepare`
  unfoldable pub prepare : Bytes → Result ExecutorError PreparedStatement
  prepare input =
      Result.◌>>=◌ (wrap in_parse (parse floats input))
        (λ s. ok (record { statement = s; parameters = count_statement_parameters s }))

  unfoldable pub contains_control : List Bytes → Result ExecutorError Bool
  contains_control [] = ok false
  contains_control (part ∷ parts) =
      Result.◌>>=◌ (wrap in_parse (parse floats part))
        (λ s. Result.◌>>=◌ (contains_control parts) (λ rest. ok (is_control s || rest)))

module _ {W : Type 0} (read_disk : ℕ → Io W Page) (write_disk : Page → Io W (Unit {0}))
    (f : Files W) (floats : Floats) (sprint index_value : Value → Bytes)
    (parse_time : Bytes → Option ℤ) (syntax : Value → Bytes) (order : List Bytes → List Bytes)
    (save : List CatalogEntry → Result CatalogError (Unit {0}))
    (temp : ℕ → Result ExecutorError (Bytes × W)) (flushed : List ℕ) where
  unfoldable pub execute_one : Bytes → Exec ExecutorError (Executor W) Output
  execute_one input =
      lift (wrap in_parse (parse floats input))
      >>= execute_statement read_disk write_disk f floats sprint index_value parse_time syntax order
          save temp flushed

  -- the loop over the parts, with the output of the last one
  unfoldable pub execute_parts : List Bytes → Output → Exec ExecutorError (Executor W) Output
  execute_parts [] out = pure out
  execute_parts (part ∷ parts) out = execute_one part >>= execute_parts parts

  -- the rows of every table
  unfoldable pub take_images : Assoc ℕ → Exec ExecutorError (Executor W) (List (ℕ × List Row))
  take_images [] = pure []
  take_images ((name, t) ∷ tables) = do
    image ← on_table t scan
    rest ← take_images tables
    pure ((t, image) ∷ rest)

  -- an error is dropped, and the loop goes on
  abbrev ignored : {A : Type 0} → Result ExecutorError A → Result ExecutorError (Unit {0})
  ignored (ok a) = ok tt
  ignored (err e) = ok tt
  ignored panic = panic
  ignored stuck = stuck

  abbrev ignore :
      {A : Type 0} → Exec ExecutorError (Executor W) A → Exec ExecutorError (Executor W) (Unit {0})
  ignore m e = let (r, u) = m e in (ignored r, u)

  unfoldable pub put_back : ℕ → List Row → Exec ExecutorError (Executor W) (Unit {0})
  put_back t [] = pure tt
  put_back t (r ∷ rows) = do
    s ← schema_at t
    key ← lift (key_of read_disk write_disk f floats sprint index_value parse_time s r)
    ignore (on_table t (insert_row read_disk write_disk f floats sprint index_value key r))
    put_back t rows

  unfoldable pub put_images_back : List (ℕ × List Row) → Exec ExecutorError (Executor W) (Unit {0})
  put_images_back [] = pure tt
  put_images_back ((t, image) ∷ images) = do
    ignore
        (on_table t (delete_rows read_disk write_disk f floats sprint index_value scan (λ r. true)))
    put_back t image
    put_images_back images

  -- The images go back where a statement fails.
  abbrev or_roll_back :
      List (ℕ × List Row)
      → Result ExecutorError Output × Executor W
      → Result ExecutorError Output × Executor W
  or_roll_back images (ok out, e) = (ok out, e)
  or_roll_back images (err x, e) = (put_images_back images >> lift (err (rolled_back x))) e
  or_roll_back images (panic, e) = (panic, e)
  or_roll_back images (stuck, e) = (stuck, e)

  abbrev in_one_transaction : List Bytes → Exec ExecutorError (Executor W) Output
  in_one_transaction parts = λ e.
      (take_images e.tables >>= λ images e. or_roll_back images (execute_parts parts (done 0) e)) e

  -- one part, or several
  abbrev run_parts : List Bytes → Bool → Exec ExecutorError (Executor W) Output
  run_parts [] control = lift (err empty_request)
  run_parts (part ∷ []) control = execute_one part
  run_parts (part ∷ next ∷ parts) control = λ e.
      if in_transaction e || control
      then execute_parts (part ∷ next ∷ parts) (done 0) e
      else in_one_transaction (part ∷ next ∷ parts) e

  unfoldable pub execute : Bytes → Exec ExecutorError (Executor W) Output
  execute input =
      lift (contains_control floats (split_statements input)) >>= run_parts (split_statements input)

  -- `Execute` of a prepared statement
  unfoldable pub execute_prepared :
      PreparedStatement → List Value → Exec ExecutorError (Executor W) Output
  execute_prepared p args =
      if not (length args == p.parameters)
      then lift (err (wrong_arguments p.parameters (length args)))
      else (lift (wrap in_parse (bind_statement args p.statement))
          >>= execute_statement read_disk write_disk f floats sprint index_value parse_time syntax
              order save temp flushed)
