-- ===== src/Sql/Parser/Writes.antt =====
-- `insertStmt`, `updateStmt`, `deleteStmt` of sql/sql.go.
use go_db.Base.{ℕ, List, [], ◌∷◌, Bytes, codes, length, ◌==◌, if◌then◌else◌}
use go_db.Base.Assoc.{Assoc, insert as put_key}
use go_db.Kv.Value.{Value, Floats}
use go_db.Sql.Token.{count_mismatch}
use go_db.Sql.Ast.{Statement, insert, update, delete}
use go_db.Sql.Stream.{Parser, ◌>>=◌, ◌>>◌, pure, fail, take, want, lexeme, comma_list}
use go_db.Sql.Parser.Values.{value}
use go_db.Sql.Parser.Conditions.{condition}

unfoldable pub insert_stmt : Floats → ℕ → Parser Statement
insert_stmt fl f = do
  take
  want (codes "INTO")
  table ← lexeme
  want (codes "(")
  columns ← comma_list f lexeme
  want (codes ")")
  want (codes "VALUES")
  want (codes "(")
  values ← comma_list f (value fl)
  want (codes ")")
  if length columns == length values
      then pure (insert (record { table = table; columns = columns; values = values }))
      else fail count_mismatch

-- `name = value`
unfoldable pub assignment : Floats → Parser (Bytes × Value)
assignment fl = do name ← lexeme; want (codes "="); v ← value fl; pure (name, v)

-- the map that the loop over the assignments fills
unfoldable pub assign_all : Assoc Value → List (Bytes × Value) → Assoc Value
assign_all m [] = m
assign_all m ((k, v) ∷ rest) = assign_all (put_key k v m) rest

unfoldable pub update_stmt : Floats → ℕ → Parser Statement
update_stmt fl f = do
  take
  table ← lexeme
  want (codes "SET")
  set ← comma_list f (assignment fl)
  c ← condition fl f
  pure (update (record { table = table; assignments = assign_all [] set; condition = c }))

unfoldable pub delete_stmt : Floats → ℕ → Parser Statement
delete_stmt fl f = do
  take
  want (codes "FROM")
  table ← lexeme
  c ← condition fl f
  pure (delete (record { table = table; condition = c }))
