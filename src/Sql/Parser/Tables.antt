-- ===== src/Sql/Parser/Tables.antt =====
-- `createStmt`, `dropStmt`, `alterStmt` of sql/sql.go.
use go_db.Base.{
  ℕ, zero, suc, true, false, ◌||◌, none, some, List, [], ◌∷◌, Bytes, codes, bytes_eq, if◌then◌else◌,
}
use go_db.Base.Assoc.{Assoc, insert as put_key}
use go_db.Base.Result.{Result, ok, err, stuck}
use go_db.Kv.Value.{
  ColumnType, Column, ColumnConstraint, Reference, int_type, string_type, bool_type, float_type,
  bytes_type, timestamp_type,
}
use go_db.Sql.Token.{SqlError, unknown_type, expected_table, unsupported_alter, to_upper}
use go_db.Sql.Ast.{Statement, create_table, drop_table, alter_table, add, drop, rename}
use go_db.Sql.Stream.{
  Parser, ◌>>=◌, ◌>>◌, pure, fail, lift, take, want, at_word, lexeme, comma_list,
}

-- the switch over the type's name in upper case
unfoldable pub column_type_of : Bytes → Result SqlError ColumnType
column_type_of s =
    let u = to_upper s in
    if bytes_eq u (codes "INT")
    then ok int_type
    else if bytes_eq u (codes "STRING") || bytes_eq u (codes "TEXT")
    then ok string_type
    else if bytes_eq u (codes "BOOL") || bytes_eq u (codes "BOOLEAN")
    then ok bool_type
    else if bytes_eq u (codes "FLOAT") || bytes_eq u (codes "REAL") || bytes_eq u (codes "DOUBLE")
    then ok float_type
    else if bytes_eq u (codes "BYTES") || bytes_eq u (codes "BLOB")
    then ok bytes_type
    else if bytes_eq u (codes "TIMESTAMP")
    then ok timestamp_type
    else err (unknown_type s)

-- a name and its type
unfoldable pub column : Parser Column
column = do
  name ← lexeme
  word ← lexeme
  kind ← lift (column_type_of word)
  pure (record { name = name; kind = kind })

abbrev pub unconstrained : ColumnConstraint
unconstrained = record { not_null = false; unique = false; references = none }

-- behind `REFERENCES`
unfoldable pub reference : Parser Reference
reference = do
  table ← lexeme
  want (codes "(")
  column ← lexeme
  want (codes ")")
  pure (record { table = table; column = column })

-- `for NOT || UNIQUE || REFERENCES { ... }`, on fuel
unfoldable pub column_constraints : ℕ → ColumnConstraint → Parser ColumnConstraint
column_constraints zero c ts = stuck
column_constraints (suc f) c ts =
    (do
      is_not ← at_word (codes "NOT")
      is_unique ← at_word (codes "UNIQUE")
      is_references ← at_word (codes "REFERENCES")
      elim is_not [
        | true ↦ do take; want (codes "NULL"); column_constraints f (record c { not_null = true })
        | false ↦ elim is_unique [
          | true ↦ do take; column_constraints f (record c { unique = true })
          | false ↦ elim is_references [
            | true ↦ do take; r ← reference; column_constraints f (record c { references = some r })
            | false ↦ pure c
          ]
        ]
      ])
      ts

unfoldable pub column_definition : ℕ → Parser (Column × ColumnConstraint)
column_definition f = do
  c ← column
  constraint ← column_constraints f unconstrained
  pure (c, constraint)

unfoldable pub columns_of : List (Column × ColumnConstraint) → List Column
columns_of [] = []
columns_of ((c, x) ∷ rest) = c ∷ columns_of rest

-- the map that the loop over the columns fills
unfoldable pub constraints_of :
    Assoc ColumnConstraint → List (Column × ColumnConstraint) → Assoc ColumnConstraint
constraints_of m [] = m
constraints_of m ((c, x) ∷ rest) = constraints_of (put_key c.name x m) rest

unfoldable pub create_stmt : ℕ → Parser Statement
create_stmt f = do
  take
  want (codes "TABLE")
  table ← lexeme
  want (codes "(")
  defs ← comma_list f (column_definition f)
  want (codes ")")
  pure (
      create_table
        (record { table = table; columns = columns_of defs; constraints = constraints_of [] defs }))

unfoldable pub drop_stmt : Parser Statement
drop_stmt = do
  take
  present ← at_word (codes "TABLE")
  if present then (do take; table ← lexeme; pure (drop_table table)) else fail expected_table

-- the action behind the table's name
unfoldable pub alter_action : Bytes → Bytes → Parser Statement
alter_action table word =
    let action = to_upper word in
    if bytes_eq action (codes "ADD")
    then (do want (codes "COLUMN"); c ← column; pure (alter_table table (add c)))
    else if bytes_eq action (codes "DROP")
    then (do want (codes "COLUMN"); n ← lexeme; pure (alter_table table (drop n)))
    else if bytes_eq action (codes "RENAME")
    then (do
      want (codes "COLUMN")
      n ← lexeme
      want (codes "TO")
      new_name ← lexeme
      pure (alter_table table (rename n new_name)))
    else fail unsupported_alter

unfoldable pub alter_stmt : Parser Statement
alter_stmt = do take; want (codes "TABLE"); table ← lexeme; word ← lexeme; alter_action table word
