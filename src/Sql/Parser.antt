-- ===== src/Sql/Parser.antt =====
-- The parser of sql/sql.go: `Parse` puts the statement parsers of the children together.
pub mod Values
pub mod Conditions
pub mod Queries
pub mod Writes
pub mod Tables
pub mod Ends
pub mod Total
use go_db.Base.{
  ℕ, suc, ◌+◌, Bool, true, false, ◌||◌, List, [], ◌∷◌, Bytes, codes, length, bytes_eq,
  if◌then◌else◌,
}
use go_db.Base.Int.{atoi}
use go_db.Base.Assoc.{insert as put_key}
use go_db.Base.Result.{Result, ok, err, panic, stuck}
use go_db.Kv.Value.{Floats}
use go_db.Sql.Token.{
  equal_fold, Token, TokenType, to_upper, member, SqlError, eof, semicolon, expected_statement,
  expected_table_name, explain_unsupported, unexpected_after_semicolon,
}
use go_db.Sql.Lexer.{lex}
use go_db.Sql.Stream.{
  Parser, ◌>>=◌, ◌>>◌, pure, fail, crash, lift, cur, peek, take, want, at_word, lexeme, comma_list,
}
use go_db.Sql.Parser.Values.{trim_dollar, has_dot, value_of, value}
use go_db.Sql.Parser.Conditions.{
  chain_loop, parse_and, parse_or, parse_is, parse_comparison, parse_primary, condition,
}
use go_db.Sql.Parser.Writes.{insert_stmt, assignment, assign_all, update_stmt, delete_stmt}
use go_db.Sql.Parser.Queries.{
  is_aggregate_name, at_call, select_column, at_join, join_clause, group_clause, order_clause,
  assert_int, number_clause, select_stmt,
}
use go_db.Sql.Parser.Tables.{
  column_type_of, column, reference, column_constraints, column_definition, columns_of,
  constraints_of, create_stmt, drop_stmt, alter_action, alter_stmt,
}
use go_db.Sql.Ast.{
  Statement, begin, commit, rollback, list_tables, explain, explain_table, select, insert,
  create_table, drop_table, alter_table, update, delete,
}

abbrev pub is_end : TokenType → Bool
is_end eof = true
is_end semicolon = true
is_end _ = false

-- behind `EXPLAIN TABLE`
unfoldable pub explain_table_stmt : Parser Statement
explain_table_stmt = do
  t ← cur
  if is_end t.kind
      then fail expected_table_name
      else (do table ← lexeme; pure (explain_table table))

-- the statement that EXPLAIN explains
unfoldable pub explained : Floats → ℕ → Parser Statement
explained fl f = do
  is_select ← at_word (codes "SELECT")
  is_insert ← at_word (codes "INSERT")
  is_update ← at_word (codes "UPDATE")
  is_delete ← at_word (codes "DELETE")
  if is_select
      then select_stmt fl f
      else if is_insert
      then insert_stmt fl f
      else if is_update
      then update_stmt fl f
      else if is_delete
      then delete_stmt fl f
      else fail explain_unsupported

unfoldable pub explain_stmt : Floats → ℕ → Parser Statement
explain_stmt fl f = do
  take
  t ← cur
  if is_end t.kind then fail expected_statement else do
    about_table ← at_word (codes "TABLE")
    if about_table
        then (do take; explain_table_stmt)
        else (do inner ← explained fl f; pure (explain inner))

-- `SHOW TABLES`, `LIST TABLES`
unfoldable pub tables_stmt : Bytes → Parser Statement
tables_stmt word = do want word; want (codes "TABLES"); pure list_tables

-- the switch of `Parse` over the first word
unfoldable pub statement : Floats → ℕ → Bytes → Parser Statement
statement fl f word =
    if equal_fold word (codes "BEGIN")
    then (do take; pure begin)
    else if equal_fold word (codes "COMMIT")
    then (do take; pure commit)
    else if equal_fold word (codes "ROLLBACK")
    then (do take; pure rollback)
    else if equal_fold word (codes "EXPLAIN")
    then explain_stmt fl f
    else if equal_fold word (codes "SELECT")
    then select_stmt fl f
    else if equal_fold word (codes "INSERT")
    then insert_stmt fl f
    else if equal_fold word (codes "CREATE")
    then create_stmt f
    else if equal_fold word (codes "DROP")
    then drop_stmt
    else if equal_fold word (codes "ALTER")
    then alter_stmt
    else if equal_fold word (codes "UPDATE")
    then update_stmt fl f
    else if equal_fold word (codes "DELETE")
    then delete_stmt fl f
    else if equal_fold word (codes "SHOW")
    then tables_stmt (codes "SHOW")
    else if equal_fold word (codes "LIST")
    then tables_stmt (codes "LIST")
    else fail expected_statement

abbrev is_semicolon : TokenType → Bool
is_semicolon semicolon = true
is_semicolon _ = false

abbrev is_eof : TokenType → Bool
is_eof eof = true
is_eof _ = false

-- A semicolon may end the statement, and nothing may stand behind it.
unfoldable pub statement_end : Parser (Unit {0})
statement_end = do
  t ← cur
  if is_semicolon t.kind then take else pure tt
  u ← cur
  if is_eof u.kind then pure tt else fail (unexpected_after_semicolon u.lexeme)

unfoldable pub parse_tokens : Floats → ℕ → Parser Statement
parse_tokens fl f = do t ← cur; s ← statement fl f t.lexeme; statement_end; pure s

abbrev pub parsed : Result SqlError (Statement × List Token) → Result SqlError Statement
parsed (ok (s, ts)) = ok s
parsed (err e) = err e
parsed panic = panic
parsed stuck = stuck

abbrev pub parse_lexed : Floats → Result SqlError (List Token) → Result SqlError Statement
parse_lexed fl (ok ts) = parsed (parse_tokens fl (suc (length ts)) ts)
parse_lexed fl (err e) = err e
parse_lexed fl panic = panic
parse_lexed fl stuck = stuck

-- `Parse`, with fuel for the loops and the parentheses from the number of tokens
unfoldable pub parse : Floats → Bytes → Result SqlError Statement
parse fl input = parse_lexed fl (lex fl input)

-- Opens all that a run of the parser computes with.
unfoldable pub parser_runs : Unit {0}
unfolding lex atoi equal_fold to_upper member put_key ◌>>=◌ pure fail crash lift cur peek take want
    at_word lexeme comma_list trim_dollar has_dot value_of value chain_loop parse_and parse_or
    parse_is parse_comparison parse_primary condition insert_stmt assignment assign_all update_stmt
    delete_stmt is_aggregate_name at_call select_column at_join join_clause group_clause
    order_clause assert_int number_clause select_stmt column_type_of column reference
    column_constraints column_definition columns_of constraints_of create_stmt drop_stmt
    alter_action alter_stmt explain_table_stmt explained explain_stmt tables_stmt statement
    statement_end parse_tokens parse
parser_runs = tt
