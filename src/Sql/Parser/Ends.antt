-- ===== src/Sql/Parser/Ends.antt =====
-- Every statement parser comes back, without running out of fuel, and only SELECT may panic.
pub mod Where
pub mod Clauses
use go_db.Base.{
  ℕ, zero, suc, ◌+◌, ◌≤◌, ◌<◌, ◌≡◌, refl, Bool, true, false, Option, none, some, List, [], ◌∷◌,
  arith, Bytes, codes, bytes_eq, length, if◌then◌else◌,
}
use go_db.Base.Result.{Result, ok, err, panic, stuck}
use go_db.Kv.Value.{Floats}
use go_db.Sql.Token.{Token, TokenType, SqlError, eof, equal_fold, to_upper}
use go_db.Sql.Stream.{
  Parser, continue, ◌>>=◌, ◌>>◌, pure, fail, crash, lift, cur, peek, take, want, at_word, lexeme,
  comma_list,
}
use go_db.Sql.Stream.Safe.{
  Ends, Fine, Safe, IsPlain, Fine-mono, Fine-continue, Fine-elim, Safe-bind, Safe-pure, Safe-fail,
  Safe-if, Safe-cur, Safe-take, Safe-lift, Safe-elim, Safe-below, Safe-comma_list, safe_rules,
}
use Where.{Safe-value, Safe-condition}
use go_db.Sql.Parser.Values.{value}
use go_db.Sql.Parser.Conditions.{condition, is_lparen}
use go_db.Sql.Parser.Writes.{insert_stmt, assignment, update_stmt, delete_stmt}

module _ (P : Type 0) (fl : Floats) (n f : ℕ) (enough : n ≤ f) where
  Safe-assignment : Safe P n (assignment fl)
  unfolding assignment
  Safe-assignment = search (safe_rules, Safe-value) depth 10

  lexemes : Safe P n (comma_list f lexeme)
  lexemes = Safe-comma_list n f lexeme enough (search safe_rules)

  values : Safe P n (comma_list f (value fl))
  values = Safe-comma_list n f (value fl) enough (Safe-value fl)

  assignments : Safe P n (comma_list f (assignment fl))
  assignments = Safe-comma_list n f (assignment fl) enough Safe-assignment

  where_clause : Safe P n (condition fl f)
  where_clause = Safe-condition P fl n f enough

  -- INSERT comes back with a statement or an error: it never panics, whatever `P` is.
  pub Safe-insert_stmt : Safe P n (insert_stmt fl f)
  unfolding insert_stmt
  Safe-insert_stmt = search (safe_rules, lexemes, values) depth 25

  pub Safe-update_stmt : Safe P n (update_stmt fl f)
  unfolding update_stmt
  Safe-update_stmt = search (safe_rules, assignments, where_clause) depth 25

  pub Safe-delete_stmt : Safe P n (delete_stmt fl f)
  unfolding delete_stmt
  Safe-delete_stmt = search (safe_rules, where_clause) depth 25
