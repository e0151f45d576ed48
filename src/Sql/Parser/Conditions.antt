-- ===== src/Sql/Parser/Conditions.antt =====
-- `condition`, `parseOr`, `parseAnd`, `parsePrimary` of sql/sql.go. A loop takes fuel; the recursion
-- of `parsePrimary` into `parseOr` takes fuel of its own.
use go_db.Base.{ℕ, zero, suc, Bool, true, false, Option, none, some, Bytes, codes, if◌then◌else◌}
use go_db.Base.Result.{stuck}
use go_db.Kv.Value.{Value, Floats}
use go_db.Sql.Token.{
  TokenType, lparen, equal, not_equal, less, greater, less_equal, greater_equal, expected_null,
  expected_comparison,
}
use go_db.Sql.Ast.{Logic, and, or, Condition, comparison, both}
use go_db.Sql.Stream.{Parser, ◌>>=◌, ◌>>◌, pure, fail, cur, take, want, at_word, lexeme}
use go_db.Sql.Parser.Values.{value}

-- The loop of `parseOr` and of `parseAnd`, from its left side on.
unfoldable pub chain_loop : ℕ → Logic → Bytes → Parser Condition → Condition → Parser Condition
chain_loop zero logic word item left ts = stuck
chain_loop (suc f) logic word item left ts =
    (do
      more ← at_word word
      elim more [
        | true ↦ do take; right ← item; chain_loop f logic word item (both logic left right)
        | false ↦ pure left
      ])
      ts

unfoldable pub parse_and : ℕ → Parser Condition → Parser Condition
parse_and f primary = do left ← primary; chain_loop f and (codes "AND") primary left

unfoldable pub parse_or : ℕ → Parser Condition → Parser Condition
parse_or f primary = do
  left ← parse_and f primary
  chain_loop f or (codes "OR") (parse_and f primary) left

abbrev pub is_lparen : TokenType → Bool
is_lparen k = elim k [ lparen ↦ true | _ ↦ false ]

abbrev pub is_comparison : TokenType → Bool
is_comparison equal = true
is_comparison not_equal = true
is_comparison less = true
is_comparison greater = true
is_comparison less_equal = true
is_comparison greater_equal = true
is_comparison _ = false

-- behind `IS`
unfoldable pub parse_is : Bytes → Parser Condition
parse_is column = do
  negated ← at_word (codes "NOT")
  if negated then take else pure tt
  is_null ← at_word (codes "NULL")
  if is_null then take else fail expected_null
  pure (comparison column (if negated then codes "IS NOT NULL" else codes "IS NULL") Value.null)

unfoldable pub parse_comparison : Floats → Parser Condition
parse_comparison fl = do
  column ← lexeme
  is ← at_word (codes "IS")
  if is then (do take; parse_is column) else do
    op ← cur
    if is_comparison op.kind then take else fail expected_comparison
    v ← value fl
    pure (comparison column op.lexeme v)

unfoldable pub parse_primary : Floats → ℕ → ℕ → Parser Condition
parse_primary fl f zero ts = stuck
parse_primary fl f (suc depth) ts =
    (do
      t ← cur
      elim (is_lparen t.kind) [
        | true ↦ do take; c ← parse_or f (parse_primary fl f depth); want (codes ")"); pure c
        | false ↦ parse_comparison fl
      ])
      ts

-- `condition`: an optional WHERE clause
unfoldable pub condition : Floats → ℕ → Parser (Option Condition)
condition fl f = do
  present ← at_word (codes "WHERE")
  if present then (do take; c ← parse_or f (parse_primary fl f f); pure (some c)) else pure none
