-- ===== src/Sql/Parser/Queries.antt =====
-- `selectStmt` of sql/sql.go.
use go_db.Base.{ℕ, Bool, true, false, ◌||◌, List, [], ◌∷◌, ◌++◌, Bytes, codes, if◌then◌else◌}
use go_db.Base.Int.{ℤ, pos, negsuc}
use go_db.Kv.Value.{Value, Floats}
use go_db.Sql.Token.{to_upper, equal_fold, member}
use go_db.Sql.Ast.{Statement, select}
use go_db.Sql.Stream.{
  Parser, ◌>>=◌, ◌>>◌, pure, crash, cur, peek, take, want, at_word, lexeme, comma_list,
}
use go_db.Sql.Parser.Values.{value}
use go_db.Sql.Parser.Conditions.{condition, is_lparen}

unfoldable pub is_aggregate_name : Bytes → Bool
is_aggregate_name s =
    member (to_upper s) (codes "COUNT" ∷ codes "SUM" ∷ codes "AVG" ∷ codes "MIN" ∷ codes "MAX" ∷ [])

-- `isAggregateName(p.cur().Lexeme) && p.t[p.p+1].Type == LParen`
unfoldable pub at_call : Parser Bool
at_call = do
  t ← cur
  if is_aggregate_name t.lexeme then (do u ← peek; pure (is_lparen u.kind)) else pure false

-- One column of the list: an aggregate call, written back as text, or the lexeme.
unfoldable pub select_column : Parser Bytes
select_column = do
  call ← at_call
  if call
      then (do
        fn ← lexeme
        take
        arg ← lexeme
        want (codes ")")
        pure (to_upper fn ++ codes "(" ++ arg ++ codes ")"))
      else lexeme

pub record JoinClause : Type 0 where
  pub table : Bytes
  pub left : Bytes
  pub right : Bytes

abbrev pub no_join : JoinClause
no_join = record { table = []; left = []; right = [] }

-- `JOIN`, or `INNER` with `JOIN` behind it
unfoldable pub at_join : Parser Bool
at_join = do
  join ← at_word (codes "JOIN")
  inner ← at_word (codes "INNER")
  if join
      then pure true
      else if inner
      then (do u ← peek; pure (equal_fold u.lexeme (codes "JOIN")))
      else pure false

unfoldable pub join_clause : Parser JoinClause
join_clause = do
  join ← at_join
  if join
      then (do
        inner ← at_word (codes "INNER")
        if inner then take else pure tt
        take
        table ← lexeme
        want (codes "ON")
        left ← lexeme
        want (codes "=")
        right ← lexeme
        pure (record { table = table; left = left; right = right }))
      else pure no_join

unfoldable pub group_clause : ℕ → Parser (List Bytes)
group_clause f = do
  present ← at_word (codes "GROUP")
  if present then (do take; want (codes "BY"); comma_list f lexeme) else pure []

-- the column and whether the order is descending
unfoldable pub order_clause : Parser (Bytes × Bool)
order_clause = do
  present ← at_word (codes "ORDER")
  if present
      then (do
        take
        want (codes "BY")
        column ← lexeme
        asc ← at_word (codes "ASC")
        desc ← at_word (codes "DESC")
        if asc || desc then take else pure tt
        pure (column, desc))
      else pure ([], false)

-- `n.(int)` panics for any other value.
unfoldable pub assert_int : Value → Parser ℤ
assert_int (Value.int i) = pure i
assert_int _ = crash

-- LIMIT and OFFSET: `word` and a number, or else the default
unfoldable pub number_clause : Floats → Bytes → ℤ → Parser ℤ
number_clause fl word default = do
  present ← at_word word
  if present then (do take; v ← value fl; assert_int v) else pure default

unfoldable pub select_stmt : Floats → ℕ → Parser Statement
select_stmt fl f = do
  take
  columns ← comma_list f select_column
  want (codes "FROM")
  table ← lexeme
  join ← join_clause
  c ← condition fl f
  groups ← group_clause f
  order ← order_clause
  limit ← number_clause fl (codes "LIMIT") (negsuc 0)
  offset ← number_clause fl (codes "OFFSET") (pos 0)
  pure (
      select (record {
        columns = columns;
        table = table;
        condition = c;
        order_by = order.0;
        desc = order.1;
        limit = limit;
        offset = offset;
        group_by = groups;
        join_table = join.table;
        join_left = join.left;
        join_right = join.right;
      }))
