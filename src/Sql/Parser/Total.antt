-- ===== src/Sql/Parser/Total.antt =====
-- `Parse` ends on every input, and panics only in SELECT or EXPLAIN.
use go_db.Base.{
  ℕ, suc, ◌≤◌, ◌≡◌, ◌≢◌, refl, Bool, true, false, ◌||◌, List, [], ◌∷◌, arith, Bytes, codes, length,
  if◌then◌else◌,
}
use go_db.Base.Int.{ℤ}
use go_db.Base.Result.{Result, ok, err, panic, stuck}
use go_db.Kv.Value.{Floats, Value}
use go_db.Sql.Token.{Token, SqlError, equal_fold}
use go_db.Sql.Ast.{Statement}
use go_db.Sql.Stream.{Parser, ◌>>=◌, pure, crash, cur, lexeme, comma_list}
use go_db.Sql.Stream.Safe.{
  Ends, Fine, Safe, Fine-continue, Safe-bind, Safe-pure, Safe-fail, Safe-take, Safe-comma_list,
  safe_rules,
}
use go_db.Sql.Parser.Queries.{
  join_clause, order_clause, group_clause, number_clause, assert_int, select_stmt, select_column,
}
use go_db.Sql.Parser.Tables.{create_stmt, drop_stmt, alter_action, alter_stmt, column_definition}
use go_db.Sql.Parser.Writes.{insert_stmt, update_stmt, delete_stmt}
use go_db.Sql.Parser.Conditions.{condition}
use go_db.Sql.Parser.Ends.{Safe-insert_stmt, Safe-update_stmt, Safe-delete_stmt}
use go_db.Sql.Parser.Ends.Where.{Safe-value, Safe-condition}
use go_db.Sql.Parser.Ends.Clauses.{
  Safe-column, Safe-column_definition, Safe-select_column, Safe-join_clause, Safe-order_clause,
}
use go_db.Sql.Parser.{
  explain_table_stmt, explained, explain_stmt, tables_stmt, statement, statement_end, parse_tokens,
  parsed, parse_lexed, parse,
}
use go_db.Sql.Lexer.{lex}
use go_db.Sql.Lexer.Total.{Lexed, lex-Lexed}

module _ (P : Type 0) (fl : Floats) (n f : ℕ) (enough : n ≤ f) where
  group_list : Safe P n (comma_list f lexeme)
  group_list = Safe-comma_list n f lexeme enough (search safe_rules)

  Safe-group_clause : Safe P n (group_clause f)
  unfolding group_clause
  Safe-group_clause = search (safe_rules, group_list) depth 10

  column_list : Safe P n (comma_list f select_column)
  column_list = Safe-comma_list n f select_column enough (Safe-select_column P n)

  definitions : Safe P n (comma_list f (column_definition f))
  definitions =
      Safe-comma_list n f (column_definition f) enough (Safe-column_definition P n f enough)

  Safe-create_stmt : Safe P n (create_stmt f)
  unfolding create_stmt
  Safe-create_stmt = search (safe_rules, definitions) depth 20

  Safe-drop_stmt : Safe P n drop_stmt
  unfolding drop_stmt
  Safe-drop_stmt = search safe_rules depth 12

  Safe-alter_action : (table word : Bytes) → Safe P n (alter_action table word)
  unfolding alter_action
  Safe-alter_action table word = search (safe_rules, Safe-column) depth 14

  Safe-alter_stmt : Safe P n alter_stmt
  unfolding alter_stmt
  Safe-alter_stmt = search (safe_rules, Safe-alter_action) depth 12

  Safe-tables_stmt : (word : Bytes) → Safe P n (tables_stmt word)
  unfolding tables_stmt
  Safe-tables_stmt word = search safe_rules depth 10

  Safe-explain_table_stmt : Safe P n explain_table_stmt
  unfolding explain_table_stmt
  Safe-explain_table_stmt = search safe_rules depth 10

  join_part : Safe P n join_clause
  join_part = Safe-join_clause P n

  where_part : Safe P n (condition fl f)
  where_part = Safe-condition P fl n f enough

  order_part : Safe P n order_clause
  order_part = Safe-order_clause P n

  insert_part : Safe P n (insert_stmt fl f)
  insert_part = Safe-insert_stmt P fl n f enough

  update_part : Safe P n (update_stmt fl f)
  update_part = Safe-update_stmt P fl n f enough

  delete_part : Safe P n (delete_stmt fl f)
  delete_part = Safe-delete_stmt P fl n f enough

  -- The rest is for where a panic is allowed.
  module _ (may : P) where
    Safe-assert_int : (v : Value) → Safe P n (assert_int v)
    unfolding assert_int crash
    Safe-assert_int (Value.int i) = Safe-pure i
    Safe-assert_int _ = record { at = λ ts e h. may }

    Safe-number_clause : (word : Bytes) (default : ℤ) → Safe P n (number_clause fl word default)
    unfolding number_clause
    Safe-number_clause word default = search (safe_rules, Safe-value, Safe-assert_int) depth 12

    Safe-select_stmt : Safe P n (select_stmt fl f)
    unfolding select_stmt
    Safe-select_stmt =
        search
          (
            safe_rules, column_list, join_part, where_part, Safe-group_clause, order_part,
            Safe-number_clause,
          )
          depth 30

    Safe-explained : Safe P n (explained fl f)
    unfolding explained
    Safe-explained =
        search (safe_rules, Safe-select_stmt, insert_part, update_part, delete_part) depth 20

    Safe-explain_stmt : Safe P n (explain_stmt fl f)
    unfolding explain_stmt
    Safe-explain_stmt = search (safe_rules, Safe-explain_table_stmt, Safe-explained) depth 20

-- The statements that may panic: SELECT, and EXPLAIN around it.
abbrev pub is_query : Bytes → Bool
is_query word = equal_fold word (codes "EXPLAIN") || equal_fold word (codes "SELECT")

explain_is_query : (word : Bytes) → equal_fold word (codes "EXPLAIN") ≡ true → is_query word ≡ true
explain_is_query word h = ground arith

select_is_query : (word : Bytes) → equal_fold word (codes "SELECT") ≡ true → is_query word ≡ true
select_is_query word h = ground arith

-- A branch that may use the value of its test.
Safe-branch :
    {P : Type 0} {A : Type 0} {n : ℕ} (b : Bool) (m k : Parser A)
    → (b ≡ true → Safe P n m)
    → Safe P n k
    → Safe P n (if b then m else k)
Safe-branch true m k on off = on refl
Safe-branch false m k on off = off

module _ (fl : Floats) (n f : ℕ) (enough : n ≤ f) (word : Bytes) where
  abbrev Query : Type 0
  Query = is_query word ≡ true

  explain_part : equal_fold word (codes "EXPLAIN") ≡ true → Safe Query n (explain_stmt fl f)
  explain_part h = Safe-explain_stmt Query fl n f enough (explain_is_query word h)

  select_part : equal_fold word (codes "SELECT") ≡ true → Safe Query n (select_stmt fl f)
  select_part h = Safe-select_stmt Query fl n f enough (select_is_query word h)

  insert-Safe : Safe Query n (insert_stmt fl f)
  insert-Safe = Safe-insert_stmt Query fl n f enough

  update-Safe : Safe Query n (update_stmt fl f)
  update-Safe = Safe-update_stmt Query fl n f enough

  delete-Safe : Safe Query n (delete_stmt fl f)
  delete-Safe = Safe-delete_stmt Query fl n f enough

  create-Safe : Safe Query n (create_stmt f)
  create-Safe = Safe-create_stmt Query fl n f enough

  drop-Safe : Safe Query n drop_stmt
  drop-Safe = Safe-drop_stmt Query fl n f enough

  alter-Safe : Safe Query n alter_stmt
  alter-Safe = Safe-alter_stmt Query fl n f enough

  tables-Safe : (w : Bytes) → Safe Query n (tables_stmt w)
  tables-Safe w = Safe-tables_stmt Query fl n f enough w

  Safe-statement : Safe Query n (statement fl f word)
  unfolding statement
  Safe-statement =
      search
        (
          Safe-bind, Safe-pure, Safe-fail, Safe-take, Safe-branch, explain_part, select_part,
          insert-Safe, update-Safe, delete-Safe, create-Safe, drop-Safe, alter-Safe, tables-Safe,
        )
        depth 24

  Safe-statement_end : Safe Query n statement_end
  unfolding statement_end
  Safe-statement_end = search safe_rules depth 12

-- The first word of the tokens is SELECT or EXPLAIN.
abbrev pub StartsQuery : List Token → Type 0
StartsQuery [] = ⊥
StartsQuery (t ∷ ts) = is_query t.lexeme ≡ true

parse_tokens-Fine :
    (fl : Floats) (f : ℕ) (ts : List Token)
    → Ends ts
    → length ts ≤ f
    → Fine (StartsQuery ts) (length ts) (parse_tokens fl f ts)
unfolding parse_tokens cur ◌>>=◌
parse_tokens-Fine fl f [] e le = absurd e
parse_tokens-Fine fl f (t ∷ ts) e le =
    let n : ℕ = suc (length ts) in
    let P : Type 0 = is_query t.lexeme ≡ true in
    Fine-continue P n n (statement fl f t.lexeme (t ∷ ts)) _
      ((Safe-statement fl n f le t.lexeme).at (t ∷ ts) e (omega arith)) (omega arith) (λ s. ends s)
  where
    ends :
        (s : Statement)
        → Safe (is_query t.lexeme ≡ true) (suc (length ts)) (statement_end >>= λ _. pure s)
    ends s =
        Safe-bind statement_end (λ _. pure s)
          (Safe-statement_end fl (suc (length ts)) f le t.lexeme) (λ _. Safe-pure s)

parsed-ne-stuck :
    (P : Type 0) (n : ℕ) (r : Result SqlError (Statement × List Token))
    → Fine P n r
    → parsed r ≢ stuck
parsed-ne-stuck P n (ok (s, ts)) h = λ e. cc
parsed-ne-stuck P n (err x) h = λ e. cc
parsed-ne-stuck P n panic h = λ e. cc
parsed-ne-stuck P n stuck h = λ e. h

parsed-panic :
    (P : Type 0) (n : ℕ) (r : Result SqlError (Statement × List Token))
    → Fine P n r
    → parsed r ≡ panic
    → P
parsed-panic P n (ok (s, ts)) h e = cc
parsed-panic P n (err x) h e = cc
parsed-panic P n panic h e = h
parsed-panic P n stuck h e = absurd h

Lexed-ne-stuck :
    (fl : Floats) (r : Result SqlError (List Token)) → Lexed r → parse_lexed fl r ≢ stuck
Lexed-ne-stuck fl (ok ts) h =
    parsed-ne-stuck (StartsQuery ts) (length ts) (parse_tokens fl (suc (length ts)) ts)
      (parse_tokens-Fine fl (suc (length ts)) ts h (omega arith))
Lexed-ne-stuck fl (err e) h = λ q. cc
Lexed-ne-stuck fl panic h = absurd h
Lexed-ne-stuck fl stuck h = absurd h

Lexed-panic :
    (fl : Floats) (r : Result SqlError (List Token))
    → Lexed r
    → parse_lexed fl r ≡ panic
    → (ts : List Token) × (r ≡ ok ts) × StartsQuery ts
Lexed-panic fl (ok ts) h q = (
  ts,
  refl,
  parsed-panic (StartsQuery ts) (length ts) (parse_tokens fl (suc (length ts)) ts)
      (parse_tokens-Fine fl (suc (length ts)) ts h (omega arith)) q,
)
Lexed-panic fl (err e) h q = cc
Lexed-panic fl panic h q = absurd h
Lexed-panic fl stuck h q = absurd h

-- `Parse` comes back on every input: none of its loops, and no nesting of parentheses, takes more
-- rounds than the lexed input has tokens, and `Lex` ends as well.
pub parse-ne-stuck : (fl : Floats) (input : Bytes) → parse fl input ≢ stuck
unfolding parse
parse-ne-stuck fl input = Lexed-ne-stuck fl (lex fl input) (lex-Lexed fl input)

-- Where `Parse` panics, the input lexes and its first word is SELECT or EXPLAIN: no other statement
-- reads past the tokens or fails a type assertion.
pub parse-panic :
    (fl : Floats) (input : Bytes)
    → parse fl input ≡ panic
    → (ts : List Token) × (lex fl input ≡ ok ts) × StartsQuery ts
unfolding parse
parse-panic fl input = Lexed-panic fl (lex fl input) (lex-Lexed fl input)
