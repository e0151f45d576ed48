-- ===== src/Tests/Parsing.antt =====
-- The SQL front end on statements of the repository's tests.
use go_db.Base.{Bytes, ◌++◌, false, none, some, [], ◌∷◌, ◌≡◌, refl, codes}
use go_db.Base.Int.{pos}
use go_db.Base.Result.{ok, err, panic}
use go_db.Kv.Value.{Floats, Value}
use go_db.Sql.Token.{unterminated_string}
use go_db.Sql.Ast.{Condition, Logic, select}
use go_db.Sql.Parser.{parse, parser_runs}
use go_db.Base.{◌-◌, ◌≢◌, ◌^◌, List, arith}
use go_db.Base.Result.{stuck}
use go_db.Kv.Value.{Row, parameter}
use go_db.Sql.Token.{Token, SqlError}
use go_db.Sql.Lexer.{lex}
use go_db.Sql.Lexer.Total.{Lexed, lex-Lexed}
use go_db.Sql.Parser.Total.{StartsQuery, parse-ne-stuck, parse-panic}
use go_db.Sql.Ast.{Statement, delete}
use go_db.Sql.Bind.{bind_statement, count_statement_parameters}
use go_db.Sql.Bind.Complete.{bind_statement-Bound}
use go_db.Sql.Eval.{page_rows}

-- No text is a float.
abbrev pub no_floats : Floats
no_floats = record {
  parse_float = λ s. none;
  of_int = λ i. 0;
  to_int = λ f. pos 0;
  less = λ a b. false;
  plus = λ a b. 0;
  divide = λ a b. 0;
  zero_bits = 0;
}

parse_select :
    parse no_floats
      (codes "select id from users where (a = 1 or b <= 'x') and c is not null limit 5;")
    ≡ ok (
        select (record {
          columns = codes "id" ∷ [];
          table = codes "users";
          condition = some (
              Condition.both Logic.and
                (Condition.both Logic.or
                  (Condition.comparison (codes "a") (codes "=") (Value.int (pos 1)))
                  (Condition.comparison (codes "b") (codes "<=") (Value.text (codes "x"))))
                (Condition.comparison (codes "c") (codes "IS NOT NULL") Value.null));
          order_by = [];
          desc = false;
          limit = pos 5;
          offset = pos 0;
          group_by = [];
          join_table = [];
          join_left = [];
          join_right = [];
        }))
unfolding parser_runs
parse_select = refl

parse_unterminated : parse no_floats (codes "delete from t where a = 'x") ≡ err unterminated_string
unfolding parser_runs
parse_unterminated = refl

-- A LIMIT that is a text makes the parser panic.
parse_limit_text : parse no_floats (codes "SELECT a FROM t LIMIT 'x'") ≡ panic
unfolding parser_runs
parse_limit_text = refl

-- The same with the keyword in quotes, its first letter a long s.
abbrev long_s_select : Bytes
long_s_select = codes "'" ++ (0xC5 ∷ 0xBF ∷ []) ++ codes "ELECT' a FROM t LIMIT 'x'"

parse_long_s : parse no_floats long_s_select ≡ panic
unfolding parser_runs
parse_long_s = refl

parse-panic_example :
    (ts : List Token) × (lex no_floats (codes "SELECT a FROM t LIMIT 'x'") ≡ ok ts) × StartsQuery ts
parse-panic_example = parse-panic no_floats (codes "SELECT a FROM t LIMIT 'x'") parse_limit_text

parse-ne-stuck_example : parse no_floats (codes "select ((((") ≢ stuck
parse-ne-stuck_example = parse-ne-stuck no_floats (codes "select ((((")

lex-Lexed_example : Lexed (lex no_floats (codes "a <= 'it''s' ;"))
lex-Lexed_example = lex-Lexed no_floats (codes "a <= 'it''s' ;")

-- DELETE FROM t WHERE a = ?
abbrev prepared : Statement
prepared = delete (record {
  table = codes "t";
  condition = some (Condition.comparison (codes "a") (codes "=") (parameter 0));
})

bind_statement-Bound_example :
    (t : Statement) × (bind_statement (Value.int (pos 3) ∷ []) prepared ≡ ok t)
    × (count_statement_parameters t ≡ 0)
bind_statement-Bound_example =
    bind_statement-Bound (Value.int (pos 3) ∷ []) refl prepared (omega arith)

abbrev one_row : Row
one_row = (codes "a", Value.int (pos 3)) ∷ []

-- A LIMIT of 2^63 - 1 behind an OFFSET of 1 makes the slice panic.
page_rows_wraps : page_rows {E = SqlError} (pos (2 ^ 63 - 1)) (pos 1) (one_row ∷ [] ∷ []) ≡ panic
unfolding page_rows
page_rows_wraps = refl
