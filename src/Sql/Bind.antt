-- ===== src/Sql/Bind.antt =====
-- Prepared statements (sql/sql.go): the number of parameters of a statement, and the statement with
-- arguments in their places. The source keeps the greatest index, from -1, and adds one at the end;
-- here the number is kept.
pub mod Complete
use Prim.Native.Nat.{max}
use go_db.Base.{
  ℕ, zero, suc, ◌+◌, Bool, Option, none, some, List, [], ◌∷◌, Bytes, get_elem?, length, ◌==◌,
  if◌then◌else◌,
}
use go_db.Base.Assoc.{Assoc}
use go_db.Base.Result.{Result, ok, err, panic, stuck, ◌>>=◌}
use go_db.Kv.Value.{Value, parameter}
use go_db.Sql.Token.{SqlError, count_mismatch}
use go_db.Sql.Ast.{Statement, Condition, comparison, both, explain, select, insert, update, delete}

-- the cases of `walk`
abbrev pub count_value : Value → ℕ
count_value (parameter i) = suc i
count_value _ = 0

abbrev pub count_values : List Value → ℕ
count_values [] = 0
count_values (v ∷ vs) = max (count_value v) (count_values vs)

abbrev pub count_assignments : Assoc Value → ℕ
count_assignments [] = 0
count_assignments ((c, v) ∷ set) = max (count_value v) (count_assignments set)

abbrev pub count_condition : Condition → ℕ
count_condition (comparison c op v) = count_value v
count_condition (both l a b) = max (count_condition a) (count_condition b)

abbrev pub count_where : Option Condition → ℕ
count_where none = 0
count_where (some c) = count_condition c

abbrev pub count_statement_parameters : Statement → ℕ
count_statement_parameters (insert x) = count_values x.values
count_statement_parameters (update x) =
    max (count_assignments x.assignments) (count_where x.condition)
count_statement_parameters (delete x) = count_where x.condition
count_statement_parameters (select x) = count_where x.condition
count_statement_parameters (explain s) = count_statement_parameters s
count_statement_parameters _ = 0

-- `args[p.index]`
abbrev pub argument : Option Value → Result SqlError Value
argument none = panic
argument (some v) = ok v

module _ (args : List Value) where
  abbrev pub bind : Value → Result SqlError Value
  bind (parameter i) = argument (get_elem? args i)
  bind v = ok v

  abbrev pub bind_values : List Value → Result SqlError (List Value)
  bind_values [] = ok []
  bind_values (v ∷ vs) = do w ← bind v; ws ← bind_values vs; ok (w ∷ ws)

  abbrev pub bind_assignments : Assoc Value → Result SqlError (Assoc Value)
  bind_assignments [] = ok []
  bind_assignments ((c, v) ∷ set) = do w ← bind v; bound ← bind_assignments set; ok ((c, w) ∷ bound)

  -- `cond`
  abbrev pub bind_condition : Condition → Result SqlError Condition
  bind_condition (comparison c op v) = do w ← bind v; ok (comparison c op w)
  bind_condition (both l a b) = do
    left ← bind_condition a
    right ← bind_condition b
    ok (both l left right)

  abbrev pub bind_where : Option Condition → Result SqlError (Option Condition)
  bind_where none = ok none
  bind_where (some c) = do d ← bind_condition c; ok (some d)

  unfoldable pub bind_statement : Statement → Result SqlError Statement
  bind_statement (insert x) = do
    values ← bind_values x.values
    ok (insert (record x { values = values }))
  bind_statement (update x) = do
    set ← bind_assignments x.assignments
    condition ← bind_where x.condition
    ok (update (record x { assignments = set; condition = condition }))
  bind_statement (delete x) = do
    condition ← bind_where x.condition
    ok (delete (record x { condition = condition }))
  bind_statement (select x) = do
    condition ← bind_where x.condition
    ok (select (record x { condition = condition }))
  bind_statement (explain s) = do inner ← bind_statement s; ok (explain inner)
  bind_statement s = ok s
