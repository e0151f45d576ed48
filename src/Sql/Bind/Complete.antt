-- ===== src/Sql/Bind/Complete.antt =====
-- Binding needs no more arguments than the statement counts, and leaves no parameter behind.
use go_db.Base.{
  ℕ, zero, suc, ◌≤◌, ◌<◌, ◌≡◌, refl, Option, none, some, List, [], ◌∷◌, arith, length, get_elem?,
}
use go_db.Base.Assoc.{Assoc}
use go_db.Base.Result.{Result, ok}
use go_db.Kv.Value.{Value, parameter}
use go_db.Sql.Token.{SqlError}
use go_db.Sql.Ast.{Statement, Condition, comparison, both, explain, select, insert, update, delete}
use go_db.Sql.Bind.{
  count_value, count_values, count_assignments, count_condition, count_where,
  count_statement_parameters, bind, bind_values, bind_assignments, bind_condition, bind_where,
  bind_statement,
}

-- A result of which `count` finds no parameter.
abbrev Bound : {A : Type 0} → (A → ℕ) → Result SqlError A → Type 0
Bound {A} count r = (a : A) × (r ≡ ok a) × (count a ≡ 0)

module _ (args : List Value) (closed : count_values args ≡ 0) where
  bind_parameter :
      (vs : List Value) (i : ℕ)
      → count_values vs ≡ 0
      → i < length vs
      → (v : Value) × (get_elem? vs i ≡ some v) × (count_value v ≡ 0)
  bind_parameter [] i none_open lt = absurd (omega arith)
  bind_parameter (v ∷ vs) zero none_open lt = (v, refl, omega arith)
  bind_parameter (v ∷ vs) (suc i) none_open lt = bind_parameter vs i (omega arith) (omega arith)

  bind-Bound : (v : Value) → count_value v ≤ length args → Bound count_value (bind args v)
  bind-Bound (parameter i) le =
      let (v, found, none_open) = bind_parameter args i closed le in (v, rw found refl, none_open)
  bind-Bound v le = (v, refl, refl)

  bind_values-Bound :
      (vs : List Value) → count_values vs ≤ length args → Bound count_values (bind_values args vs)
  bind_values-Bound [] le = ([], refl, refl)
  bind_values-Bound (v ∷ vs) le =
      let (w, one, c) = bind-Bound v (omega arith) in
      let (ws, rest, cs) = bind_values-Bound vs (omega arith) in
      (w ∷ ws, rw (one, rest) refl, omega arith)

  bind_assignments-Bound :
      (set : Assoc Value)
      → count_assignments set ≤ length args
      → Bound count_assignments (bind_assignments args set)
  bind_assignments-Bound [] le = ([], refl, refl)
  bind_assignments-Bound ((name, v) ∷ set) le =
      let (w, one, c) = bind-Bound v (omega arith) in
      let (bound, rest, cs) = bind_assignments-Bound set (omega arith) in
      ((name, w) ∷ bound, rw (one, rest) refl, omega arith)

  bind_condition-Bound :
      (c : Condition)
      → count_condition c ≤ length args
      → Bound count_condition (bind_condition args c)
  bind_condition-Bound (comparison name op v) le =
      let (w, one, none_open) = bind-Bound v le in (comparison name op w, rw one refl, none_open)
  bind_condition-Bound (both l a b) le =
      let (left, one, c) = bind_condition-Bound a (omega arith) in
      let (right, two, d) = bind_condition-Bound b (omega arith) in
      (both l left right, rw (one, two) refl, omega arith)

  bind_where-Bound :
      (o : Option Condition) → count_where o ≤ length args → Bound count_where (bind_where args o)
  bind_where-Bound none le = (none, refl, refl)
  bind_where-Bound (some c) le =
      let (d, one, none_open) = bind_condition-Bound c le in (some d, rw one refl, none_open)

  -- With at least as many arguments as a prepared statement has parameters, none of them a parameter
  -- itself, binding returns a statement, and no parameter is left in it: no index is out of range.
  pub bind_statement-Bound :
      (s : Statement)
      → count_statement_parameters s ≤ length args
      → (t : Statement) × (bind_statement args s ≡ ok t) × (count_statement_parameters t ≡ 0)
  unfolding bind_statement
  bind_statement-Bound (insert x) le =
      let (vs, one, c) = bind_values-Bound x.values le in
      (insert (record x { values = vs }), rw one refl, c)
  bind_statement-Bound (update x) le =
      let (set, one, c) = bind_assignments-Bound x.assignments (omega arith) in
      let (w, two, d) = bind_where-Bound x.condition (omega arith) in
      (update (record x { assignments = set; condition = w }), rw (one, two) refl, omega arith)
  bind_statement-Bound (delete x) le =
      let (w, two, d) = bind_where-Bound x.condition le in
      (delete (record x { condition = w }), rw two refl, d)
  bind_statement-Bound (select x) le =
      let (w, two, d) = bind_where-Bound x.condition le in
      (select (record x { condition = w }), rw two refl, d)
  bind_statement-Bound (explain s) le =
      let (t, one, c) = bind_statement-Bound s le in (explain t, rw one refl, c)
  bind_statement-Bound s le = (s, refl, refl)
