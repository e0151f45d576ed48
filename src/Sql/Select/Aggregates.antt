-- ===== src/Sql/Select/Aggregates.antt =====
-- `aggregateRow` of sql/sql.go: COUNT, SUM, AVG, MIN and MAX over the rows of a group.
use Prim.Native.Nat.{Ordering}
use go_db.Base.{
  ℕ, ◌+◌, ◌-◌, Bool, ◌&&◌, ◌||◌, Option, none, some, List, [], ◌∷◌, Bytes, codes, bytes_eq, length,
  take, drop, ltb, ◌==◌, if◌then◌else◌,
}
use go_db.Base.Int.{pos}
use go_db.Base.Assoc.{lookup, insert}
use go_db.Base.Result.{Result, ok, err, panic, ◌>>=◌}
use go_db.Kv.Value.{Value, null, int, float, Floats, Row}
use go_db.Sql.Token.{to_upper}
use go_db.Sql.Split.{trim_space}
use go_db.Sql.Eval.{compare, number, or_null, is_null, all_ints}

pub data SelectError : Type 0 where
  unknown_column : Bytes → SelectError
  group_without_rows : Bytes → SelectError
  not_numeric : Bytes → SelectError

-- `strings.HasPrefix(s, prefix)`
unfoldable pub has_prefix : Bytes → Bytes → Bool
has_prefix s prefix = bytes_eq (take (length prefix) s) prefix

unfoldable pub is_aggregate : Bytes → Bool
is_aggregate s =
    let u = to_upper s in
    has_prefix u (codes "COUNT(")
    || has_prefix u (codes "SUM(")
    || has_prefix u (codes "AVG(")
    || has_prefix u (codes "MIN(")
    || has_prefix u (codes "MAX(")

-- `strings.Index(s, "(")`
unfoldable pub index_open : Bytes → Option ℕ
index_open [] = none
index_open (c ∷ cs) =
    let rest = index_open cs in
    if c == b'(' then some 0 else elim rest [ none ↦ none | some i ↦ some (i + 1) ]

-- the NULLs left out
unfoldable pub present_values : Bytes → List Row → List Value
present_values column [] = []
present_values column (r ∷ rows) =
    let rest = present_values column rows in
    let v = or_null (lookup column r) in if is_null v then rest else v ∷ rest

-- `rows[0][column]`
abbrev pub first_value : Bytes → List Row → Result SelectError Value
first_value column [] = err (group_without_rows column)
first_value column (r ∷ rows) = ok (or_null (lookup column r))

-- `strings.TrimSpace(expr[open+1 : len(expr)-1])`, a panic where the bounds cross
unfoldable pub argument : Bytes → ℕ → Result SelectError Bytes
argument expr at =
    if ltb (length expr) (at + 2)
    then panic
    else ok (trim_space (take (length expr - 1 - (at + 1)) (drop (at + 1) expr)))

-- the columns of the group, out of its first row
unfoldable pub group_columns : List Bytes → List Row → Row → Row
group_columns [] rows out = out
group_columns (c ∷ cs) [] out = group_columns cs [] out
group_columns (c ∷ cs) (r ∷ rows) out =
    group_columns cs (r ∷ rows) (insert c (or_null (lookup c r)) out)

module _ (floats : Floats) (sprint : Value → Bytes) where
  -- the loop of MIN and MAX; `is_min` and `is_max` are the two prefix tests
  unfoldable pub best : Bool → Bool → Value → List Value → Value
  best is_min is_max b [] = b
  best is_min is_max b (v ∷ vs) =
      best is_min is_max
        (elim (compare floats sprint v b) [
          | Ordering.lt ↦ if is_min then v else b
          | Ordering.gt ↦ if is_max then v else b
          | Ordering.eq ↦ b
        ])
        vs

  unfoldable pub sum_values : Bytes → List Value → ℕ → Result SelectError ℕ
  sum_values expr [] sum = ok sum
  sum_values expr (v ∷ vs) sum = elim (number floats sprint v) as (λ _. Result SelectError ℕ) [
    | none ↦ err (not_numeric expr)
    | some n ↦ sum_values expr vs (floats.plus sum n)
  ]

  -- SUM and AVG, and what else has a parenthesis
  unfoldable pub total : Bytes → List Value → Result SelectError Value
  total expr vals = do
    sum ← sum_values expr vals floats.zero_bits
    let u = to_upper expr
    let mean =
        if has_prefix u (codes "AVG")
        then floats.divide sum (floats.of_int (pos (length vals)))
        else sum
    ok (
        if has_prefix u (codes "SUM") && all_ints vals
        then int (floats.to_int mean)
        else float mean)

  unfoldable pub aggregate_values : Bytes → List Value → Result SelectError Value
  aggregate_values expr vals =
      let u = to_upper expr in
      if has_prefix u (codes "COUNT")
      then ok (int (pos (length vals)))
      else elim vals as (λ _. Result SelectError Value) [
        | [] ↦ ok null
        | v ∷ vs ↦
            if has_prefix u (codes "MIN") || has_prefix u (codes "MAX")
            then ok (best (has_prefix u (codes "MIN")) (has_prefix u (codes "MAX")) v vs)
            else total expr vals
      ]

  -- one turn of the loop over the columns
  unfoldable pub aggregate_column : Bytes → List Row → Row → Result SelectError Row
  aggregate_column expr rows out = elim (index_open expr) as (λ _. Result SelectError Row) [
    | none ↦ first_value expr rows >>= λ v. ok (insert expr v out)
    | some at ↦ argument expr at >>= λ col.
        if bytes_eq col (codes "*")
        then ok (
            if has_prefix (to_upper expr) (codes "COUNT")
            then insert expr (int (pos (length rows))) out
            else out)
        else (aggregate_values expr (present_values col rows) >>= λ v. ok (insert expr v out))
  ]

  unfoldable pub aggregate_columns : List Bytes → List Row → Row → Result SelectError Row
  aggregate_columns [] rows out = ok out
  aggregate_columns (c ∷ cs) rows out =
      aggregate_column c rows out >>= λ next. aggregate_columns cs rows next

  unfoldable pub aggregate_row : List Bytes → List Bytes → List Row → Result SelectError Row
  aggregate_row cols groups rows = aggregate_columns cols rows (group_columns groups rows [])
