-- ===== src/Sql/Select.antt =====
-- `selectRows` of sql/sql.go behind the reading of the tables: join, filter, groups with aggregates,
-- projection, and paging. `fmt.Sprintf` with "%#v" and with "%T:%#v" are parameters.
pub mod Aggregates
pub mod Buckets
pub mod Joins
pub mod Groups
use Prim.Native.Nat.{Ordering}
use go_db.Base.{
  ℕ, ◌+◌, ◌-◌, Bool, true, false, ◌&&◌, ◌||◌, not, Option, none, some, List, [], ◌∷◌, ◌++◌, map,
  Bytes, codes, bytes_eq, length, take, drop, ltb, ◌==◌, if◌then◌else◌,
}
use go_db.Base.Int.{pos}
use go_db.Base.Assoc.{Assoc, lookup, insert}
use go_db.Base.Result.{Result, ok, err, panic, stuck, ◌>>=◌, ◌>>◌}
use go_db.Kv.Value.{Value, null, int, float, Floats, Column, Row}
use go_db.Sql.Ast.{Select, Condition}
use go_db.Sql.Token.{to_upper}
use go_db.Sql.Split.{trim_space}
use go_db.Sql.Eval.{
  compare, number, match, lookup_column, value_at, or_null, is_null, all_ints,
  apply_paging_and_order,
}
use Aggregates.{SelectError, unknown_column, is_aggregate, aggregate_row}

abbrev pub is_empty : {A : Type 0} → List A → Bool
is_empty [] = true
is_empty (a ∷ as_) = false

-- a missing list is nil
abbrev pub or_empty : Option (List Row) → List Row
or_empty none = []
or_empty (some rows) = rows

-- `m[key] = append(m[key], r)` for each row: the keys of the map, in the order of their first rows.
unfoldable pub add_row : (Row → Bytes) → Row → Assoc (List Row) → Assoc (List Row)
add_row key r m = insert (key r) (or_empty (lookup (key r) m) ++ r ∷ []) m

unfoldable pub buckets : (Row → Bytes) → List Row → Assoc (List Row) → Assoc (List Row)
buckets key [] m = m
buckets key (r ∷ rows) m = buckets key rows (add_row key r m)

abbrev pub is_present : Option Value → Bool
is_present none = false
is_present (some v) = true

-- The row of `b` put into that of `a`: a column that is there gets the table in front of its name.
unfoldable pub merge : Bytes → Row → Row → Row
merge table n [] = n
merge table n ((k, v) ∷ b) =
    merge table (insert (if is_present (lookup k n) then table ++ codes "." ++ k else k) v n) b

abbrev pub column_names : List Column → List Bytes
column_names columns = map (λ c. c.name) columns

-- `cols`
unfoldable pub result_columns : List Bytes → List Column → List Bytes
result_columns [] columns = []
result_columns (c ∷ []) columns = if bytes_eq c (codes "*") then column_names columns else c ∷ []
result_columns (c ∷ d ∷ cs) columns = c ∷ d ∷ cs

module _ (syntax : Value → Bytes) where
  unfoldable pub group_key : List Bytes → Row → Bytes
  group_key [] r = []
  group_key (c ∷ cs) r = syntax (or_null (lookup c r)) ++ codes "|" ++ group_key cs r

  -- the groups, and the empty one of an aggregate over no rows
  unfoldable pub groups_of : Bool → List Bytes → List Row → Assoc (List Row)
  groups_of aggregate by rows =
      let m = buckets (group_key by) rows [] in
      if is_empty m && aggregate && is_empty by then ([], []) ∷ [] else m

-- the check of the columns of GROUP BY
unfoldable pub check_column : Bytes → List Row → Result SelectError (Unit {0})
check_column c [] = ok tt
check_column c (r ∷ rows) =
    if is_null (value_at r c) then err (unknown_column c) else check_column c rows

unfoldable pub check_groups : List Bytes → List Row → Result SelectError (Unit {0})
check_groups [] rows = ok tt
check_groups (c ∷ cs) rows = check_column c rows >> check_groups cs rows

abbrev pub any_aggregate : List Bytes → Bool
any_aggregate [] = false
any_aggregate (c ∷ cs) = is_aggregate c || any_aggregate cs

unfoldable pub project : List Bytes → Row → Row → Result SelectError Row
project [] r out = ok out
project (c ∷ cs) r out = elim (lookup_column r c) as (λ _. Result SelectError Row) [
  | none ↦ err (unknown_column c)
  | some v ↦ project cs r (insert c v out)
]

unfoldable pub project_all : List Bytes → List Row → Result SelectError (List Row)
project_all cols [] = ok []
project_all cols (r ∷ rows) = do
  row ← project cols r []
  rest ← project_all cols rows
  ok (row ∷ rest)

module _ (floats : Floats) (sprint : Value → Bytes) where
  abbrev pub is_equal : Value → Value → Bool
  is_equal a b = elim (compare floats sprint a b) [ Ordering.eq ↦ true | _ ↦ false ]

  unfoldable pub aggregate_groups :
      List Bytes → List Bytes → Assoc (List Row) → Result SelectError (List Row)
  aggregate_groups cols groups [] = ok []
  aggregate_groups cols groups ((key, rows) ∷ m) = do
    row ← aggregate_row floats sprint cols groups rows
    rest ← aggregate_groups cols groups m
    ok (row ∷ rest)

  -- the loop over the rows of a bucket
  unfoldable pub join_row : Select → Row → List Row → List Row
  join_row q a [] = []
  join_row q a (b ∷ bs) =
      let rest = join_row q a bs in
      if is_equal (value_at a q.join_left) (value_at b q.join_right)
      then merge q.join_table a b ∷ rest
      else rest

  unfoldable pub filtered : Option Condition → List Row → List Row
  filtered condition [] = []
  filtered condition (r ∷ rows) =
      let rest = filtered condition rows in
      if match floats sprint condition r then r ∷ rest else rest

  module _ (typed_syntax : Value → Bytes) where
    unfoldable pub join_loop : Select → Assoc (List Row) → List Row → List Row
    join_loop q m [] = []
    join_loop q m (a ∷ rows) =
        join_row q a (or_empty (lookup (typed_syntax (value_at a q.join_left)) m))
        ++ join_loop q m rows

    unfoldable pub join_rows : Select → List Row → List Row → List Row
    join_rows q rows others =
        join_loop q (buckets (λ b. typed_syntax (value_at b q.join_right)) others []) rows

    abbrev pub joined : Select → List Row → Option (List Row) → List Row
    joined q rows none = rows
    joined q rows (some others) = join_rows q rows others

    module _ (syntax : Value → Bytes) where
      unfoldable pub result_rows : Select → List Bytes → List Row → Result SelectError (List Row)
      result_rows q cols rows =
          if any_aggregate cols || not (is_empty q.group_by)
          then aggregate_groups cols q.group_by
              (groups_of syntax (any_aggregate cols) q.group_by rows)
          else project_all cols rows

      -- `rows` are those of the table, `others` those of the joined table where there is one.
      unfoldable pub select_from :
          Select → List Column → List Row → Option (List Row) → Result SelectError (List Row)
      select_from q columns rows others = do
        let kept = filtered q.condition (joined q rows others)
        check_groups q.group_by kept
        out ← result_rows q (result_columns q.columns columns) kept
        apply_paging_and_order floats sprint q out
