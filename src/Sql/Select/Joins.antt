-- ===== src/Sql/Select/Joins.antt =====
-- The join by a map against the join by two loops.
use go_db.Base.{
  ◌≡◌, refl, Bool, ◌&&◌, List, [], ◌∷◌, ◌++◌, Bytes, bytes_eq, if◌then◌else◌, Bool-cases, inl, inr,
}
use go_db.Kv.Value.{Value, Floats, Row}
use go_db.Sql.Ast.{Select}
use go_db.Sql.Eval.{value_at}
use go_db.Sql.Select.{buckets, merge, is_equal, join_row, join_loop, join_rows}
use go_db.Sql.Select.Buckets.{rows_with, buckets-rows_with}

module _ (floats : Floats) (sprint typed_syntax : Value → Bytes) (q : Select) where
  -- The two rows meet: the values print alike with their types, and compare as equal.
  abbrev pub meets : Row → Row → Bool
  meets a b =
      bytes_eq (typed_syntax (value_at b q.join_right)) (typed_syntax (value_at a q.join_left))
      && is_equal floats sprint (value_at a q.join_left) (value_at b q.join_right)

  unfoldable pub nested_row : Row → List Row → List Row
  nested_row a [] = []
  nested_row a (b ∷ bs) =
      let rest = nested_row a bs in if meets a b then merge q.join_table a b ∷ rest else rest

  -- for each row of the one table, each row of the other
  unfoldable pub nested_join : List Row → List Row → List Row
  nested_join [] others = []
  nested_join (a ∷ rows) others = nested_row a others ++ nested_join rows others

  abbrev right_key : Row → Bytes
  right_key b = typed_syntax (value_at b q.join_right)

  join_row-rows_with :
      (a : Row) (others : List Row)
      → join_row floats sprint q a
          (rows_with right_key (typed_syntax (value_at a q.join_left)) others)
        ≡ nested_row a others
  unfolding join_row rows_with nested_row
  join_row-rows_with a [] = refl
  join_row-rows_with a (b ∷ others) =
      elim (Bool-cases (bytes_eq (right_key b) (typed_syntax (value_at a q.join_left)))) [
        | inl same ↦ rw (same, join_row, join_row-rows_with a others) refl
        | inr other ↦ rw (other, join_row-rows_with a others) refl
      ]

  join_loop-nested_join :
      (rows others : List Row)
      → join_loop floats sprint typed_syntax q (buckets right_key others []) rows
        ≡ nested_join rows others
  unfolding join_loop nested_join
  join_loop-nested_join [] others = refl
  join_loop-nested_join (a ∷ rows) others =
      rw
        (
          buckets-rows_with right_key (typed_syntax (value_at a q.join_left)) others,
          join_row-rows_with a others,
          join_loop-nested_join rows others,
        )
        refl

  -- The join, which looks the rows of the second table up in a map, gives what two nested loops over the
  -- tables give, in the same order: every pair of rows whose values compare as equal and
  -- have the same type and syntax, put together.
  pub join_rows-nested_join :
      (rows others : List Row)
      → join_rows floats sprint typed_syntax q rows others ≡ nested_join rows others
  unfolding join_rows
  join_rows-nested_join rows others = join_loop-nested_join rows others
