-- ===== src/Sql/Select/Groups.antt =====
-- What the groups of a SELECT hold.
use go_db.Base.{
  ◌≡◌, refl, inl, inr, Bool, ◌&&◌, none, some, List, [], Bytes, bytes_eq, if◌then◌else◌, Bool-cases,
}
use go_db.Base.Assoc.{lookup}
use go_db.Kv.Value.{Value, Row}
use go_db.Sql.Select.{is_empty, group_key, groups_of}
use go_db.Sql.Select.Buckets.{filled, rows_with, lookup-buckets, is_empty-buckets}

-- The group of a key holds exactly the rows with that key in the columns of GROUP BY, in the order in which
-- they came, and there is no group where no row has the key. Where there is no row at all, the
-- result is one of aggregates, and there is no GROUP BY, the empty key alone has a group, which
-- is empty.
pub groups_of-rows_with :
    (syntax : Value → Bytes) (aggregate : Bool) (by : List Bytes) (rows : List Row) (k : Bytes)
    → lookup k (groups_of syntax aggregate by rows) ≡ (
        if is_empty rows && aggregate && is_empty by
        then if bytes_eq [] k then some [] else none
        else filled (rows_with (group_key syntax by) k rows))
unfolding groups_of lookup
groups_of-rows_with syntax aggregate by rows k =
    rw (is_empty-buckets (group_key syntax by) rows)
      (elim (Bool-cases (is_empty rows && aggregate && is_empty by)) [
        | inl q ↦ rw q refl
        | inr q ↦ rw q (lookup-buckets (group_key syntax by) k rows)
      ])
