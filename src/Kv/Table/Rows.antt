-- ===== src/Kv/Table/Rows.antt =====
-- The rows of kv/table.go as values: what a table reads off the index, the constraints, and the rows of
-- a new schema.
use go_db.Base.{
  ℕ, zero, suc, ◌-◌, ◌*◌, ◌^◌, Bool, true, false, ◌&&◌, ◌||◌, not, Option, none, some, List, [],
  ◌∷◌, ◌++◌, map, Bytes, bytes_eq, length, get_elem?, ◌==◌, if◌then◌else◌,
}
use go_db.Base.Int.{pos, negsuc}
use go_db.Base.Assoc.{Assoc, lookup, insert}
use go_db.Base.Result.{Result, ok, err, panic, stuck}
use go_db.Base.Exec.{wrap}
use go_db.Base.Result
use go_db.Kv.Value.{
  Value, null, int, text, boolean, float, blob, timestamp, Floats, ColumnType, int_type,
  string_type, bool_type, float_type, bytes_type, timestamp_type, Column, ColumnConstraint, Schema,
  Row,
}
use go_db.Kv.Codec.{RowError, encode, decode}
use go_db.Kv.Wal.{BatchOp}
use go_db.Kv.Btree.{Btree, nil, root, Node}
use go_db.Kv.Store.{StoreError}
use go_db.Kv.Table.Secondary.{field_of}

pub data TableError : Type 0 where
  in_store : StoreError → TableError
  in_row : RowError → TableError
  unique_failed : Bytes → TableError
  no_columns : TableError

pub record TransactionRow : Type 0 where
  pub row : Row
  pub deleted : Bool

-- the values along the chain of leaves
unfoldable pub node_values : (h : ℕ) → Node h → List Bytes
node_values zero n = n.values
node_values (suc h) n = concat (map (node_values h) n.children)
  where
    concat : List (List Bytes) → List Bytes
    concat [] = []
    concat (vs ∷ rest) = vs ++ concat rest

unfoldable pub tree_values : Btree → List Bytes
tree_values nil = []
tree_values (root h n) = node_values h n

-- `schema.Columns[1:]`, and `schema.Columns[0].Name`
abbrev pub columns_behind : List Column → Result TableError (List Column)
columns_behind [] = panic
columns_behind (c ∷ cs) = ok cs

abbrev pub key_column : List Column → Result TableError Bytes
key_column [] = panic
key_column (c ∷ cs) = ok c.name

-- the value of a new column
abbrev pub zero_value : Floats → ColumnType → Value
zero_value floats int_type = int (pos 0)
zero_value floats string_type = text []
zero_value floats bool_type = boolean false
zero_value floats float_type = float floats.zero_bits
zero_value floats bytes_type = blob []
-- the first of January of the year 1
zero_value floats timestamp_type = timestamp (negsuc (62135596800 * 10 ^ 9 - 1))

abbrev pub same_type : ColumnType → ColumnType → Bool
same_type int_type int_type = true
same_type string_type string_type = true
same_type bool_type bool_type = true
same_type float_type float_type = true
same_type bytes_type bytes_type = true
same_type timestamp_type timestamp_type = true
same_type a b = false

abbrev pub is_nil : Value → Bool
is_nil null = true
is_nil _ = false

unfoldable pub assign : Row → Row → Row
assign [] r = r
assign ((k, v) ∷ set) r = assign set (insert k v r)

abbrev pub is_unique : Option ColumnConstraint → Bool
is_unique none = false
is_unique (some c) = c.unique

abbrev pub decode_found : Schema → Option Bytes → Result TableError (Option Row)
decode_found schema none = ok none
decode_found schema (some b) = Result.◌>>=◌ (wrap in_row (decode schema b)) (λ r. ok (some r))

unfoldable pub decode_all : Schema → List Bytes → Result TableError (List Row)
decode_all schema [] = ok []
decode_all schema (b ∷ bs) =
    Result.◌>>=◌ (wrap in_row (decode schema b))
      (λ r. Result.◌>>=◌ (decode_all schema bs) (λ rest. ok (r ∷ rest)))

abbrev pub decode_visible : Schema → Bytes × Bool → Result TableError (Option Row)
decode_visible schema (b, false) = ok none
decode_visible schema (b, true) = Result.◌>>=◌ (wrap in_row (decode schema b)) (λ r. ok (some r))

module _ (sprint index_value : Value → Bytes) where
  -- `fmt.Sprint(row[t.schema.Columns[0].Name])`
  unfoldable pub row_key : Schema → Row → Result TableError Bytes
  row_key schema r =
      Result.◌>>=◌ (key_column schema.columns) (λ name. ok (sprint (field_of r name)))

  -- the rows of another key with that value
  unfoldable pub clashes : Bytes → Bytes → Bytes → Row → List Row → Bool
  clashes first column key row [] = false
  clashes first column key row (old ∷ rows) =
      not (bytes_eq (sprint (field_of old first)) key)
        && bytes_eq (index_value (field_of old column)) (index_value (field_of row column))
      || clashes first column key row rows

  unfoldable pub check_columns :
      Assoc ColumnConstraint
      → Bytes
      → List Column
      → Bytes
      → Row
      → List Row
      → Result TableError (Unit {0})
  check_columns constraints first [] key row rows = ok tt
  check_columns constraints first (c ∷ cs) key row rows =
      let rest = check_columns constraints first cs key row rows in
      if is_unique (lookup c.name constraints)
        && not (is_nil (field_of row c.name))
        && clashes first c.name key row rows
      then err (unique_failed c.name)
      else rest

  abbrev pub check_schema : Schema → Bytes → Row → List Row → Result TableError (Unit {0})
  check_schema s key row rows = elim s.columns as (λ _. Result TableError (Unit {0})) [
    | [] ↦ ok tt
    | c ∷ cs ↦ check_columns s.constraints c.name (c ∷ cs) key row rows
  ]

module _ (floats : Floats) where
  -- The operations of a batch, in the order of the range over the map.
  unfoldable pub batch_of : Schema → Assoc TransactionRow → Result TableError (List BatchOp)
  batch_of schema [] = ok []
  batch_of schema ((key, w) ∷ writes) =
      Result.◌>>=◌ (if w.deleted then ok [] else wrap in_row (encode floats schema w.row)) (λ b.
        Result.◌>>=◌ (batch_of schema writes)
          (λ ops. ok (record { key = key; value = b; delete = w.deleted } ∷ ops)))

  -- the value of a column of the new schema, the `i`th, in a row
  unfoldable pub converted_value : List Column → List Column → ℕ → Column → Row → Value
  converted_value old new i c r = elim (lookup c.name r) as (λ _. Value) [
    | some v ↦ v
    | none ↦ elim (get_elem? old i) as (λ _. Value) [
      | none ↦ zero_value floats c.kind
      | some o ↦
          if length new == length old && same_type o.kind c.kind
          then field_of r o.name
          else zero_value floats c.kind
    ]
  ]

  unfoldable pub convert_row : List Column → List Column → ℕ → List Column → Row → Row → Row
  convert_row old new i [] r out = out
  convert_row old new i (c ∷ cs) r out =
      convert_row old new (suc i) cs r (insert c.name (converted_value old new i c r) out)
