-- ===== src/Kv/Table/Secondary.antt =====
-- The secondary index of kv/table.go: from a column and a value to the keys of the rows that have it.
-- A `map[string]struct{}` is the list of its keys. `indexValue`, which prints a value with its type,
-- is a parameter.
use go_db.Base.{
  Bool, true, false, Option, none, some, List, [], ◌∷◌, ◌++◌, Bytes, bytes_eq, if◌then◌else◌,
}
use go_db.Base.Assoc.{Assoc, lookup, insert, remove}
use go_db.Base.Result.{Result, ok, panic, ◌>>=◌}
use go_db.Kv.Value.{Value, null, Column, Row}

abbrev pub SecondaryMap : Type 0
SecondaryMap = Assoc (Assoc (List Bytes))

-- `row[name]`, nil on a missing key
abbrev pub cell : Option Value → Value
cell none = null
cell (some v) = v

abbrev pub field_of : Row → Bytes → Value
field_of row name = cell (lookup name row)

abbrev pub keys_or_nil : Option (List Bytes) → List Bytes
keys_or_nil none = []
keys_or_nil (some ks) = ks

abbrev pub map_or_nil : Option (Assoc (List Bytes)) → Assoc (List Bytes)
map_or_nil none = []
map_or_nil (some m) = m

-- `t.secondary[column][v]`
abbrev pub keys_for : SecondaryMap → Bytes → Bytes → List Bytes
keys_for s column v = keys_or_nil (lookup v (map_or_nil (lookup column s)))

unfoldable pub has_key : Bytes → List Bytes → Bool
has_key key [] = false
has_key key (k ∷ ks) = let rest = has_key key ks in if bytes_eq k key then true else rest

-- `m[key] = struct{}{}`
unfoldable pub add_key : Bytes → List Bytes → List Bytes
add_key key ks = if has_key key ks then ks else ks ++ key ∷ []

-- `delete(m, key)`
unfoldable pub drop_key : Bytes → List Bytes → List Bytes
drop_key key [] = []
drop_key key (k ∷ ks) = let rest = drop_key key ks in if bytes_eq k key then rest else k ∷ rest

abbrev pub put_keys : Bytes → List Bytes → Assoc (List Bytes) → Assoc (List Bytes)
put_keys v [] m = remove v m
put_keys v (k ∷ ks) m = insert v (k ∷ ks) m

module _ {E : Type 0} (index_value : Value → Bytes) where
  -- one turn of the loop; a column without a map is a panic
  unfoldable pub index_column : Bytes → Row → Column → SecondaryMap → Result E SecondaryMap
  index_column key row c s =
      let v = index_value (field_of row c.name) in
      elim (lookup c.name s) as (λ _. Result E SecondaryMap) [
        | none ↦ panic
        | some m ↦ ok (insert c.name (insert v (add_key key (keys_or_nil (lookup v m))) m) s)
      ]

  unfoldable pub index_row : List Column → Bytes → Row → SecondaryMap → Result E SecondaryMap
  index_row [] key row s = ok s
  index_row (c ∷ cs) key row s = index_column key row c s >>= λ t. index_row cs key row t

unfoldable pub unindex_column : (Value → Bytes) → Bytes → Row → Column → SecondaryMap → SecondaryMap
unindex_column index_value key row c s =
    let v = index_value (field_of row c.name) in
    elim (lookup c.name s) [
      | none ↦ s
      | some m ↦ insert c.name (put_keys v (drop_key key (keys_or_nil (lookup v m))) m) s
    ]

unfoldable pub unindex_row :
    (Value → Bytes) → List Column → Bytes → Row → SecondaryMap → SecondaryMap
unindex_row index_value [] key row s = s
unindex_row index_value (c ∷ cs) key row s =
    unindex_row index_value cs key row (unindex_column index_value key row c s)

-- the empty maps of a table's columns
unfoldable pub empty_secondary : List Column → SecondaryMap → SecondaryMap
empty_secondary [] s = s
empty_secondary (c ∷ cs) s = empty_secondary cs (insert c.name [] s)
