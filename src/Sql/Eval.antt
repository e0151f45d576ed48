-- ===== src/Sql/Eval.antt =====
-- How the executor of sql/sql.go evaluates a condition on a row, orders values, converts a value to a
-- column's type, and cuts the rows of a result. Floats are a parameter, and so are `fmt.Sprint` and
-- `time.Parse`.
pub mod Paging
use Prim.Native.Nat.{Ordering}
use go_db.Base.{
  ℕ, zero, suc, ◌+◌, ◌-◌, ◌^◌, ◌≡◌, Bool, true, false, ◌&&◌, ◌||◌, not, Option, none, some, List,
  [], ◌∷◌, Bytes, codes, bytes_eq, bytes_compare, length, take, drop, ltb, leb, ◌==◌, if◌then◌else◌,
}
use go_db.Base.Int.{ℤ, pos, negsuc, ltb_ℤ}
use go_db.Base.Assoc.{lookup}
use go_db.Base.Result.{Result, ok, err, panic}
use go_db.Kv.Value.{
  Value, null, int, text, boolean, float, blob, timestamp, parameter, Floats, ColumnType, int_type,
  string_type, bool_type, float_type, bytes_type, timestamp_type, Row,
}
use go_db.Sql.Ast.{Condition, comparison, both, Logic, and, or, Select}

-- `name[i+1:]` behind the first dot
abbrev pub behind_dot : Bytes → Option Bytes
behind_dot [] = none
behind_dot (c ∷ cs) = let rest = behind_dot cs in if c == b'.' then some cs else rest

abbrev pub lookup_bare : Row → Option Bytes → Option Value
lookup_bare r none = none
lookup_bare r (some name) = lookup name r

unfoldable pub lookup_column : Row → Bytes → Option Value
lookup_column r name = elim (lookup name r) [
  | some v ↦ some v
  | none ↦ lookup_bare r (behind_dot name)
]

-- a missing value is nil
abbrev pub or_null : Option Value → Value
or_null none = null
or_null (some v) = v

unfoldable pub value_at : Row → Bytes → Value
value_at r name = or_null (lookup_column r name)

abbrev pub is_null : Value → Bool
is_null null = true
is_null _ = false

-- `start`
abbrev pub first_row : ℤ → ℕ → ℕ
first_row (pos offset) n = if ltb n offset then n else offset
first_row (negsuc offset) n = 0

-- `end`
abbrev pub end_row : ℤ → ℕ → ℕ → ℕ
end_row (pos limit) start n = if ltb (start + limit) n then start + limit else n
end_row (negsuc limit) start n = n

-- `start+q.Limit` wraps round to a negative number
abbrev pub wraps : ℤ → ℕ → Bool
wraps (pos limit) start = leb (2 ^ 63) (start + limit)
wraps (negsuc limit) start = false

-- A negative `end` makes the slice panic.
unfoldable pub page_rows : {E : Type 0} → ℤ → ℤ → List Row → Result E (List Row)
page_rows limit offset rows =
    let n = length rows in
    let start = first_row offset n in
    if wraps limit start then panic else ok (take (end_row limit start n - start) (drop start rows))

module _ (floats : Floats) (sprint : Value → Bytes) where
  abbrev pub number : Value → Option ℕ
  number (int i) = some (floats.of_int i)
  number (float f) = some f
  number _ = none

  abbrev pub compare_float : ℕ → ℕ → Ordering
  compare_float a b =
      if floats.less a b then Ordering.lt else if floats.less b a then Ordering.gt else Ordering.eq

  -- `x == y`, then `!x`
  abbrev pub compare_bool : Bool → Bool → Ordering
  compare_bool true true = Ordering.eq
  compare_bool false false = Ordering.eq
  compare_bool false true = Ordering.lt
  compare_bool true false = Ordering.gt

  -- The cases behind that of two numbers. Two ints are two numbers, so that the source's case for them
  -- is never reached.
  abbrev pub compare_other : Value → Value → Ordering
  compare_other (text x) (text y) = bytes_compare x y
  compare_other (boolean x) (boolean y) = compare_bool x y
  compare_other a b = bytes_compare (sprint a) (sprint b)

  abbrev pub compare_numbers : Option ℕ → Option ℕ → Ordering → Ordering
  compare_numbers (some x) (some y) other = compare_float x y
  compare_numbers _ _ other = other

  unfoldable pub compare : Value → Value → Ordering
  compare a b = compare_numbers (number a) (number b) (compare_other a b)

  -- the switch on the operator
  unfoldable pub holds : Bytes → Ordering → Bool
  holds op c =
      let is_less : Bool = elim c [ Ordering.lt ↦ true | _ ↦ false ] in
      let is_greater : Bool = elim c [ Ordering.gt ↦ true | _ ↦ false ] in
      if bytes_eq op (codes "=")
      then not is_less && not is_greater
      else if bytes_eq op (codes "!=")
      then is_less || is_greater
      else if bytes_eq op (codes "<")
      then is_less
      else if bytes_eq op (codes ">")
      then is_greater
      else if bytes_eq op (codes "<=")
      then not is_greater
      else if bytes_eq op (codes ">=")
      then not is_less
      else false

  unfoldable pub satisfies : Condition → Row → Bool
  satisfies (both and a b) r = satisfies a r && satisfies b r
  satisfies (both or a b) r = satisfies a r || satisfies b r
  satisfies (comparison column op v) r =
      let value = value_at r column in
      if bytes_eq op (codes "IS NULL")
      then is_null value
      else if bytes_eq op (codes "IS NOT NULL")
      then not (is_null value)
      else if is_null value || is_null v
      then false
      else holds op (compare value v)

  unfoldable pub match : Option Condition → Row → Bool
  match none r = true
  match (some c) r = satisfies c r

  -- `sort.SliceStable` as an insertion sort: a row goes in front of the first row that is strictly
  -- behind it.
  abbrev pub before : Bytes → Bool → Row → Row → Bool
  before column desc a b = elim (compare (or_null (lookup column a)) (or_null (lookup column b))) [
    | Ordering.lt ↦ not desc
    | Ordering.gt ↦ desc
    | Ordering.eq ↦ false
  ]

  unfoldable pub insert_sorted : Bytes → Bool → Row → List Row → List Row
  insert_sorted column desc a [] = a ∷ []
  insert_sorted column desc a (b ∷ rows) =
      let rest = insert_sorted column desc a rows in
      if before column desc b a then b ∷ rest else a ∷ b ∷ rows

  unfoldable pub sort_rows : Bytes → Bool → List Row → List Row
  sort_rows column desc [] = []
  sort_rows column desc (a ∷ rows) = insert_sorted column desc a (sort_rows column desc rows)

  unfoldable pub apply_paging_and_order : {E : Type 0} → Select → List Row → Result E (List Row)
  apply_paging_and_order q rows =
      page_rows q.limit q.offset
        (if bytes_eq q.order_by [] then rows else sort_rows q.order_by q.desc rows)

unfoldable pub all_ints : List Value → Bool
all_ints [] = true
all_ints (int i ∷ vs) = all_ints vs
all_ints (_ ∷ vs) = false

pub data CoercionError : Type 0 where
  invalid_timestamp : Bytes → CoercionError
  wrong_type : Bytes → CoercionError

unfoldable pub column_type_name : ColumnType → Bytes
column_type_name int_type = codes "INT"
column_type_name string_type = codes "STRING"
column_type_name bool_type = codes "BOOL"
column_type_name float_type = codes "FLOAT"
column_type_name bytes_type = codes "BYTES"
column_type_name timestamp_type = codes "TIMESTAMP"

module _ (floats : Floats) (parse_time : Bytes → Option ℤ) where
  abbrev pub timestamp_of : Bytes → Option ℤ → Result CoercionError Value
  timestamp_of s none = err (invalid_timestamp s)
  timestamp_of s (some t) = ok (timestamp t)

  unfoldable pub coerce_value : Value → ColumnType → Result CoercionError Value
  coerce_value null kind = ok null
  coerce_value (int i) float_type = ok (float (floats.of_int i))
  coerce_value (float f) float_type = ok (float f)
  coerce_value (text s) bytes_type = ok (blob s)
  coerce_value (blob b) bytes_type = ok (blob b)
  coerce_value (text s) timestamp_type = timestamp_of s (parse_time s)
  coerce_value (timestamp t) timestamp_type = ok (timestamp t)
  coerce_value v int_type = ok v
  coerce_value v string_type = ok v
  coerce_value v bool_type = ok v
  coerce_value v kind = err (wrong_type (column_type_name kind))
