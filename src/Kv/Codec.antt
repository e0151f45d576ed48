-- ===== src/Kv/Codec.antt =====
-- Rows as bytes: `validate`, `encode`, `decode` and `indexOf` of kv/table.go. A buffer of `encode` is
-- kept in two parts, the bitmap of the NULLs and the bytes behind it. What a column holds is
-- converted from an int by the parameter `floats`. Texts and blobs come with lengths below 2^32.
pub mod RoundTrip
use go_db.Base.{
  ℕ, zero, suc, ◌+◌, ◌-◌, ◌*◌, ◌/◌, ◌%◌, ◌^◌, Bool, true, false, ◌&&◌, ◌||◌, not, Option, none,
  some, List, [], ◌∷◌, ◌++◌, Bytes, bytes_eq, length, set, get_elem?, replicate, slice, put_le,
  get_le, ltb, leb, ◌==◌, if◌then◌else◌,
}
use go_db.Base.Int.{ℤ, pos, negsuc}
use go_db.Base.Assoc.{Assoc, lookup, insert}
use go_db.Base.Result.{Result, ok, err, panic, ◌>>=◌, ◌>>◌}
use go_db.Kv.Value.{
  Value, null, int, text, boolean, float, blob, timestamp, Floats, ColumnType, int_type,
  string_type, bool_type, float_type, bytes_type, timestamp_type, Column, ColumnConstraint, Schema,
  Row,
}

pub data RowError : Type 0 where
  invalid_column : Bytes → RowError
  wrong_number_of_columns missing_null_bitmap trailing_data : RowError
  missing_column null_column wrong_type : Bytes → RowError
  -- column, offset
  out_of_data : Bytes → ℕ → RowError

-- Every ColumnType of the model is between the source's IntType and TimestampType.
abbrev pub is_seen : Bytes → List Bytes → Bool
is_seen name [] = false
is_seen name (s ∷ ss) = bytes_eq s name || is_seen name ss

abbrev pub validate_columns : List Column → List Bytes → Result RowError (Unit {0})
validate_columns [] seen = ok tt
validate_columns (c ∷ cs) seen =
    let rest = validate_columns cs (c.name ∷ seen) in
    if bytes_eq c.name [] || is_seen c.name seen then err (invalid_column c.name) else rest

unfoldable pub validate : Schema → Result RowError (Unit {0})
validate s = validate_columns s.columns []

-- The first column of the name, 0 where there is none.
unfoldable pub index_from : ℕ → List Column → Bytes → ℕ
index_from i [] name = 0
index_from i (c ∷ cs) name =
    let rest = index_from (suc i) cs name in if bytes_eq c.name name then i else rest

unfoldable pub index_of : List Column → Column → ℕ
index_of cs want = index_from 0 cs want.name

-- `int64`, and `time.Time` in nanoseconds, as 64 bits
abbrev pub to_u64 : ℤ → ℕ
to_u64 (pos n) = n % 2 ^ 64
to_u64 (negsuc n) = 2 ^ 64 - 1 - n % 2 ^ 64

abbrev pub of_u64 : ℕ → ℤ
of_u64 n = if ltb n (2 ^ 63) then pos n else negsuc (2 ^ 64 - 1 - n)

-- `b & (1 << k) != 0`, `b | 1 << k`
abbrev pub has_bit : ℕ → ℕ → Bool
has_bit b k = b / 2 ^ k % 2 == 1

abbrev pub with_bit : ℕ → ℕ → ℕ
with_bit b k = if has_bit b k then b else b + 2 ^ k

abbrev pub byte_at : Option ℕ → ℕ
byte_at none = 0
byte_at (some b) = b

unfoldable pub set_null : Bytes → ℕ → Bytes
set_null nulls i = set nulls (i / 8) (with_bit (byte_at (get_elem? nulls (i / 8))) (i % 8))

unfoldable pub is_set_null : Bytes → ℕ → Bool
is_set_null nulls i = has_bit (byte_at (get_elem? nulls (i / 8))) (i % 8)

abbrev pub null_bytes : Schema → ℕ
null_bytes s = (length s.columns + 7) / 8

abbrev pub is_not_null : Option ColumnConstraint → Bool
is_not_null none = false
is_not_null (some c) = c.not_null

abbrev pub sized : Bytes → Bytes
sized b = put_le 4 (length b) ++ b

module _ (floats : Floats) where
  -- the switch on the type of a column
  unfoldable pub encode_value : ColumnType → Bytes → Value → Result RowError Bytes
  encode_value int_type name (int i) = ok (put_le 8 (to_u64 i))
  encode_value string_type name (text s) = ok (sized s)
  encode_value bool_type name (boolean b) = ok ((if b then 1 else 0) ∷ [])
  encode_value float_type name (float f) = ok (put_le 8 f)
  encode_value float_type name (int i) = ok (put_le 8 (floats.of_int i))
  encode_value bytes_type name (blob b) = ok (sized b)
  encode_value timestamp_type name (timestamp t) = ok (put_le 8 (to_u64 t))
  encode_value kind name v = err (wrong_type name)

  -- The body of the loop over the columns, on the bitmap and the bytes so far.
  unfoldable pub encode_cell :
      Schema → Column → Option Value → Bytes → Bytes → Result RowError (Bytes × Bytes)
  encode_cell s c none nulls body = err (missing_column c.name)
  encode_cell s c (some null) nulls body =
      if is_not_null (lookup c.name s.constraints)
      then err (null_column c.name)
      else ok (set_null nulls (index_of s.columns c), body)
  encode_cell s c (some v) nulls body = encode_value c.kind c.name v >>= λ b. ok (nulls, body ++ b)

  unfoldable pub encode_columns :
      Schema → Row → List Column → Bytes → Bytes → Result RowError (Bytes × Bytes)
  encode_columns s row [] nulls body = ok (nulls, body)
  encode_columns s row (c ∷ cs) nulls body =
      encode_cell s c (lookup c.name row) nulls body >>= λ b. encode_columns s row cs b.0 b.1

  unfoldable pub encode : Schema → Row → Result RowError Bytes
  encode s row =
      if not (length row == length s.columns)
      then err wrong_number_of_columns
      else (encode_columns s row s.columns (replicate (null_bytes s) 0) [] >>= λ b. ok (b.0 ++ b.1))

-- `data[p : p+n]`, behind the test that it is there
abbrev pub bytes_at : Bytes → Bytes → ℕ → ℕ → Result RowError Bytes
bytes_at name content p n =
    if ltb (length content) (p + n) then err (out_of_data name p) else ok (slice content p n)

abbrev pub sized_at : Bytes → Bytes → ℕ → Result RowError Bytes
sized_at name content p =
    bytes_at name content p 4 >>= λ n. bytes_at name content (p + 4) (get_le n)

-- the switch on the type of a column: the value, and where the next one begins
unfoldable pub decode_value : ColumnType → Bytes → Bytes → ℕ → Result RowError (Value × ℕ)
decode_value int_type name content p =
    bytes_at name content p 8 >>= λ b. ok (int (of_u64 (get_le b)), p + 8)
decode_value string_type name content p =
    sized_at name content p >>= λ b. ok (text b, p + 4 + length b)
decode_value bool_type name content p =
    if leb (length content) p || ltb 1 (get_le (slice content p 1))
    then err (out_of_data name p)
    else ok (boolean (get_le (slice content p 1) == 1), p + 1)
decode_value float_type name content p =
    bytes_at name content p 8 >>= λ b. ok (float (get_le b), p + 8)
decode_value bytes_type name content p =
    sized_at name content p >>= λ b. ok (blob b, p + 4 + length b)
decode_value timestamp_type name content p =
    bytes_at name content p 8 >>= λ b. ok (timestamp (of_u64 (get_le b)), p + 8)

unfoldable pub decode_columns : Schema → Bytes → List Column → ℕ → Row → Result RowError (ℕ × Row)
decode_columns s content [] p r = ok (p, r)
decode_columns s content (c ∷ cs) p r =
    (if is_set_null content (index_of s.columns c)
      then ok (null, p)
      else decode_value c.kind c.name content p)
    >>= λ v. decode_columns s content cs v.1 (insert c.name v.0 r)

unfoldable pub decode : Schema → Bytes → Result RowError Row
decode s content =
    if ltb (length content) (null_bytes s)
    then err missing_null_bitmap
    else (decode_columns s content s.columns (null_bytes s) [] >>= λ r.
        if r.0 == length content then ok r.1 else err trailing_data)
