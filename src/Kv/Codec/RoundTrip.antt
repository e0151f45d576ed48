-- ===== src/Kv/Codec/RoundTrip.antt =====
-- A cell that `encode` writes is the cell that `decode` reads.
use go_db.Base.{
  ℕ, ◌+◌, ◌^◌, ◌<◌, ◌≡◌, refl, ap, sym, ◌⊎◌, inl, inr, true, false, [], ◌∷◌, ◌++◌, Bytes, arith,
  length, length-append, append_assoc, take_append, drop_append, slice, put_le, get_le,
  length-put_le, get_le-put_le, ltb-false, leb,
}
use go_db.Base.Int.{ℤ, pos, negsuc}
use go_db.Base.Result.{Result, ok, err}
use go_db.Kv.Value.{
  Value, int, text, boolean, float, blob, timestamp, Floats, ColumnType, int_type, string_type,
  bool_type, float_type, bytes_type, timestamp_type,
}
use go_db.Kv.Codec.{
  RowError, to_u64, of_u64, sized, encode_value, decode_value, bytes_at, sized_at, wrong_type,
}

-- An int64.
abbrev pub IsInt64 : ℤ → Type 0
IsInt64 (pos n) = n < 2 ^ 63
IsInt64 (negsuc n) = n < 2 ^ 63

-- A value within the range of its Go type, with less than 4 GiB of bytes.
abbrev pub InRange : Value → Type 0
InRange (int i) = IsInt64 i
InRange (text s) = length s < 2 ^ 32
InRange (float f) = f < 2 ^ 64
InRange (blob b) = length b < 2 ^ 32
InRange (timestamp t) = IsInt64 t
InRange _ = Unit {0}

-- What a column keeps of a value: an int in a float column becomes a float.
abbrev pub stored : Floats → ColumnType → Value → Value
stored floats float_type (int i) = float (floats.of_int i)
stored floats _ v = v

slice_append : (pre b post : Bytes) → slice (pre ++ (b ++ post)) (length pre) (length b) ≡ b
unfolding slice
slice_append pre b post = rw (drop_append pre (b ++ post)) (take_append b post)

slice_suffix :
    (pre b post : Bytes) (p : ℕ)
    → p ≡ length pre
    → (n : ℕ) → n ≡ length b
    → slice (pre ++ (b ++ post)) p n ≡ b
slice_suffix pre b post p e n f = rw (e, f) (slice_append pre b post)

of_u64-to_u64 : (i : ℤ) → IsInt64 i → of_u64 (to_u64 i) ≡ i
of_u64-to_u64 (pos n) h = ground arith
of_u64-to_u64 (negsuc n) h = ground arith

to_u64-lt : (i : ℤ) → to_u64 i < 256 ^ 8
to_u64-lt (pos n) = omega arith
to_u64-lt (negsuc n) = omega arith

bytes_at_append :
    (name pre b post : Bytes) (p n : ℕ)
    → p ≡ length pre
    → n ≡ length b
    → bytes_at name (pre ++ (b ++ post)) p n ≡ ok b
bytes_at_append name pre b post p n at size =
    rw
      (
        ltb-false (length (pre ++ (b ++ post))) (p + n)
            (omega (arith, length-append pre (b ++ post), length-append b post)),
        slice_suffix pre b post p at n size,
      )
      refl

-- Bytes behind their length are read back.
sized_at_lem :
    (name pre post b : Bytes)
    → length b < 2 ^ 32
    → sized_at name (pre ++ (sized b ++ post)) (length pre) ≡ ok b
sized_at_lem name pre post b small =
    rw
      (
        append_assoc (put_le 4 (length b)) b post,
        bytes_at_append name pre (put_le 4 (length b)) (b ++ post) (length pre) 4 refl
            (sym (length-put_le 4 (length b))),
        get_le-put_le 4 (length b) (omega arith),
        sym (append_assoc pre (put_le 4 (length b)) (b ++ post)),
      )
      (bytes_at_append name (pre ++ put_le 4 (length b)) b post (length pre + 4) (length b)
        (omega (arith, length-append pre (put_le 4 (length b)), length-put_le 4 (length b))) refl)

module _ (floats : Floats) (name pre post : Bytes) where
  -- A cell of `content` behind `pre`, or none where the column refuses the value.
  abbrev pub Cell : ColumnType → Value → Result RowError Bytes → Type 0
  Cell kind v r =
      (r ≡ err (wrong_type name))
      ⊎ ((b : Bytes) × (r ≡ ok b)
          × (decode_value kind name (pre ++ (b ++ post)) (length pre)
              ≡ ok (stored floats kind v, length pre + length b)))

  word :
      (n : ℕ)
      → n < 256 ^ 8
      → (bytes_at name (pre ++ (put_le 8 n ++ post)) (length pre) 8 ≡ ok (put_le 8 n))
        × (get_le (put_le 8 n) ≡ n)
  word n small = (
    bytes_at_append name pre (put_le 8 n) post (length pre) 8 refl (sym (length-put_le 8 n)),
    get_le-put_le 8 n small,
  )

  ends : (s : Bytes) → length pre + 4 + length s ≡ length pre + length (sized s)
  ends s = omega (arith, length-append (put_le 4 (length s)) s, length-put_le 4 (length s))

  inside : (b : Bytes) → length b ≡ 1 → leb (length (pre ++ (b ++ post))) (length pre) ≡ false
  inside b one =
      past (length pre) _ (omega (arith, length-append pre (b ++ post), length-append b post))
    where
      past : (a b : ℕ) → a < b → leb b a ≡ false
      past a b lt = ground arith

  -- A column either refuses a value by its type, or the bytes it encodes the value to are decoded, in
  -- front of and behind any others, to the value as the column keeps it, up to where they end.
  -- The value must be in the range of its Go type, with less than 4 GiB of bytes.
  pub decode_value-encode_value :
      (kind : ColumnType) (v : Value)
      → InRange v
      → ((i : ℤ) → floats.of_int i < 2 ^ 64)
      → Cell kind v (encode_value floats kind name v)
  unfolding encode_value decode_value get_le
  decode_value-encode_value int_type (int i) range bits =
      let (at, back) = word (to_u64 i) (to_u64-lt i) in
      inr (
        put_le 8 (to_u64 i),
        refl,
        rw (at, back, of_u64-to_u64 i range, length-put_le 8 (to_u64 i)) refl,
      )
  decode_value-encode_value string_type (text s) range bits =
      inr
        (sized s, refl, rw (sized_at_lem name pre post s range) (ap (λ k. ok (text s, k)) (ends s)))
  decode_value-encode_value bool_type (boolean true) range bits = inr (
    1 ∷ [],
    refl,
    rw (slice_suffix pre (1 ∷ []) post (length pre) refl 1 refl, inside (1 ∷ []) refl) refl,
  )
  decode_value-encode_value bool_type (boolean false) range bits = inr (
    0 ∷ [],
    refl,
    rw (slice_suffix pre (0 ∷ []) post (length pre) refl 1 refl, inside (0 ∷ []) refl) refl,
  )
  decode_value-encode_value float_type (float f) range bits =
      let (at, back) = word f range in inr (put_le 8 f, refl, rw (at, back, length-put_le 8 f) refl)
  decode_value-encode_value float_type (int i) range bits =
      let (at, back) = word (floats.of_int i) (bits i) in
      inr (put_le 8 (floats.of_int i), refl, rw (at, back, length-put_le 8 (floats.of_int i)) refl)
  decode_value-encode_value bytes_type (blob b) range bits =
      inr
        (sized b, refl, rw (sized_at_lem name pre post b range) (ap (λ k. ok (blob b, k)) (ends b)))
  decode_value-encode_value timestamp_type (timestamp i) range bits =
      let (at, back) = word (to_u64 i) (to_u64-lt i) in
      inr (
        put_le 8 (to_u64 i),
        refl,
        rw (at, back, of_u64-to_u64 i range, length-put_le 8 (to_u64 i)) refl,
      )
  decode_value-encode_value kind v range bits = inl refl
