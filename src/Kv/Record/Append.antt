-- ===== src/Kv/Record/Append.antt =====
-- `writeRecord` at a place of a page: what it writes is read back, and the records before it are as
-- they were.
use go_db.Base.{
  ℕ, ◌+◌, ◌%◌, ◌^◌, ◌≤◌, ◌<◌, ◌≡◌, ap, ◌∙◌, inl, [], ◌∷◌, arith, Bytes, length, copy_at, slice,
  put_le, get_le, length-copy_at, slice-copy_at, slice-copy_at_before,
}
use go_db.Base.Result.{ok}
use go_db.Storage.Page.{get_u16}
use go_db.Storage.Page.Header.{get_le-copy_at, get_le-copy_at_ne}
use go_db.Kv.Record.{Record, record_of, read_record, write_at}
use go_db.Kv.Record.Layout.{record_at, key_len, val_len, read_record_in, read_record_behind}

-- The record that a write leaves.
abbrev pub written : Bytes → Bytes → ℕ → Record
written key value flag = record {
  flag = flag;
  key = key;
  value = value;
  size = 5 + length key + length value;
}

one_byte : {flag : ℕ} → get_le (flag ∷ []) ≡ flag
unfolding get_le
one_byte = omega arith

module _ (b : Bytes) (off : ℕ) (key value : Bytes) (flag : ℕ)
    (fits : off + 5 + length key + length value ≤ length b) (small : length b < 2 ^ 16) where
  abbrev b1 : Bytes
  b1 = copy_at b off (flag ∷ [])

  abbrev b2 : Bytes
  b2 = copy_at b1 (off + 1) (put_le 2 (length key % 2 ^ 16))

  abbrev b3 : Bytes
  b3 = copy_at b2 (off + 3) (put_le 2 (length value % 2 ^ 16))

  abbrev b4 : Bytes
  b4 = copy_at b3 (off + 5) key

  abbrev b5 : Bytes
  b5 = copy_at b4 (off + 5 + length key) value

  length1 : length b1 ≡ length b
  length1 = length-copy_at b off (flag ∷ [])

  length2 : length b2 ≡ length b
  length2 = length-copy_at b1 (off + 1) (put_le 2 (length key % 2 ^ 16)) ∙ length1

  length3 : length b3 ≡ length b
  length3 = length-copy_at b2 (off + 3) (put_le 2 (length value % 2 ^ 16)) ∙ length2

  length4 : length b4 ≡ length b
  length4 = length-copy_at b3 (off + 5) key ∙ length3

  pub length-write_at : length (write_at b off key value flag) ≡ length b
  unfolding write_at
  length-write_at = length-copy_at b4 (off + 5 + length key) value ∙ length4

  -- Key and value are copied behind the header.
  tail_kept : (a n : ℕ) → a + n ≤ off + 5 → slice b5 a n ≡ slice b3 a n
  tail_kept a n h =
      slice-copy_at_before b4 (off + 5 + length key) value a n (inl (omega arith))
      ∙ slice-copy_at_before b3 (off + 5) key a n (inl h)

  flag_read : get_le (slice b5 off 1) ≡ flag
  flag_read =
      ap get_le (
        tail_kept off 1 (omega arith)
        ∙ slice-copy_at_before b2 (off + 3) (put_le 2 (length value % 2 ^ 16)) off 1
            (inl (omega arith))
        ∙ slice-copy_at_before b1 (off + 1) (put_le 2 (length key % 2 ^ 16)) off 1
            (inl (omega arith))
        ∙ slice-copy_at b off (flag ∷ []) (omega arith))
      ∙ one_byte

  key_len_read : key_len b5 off ≡ length key
  unfolding get_u16
  key_len_read =
      ap get_le (tail_kept (off + 1) 2 (omega arith))
      ∙ get_le-copy_at_ne b2 (off + 3) (put_le 2 (length value % 2 ^ 16)) (off + 1) 2
          (inl (omega arith))
      ∙ get_le-copy_at b1 (off + 1) 2 (length key % 2 ^ 16) (omega (arith, length1)) (omega arith)
      ∙ omega arith

  val_len_read : val_len b5 off ≡ length value
  unfolding get_u16
  val_len_read =
      ap get_le (tail_kept (off + 3) 2 (omega arith))
      ∙ get_le-copy_at b2 (off + 3) 2 (length value % 2 ^ 16) (omega (arith, length2)) (omega arith)
      ∙ omega arith

  key_read : slice b5 (off + 5) (length key) ≡ key
  key_read =
      slice-copy_at_before b4 (off + 5 + length key) value (off + 5) (length key)
        (inl (omega arith))
      ∙ slice-copy_at b3 (off + 5) key (omega (arith, length3))

  value_read : slice b5 (off + 5 + length key) (length value) ≡ value
  value_read = slice-copy_at b4 (off + 5 + length key) value (omega (arith, length4))

  record_read : record_of b5 off (length key) (length value) ≡ written key value flag
  unfolding record_of
  record_read = cc (flag_read, key_read, value_read)

  record_at-write_at : record_at (write_at b off key value flag) off ≡ written key value flag
  unfolding write_at
  record_at-write_at = rw (key_len_read, val_len_read) record_read

  -- What was written at an offset is read there.
  pub read_record-write_at :
      read_record (write_at b off key value flag) off ≡ ok (written key value flag)
  unfolding write_at
  read_record-write_at =
      read_record_in b5 off (rw (key_len_read, val_len_read) (omega (arith, length-write_at)))
      ∙ ap ok record_at-write_at

  -- A record that ends before the offset is read as before.
  pub read_record-write_at_before :
      (a : ℕ) {r : Record}
      → a + r.size ≤ off
      → read_record b a ≡ ok r
      → read_record (write_at b off key value flag) a ≡ ok r
  unfolding write_at
  read_record-write_at_before a {r} before h =
      read_record_behind b4 (off + 5 + length key) value a (omega arith) (
        read_record_behind b3 (off + 5) key a (omega arith) (
          read_record_behind b2 (off + 3) (put_le 2 (length value % 2 ^ 16)) a (omega arith) (
            read_record_behind b1 (off + 1) (put_le 2 (length key % 2 ^ 16)) a (omega arith)
              (read_record_behind b off (flag ∷ []) a before h))))
