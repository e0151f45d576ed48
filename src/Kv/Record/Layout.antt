-- ===== src/Kv/Record/Layout.antt =====
-- What `readRecord` sees of a page, and which writes it does not see.
use mathlib.Core.Path.{ap₂}
use go_db.Base.{
  ℕ, ◌+◌, ◌≤◌, ◌≡◌, sym, ap, ◌∙◌, ◌⊎◌, inl, inr, arith, Bytes, length, copy_at, length-copy_at,
  slice-copy_at_before, ltb-false,
}
use go_db.Base.Result.{ok}
use go_db.Storage.Page.{get_u16}
use go_db.Storage.Page.Header.{get_le-copy_at_ne}
use go_db.Kv.Record.{Record, record_of, read_record}

abbrev pub key_len : Bytes → ℕ → ℕ
key_len b off = get_u16 b (off + 1)

abbrev pub val_len : Bytes → ℕ → ℕ
val_len b off = get_u16 b (off + 3)

abbrev pub record_at : Bytes → ℕ → Record
record_at b off = record_of b off (key_len b off) (val_len b off)

pub read_record_in :
    (b : Bytes) (off : ℕ)
    → off + 5 + key_len b off + val_len b off ≤ length b
    → read_record b off ≡ ok (record_at b off)
unfolding read_record
read_record_in b off h =
    rw (ltb-false (length b) (off + 5) (omega arith))
      (rw (ltb-false (length b) (off + 5 + key_len b off + val_len b off) h))

pub read_record_out :
    (b : Bytes) (off : ℕ) {r : Record}
    → read_record b off ≡ ok r
    → (off + 5 + key_len b off + val_len b off ≤ length b) × (r ≡ record_at b off)
unfolding read_record
read_record_out b off h = ground arith

-- A write that ends before the record, or begins behind it.
module _ (b : Bytes) (a : ℕ) (src : Bytes) (off : ℕ)
    (apart : (a + length src ≤ off) ⊎ (off + 5 + key_len b off + val_len b off ≤ a)) where
  abbrev c : Bytes
  c = copy_at b a src

  u16_kept : (i : ℕ) → i + 2 ≤ 5 → get_u16 c (off + i) ≡ get_u16 b (off + i)
  unfolding get_u16
  u16_kept i h = get_le-copy_at_ne b a src (off + i) 2 (omega arith)

  record_of_kept : record_of c off (key_len b off) (val_len b off) ≡ record_at b off
  unfolding record_of
  record_of_kept = cc (
    get_le-copy_at_ne b a src off 1 (omega arith),
    slice-copy_at_before b a src (off + 5) (key_len b off) (omega arith),
    slice-copy_at_before b a src (off + 5 + key_len b off) (val_len b off) (omega arith),
  )

  pub record_at-copy_at : record_at c off ≡ record_at b off
  record_at-copy_at =
      ap₂ (record_of c off) (u16_kept 1 (omega arith)) (u16_kept 3 (omega arith)) ∙ record_of_kept

  pub read_record-copy_at : {r : Record} → read_record b off ≡ ok r → read_record c off ≡ ok r
  read_record-copy_at h =
      let (fits, is) = read_record_out b off h in
      read_record_in c off
        (rw (u16_kept 1 (omega arith), u16_kept 3 (omega arith), length-copy_at b a src) fits)
      ∙ ap ok (record_at-copy_at ∙ sym is)

pub size_of :
    (b : Bytes) (off : ℕ) {r : Record}
    → read_record b off ≡ ok r
    → r.size ≡ 5 + key_len b off + val_len b off
unfolding record_of
size_of b off h = ap (λ (r : Record). r.size) (read_record_out b off h).1

-- A record is read as before where something was written behind its end, or before its begin.
pub read_record_behind :
    (b : Bytes) (a : ℕ) (src : Bytes) (off : ℕ) {r : Record}
    → off + r.size ≤ a
    → read_record b off ≡ ok r
    → read_record (copy_at b a src) off ≡ ok r
read_record_behind b a src off behind h =
    read_record-copy_at b a src off (inr (omega (arith, size_of b off h))) h

pub read_record_in_front :
    (b : Bytes) (a : ℕ) (src : Bytes) (off : ℕ) {r : Record}
    → a + length src ≤ off
    → read_record b off ≡ ok r
    → read_record (copy_at b a src) off ≡ ok r
read_record_in_front b a src off front h = read_record-copy_at b a src off (inl front) h
