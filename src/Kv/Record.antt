-- ===== src/Kv/Record.antt =====
-- `record`, `readRecord`, `writeRecord` of kv/store.go, and the loop over the records of a page.
pub mod Layout
pub mod Append
pub mod Pages
pub mod Links
use go_db.Base.{
  ℕ, zero, suc, ◌+◌, ◌%◌, ◌^◌, true, false, [], ◌∷◌, Bytes, length, copy_at, slice, put_le, get_le,
  ltb, if◌then◌else◌,
}
use go_db.Base.Result.{Result, ok, err, stuck, ◌>>=◌}
use go_db.Storage.Page.{Page, page_size, put_u16, get_u16, free_offset, set_free_offset, remaining}

abbrev pub flag_live : ℕ
flag_live = 0

abbrev pub flag_tombstone : ℕ
flag_tombstone = 1

abbrev pub record_header_size : ℕ
record_header_size = 5

pub record Record : Type 0 where
  pub flag : ℕ
  pub key : Bytes
  pub value : Bytes
  -- header included
  pub size : ℕ

pub data RecordError : Type 0 where
  header_out_of_bounds : ℕ → RecordError
  body_out_of_bounds : ℕ → RecordError
  page_full : RecordError

-- The record whose lengths are `key_len` and `val_len`.
unfoldable pub record_of : Bytes → ℕ → ℕ → ℕ → Record
record_of bytes offset key_len val_len =
    let start = offset + record_header_size in
    record {
      flag = get_le (slice bytes offset 1);
      key = slice bytes start key_len;
      value = slice bytes (start + key_len) val_len;
      size = record_header_size + key_len + val_len;
    }

unfoldable pub read_record : Bytes → ℕ → Result RecordError Record
unfolding record_of get_u16
read_record bytes offset =
    if ltb (length bytes) (offset + record_header_size)
    then err (header_out_of_bounds offset)
    else (let key_len = get_u16 bytes (offset + 1) in
        let val_len = get_u16 bytes (offset + 3) in
        if ltb (length bytes) (offset + record_header_size + key_len + val_len)
        then err (body_out_of_bounds offset)
        else ok (record_of bytes offset key_len val_len))

-- The bytes of a page with a record written at `offset`. The lengths are cut to 16 bits.
unfoldable pub write_at : Bytes → ℕ → Bytes → Bytes → ℕ → Bytes
unfolding put_u16
write_at bytes offset key value flag =
    let flagged = copy_at bytes offset (flag ∷ []) in
    let keyed = put_u16 flagged (offset + 1) (length key % 2 ^ 16) in
    let sized = put_u16 keyed (offset + 3) (length value % 2 ^ 16) in
    let start = offset + record_header_size in
    copy_at (copy_at sized start key) (start + length key) value

unfoldable pub write_record : Page → Bytes → Bytes → ℕ → Result RecordError Page
write_record page key value flag =
    let needed = record_header_size + length key + length value in
    if ltb (remaining page) needed
    then err page_full
    else (let offset = free_offset page in
        ok (
          set_free_offset (record page { bytes = write_at page.bytes offset key value flag })
            ((offset + needed % 2 ^ 16) % 2 ^ 16)))

-- `for off := uint16(HeaderSize); off < free; { r, err := readRecord(data, off); ...;
-- off += uint16(r.size) }`, with the body `f` of the loop at hand. The loops of `validatePages`,
-- `rebuildIndex` and `rebuildVersions` have this form.
unfoldable pub for_records :
    {S : Type 0} → ℕ → (Record → S → S) → Bytes → ℕ → ℕ → S → Result RecordError S
for_records zero f bytes off free s = stuck
for_records (suc fuel) f bytes off free s = elim (ltb off free) [
  | false ↦ ok s
  | true ↦ read_record bytes off >>= λ r.
      for_records fuel f bytes ((off + r.size % 2 ^ 16) % 2 ^ 16) free (f r s)
]
