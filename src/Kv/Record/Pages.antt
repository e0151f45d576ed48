-- ===== src/Kv/Record/Pages.antt =====
-- A page as a list of records: `writeRecord` appends one, and the loops over a page see them all.
use mathlib.Core.List.{foldl}
use mathlib.Core.Path.{subst}
use go_db.Base.{
  ℕ, zero, suc, ◌+◌, ◌-◌, ◌%◌, ◌^◌, ◌≤◌, ◌<◌, ◌≡◌, refl, sym, ap, ◌∙◌, ◌⊎◌, inl, inr, List, [], ◌∷◌,
  ◌++◌, arith, Bytes, length, ltb, length-copy_at, length-put_le, put_le, Bool-cases,
  le_of_ltb-false, ltb-false, lt→ltb, ltb→lt,
}
use go_db.Base.Result.{ok, err}
use go_db.Storage.Page.{
  Page, IsPage, page_size, header_size, free_offset, set_free_offset, new_page,
}
use go_db.Storage.Page.Header.{
  free_offset-set_free_offset, new_page_header, new_page-IsPage, remaining_lem,
}
use go_db.Kv.Record.{Record, read_record, write_at, write_record, for_records, page_full}
use go_db.Kv.Record.Layout.{size_of, read_record_in_front}
use go_db.Kv.Record.Append.{
  written, length-write_at, read_record-write_at, read_record-write_at_before,
}

-- From `off` up to `free` the bytes are exactly these records, one behind the other.
pub data Holds (b : Bytes) (free : ℕ) : ℕ → List Record → Type 0 where
  end : {off : ℕ} → off ≡ free → Holds b free off []
  more :
      {off : ℕ} {r : Record} {rs : List Record}
      → read_record b off ≡ ok r
      → Holds b free (off + r.size) rs
      → Holds b free off (r ∷ rs)

-- The page holds these records and nothing else.
pub record HoldsRecords (p : Page) (rs : List Record) : Type 0 where
  pub whole : IsPage p
  pub fits : free_offset p ≤ page_size
  pub holds : Holds p.bytes (free_offset p) header_size rs

pub Holds-le : {b : Bytes} {free off : ℕ} {rs : List Record} → Holds b free off rs → off ≤ free
Holds-le (end e) = omega arith
Holds-le (more r h) = omega (arith, Holds-le h)

-- The loop over the records of a page runs its body on each of them in order, and ends.
for_records-foldl :
    {S : Type 0} (f : Record → S → S) {b : Bytes} {free off : ℕ} {rs : List Record} (fuel : ℕ)
    (s : S)
    → Holds b free off rs
    → free ≤ page_size
    → free < fuel + off
    → for_records fuel f b off free s ≡ ok (foldl (λ t r. f r t) s rs)
unfolding for_records
for_records-foldl f {off = off} zero s h small fuel = absurd (omega (arith, Holds-le h))
for_records-foldl f {free = free} {off = off} (suc n) s (end e) small fuel =
    rw (ltb-false off free (omega arith), for_records)
for_records-foldl f {b} {free} {off} (suc n) s (more {r = r} h t) small fuel =
    let step : (off + r.size % 2 ^ 16) % 2 ^ 16 ≡ off + r.size = omega (arith, Holds-le t) in
    rw (lt→ltb off free (omega (arith, size_of b off h, Holds-le t)), for_records, h, step)
      (for_records-foldl f {off = off + r.size} n (f r s) t small (omega (arith, size_of b off h)))

-- The loop of the source over a page of records, with fuel for every page, runs its body on each of
-- the records in their order, and ends.
pub for_records-HoldsRecords :
    {S : Type 0} (f : Record → S → S) {p : Page} {rs : List Record} (s : S)
    → HoldsRecords p rs
    → for_records (suc page_size) f p.bytes header_size (free_offset p) s
      ≡ ok (foldl (λ t r. f r t) s rs)
for_records-HoldsRecords f s h =
    for_records-foldl f (suc page_size) s h.holds h.fits (omega (arith, h.fits))

-- Every record of `b` that ends at `free` or before is in `c` too.
abbrev Keeps : Bytes → Bytes → ℕ → Type 0
Keeps b c free =
    (a : ℕ) (r : Record)
    → a + r.size ≤ free
    → header_size ≤ a
    → read_record b a ≡ ok r
    → read_record c a ≡ ok r

-- Records up to `free`, and one more behind them.
Holds-append :
    {b c : Bytes} {free : ℕ} {off : ℕ} {rs : List Record} (w : Record)
    → Keeps b c free
    → read_record c free ≡ ok w
    → header_size ≤ off
    → Holds b free off rs
    → Holds c (free + w.size) off (rs ++ w ∷ [])
Holds-append {c = c} w keeps new low (end e) =
    more (ap (read_record c) e ∙ new) (end (ap (λ k. k + w.size) e))
Holds-append {off = off} w keeps new low (more {r = r} h t) =
    more (keeps off r (Holds-le t) low h)
      (Holds-append {off = off + r.size} w keeps new (omega (arith, low)) t)

module _ (p : Page) (key value : Bytes) (flag : ℕ) {rs : List Record} (h : HoldsRecords p rs)
    (room : free_offset p + 5 + length key + length value ≤ page_size) where
  abbrev off : ℕ
  off = free_offset p

  abbrev body : Bytes
  body = write_at p.bytes off key value flag

  abbrev after : Page
  after = set_free_offset (record p { bytes = body }) (off + 5 + length key + length value)

  fits : off + 5 + length key + length value ≤ length p.bytes
  fits = rw h.whole room

  body_whole : length body ≡ page_size
  body_whole = length-write_at p.bytes off key value flag fits (rw h.whole (omega arith)) ∙ h.whole

  free-after : free_offset after ≡ off + 5 + length key + length value
  free-after = free_offset-set_free_offset (record p { bytes = body }) body_whole _ (omega arith)

  after-IsPage : IsPage after
  unfolding set_free_offset
  after-IsPage = length-copy_at body 4 (put_le 2 (off + 5 + length key + length value)) ∙ body_whole

  header_kept :
      (a : ℕ) (r : Record)
      → header_size ≤ a
      → read_record body a ≡ ok r
      → read_record after.bytes a ≡ ok r
  unfolding set_free_offset
  header_kept a r low =
      read_record_in_front body 4 (put_le 2 (off + 5 + length key + length value)) a
        (rw length-put_le (omega arith))

  keeps : Keeps p.bytes after.bytes off
  keeps a r behind low q = header_kept a r low (
      read_record-write_at_before p.bytes off key value flag fits (rw h.whole (omega arith)) a
        behind q)

  new : read_record after.bytes off ≡ ok (written key value flag)
  new =
      header_kept off (written key value flag) (Holds-le h.holds)
        (read_record-write_at p.bytes off key value flag fits (rw h.whole (omega arith)))

  size_sum : off + 5 + length key + length value ≡ off + (5 + length key + length value)
  size_sum = omega arith

  after-HoldsRecords : HoldsRecords after (rs ++ written key value flag ∷ [])
  after-HoldsRecords = record {
    whole = after-IsPage;
    fits = rw free-after room;
    holds =
        subst (λ k. Holds after.bytes k header_size (rs ++ written key value flag ∷ []))
          (sym (free-after ∙ size_sum))
          (Holds-append (written key value flag) keeps new (omega arith) h.holds);
  }

  write_record_ok : write_record p key value flag ≡ ok after
  unfolding write_record
  write_record_ok =
      rw
        (
          remaining_lem p,
          ltb-false (page_size - off) (5 + length key + length value) (omega arith),
          small,
        )
        refl
    where
      small :
          (off + (5 + length key + length value) % 2 ^ 16) % 2 ^ 16
          ≡ off + 5 + length key + length value
      small = omega arith

refused :
    (p : Page) (key value : Bytes) (flag : ℕ)
    → free_offset p ≤ page_size
    → page_size < free_offset p + 5 + length key + length value
    → write_record p key value flag ≡ err page_full
unfolding write_record
refused p key value flag fits full = rw (
  remaining_lem p,
  lt→ltb (page_size - free_offset p) (5 + length key + length value) (omega arith),
)

-- `writeRecord` on a page of records fails exactly where the record does not fit into the rest of
-- the page; otherwise the page then holds the same records and the new one behind them.
pub write_record-HoldsRecords :
    (p : Page) (key value : Bytes) (flag : ℕ) {rs : List Record}
    → HoldsRecords p rs
    → ((page_size < free_offset p + 5 + length key + length value)
        × (write_record p key value flag ≡ err page_full))
      ⊎ ((q : Page) × (write_record p key value flag ≡ ok q)
          × HoldsRecords q (rs ++ written key value flag ∷ []))
write_record-HoldsRecords p key value flag h =
    elim (Bool-cases (ltb page_size (free_offset p + 5 + length key + length value))) [
      | inl full ↦ inl (ltb→lt _ _ full, refused p key value flag h.fits (ltb→lt _ _ full))
      | inr free ↦ inr (
        after p key value flag h (le_of_ltb-false _ _ free),
        write_record_ok p key value flag h (le_of_ltb-false _ _ free),
        after-HoldsRecords p key value flag h (le_of_ltb-false _ _ free),
      )
    ]

-- A fresh page holds no record.
pub new_page-HoldsRecords : (id : ℕ) → id < 2 ^ 32 → HoldsRecords (new_page id) []
new_page-HoldsRecords id small =
    let (own, free, next) = new_page_header id small in
    record { whole = new_page-IsPage id; fits = rw free (omega arith); holds = end (sym free) }
