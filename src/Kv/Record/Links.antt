-- ===== src/Kv/Record/Links.antt =====
-- The link of a page to the next one, beside its records.
use go_db.Base.{
  ℕ, ◌+◌, ◌%◌, ◌^◌, ◌≤◌, ◌≡◌, sym, ap, ◌∙◌, inl, inr, List, [], ◌∷◌, arith, Bytes, length, ltb,
  length-copy_at, length-put_le, put_le, Bool-cases,
}
use mathlib.Core.Path.{subst}
use go_db.Base.Result.{ok}
use go_db.Storage.Page.{
  Page, header_size, next_page_id, set_next_page_id, free_offset, set_free_offset, remaining,
  put_u16, get_u32,
}
use go_db.Storage.Page.Header.{
  get_le-copy_at_ne, next_page_id-set_free_offset, free_offset-set_next_page_id,
}
use go_db.Kv.Record.{Record, read_record, write_at, write_record}
use go_db.Kv.Record.Layout.{read_record_in_front}
use go_db.Kv.Record.Pages.{Holds, end, more, Holds-le, HoldsRecords}

-- Records that are read alike are held alike.
Holds-reads :
    {b c : Bytes} {free : ℕ} {off : ℕ} {rs : List Record}
    → ((a : ℕ) (r : Record) → header_size ≤ a → read_record b a ≡ ok r → read_record c a ≡ ok r)
    → header_size ≤ off
    → Holds b free off rs
    → Holds c free off rs
Holds-reads alike low (end e) = end e
Holds-reads {off = off} alike low (more {r = r} h t) =
    more (alike off r low h) (Holds-reads {off = off + r.size} alike (omega (arith, low)) t)

-- A page keeps its records when its link is set.
pub set_next_page_id-HoldsRecords :
    (p : Page) (id : ℕ) {rs : List Record}
    → HoldsRecords p rs
    → HoldsRecords (set_next_page_id p id) rs
unfolding set_next_page_id
set_next_page_id-HoldsRecords p id {rs} h = record {
  whole = length-copy_at p.bytes 6 (put_le 4 id) ∙ h.whole;
  fits = rw (free_offset-set_next_page_id p id) h.fits;
  holds =
      subst (λ k. Holds (set_next_page_id p id).bytes k header_size rs)
        (sym (free_offset-set_next_page_id p id))
        (Holds-reads (λ a r low q. read_record_in_front p.bytes 6 (put_le 4 id) a (front a low) q)
          (omega arith) h.holds);
}
  where
    front : (a : ℕ) → header_size ≤ a → 6 + length (put_le 4 id) ≤ a
    front a low = rw length-put_le (omega arith)

-- A write behind the header leaves the link alone.
link-write_at :
    (b key value : Bytes) (off flag : ℕ)
    → 16 ≤ off
    → get_u32 (write_at b off key value flag) 6 ≡ get_u32 b 6
unfolding get_u32 write_at put_u16
link-write_at b key value off flag low =
    get_le-copy_at_ne _ (off + 5 + length key) value 6 4 (inl (omega arith))
    ∙ get_le-copy_at_ne _ (off + 5) key 6 4 (inl (omega arith))
    ∙ get_le-copy_at_ne _ (off + 3) (put_le 2 (length value % 2 ^ 16)) 6 4 (inl (omega arith))
    ∙ get_le-copy_at_ne _ (off + 1) (put_le 2 (length key % 2 ^ 16)) 6 4 (inl (omega arith))
    ∙ get_le-copy_at_ne b off (flag ∷ []) 6 4 (inl (omega arith))

abbrev written_page : Page → Bytes → Bytes → ℕ → Page
written_page p key value flag =
    set_free_offset (record p { bytes = write_at p.bytes (free_offset p) key value flag })
      ((free_offset p + (5 + length key + length value) % 2 ^ 16) % 2 ^ 16)

is_written :
    (p q : Page) (key value : Bytes) (flag : ℕ)
    → write_record p key value flag ≡ ok q
    → q ≡ written_page p key value flag
unfolding write_record
is_written p q key value flag e =
    elim (Bool-cases (ltb (remaining p) (5 + length key + length value))) [
      | inl full ↦ cc (rw full at e)
      | inr free ↦ cc (rw free at e)
    ]

written_page-link :
    (p : Page) (key value : Bytes) (flag : ℕ)
    → 16 ≤ free_offset p
    → next_page_id (written_page p key value flag) ≡ next_page_id p
unfolding next_page_id
written_page-link p key value flag low =
    next_page_id-set_free_offset
      (record p { bytes = write_at p.bytes (free_offset p) key value flag }) _
    ∙ link-write_at p.bytes key value (free_offset p) flag low

-- A page that a record was appended to keeps its id and its link.
pub write_record_link :
    (p q : Page) (key value : Bytes) (flag : ℕ) {rs : List Record}
    → HoldsRecords p rs
    → write_record p key value flag ≡ ok q
    → (q.id ≡ p.id) × (next_page_id q ≡ next_page_id p)
unfolding set_free_offset
write_record_link p q key value flag h e =
    let is = is_written p q key value flag e in
    (
      ap (λ (x : Page). x.id) is,
      ap next_page_id is ∙ written_page-link p key value flag (Holds-le h.holds),
    )
