-- ===== src/Storage/Page/Header.antt =====
-- The header fields of a page are independent, and each reads back what was written.
use go_db.Base.{
  ℕ, ◌+◌, ◌-◌, ◌^◌, ◌≤◌, ◌<◌, ◌≡◌, refl, ◌∙◌, ap, ◌⊎◌, inl, inr, arith, Bytes, copy_at, slice,
  put_le, get_le, length, length-copy_at, length-put_le, length-replicate, replicate, sym,
  slice-copy_at, slice-copy_at_before, get_le-put_le,
}
use go_db.Storage.Page.{
  Page, IsPage, page_size, header_size, no_page, put_u16, put_u32, get_u16, get_u32, new_page,
  free_offset, set_free_offset, next_page_id, set_next_page_id, header_id, remaining,
}

-- A number written in `w` bytes at `off` reads back.
pub get_le-copy_at :
    (b : Bytes) (off w v : ℕ)
    → off + w ≤ length b
    → v < 256 ^ w
    → get_le (slice (copy_at b off (put_le w v)) off w) ≡ v
get_le-copy_at b off w v fits small =
    let at : slice (copy_at b off (put_le w v)) off (length (put_le w v)) ≡ put_le w v =
      slice-copy_at b off (put_le w v) (rw length-put_le fits) in
    ap get_le (rw length-put_le at at) ∙ get_le-put_le w v small

-- A number elsewhere is as it was.
pub get_le-copy_at_ne :
    (b : Bytes) (off : ℕ) (src : Bytes) (a n : ℕ)
    → (a + n ≤ off) ⊎ (off + length src ≤ a)
    → get_le (slice (copy_at b off src) a n) ≡ get_le (slice b a n)
get_le-copy_at_ne b off src a n apart = ap get_le (slice-copy_at_before b off src a n apart)

module _ (p : Page) (whole : IsPage p) where
  pub free_offset-set_free_offset :
      (off : ℕ) → off < 2 ^ 16 → free_offset (set_free_offset p off) ≡ off
  unfolding free_offset set_free_offset
  free_offset-set_free_offset off small = get_le-copy_at p.bytes 4 2 off (omega arith) (omega arith)

  pub next_page_id-set_next_page_id :
      (id : ℕ) → id < 2 ^ 32 → next_page_id (set_next_page_id p id) ≡ id
  unfolding next_page_id set_next_page_id
  next_page_id-set_next_page_id id small = get_le-copy_at p.bytes 6 4 id (omega arith) (omega arith)

pub next_page_id-set_free_offset :
    (p : Page) (off : ℕ) → next_page_id (set_free_offset p off) ≡ next_page_id p
unfolding next_page_id set_free_offset
next_page_id-set_free_offset p off =
    get_le-copy_at_ne p.bytes 4 (put_le 2 off) 6 4 (inr (rw length-put_le (omega arith)))

pub free_offset-set_next_page_id :
    (p : Page) (id : ℕ) → free_offset (set_next_page_id p id) ≡ free_offset p
unfolding free_offset set_next_page_id
free_offset-set_next_page_id p id =
    get_le-copy_at_ne p.bytes 6 (put_le 4 id) 4 2 (inl (omega arith))

pub new_page-IsPage : (id : ℕ) → IsPage (new_page id)
unfolding new_page
new_page-IsPage id = simp (length-copy_at, length-replicate)

-- The three header fields, written one after the other into whole page bytes.
header_fields :
    (b : Bytes) (id : ℕ)
    → length b ≡ page_size
    → id < 2 ^ 32
    → (h : Bytes) × (h ≡ put_u32 (put_u16 (put_u32 b 0 id) 4 header_size) 6 no_page)
      × (get_u32 h 0 ≡ id)
      × (get_u16 h 4 ≡ header_size)
      × (get_u32 h 6 ≡ no_page)
unfolding put_u16 put_u32 get_u16 get_u32
header_fields b id whole small =
    let b1 : Bytes = copy_at b 0 (put_le 4 id) in
    let b2 : Bytes = copy_at b1 4 (put_le 2 16) in
    let whole1 : length b1 ≡ page_size = length-copy_at b 0 (put_le 4 id) ∙ whole in
    let whole2 : length b2 ≡ page_size = length-copy_at b1 4 (put_le 2 16) ∙ whole1 in
    (
      copy_at b2 6 (put_le 4 no_page),
      refl,
      get_le-copy_at_ne b2 6 (put_le 4 no_page) 0 4 (inl (omega arith))
          ∙ get_le-copy_at_ne b1 4 (put_le 2 16) 0 4 (inl (omega arith))
          ∙ get_le-copy_at b 0 4 id (omega arith) (omega arith),
      get_le-copy_at_ne b2 6 (put_le 4 no_page) 4 2 (inl (omega arith))
          ∙ get_le-copy_at b1 4 2 16 (omega arith) (omega arith),
      get_le-copy_at b2 6 4 no_page (omega arith) (omega arith),
    )

-- A fresh page holds its own id in its header, has its free space right behind the header, and is
-- the last of its chain.
-- The id must be below 2^32.
pub new_page_header :
    (id : ℕ)
    → id < 2 ^ 32
    → (header_id (new_page id) ≡ id)
      × (free_offset (new_page id) ≡ header_size)
      × (next_page_id (new_page id) ≡ no_page)
unfolding new_page free_offset next_page_id header_id
new_page_header id small =
    let (h, e, a, b, c) =
      header_fields (replicate page_size 0) id (length-replicate page_size 0) small in
    (
      ap (λ x. get_u32 x 0) (sym e) ∙ a,
      ap (λ x. get_u16 x 4) (sym e) ∙ b,
      ap (λ x. get_u32 x 6) (sym e) ∙ c,
    )

pub remaining_lem : (p : Page) → remaining p ≡ page_size - free_offset p
unfolding remaining
remaining_lem p = refl
