-- ===== src/Storage/Page.antt =====
-- storage/page.go: a page is an id and 4096 bytes, the first 16 of them a header.
pub mod Header
use go_db.Base.{ℕ, ◌+◌, ◌-◌, ◌^◌, ◌≡◌, Bytes, copy_at, slice, put_le, get_le, length, replicate}

abbrev pub page_size : ℕ
page_size = 4096

abbrev pub header_size : ℕ
header_size = 16

-- `^uint32(0)`
abbrev pub no_page : ℕ
no_page = 2 ^ 32 - 1

pub record Page : Type 0 where
  pub id : ℕ
  pub bytes : Bytes

-- `binary.LittleEndian.PutUint16`, `PutUint32` into `Data[off:]`
unfoldable pub put_u16 : Bytes → ℕ → ℕ → Bytes
put_u16 b off v = copy_at b off (put_le 2 v)

unfoldable pub put_u32 : Bytes → ℕ → ℕ → Bytes
put_u32 b off v = copy_at b off (put_le 4 v)

unfoldable pub get_u16 : Bytes → ℕ → ℕ
get_u16 b off = get_le (slice b off 2)

unfoldable pub get_u32 : Bytes → ℕ → ℕ
get_u32 b off = get_le (slice b off 4)

unfoldable pub new_page : ℕ → Page
unfolding put_u16 put_u32
new_page id = record {
  id = id;
  bytes = put_u32 (put_u16 (put_u32 (replicate page_size 0) 0 id) 4 header_size) 6 no_page;
}

unfoldable pub free_offset : Page → ℕ
unfolding get_u16
free_offset p = get_u16 p.bytes 4

unfoldable pub set_free_offset : Page → ℕ → Page
unfolding put_u16
set_free_offset p off = record p { bytes = put_u16 p.bytes 4 off }

unfoldable pub next_page_id : Page → ℕ
unfolding get_u32
next_page_id p = get_u32 p.bytes 6

unfoldable pub set_next_page_id : Page → ℕ → Page
unfolding put_u32
set_next_page_id p id = record p { bytes = put_u32 p.bytes 6 id }

-- `PageSize - int(p.FreeOffset())`. The source's difference is negative where the offset is past
-- the page; its one use compares it with a positive length, and so agrees with 0 there.
unfoldable pub remaining : Page → ℕ
unfolding free_offset
remaining p = page_size - free_offset p

-- The id that `validatePages` reads from the header.
unfoldable pub header_id : Page → ℕ
unfolding get_u32
header_id p = get_u32 p.bytes 0

abbrev pub IsPage : Page → Type 0
IsPage p = length p.bytes ≡ page_size
