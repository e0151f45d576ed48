-- ===== src/Storage/Pager.antt =====
-- storage/pager.go: pages by id over the buffer pool. The pager hands the pool its callbacks
-- `readPageDisk` and `writePageDisk`; the operations here take any pair of callbacks.
pub mod File
pub mod Laws
use go_db.Base.{
  ℕ, ◌+◌, ◌-◌, ◌*◌, ◌/◌, ◌%◌, ◌^◌, Bool, true, false, List, [], ◌∷◌, ◌++◌, Bytes, length, replicate,
  drop, copy_at, slice, ltb, leb, ◌==◌, if◌then◌else◌,
}
use go_db.Base.Result.{Result, ok, err, panic, stuck}
use go_db.Base.Exec.{Exec, pure, continue, ◌>>=◌, ◌>>◌}
use go_db.Storage.Page.{Page, page_size, new_page}
use go_db.Storage.Pool.{
  BufferPool, PoolError, Cached, Io, disk_error, no_such_page, new_pool, get, put, flush,
}

-- `os.File.ReadAt` fails where the file ends before the buffer is full.
unfoldable pub read_page_disk : ℕ → Io Bytes Page
read_page_disk id file =
    let offset = id * page_size in
    if leb (offset + page_size) (length file)
    then (ok (record { id = id; bytes = slice file offset page_size }), file)
    else (err (disk_error id), file)

-- `os.File.WriteAt`: a gap behind the end is filled with zeros.
unfoldable pub write_page_disk : Page → Io Bytes (Unit {0})
write_page_disk page file =
    let offset = page.id * page_size in
    let grown = file ++ replicate (offset + page_size - length file) 0 in
    (ok tt, copy_at grown offset page.bytes)

pub record Pager (W : Type 0) : Type 0 where
  pub num_pages : ℕ
  pub cache : Cached W

pub data OpenError : Type 0 where
  -- "corrupt db file: size is not a multiple of page size"
  corrupt_file : ℕ → OpenError

-- `Open` on an opened file of `size` bytes
unfoldable pub open_pager : {W : Type 0} → ℕ → W → Result OpenError (Pager W)
open_pager size w =
    if size % page_size == 0
    then ok (record {
      num_pages = size / page_size % 2 ^ 32;
      cache = record { pool = new_pool 64; world = w };
    })
    else err (corrupt_file size)

module _ {W : Type 0} where
  -- an operation of the pool, inside the pager
  unfoldable pub on_cache : {A : Type 0} → Exec PoolError (Cached W) A → Exec PoolError (Pager W) A
  on_cache m p = let (r, c) = m p.cache in (r, record p { cache = c })

module _ {W : Type 0} (read_disk : ℕ → Io W Page) (write_disk : Page → Io W (Unit {0})) where
  -- `p.numPages++`, then `p.numPages--` on a failed `Put`
  unfoldable pub allocated :
      ℕ → Result PoolError (Unit {0}) → Cached W → Result PoolError Page × Pager W
  allocated id (ok _) c = (ok (new_page id), record { num_pages = (id + 1) % 2 ^ 32; cache = c })
  allocated id (err e) c = (err e, record { num_pages = id; cache = c })
  allocated id panic c = (panic, record { num_pages = (id + 1) % 2 ^ 32; cache = c })
  allocated id stuck c = (stuck, record { num_pages = (id + 1) % 2 ^ 32; cache = c })

  unfoldable pub allocate_page : Exec PoolError (Pager W) Page
  unfolding allocated
  allocate_page p =
      let (r, c) = put read_disk write_disk (new_page p.num_pages) true p.cache in
      allocated p.num_pages r c

  unfoldable pub read_page : ℕ → Exec PoolError (Pager W) Page
  unfolding on_cache
  read_page id p =
      if leb p.num_pages id
      then (err (no_such_page id), p)
      else on_cache (get read_disk write_disk id) p

  unfoldable pub write_page : Page → Exec PoolError (Pager W) (Unit {0})
  unfolding on_cache
  write_page page p =
      if leb p.num_pages page.id
      then (err (no_such_page page.id), p)
      else on_cache (put read_disk write_disk page true) p

  unfoldable pub flush_pager : List ℕ → Exec PoolError (Pager W) (Unit {0})
  unfolding on_cache
  flush_pager order = on_cache (flush read_disk write_disk order)
