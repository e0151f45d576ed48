-- ===== src/Storage/Pool.antt =====
-- storage/buffer_pool.go: a bounded cache of pages with LRU eviction. The list `lru` has the most
-- recently used entry first; the source's map `items` holds exactly the elements of that list, each
-- under its page's id (both are written together in each operation), and so is the search of the
-- list by id. The disk callbacks are parameters that act on a world `W`.
pub mod Entries
pub mod View
pub mod Returns
pub mod Evict
pub mod Refines
pub mod Writes
use go_db.Base.{
  ℕ, ◌+◌, ◌%◌, ◌^◌, Bool, false, ◌||◌, Option, none, some, List, [], ◌∷◌, length, ltb, ◌==◌,
  if◌then◌else◌,
}
use go_db.Base.Result.{Result, ok, panic}
use go_db.Base.Exec.{Exec, pure, wrap, ◌>>=◌, ◌>>◌}
use go_db.Storage.Page.{Page}

pub data PoolError : Type 0 where
  -- an error of the disk callback, and the same behind "evicting page"
  disk_error : ℕ → PoolError
  evicting : ℕ → PoolError → PoolError
  -- "page %d does not exist"
  no_such_page : ℕ → PoolError

pub record PoolEntry : Type 0 where
  pub page : Page
  pub dirty : Bool

pub record BufferPool : Type 0 where
  pub capacity : ℕ
  pub lru : List PoolEntry
  pub hits : ℕ
  pub misses : ℕ

pub record BufferPoolStats : Type 0 where
  pub hits : ℕ
  pub misses : ℕ
  pub cached_pages : ℕ
  pub dirty_pages : ℕ

-- `hits++` on a uint64
abbrev pub incr_u64 : ℕ → ℕ
incr_u64 n = (n + 1) % 2 ^ 64

unfoldable pub new_pool : ℕ → BufferPool
new_pool capacity = record {
  capacity = if ltb capacity 1 then 1 else capacity;
  lru = [];
  hits = 0;
  misses = 0;
}

-- `b.items[id]`
unfoldable pub find_entry : ℕ → List PoolEntry → Option PoolEntry
find_entry id [] = none
find_entry id (e ∷ es) = if e.page.id == id then some e else find_entry id es

-- the list with the element of `id` taken out
unfoldable pub remove_entry : ℕ → List PoolEntry → List PoolEntry
remove_entry id [] = []
remove_entry id (e ∷ es) = if e.page.id == id then es else e ∷ remove_entry id es

-- `lru.MoveToFront(e)`
unfoldable pub move_to_front : PoolEntry → List PoolEntry → List PoolEntry
unfolding remove_entry
move_to_front e es = e ∷ remove_entry e.page.id es

-- `lru.Back()`
unfoldable pub back : List PoolEntry → Option PoolEntry
back [] = none
back (e ∷ []) = some e
back (e ∷ f ∷ es) = back (f ∷ es)

-- `lru.Remove(lru.Back())`
unfoldable pub drop_back : List PoolEntry → List PoolEntry
drop_back [] = []
drop_back (e ∷ []) = []
drop_back (e ∷ f ∷ es) = e ∷ drop_back (f ∷ es)

-- `pe.dirty = false` in the element of `id`
unfoldable pub mark_clean : ℕ → List PoolEntry → List PoolEntry
mark_clean id [] = []
mark_clean id (e ∷ es) =
    if e.page.id == id then record e { dirty = false } ∷ es else e ∷ mark_clean id es

unfoldable pub count_dirty : List PoolEntry → ℕ
count_dirty [] = 0
count_dirty (e ∷ es) = (if e.dirty then 1 else 0) + count_dirty es

unfoldable pub stats : BufferPool → BufferPoolStats
unfolding count_dirty
stats b = record {
  hits = b.hits;
  misses = b.misses;
  cached_pages = length b.lru;
  dirty_pages = count_dirty b.lru;
}

-- The pool and what its callbacks act on.
pub record Cached (W : Type 0) : Type 0 where
  pub pool : BufferPool
  pub world : W

-- A callback's effect.
abbrev pub Io : Type 0 → Type 0 → Type 0
Io = Exec PoolError

module _ {W : Type 0} where
  unfoldable pub on_world : {A : Type 0} → Io W A → Exec PoolError (Cached W) A
  on_world m s = let (r, w) = m s.world in (r, record s { world = w })

  unfoldable pub set_lru : List PoolEntry → Exec PoolError (Cached W) (Unit {0})
  set_lru es s = (ok tt, record s { pool = record s.pool { lru = es } })

  unfoldable pub count_hit : Exec PoolError (Cached W) (Unit {0})
  count_hit s = (ok tt, record s { pool = record s.pool { hits = incr_u64 s.pool.hits } })

  unfoldable pub count_miss : Exec PoolError (Cached W) (Unit {0})
  count_miss s = (ok tt, record s { pool = record s.pool { misses = incr_u64 s.pool.misses } })

  -- `lru.PushFront`, with the entry of the map
  unfoldable pub push_front : PoolEntry → Exec PoolError (Cached W) (Unit {0})
  unfolding set_lru
  push_front e s = set_lru (e ∷ s.pool.lru) s

  -- `lru.MoveToFront`
  unfoldable pub touch : PoolEntry → Exec PoolError (Cached W) (Unit {0})
  unfolding set_lru move_to_front
  touch e s = set_lru (move_to_front e s.pool.lru) s

  unfoldable pub discard_back : Exec PoolError (Cached W) (Unit {0})
  unfolding set_lru
  discard_back s = set_lru (drop_back s.pool.lru) s

module _ {W : Type 0} (read_disk : ℕ → Io W Page) (write_disk : Page → Io W (Unit {0})) where
  -- the eviction in `makeRoomLocked`; `Back()` of an empty list is nil, and its use a panic
  unfoldable pub evict : Option PoolEntry → Exec PoolError (Cached W) (Unit {0})
  unfolding on_world discard_back
  evict none = λ s. (panic, s)
  evict (some e) =
      if e.dirty
      then (do
        on_world (λ w. let (r, w') = write_disk e.page w in (wrap (evicting e.page.id) r, w'))
        discard_back)
      else discard_back

  unfoldable pub make_room : Exec PoolError (Cached W) (Unit {0})
  unfolding evict
  make_room s =
      if ltb (length s.pool.lru) s.pool.capacity then (ok tt, s) else evict (back s.pool.lru) s

  -- the second critical section of `Get`, after the page was read
  unfoldable pub install : Page → Option PoolEntry → Exec PoolError (Cached W) Page
  unfolding touch push_front make_room
  install page (some e) = do touch e; pure e.page
  install page none = do make_room; push_front (record { page = page; dirty = false }); pure page

  unfoldable pub get_entry : ℕ → Option PoolEntry → Exec PoolError (Cached W) Page
  unfolding touch count_hit count_miss install on_world
  get_entry id (some e) = do count_hit; touch e; pure e.page
  get_entry id none = do
    count_miss
    page ← on_world (read_disk id)
    λ s. install page (find_entry id s.pool.lru) s

  unfoldable pub get : ℕ → Exec PoolError (Cached W) Page
  unfolding get_entry
  get id s = get_entry id (find_entry id s.pool.lru) s

  unfoldable pub put_entry : Page → Bool → Option PoolEntry → Exec PoolError (Cached W) (Unit {0})
  unfolding touch push_front make_room
  put_entry page dirty (some e) = touch (record { page = page; dirty = e.dirty || dirty })
  put_entry page dirty none = do make_room; push_front (record { page = page; dirty = dirty })

  unfoldable pub put : Page → Bool → Exec PoolError (Cached W) (Unit {0})
  unfolding put_entry
  put page dirty s = put_entry page dirty (find_entry page.id s.pool.lru) s

  unfoldable pub flush_entry : ℕ → Option PoolEntry → Exec PoolError (Cached W) (Unit {0})
  unfolding set_lru on_world mark_clean
  flush_entry id none = pure tt
  flush_entry id (some e) =
      if e.dirty
      then (do on_world (write_disk e.page); λ s. set_lru (mark_clean id s.pool.lru) s)
      else pure tt

  -- `order` is the order in which the range over the map yields the ids: Go leaves it open.
  unfoldable pub flush : List ℕ → Exec PoolError (Cached W) (Unit {0})
  unfolding flush_entry
  flush [] = pure tt
  flush (id ∷ order) = do λ s. flush_entry id (find_entry id s.pool.lru) s; flush order
