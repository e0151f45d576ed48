-- ===== src/Storage/Pool/View.antt =====
-- What a reader of the pool sees: the cached page, or else the page on disk. The disk is an
-- interface: what the pager's callbacks promise of the pages that they read and write.
use go_db.Base.{ℕ, ◌≤◌, ◌≡◌, ◌≢◌, false, Option, none, some, length}
use go_db.Base.Result.{ok}
use go_db.Base.Returns.{IsReturning}
use go_db.Storage.Page.{Page, IsPage}
use go_db.Storage.Pool.{PoolEntry, Cached, Io, find_entry}
use go_db.Storage.Pool.Entries.{Distinct}

-- `slot w id` is the page that the file has for `id`, 4096 bytes of it. A write of so many bytes that
-- fails may leave anything in its own slot, and leaves the other slots alone. Both calls come back.
pub record Disk (W : Type 0) : Type 0 where
  pub slot : W → ℕ → Page
  pub read_disk : ℕ → Io W Page
  pub write_disk : Page → Io W (Unit {0})
  pub read_returns : (id : ℕ) → IsReturning (read_disk id)
  pub write_returns : (p : Page) → IsReturning (write_disk p)
  pub slot_id : (w : W) (id : ℕ) → (slot w id).id ≡ id
  pub slot_whole : (w : W) (id : ℕ) → IsPage (slot w id)
  pub read_slot : (w : W) (id : ℕ) (p : Page) → (read_disk id w).0 ≡ ok p → p ≡ slot w id
  pub read_keeps : (w : W) (id j : ℕ) → slot (read_disk id w).1 j ≡ slot w j
  pub write_slot :
      (w : W) (p : Page) → IsPage p → (write_disk p w).0 ≡ ok tt → slot (write_disk p w).1 p.id ≡ p
  pub write_keeps :
      (w : W) (p : Page) (j : ℕ) → IsPage p → p.id ≢ j → slot (write_disk p w).1 j ≡ slot w j

abbrev pub shown : Option PoolEntry → Page → Page
shown none p = p
shown (some e) p = e.page

module _ {W : Type 0} (d : Disk W) where
  unfoldable pub view : Cached W → ℕ → Page
  view s j = shown (find_entry j s.pool.lru) (d.slot s.world j)

  -- The cache is within its capacity, holds a page once and whole, and a clean entry is what the
  -- disk has.
  pub record IsCoherent (s : Cached W) : Type 0 where
    pub cap_pos : 1 ≤ s.pool.capacity
    pub bounded : length s.pool.lru ≤ s.pool.capacity
    pub distinct : Distinct s.pool.lru
    pub whole : (j : ℕ) (e : PoolEntry) → find_entry j s.pool.lru ≡ some e → IsPage e.page
    pub clean :
        (j : ℕ) (e : PoolEntry)
        → find_entry j s.pool.lru ≡ some e
        → e.dirty ≡ false
        → d.slot s.world j ≡ e.page

  -- `t` shows the same pages as `s`.
  abbrev pub SameView : Cached W → Cached W → Type 0
  SameView s t = (j : ℕ) → view t j ≡ view s j
