-- ===== src/Storage/Pager/Laws.antt =====
-- What the pager promises of the pages that it allocates, writes and reads.
use go_db.Base.{
  ℕ, ◌+◌, ◌<◌, ◌^◌, ◌%◌, ◌||◌, ◌≡◌, refl, ap, ◌∙◌, inl, inr, none, some, true, false, arith, leb,
  ◌==◌, if◌then◌else◌, Bool-cases,
}
use go_db.Base.Result.{Result, ok, err, panic, stuck}
use go_db.Base.Exec.{continue}
use go_db.Storage.Page.{Page, IsPage, new_page}
use go_db.Storage.Page.Header.{new_page-IsPage}
use go_db.Storage.Pool.{
  PoolEntry, PoolError, Cached, find_entry, get, put, put_entry, make_room, push_front, touch,
}
use go_db.Storage.Pool.View.{Disk, view, IsCoherent}
use go_db.Storage.Pool.Refines.{Returns, get-Reads}
use go_db.Storage.Pool.Writes.{put-Writes}
use go_db.Storage.Pager.{Pager, allocate_page, read_page, write_page}

module _ {W : Type 0} (d : Disk W) where
  -- What a successful call did in the pool.
  written :
      (p : Pager W) (page : Page)
      → (write_page d.read_disk d.write_disk page p).0 ≡ ok tt
      → ((put d.read_disk d.write_disk page true p.cache).0 ≡ ok tt)
        × ((write_page d.read_disk d.write_disk page p).1
            ≡ record p { cache = (put d.read_disk d.write_disk page true p.cache).1 })
        × (leb p.num_pages page.id ≡ false)
  unfolding write_page
  written p page w = ground arith

  was_allocated :
      (p : Pager W) (page : Page)
      → (allocate_page d.read_disk d.write_disk p).0 ≡ ok page
      → ((put d.read_disk d.write_disk (new_page p.num_pages) true p.cache).0 ≡ ok tt)
        × (page ≡ new_page p.num_pages)
        × ((allocate_page d.read_disk d.write_disk p).1 ≡ record {
          num_pages = (p.num_pages + 1) % 2 ^ 32;
          cache = (put d.read_disk d.write_disk (new_page p.num_pages) true p.cache).1;
        })
  unfolding allocate_page
  was_allocated p page w = ground arith

  -- A page that was put is at the front of the list.
  find_entry-put :
      (s : Cached W) (page : Page)
      → (put d.read_disk d.write_disk page true s).0 ≡ ok tt
      → (e : PoolEntry) × (e.page ≡ page)
        × (find_entry page.id (put d.read_disk d.write_disk page true s).1.pool.lru ≡ some e)
  unfolding put push_front touch find_entry
  find_entry-put s page =
      elim (find_entry page.id s.pool.lru)
        as (λ o.
          (put_entry d.read_disk d.write_disk page true o s).0 ≡ ok tt
          → (e : PoolEntry) × (e.page ≡ page)
            × (find_entry page.id (put_entry d.read_disk d.write_disk page true o s).1.pool.lru
                ≡ some e)) [
                  | none ↦ λ h.
                      pushed (make_room d.read_disk d.write_disk s).0
                        (make_room d.read_disk d.write_disk s).1 h
                  | some e ↦
                      λ h. (record { page = page; dirty = e.dirty || true }, refl, ground arith)
                ]
    where
      pushed :
          (r : Result PoolError (Unit {0})) (t : Cached W)
          → (continue r (λ _. push_front (record { page = page; dirty = true })) t).0 ≡ ok tt
          → (e : PoolEntry) × (e.page ≡ page)
            × (find_entry page.id
                  (continue r (λ _. push_front (record { page = page; dirty = true })) t).1.pool.lru
                ≡ some e)
      pushed (ok u) t h = (record { page = page; dirty = true }, refl, ground arith)
      pushed (err x) t h = cc
      pushed panic t h = cc
      pushed stuck t h = cc

  -- A page that is cached is returned by `Get`.
  get-found :
      (s : Cached W) (id : ℕ) (e : PoolEntry)
      → find_entry id s.pool.lru ≡ some e
      → (get d.read_disk d.write_disk id s).0 ≡ ok e.page
  unfolding get
  get-found s id e h = rw h refl

  is_shown-Returns :
      (r : Result PoolError Page) (v : Page) → ((p : Page) → r ≡ ok p → p ≡ v) → Returns r v
  is_shown-Returns (ok p) v h = h p refl
  is_shown-Returns (err x) v h = tt
  is_shown-Returns panic v h = tt
  is_shown-Returns stuck v h = tt

  -- A page that exists and is cached is returned by `ReadPage`.
  back_from :
      (p : Pager W) (page : Page)
      → leb p.num_pages page.id ≡ false
      → (e : PoolEntry) × (e.page ≡ page) × (find_entry page.id p.cache.pool.lru ≡ some e)
      → (read_page d.read_disk d.write_disk page.id p).0 ≡ ok page
  unfolding read_page
  back_from p page exists (e, is, found) =
      rw exists (get-found p.cache page.id e found ∙ ap (λ q. ok q) is)

  -- What `ReadPage` returns after a write of `page` over the pages `v`.
  reads :
      (p : Pager W) (page : Page) (id : ℕ) (v : ℕ → Page)
      → IsCoherent d p.cache
      → ((j : ℕ) → view d p.cache j ≡ (if page.id == j then page else v j))
      → Returns (read_page d.read_disk d.write_disk id p).0 (if page.id == id then page else v id)
  unfolding read_page
  reads p page id v c shows = elim (Bool-cases (leb p.num_pages id)) [
    | inl out ↦ rw out tt
    | inr in_ ↦ rw in_ (
        is_shown-Returns (get d.read_disk d.write_disk id p.cache).0
          (if page.id == id then page else v id)
          (λ q h. (get-Reads d p.cache id c).reads q h ∙ shows id))
  ]

  new_exists : (n : ℕ) → n + 1 < 2 ^ 32 → leb ((n + 1) % 2 ^ 32) (new_page n).id ≡ false
  unfolding new_page
  new_exists n room = ground arith

  -- A page that `WritePage` wrote is returned when it is read back. Any other page that is read then is
  -- as it was shown before the write.
  -- The pool must be coherent before, the page have 4096 bytes, and the write succeed.
  pub read_page-write_page :
      (p : Pager W) (page : Page) (id : ℕ)
      → IsCoherent d p.cache
      → IsPage page
      → (write_page d.read_disk d.write_disk page p).0 ≡ ok tt
      → ((read_page d.read_disk d.write_disk page.id
            (write_page d.read_disk d.write_disk page p).1).0
          ≡ ok page)
        × Returns
            (read_page d.read_disk d.write_disk id (write_page d.read_disk d.write_disk page p).1).0
            (if page.id == id then page else view d p.cache id)
  read_page-write_page p page id c is_page w =
      let (put_ok, state, exists) = written p page w in
      let cache = (put d.read_disk d.write_disk page true p.cache).1 in
      rw state (
        back_from (record p { cache = cache }) page exists (find_entry-put p.cache page put_ok),
        reads (record p { cache = cache }) page id (λ j. view d p.cache j)
            (put-Writes d p.cache page c is_page).coherent
            ((put-Writes d p.cache page c is_page).writes put_ok),
      )

  -- A page that `AllocatePage` returns is the empty page whose id is the number of pages so far. The
  -- number grows by one, the new page is returned when it is read, and any other page that is read
  -- then is as it was shown before.
  -- The pool must be coherent before, the number of pages below 2^32 - 1, and the call succeed.
  pub read_page-allocate_page :
      (p : Pager W) (page : Page) (id : ℕ)
      → IsCoherent d p.cache
      → p.num_pages + 1 < 2 ^ 32
      → (allocate_page d.read_disk d.write_disk p).0 ≡ ok page
      → (page ≡ new_page p.num_pages)
        × ((allocate_page d.read_disk d.write_disk p).1.num_pages ≡ p.num_pages + 1)
        × ((read_page d.read_disk d.write_disk page.id
              (allocate_page d.read_disk d.write_disk p).1).0
            ≡ ok page)
        × Returns
            (read_page d.read_disk d.write_disk id (allocate_page d.read_disk d.write_disk p).1).0
            (if page.id == id then page else view d p.cache id)
  read_page-allocate_page p page id c room a =
      let (put_ok, is_new, state) = was_allocated p page a in
      let cache = (put d.read_disk d.write_disk (new_page p.num_pages) true p.cache).1 in
      let wrote = put-Writes d p.cache (new_page p.num_pages) c (new_page-IsPage p.num_pages) in
      rw (state, is_new)
        (
          refl,
          omega arith,
          back_from (record { num_pages = (p.num_pages + 1) % 2 ^ 32; cache = cache })
              (new_page p.num_pages) (new_exists p.num_pages room)
              (find_entry-put p.cache (new_page p.num_pages) put_ok),
          reads (record { num_pages = (p.num_pages + 1) % 2 ^ 32; cache = cache })
              (new_page p.num_pages) id (λ j. view d p.cache j) wrote.coherent
              (wrote.writes put_ok),
        )
