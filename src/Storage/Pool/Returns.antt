-- ===== src/Storage/Pool/Returns.antt =====
-- `Get` and `Put` of the pool come back where the disk does.
use go_db.Base.{ℕ, ◌≢◌, Bool, true, false, Option, none, some, length, ltb, if◌then◌else◌}
use go_db.Base.Result.{ok, stuck}
use go_db.Base.Exec.{Exec, pure, wrap, ◌>>=◌, ◌>>◌}
use go_db.Base.Returns.{IsReturning, ok-ne-stuck, panic-ne-stuck, wrap-ne-stuck, bind-IsReturning}
use go_db.Storage.Page.{Page}
use go_db.Storage.Pool.{
  PoolEntry, PoolError, Cached, evicting, push_front, touch, count_hit, count_miss, discard_back,
  on_world, evict, make_room, install, get_entry, get, put_entry, put, find_entry, back,
}
use go_db.Storage.Pool.View.{Disk}

module _ {W : Type 0} (d : Disk W) where
  discard_back-IsReturning : IsReturning (discard_back {W = W})
  unfolding discard_back
  discard_back-IsReturning s = ok-ne-stuck tt

  evict-IsReturning : (o : Option PoolEntry) → IsReturning (evict d.read_disk d.write_disk o)
  unfolding evict
  evict-IsReturning none = λ s. panic-ne-stuck
  evict-IsReturning (some e) = dirty e.dirty
    where
      written_back : Exec PoolError (Cached W) (Unit {0})
      written_back s = (
        wrap (evicting e.page.id) (d.write_disk e.page s.world).0,
        record s { world = (d.write_disk e.page s.world).1 },
      )

      dirty : (b : Bool) → IsReturning (if b then written_back >> discard_back else discard_back)
      dirty true =
          bind-IsReturning written_back (λ _. discard_back)
            (λ s.
              wrap-ne-stuck (evicting e.page.id) (d.write_disk e.page s.world).0
                (d.write_returns e.page s.world))
            (λ _. discard_back-IsReturning)
      dirty false = discard_back-IsReturning

  make_room-IsReturning : IsReturning (make_room d.read_disk d.write_disk)
  unfolding make_room
  make_room-IsReturning s = room (ltb (length s.pool.lru) s.pool.capacity)
    where
      room :
          (b : Bool)
          → (if b then (ok tt, s) else evict d.read_disk d.write_disk (back s.pool.lru) s).0 ≢ stuck
      room true = ok-ne-stuck tt
      room false = evict-IsReturning (back s.pool.lru) s

  -- a new entry, behind an eviction
  pushed-IsReturning :
      {A : Type 0} (e : PoolEntry) (k : Exec PoolError (Cached W) A)
      → IsReturning k
      → IsReturning (make_room d.read_disk d.write_disk >> (push_front e >> k))
  unfolding push_front
  pushed-IsReturning e k h =
      bind-IsReturning (make_room d.read_disk d.write_disk) (λ _. push_front e >> k)
        make_room-IsReturning
        (λ _. bind-IsReturning (push_front e) (λ _. k) (λ s. ok-ne-stuck tt) (λ _. h))

  install-IsReturning :
      (p : Page) (o : Option PoolEntry) → IsReturning (install d.read_disk d.write_disk p o)
  unfolding install touch
  install-IsReturning p (some e) = λ s. ok-ne-stuck e.page
  install-IsReturning p none =
      pushed-IsReturning (record { page = p; dirty = false }) (pure p) (λ s. ok-ne-stuck p)

  get_entry-IsReturning :
      (id : ℕ) (o : Option PoolEntry) → IsReturning (get_entry d.read_disk d.write_disk id o)
  unfolding get_entry count_hit count_miss touch on_world
  get_entry-IsReturning id (some e) = λ s. ok-ne-stuck e.page
  get_entry-IsReturning id none =
      bind-IsReturning count_miss
        (λ _. on_world (d.read_disk id) >>= λ page s.
          install d.read_disk d.write_disk page (find_entry id s.pool.lru) s)
        (λ s. ok-ne-stuck tt)
        (λ _.
          bind-IsReturning (on_world (d.read_disk id))
            (λ page s. install d.read_disk d.write_disk page (find_entry id s.pool.lru) s)
            (λ s. d.read_returns id s.world)
            (λ page s. install-IsReturning page (find_entry id s.pool.lru) s))

  pub get-IsReturning : (id : ℕ) → IsReturning (get d.read_disk d.write_disk id)
  unfolding get
  get-IsReturning id s = get_entry-IsReturning id (find_entry id s.pool.lru) s

  put_entry-IsReturning :
      (p : Page) (dirty : Bool) (o : Option PoolEntry)
      → IsReturning (put_entry d.read_disk d.write_disk p dirty o)
  unfolding put_entry touch push_front
  put_entry-IsReturning p dirty (some e) = λ s. ok-ne-stuck tt
  put_entry-IsReturning p dirty none =
      bind-IsReturning (make_room d.read_disk d.write_disk) _ make_room-IsReturning
        (λ _ s. ok-ne-stuck tt)

  pub put-IsReturning :
      (p : Page) (dirty : Bool) → IsReturning (put d.read_disk d.write_disk p dirty)
  unfolding put
  put-IsReturning p dirty s = put_entry-IsReturning p dirty (find_entry p.id s.pool.lru) s
