-- ===== src/Storage/Pool/Evict.antt =====
-- `makeRoomLocked` and the moves in the LRU list: what they leave of the cache and of the view.
use go_db.Base.{
  ℕ, ◌≤◌, ◌<◌, ◌≡◌, ◌≢◌, refl, sym, ap, ◌∙◌, inl, inr, true, false, Option, none, some, length,
  arith, ltb, ◌==◌, ==_iff, Bool-cases, ltb→lt, le_of_ltb-false, if◌then◌else◌,
}
use go_db.Base.Result.{Result, ok, err, panic, stuck}
use go_db.Base.Exec.{Exec, wrap, continue}
use go_db.Storage.Page.{IsPage}
use go_db.Storage.Pool.{
  PoolEntry, PoolError, Cached, evicting, find_entry, back, drop_back, touch, push_front,
  discard_back, evict, make_room,
}
use go_db.Storage.Pool.Entries.{
  find_entry-remove_entry, Distinct-remove_entry, length-remove_entry, find_entry-back,
  find_entry-drop_back, Distinct-drop_back, length-drop_back, back-ne-none,
}
use go_db.Storage.Pool.View.{Disk, view, IsCoherent, SameView}

module _ {W : Type 0} (d : Disk W) where
  -- A change of the list that sets the entry of one id shows as a change of that page.
  view_set :
      (s t : Cached W) (e : PoolEntry)
      → ((j : ℕ)
          → find_entry j t.pool.lru ≡ (if e.page.id == j then some e else find_entry j s.pool.lru))
      → ((j : ℕ) → d.slot t.world j ≡ d.slot s.world j)
      → (j : ℕ) → view d t j ≡ (if e.page.id == j then e.page else view d s j)
  unfolding view
  view_set s t e finds slots j = ground (arith, finds j, slots j)

  -- The state after the element of `e0` is moved to the front as `e`.
  abbrev pub touched : PoolEntry → Cached W → Cached W
  touched e s = (touch e s).1

  pub touch-IsCoherent :
      (e e0 : PoolEntry) (s : Cached W)
      → IsCoherent d s
      → find_entry e.page.id s.pool.lru ≡ some e0
      → IsPage e.page
      → (e.dirty ≡ false → d.slot s.world e.page.id ≡ e.page)
      → IsCoherent d (touched e s)
  unfolding touch find_entry
  touch-IsCoherent e e0 s c found is_page clean = record {
    cap_pos = c.cap_pos;
    bounded = omega (arith, c.bounded, length-remove_entry e.page.id s.pool.lru found);
    distinct = (
      ground (arith, find_entry-remove_entry e.page.id e.page.id s.pool.lru c.distinct),
      Distinct-remove_entry e.page.id s.pool.lru c.distinct,
    );
    whole = λ j x f.
        ground
          (arith, find_entry-remove_entry e.page.id j s.pool.lru c.distinct, is_page, c.whole j x);
    clean = λ j x f q.
        ground
          (arith, find_entry-remove_entry e.page.id j s.pool.lru c.distinct, clean, c.clean j x);
  }

  pub view-touch :
      (e : PoolEntry) (s : Cached W)
      → IsCoherent d s
      → (j : ℕ) → view d (touched e s) j ≡ (if e.page.id == j then e.page else view d s j)
  unfolding touch find_entry
  view-touch e s c =
      view_set s (touched e s) e
        (λ j. ground (arith, find_entry-remove_entry e.page.id j s.pool.lru c.distinct)) (λ j. refl)

  pub push_front-IsCoherent :
      (e : PoolEntry) (s : Cached W)
      → IsCoherent d s
      → find_entry e.page.id s.pool.lru ≡ none
      → length s.pool.lru < s.pool.capacity
      → IsPage e.page
      → (e.dirty ≡ false → d.slot s.world e.page.id ≡ e.page)
      → IsCoherent d (push_front e s).1
  unfolding push_front find_entry
  push_front-IsCoherent e s c absent room is_page clean = record {
    cap_pos = c.cap_pos;
    bounded = room;
    distinct = (absent, c.distinct);
    whole = λ j x f. ground (arith, is_page, c.whole j x);
    clean = λ j x f q. ground (arith, clean, c.clean j x);
  }

  pub view-push_front :
      (e : PoolEntry) (s : Cached W) (j : ℕ)
      → view d (push_front e s).1 j ≡ (if e.page.id == j then e.page else view d s j)
  unfolding push_front find_entry
  view-push_front e s = view_set s (push_front e s).1 e (λ j. refl) (λ j. refl)

  -- What an eviction keeps, and what it gives where it succeeds.
  pub record Evicted (s t : Cached W) (r : Result PoolError (Unit {0})) : Type 0 where
    pub coherent : IsCoherent d t
    pub same : SameView d s t
    pub room : r ≡ ok tt → length t.pool.lru < t.pool.capacity
    pub absent : (j : ℕ) → find_entry j s.pool.lru ≡ none → find_entry j t.pool.lru ≡ none

  -- The pool without its last entry, over the world `w` that writing the entry left.
  abbrev without_back : Cached W → W → Cached W
  without_back s w = record { pool = record s.pool { lru = drop_back s.pool.lru }; world = w }

  module _ (s : Cached W) (w : W) (e : PoolEntry) (c : IsCoherent d s)
      (last : back s.pool.lru ≡ some e)
      (others : (j : ℕ) → e.page.id ≢ j → d.slot w j ≡ d.slot s.world j)
      (own : d.slot w e.page.id ≡ e.page) where
    kept :
        (j : ℕ)
        → find_entry j (drop_back s.pool.lru)
          ≡ (if e.page.id == j then none else find_entry j s.pool.lru)
    kept j = find_entry-drop_back j s.pool.lru c.distinct last

    slot_of : (j : ℕ) → d.slot w j ≡ (if e.page.id == j then e.page else d.slot s.world j)
    slot_of j = elim (Bool-cases (e.page.id == j)) [
      | inl same ↦ rw same (ap (d.slot w) (sym ((==_iff e.page.id j).0 same)) ∙ own)
      | inr other ↦ rw other (others j (λ q. ground arith))
    ]

    without_back-SameView : SameView d s (without_back s w)
    unfolding view
    without_back-SameView j =
        ground (arith, kept j, slot_of j, find_entry-back s.pool.lru c.distinct last)

    without_back-IsCoherent : IsCoherent d (without_back s w)
    without_back-IsCoherent = record {
      cap_pos = c.cap_pos;
      bounded = omega (arith, c.bounded, length-drop_back s.pool.lru last);
      distinct = Distinct-drop_back s.pool.lru c.distinct last;
      whole = λ j x f. ground (arith, kept j, c.whole j x);
      clean = λ j x f q. ground (arith, kept j, slot_of j, c.clean j x);
    }

    without_back-Evicted : Evicted s (without_back s w) (ok tt)
    without_back-Evicted = record {
      coherent = without_back-IsCoherent;
      same = without_back-SameView;
      room = λ _. omega (arith, c.bounded, length-drop_back s.pool.lru last);
      absent = λ j h. ground (arith, kept j);
    }

  -- A write that failed may have spoilt the slot of `e`, which stays in the cache, dirty.
  module _ (s : Cached W) (w : W) (e : PoolEntry) (c : IsCoherent d s)
      (last : back s.pool.lru ≡ some e)
      (others : (j : ℕ) → e.page.id ≢ j → d.slot w j ≡ d.slot s.world j)
      (dirty : e.dirty ≡ true) where
    abbrev spoilt : Cached W
    spoilt = record s { world = w }

    slot_unless : (j : ℕ) → (e.page.id == j) ≡ false → d.slot w j ≡ d.slot s.world j
    slot_unless j h = others j (λ q. ground arith)

    spoilt-SameView : SameView d s spoilt
    unfolding view
    spoilt-SameView j = ground (arith, slot_unless j, find_entry-back s.pool.lru c.distinct last)

    spoilt-IsCoherent : IsCoherent d spoilt
    spoilt-IsCoherent = record {
      cap_pos = c.cap_pos;
      bounded = c.bounded;
      distinct = c.distinct;
      whole = c.whole;
      clean = λ j x f q.
          ground (arith, slot_unless j, c.clean j x, find_entry-back s.pool.lru c.distinct last);
    }

    spoilt-Evicted : (r : Result PoolError (Unit {0})) → (r ≡ ok tt → ⊥) → Evicted s spoilt r
    spoilt-Evicted r failed = record {
      coherent = spoilt-IsCoherent;
      same = spoilt-SameView;
      room = λ q. absurd (failed q);
      absent = λ j h. h;
    }

  -- `t` and `r` are what the eviction of `e` leaves.
  abbrev pub Evicts : Cached W → Exec PoolError (Cached W) (Unit {0}) → Type 0
  Evicts s m = Evicted s (m s).1 (m s).0

  evict-Evicts :
      (e : PoolEntry) (s : Cached W)
      → IsCoherent d s
      → back s.pool.lru ≡ some e
      → Evicts s (evict d.read_disk d.write_disk (some e))
  unfolding evict
  evict-Evicts e s c last = elim (Bool-cases e.dirty) [
    | inl dirty ↦ rw dirty (written (d.write_disk e.page s.world).0 refl dirty)
    | inr clean ↦ rw clean (
        without_back-Evicted s s.world e c last (λ j n. refl)
          (c.clean e.page.id e (find_entry-back s.pool.lru c.distinct last) clean))
  ]
    where
      w' : W
      w' = (d.write_disk e.page s.world).1

      whole : IsPage e.page
      whole = c.whole e.page.id e (find_entry-back s.pool.lru c.distinct last)

      others : (j : ℕ) → e.page.id ≢ j → d.slot w' j ≡ d.slot s.world j
      others j n = d.write_keeps s.world e.page j whole n

      after : Result PoolError (Unit {0}) → Result PoolError (Unit {0}) × Cached W
      after r = continue (wrap (evicting e.page.id) r) (λ _. discard_back) (record s { world = w' })

      written :
          (r : Result PoolError (Unit {0}))
          → (d.write_disk e.page s.world).0 ≡ r
          → e.dirty ≡ true
          → Evicted s (after r).1 (after r).0
      written (ok u) q dirty =
          without_back-Evicted s w' e c last others (d.write_slot s.world e.page whole q)
      written (err x) q dirty = spoilt-Evicted s w' e c last others dirty _ (λ z. cc)
      written panic q dirty = spoilt-Evicted s w' e c last others dirty _ (λ z. cc)
      written stuck q dirty = spoilt-Evicted s w' e c last others dirty _ (λ z. cc)

  pub make_room-Evicts :
      (s : Cached W) → IsCoherent d s → Evicts s (make_room d.read_disk d.write_disk)
  unfolding make_room
  make_room-Evicts s c = elim (Bool-cases (ltb (length s.pool.lru) s.pool.capacity)) [
    | inl free ↦
        rw free (record {
          coherent = c;
          same = λ j. refl;
          room = λ _. ltb→lt _ _ free;
          absent = λ j h. h;
        })
    | inr full ↦ rw full (last (back s.pool.lru) refl (le_of_ltb-false _ _ full))
  ]
    where
      last :
          (o : Option PoolEntry)
          → back s.pool.lru ≡ o
          → s.pool.capacity ≤ length s.pool.lru
          → Evicts s (evict d.read_disk d.write_disk o)
      last none q h = absurd (back-ne-none s.pool.lru (omega (arith, c.cap_pos)) q)
      last (some e) q h = evict-Evicts e s c q
