-- ===== src/Storage/Pool/Refines.antt =====
-- `Get` against the view of the pool: evictions, failed reads and failed writes change nothing that a
-- reader sees.
use go_db.Base.{
  ℕ, ◌≡◌, refl, sym, ap, ◌∙◌, ◌⊎◌, inl, inr, true, false, none, some, arith, ◌==◌, ==_iff,
  Bool-cases, Option-cases, if◌then◌else◌,
}
use mathlib.Core.Path.{ap₂, subst}
use go_db.Base.Result.{Result, ok, err, panic, stuck}
use go_db.Base.Exec.{continue}
use go_db.Storage.Page.{Page, IsPage}
use go_db.Storage.Pool.{
  PoolEntry, PoolError, Cached, find_entry, push_front, count_hit, count_miss, install, get,
}
use go_db.Storage.Pool.Entries.{find_entry_id}
use go_db.Storage.Pool.Evict.{
  Evicted, touched, touch-IsCoherent, view-touch, push_front-IsCoherent, view-push_front,
  make_room-Evicts,
}
use go_db.Storage.Pool.View.{Disk, view, IsCoherent, SameView, shown}

-- Where the call returned a page, it is `q`.
abbrev pub Returns : Result PoolError Page → Page → Type 0
Returns (ok p) q = p ≡ q
Returns (err e) q = Unit {0}
Returns panic q = Unit {0}
Returns stuck q = Unit {0}

module _ {W : Type 0} (d : Disk W) where
  -- `m` reads the page `id`: it keeps the cache coherent, changes no page, and a page that it
  -- returns is the one that the cache shows.
  pub record Reads (s t : Cached W) (id : ℕ) (r : Result PoolError Page) : Type 0 where
    pub coherent : IsCoherent d t
    pub same : SameView d s t
    pub reads : (p : Page) → r ≡ ok p → p ≡ view d s id

  ok-injective : {p q : Page} → ◌≡◌ {A = Result PoolError Page} (ok p) (ok q) → q ≡ p
  ok-injective h = cc

  view_absent :
      (s : Cached W) (j : ℕ) → find_entry j s.pool.lru ≡ none → view d s j ≡ d.slot s.world j
  unfolding view
  view_absent s j h = ground arith

  view_found :
      (s : Cached W) (j : ℕ) (e : PoolEntry)
      → find_entry j s.pool.lru ≡ some e
      → view d s j ≡ e.page
  unfolding view
  view_found s j e h = ground arith

  -- a page read from disk, put in behind an eviction
  module _ (s : Cached W) (p : Page) (absent : find_entry p.id s.pool.lru ≡ none)
      (read : p ≡ d.slot s.world p.id) where
    abbrev fresh : PoolEntry
    fresh = record { page = p; dirty = false }

    abbrev pushed : Result PoolError (Unit {0}) → Cached W → Result PoolError Page × Cached W
    pushed r t =
        continue r
          (λ _ u. continue (push_front fresh u).0 (λ _ v. (ok p, v)) (push_front fresh u).1) t

    module _ (t : Cached W) (v : Evicted d s t (ok tt)) where
      shows : d.slot t.world p.id ≡ p
      shows =
          sym (view_absent t p.id (v.absent p.id absent))
          ∙ v.same p.id
          ∙ view_absent s p.id absent
          ∙ sym read

      unchanged : (j : ℕ) → (if p.id == j then p else view d t j) ≡ view d s j
      unchanged j = elim (Bool-cases (p.id == j)) [
        | inl q ↦
            rw q (read ∙ sym (view_absent s p.id absent) ∙ ap (view d s) ((==_iff p.id j).0 q))
        | inr q ↦ rw q (v.same j)
      ]

      pushed_ok : Reads s (push_front fresh t).1 p.id (ok p)
      pushed_ok = record {
        coherent =
            push_front-IsCoherent d fresh t v.coherent (v.absent p.id absent) (v.room refl)
              (subst IsPage (sym read) (d.slot_whole s.world p.id)) (λ _. shows);
        same = λ j. view-push_front d fresh t j ∙ unchanged j;
        reads = λ q h. (ok-injective h) ∙ read ∙ sym (view_absent s p.id absent);
      }

    pushed-Reads :
        (r : Result PoolError (Unit {0})) (t : Cached W)
        → Evicted d s t r
        → Reads s (pushed r t).1 p.id (pushed r t).0
    unfolding push_front
    pushed-Reads (ok u) t v = pushed_ok t v
    pushed-Reads (err x) t v = record { coherent = v.coherent; same = v.same; reads = λ q h. cc }
    pushed-Reads panic t v = record { coherent = v.coherent; same = v.same; reads = λ q h. cc }
    pushed-Reads stuck t v = record { coherent = v.coherent; same = v.same; reads = λ q h. cc }

  found-Reads :
      (s : Cached W) (id : ℕ) (e : PoolEntry)
      → IsCoherent d s
      → find_entry id s.pool.lru ≡ some e
      → Reads s (touched d e s) id (ok e.page)
  found-Reads s id e c found =
      let own : find_entry e.page.id s.pool.lru ≡ some e =
        ap (λ k. find_entry k s.pool.lru) (find_entry_id id s.pool.lru found) ∙ found in
      record {
        coherent =
            touch-IsCoherent d e e s c own (c.whole e.page.id e own) (c.clean e.page.id e own);
        same = λ j. view-touch d e s c j ∙ kept j own (Bool-cases (e.page.id == j));
        reads = λ q h. ok-injective h ∙ sym (view_found s id e found);
      }
    where
      kept :
          (j : ℕ)
          → find_entry e.page.id s.pool.lru ≡ some e
          → ((e.page.id == j) ≡ true) ⊎ ((e.page.id == j) ≡ false)
          → (if e.page.id == j then e.page else view d s j) ≡ view d s j
      kept j own (inl q) =
          rw q (sym (view_found s e.page.id e own) ∙ ap (view d s) ((==_iff e.page.id j).0 q))
      kept j own (inr q) = rw q refl

  -- The same pool and pages in another state: counters apart, and a world with the same slots.
  pub moved-IsCoherent :
      (s t : Cached W)
      → t.pool.capacity ≡ s.pool.capacity
      → t.pool.lru ≡ s.pool.lru
      → ((j : ℕ) → d.slot t.world j ≡ d.slot s.world j)
      → IsCoherent d s
      → IsCoherent d t
  moved-IsCoherent s t p q same c = record {
    cap_pos = rw p c.cap_pos;
    bounded = rw (p, q) c.bounded;
    distinct = rw q c.distinct;
    whole = λ j e f. c.whole j e (ap (find_entry j) (sym q) ∙ f);
    clean = λ j e f x. same j ∙ c.clean j e (ap (find_entry j) (sym q) ∙ f) x;
  }

  pub moved-SameView :
      (s t : Cached W)
      → t.pool.lru ≡ s.pool.lru
      → ((j : ℕ) → d.slot t.world j ≡ d.slot s.world j)
      → SameView d s t
  unfolding view
  moved-SameView s t q same j = ap₂ shown (ap (find_entry j) q) (same j)

  -- Reading through an intermediate state that shows the same.
  Reads-from :
      (s s' t : Cached W) (id : ℕ) (r : Result PoolError Page)
      → SameView d s s'
      → Reads s' t id r
      → Reads s t id r
  Reads-from s s' t id r same h = record {
    coherent = h.coherent;
    same = λ j. h.same j ∙ same j;
    reads = λ p q. h.reads p q ∙ same id;
  }

  module _ (s : Cached W) (id : ℕ) (c : IsCoherent d s) where
    abbrev hit_state : Cached W
    hit_state = (count_hit s).1

    abbrev read_state : Cached W
    read_state = record (count_miss s).1 { world = (d.read_disk id s.world).1 }

    hit-Reads :
        (e : PoolEntry)
        → find_entry id s.pool.lru ≡ some e
        → Reads s (touched d e hit_state) id (ok e.page)
    unfolding count_hit
    hit-Reads e found =
        Reads-from s hit_state _ id _ (moved-SameView s hit_state refl (λ j. refl))
          (found-Reads hit_state id e (moved-IsCoherent s hit_state refl refl (λ j. refl) c) found)

    read-IsCoherent : IsCoherent d read_state
    unfolding count_miss
    read-IsCoherent = moved-IsCoherent s read_state refl refl (λ j. d.read_keeps s.world id j) c

    read-SameView : SameView d s read_state
    unfolding count_miss
    read-SameView = moved-SameView s read_state refl (λ j. d.read_keeps s.world id j)

    abbrev after_read : Result PoolError Page → Result PoolError Page × Cached W
    after_read r =
        continue r (λ p u. install d.read_disk d.write_disk p (find_entry id u.pool.lru) u)
          read_state

    miss-Reads :
        (r : Result PoolError Page)
        → (d.read_disk id s.world).0 ≡ r
        → find_entry id s.pool.lru ≡ none
        → Reads s (after_read r).1 id (after_read r).0
    unfolding install count_miss
    miss-Reads (ok p) q absent =
        let read : p ≡ d.slot read_state.world id =
          d.read_slot s.world id p q ∙ sym (d.read_keeps s.world id id) in
        let own : p.id ≡ id = ap (λ (x : Page). x.id) read ∙ d.slot_id read_state.world id in
        rw absent (
          Reads-from s read_state _ id _ read-SameView (
            subst
              (λ k.
                Reads read_state (install d.read_disk d.write_disk p none read_state).1 k
                  (install d.read_disk d.write_disk p none read_state).0)
              own
              (pushed-Reads read_state p (ap (λ k. find_entry k s.pool.lru) own ∙ absent)
                (read ∙ ap (d.slot read_state.world) (sym own)) _ _
                (make_room-Evicts d read_state read-IsCoherent))))
    miss-Reads (err x) q absent = record {
      coherent = read-IsCoherent;
      same = read-SameView;
      reads = λ p h. cc;
    }
    miss-Reads panic q absent = record {
      coherent = read-IsCoherent;
      same = read-SameView;
      reads = λ p h. cc;
    }
    miss-Reads stuck q absent = record {
      coherent = read-IsCoherent;
      same = read-SameView;
      reads = λ p h. cc;
    }

    pub get-Reads :
        Reads s (get d.read_disk d.write_disk id s).1 id (get d.read_disk d.write_disk id s).0
    unfolding get
    get-Reads = elim (Option-cases (find_entry id s.pool.lru)) [
      | inl absent ↦ rw absent (miss-Reads (d.read_disk id s.world).0 refl absent)
      | inr (e, found) ↦ rw found (hit-Reads e found)
    ]

    -- A page that `Get` returns is the page that the pool shows for its id. Whatever `Get` returns, it
    -- changes no page that the pool shows, and keeps the pool within its capacity, with no page
    -- twice and its clean pages equal to those on disk.
    -- The pool must be coherent before.
    pub get-view :
        IsCoherent d (get d.read_disk d.write_disk id s).1
        × SameView d s (get d.read_disk d.write_disk id s).1
        × Returns (get d.read_disk d.write_disk id s).0 (view d s id)
    get-view =
        let h = get-Reads in
        (h.coherent, h.same, returned (get d.read_disk d.write_disk id s).0 h.reads)
      where
        returned :
            (r : Result PoolError Page)
            → ((p : Page) → r ≡ ok p → p ≡ view d s id)
            → Returns r (view d s id)
        returned (ok p) h = h p refl
        returned (err x) h = tt
        returned panic h = tt
        returned stuck h = tt
