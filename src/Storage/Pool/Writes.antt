-- ===== src/Storage/Pool/Writes.antt =====
-- `Put` against the view of the pool.
use go_db.Base.{
  ℕ, ◌≡◌, refl, sym, ap, ◌∙◌, inl, inr, Bool, true, ◌||◌, none, some, arith, ◌==◌, Option-cases,
  if◌then◌else◌,
}
use go_db.Base.Result.{Result, ok, err, panic, stuck}
use go_db.Base.Exec.{continue}
use mathlib.Core.Path.{subst}
use go_db.Storage.Page.{Page, IsPage}
use go_db.Storage.Pool.{PoolEntry, PoolError, Cached, find_entry, touch, push_front, put}
use go_db.Storage.Pool.Evict.{
  Evicted, touch-IsCoherent, view-touch, push_front-IsCoherent, view-push_front, make_room-Evicts,
}
use go_db.Storage.Pool.View.{Disk, view, IsCoherent, SameView}

-- What is shown at `j` once `p` was put with the outcome `r`, where `q` was shown before.
abbrev pub after_put : Result PoolError (Unit {0}) → Page → ℕ → Page → Page
after_put (ok _) p j q = if p.id == j then p else q
after_put (err e) p j q = q
after_put panic p j q = q
after_put stuck p j q = q

module _ {W : Type 0} (d : Disk W) where
  -- `m` puts the page `p`: where it succeeds the cache shows `p` in its place and all else as before;
  -- where it fails, all as before.
  pub record Writes (s t : Cached W) (p : Page) (r : Result PoolError (Unit {0})) : Type 0 where
    pub coherent : IsCoherent d t
    pub writes : r ≡ ok tt → (j : ℕ) → view d t j ≡ (if p.id == j then p else view d s j)
    pub fails : (r ≡ ok tt → ⊥) → SameView d s t

  -- A page put where it is not cached.
  module _ (s : Cached W) (p : Page) (is_page : IsPage p)
      (absent : find_entry p.id s.pool.lru ≡ none) where
    abbrev changed : PoolEntry
    changed = record { page = p; dirty = true }

    pushed-Writes :
        (r : Result PoolError (Unit {0})) (t : Cached W)
        → Evicted d s t r
        → Writes s
            (continue r (λ _. push_front changed) t).1
            p
            (continue r (λ _. push_front changed) t).0
    unfolding push_front
    pushed-Writes (ok u) t v = record {
      coherent =
          push_front-IsCoherent d changed t v.coherent (v.absent p.id absent) (v.room refl) is_page
            (λ x. cc);
      writes = λ h j.
          view-push_front d changed t j ∙ ap (λ (x : Page). if p.id == j then p else x) (v.same j);
      fails = λ h. absurd (h refl);
    }
    pushed-Writes (err x) t v = record {
      coherent = v.coherent;
      writes = λ h. cc;
      fails = λ h. v.same;
    }
    pushed-Writes panic t v = record {
      coherent = v.coherent;
      writes = λ h. cc;
      fails = λ h. v.same;
    }
    pushed-Writes stuck t v = record {
      coherent = v.coherent;
      writes = λ h. cc;
      fails = λ h. v.same;
    }

  touched-Writes :
      (s : Cached W) (p : Page) (e e0 : PoolEntry)
      → IsCoherent d s
      → find_entry p.id s.pool.lru ≡ some e0
      → IsPage p
      → e ≡ record { page = p; dirty = true }
      → Writes s (touch e s).1 p (ok tt)
  touched-Writes s p e e0 c found is_page is = record {
    coherent =
        touch-IsCoherent d e e0 s c
          (ap (λ (x : PoolEntry). find_entry x.page.id s.pool.lru) is ∙ found)
          (subst (λ (x : PoolEntry). IsPage x.page) (sym is) is_page)
          (λ x. cc (x, ap (λ (y : PoolEntry). y.dirty) is));
    writes = λ h j.
        view-touch d e s c j
        ∙ ap (λ (x : PoolEntry). if x.page.id == j then x.page else view d s j) is;
    fails = λ h. absurd (h refl);
  }

  stays_dirty : (b : Bool) → (b || true) ≡ true
  stays_dirty b = ground arith

  pub put-Writes :
      (s : Cached W) (p : Page)
      → IsCoherent d s
      → IsPage p
      → Writes s
          (put d.read_disk d.write_disk p true s).1
          p
          (put d.read_disk d.write_disk p true s).0
  unfolding put
  put-Writes s p c is_page = elim (Option-cases (find_entry p.id s.pool.lru)) [
    | inl absent ↦ rw absent (pushed-Writes s p is_page absent _ _ (make_room-Evicts d s c))
    | inr (e, found) ↦ rw found (
        touched-Writes s p (record { page = p; dirty = e.dirty || true }) e c found is_page
          (ap (λ b. record { page = p; dirty = b }) (stays_dirty e.dirty)))
  ]

  -- Where `Put` of a dirty page succeeds, the pool shows that page in its place and all others as
  -- before; where it fails, because an eviction failed, it shows all pages as before. Either way it
  -- stays within its capacity, with no page twice and its clean pages equal to those on disk.
  -- The pool must be coherent before, and the page have 4096 bytes.
  pub put-view :
      (s : Cached W) (p : Page)
      → IsCoherent d s
      → IsPage p
      → IsCoherent d (put d.read_disk d.write_disk p true s).1
        × ((j : ℕ)
            → view d (put d.read_disk d.write_disk p true s).1 j
              ≡ after_put (put d.read_disk d.write_disk p true s).0 p j (view d s j))
  put-view s p c is_page =
      let h = put-Writes s p c is_page in
      (h.coherent, λ j. seen (put d.read_disk d.write_disk p true s).0 j h.writes h.fails)
    where
      seen :
          (r : Result PoolError (Unit {0})) (j : ℕ)
          → (r ≡ ok tt
              → (j : ℕ)
              → view d (put d.read_disk d.write_disk p true s).1 j
                ≡ (if p.id == j then p else view d s j))
          → ((r ≡ ok tt → ⊥) → SameView d s (put d.read_disk d.write_disk p true s).1)
          → view d (put d.read_disk d.write_disk p true s).1 j ≡ after_put r p j (view d s j)
      seen (ok tt) j w f = w refl j
      seen (err x) j w f = f (λ h. cc) j
      seen panic j w f = f (λ h. cc) j
      seen stuck j w f = f (λ h. cc) j
