-- ===== src/Kv/Store/Effects.antt =====
-- What a call of the store does: it comes back, and without an error it did this.
use go_db.Base.Exec.{Exec, wrap}
use go_db.Storage.Pool.{PoolError}
use go_db.Kv.Store.{Store, StoreError, on_pager}
use go_db.Base.{
  ℕ, ◌+◌, ◌^◌, ◌<◌, ◌≡◌, ◌≢◌, refl, ap, ◌∙◌, inl, inr, ◌⊎◌, true, false, arith, ◌==◌, ==_iff, leb,
  if◌then◌else◌, Option-cases, Bool-cases,
}
use mathlib.Core.Path.{subst}
use go_db.Base.Result.{Result, ok, err, panic, stuck}
use go_db.Base.Exec.{Exec, wrap, continue, ◌>>=◌}
use go_db.Storage.Page.{Page, IsPage, new_page}
use go_db.Storage.Page.Header.{new_page-IsPage}
use go_db.Storage.Pool.{PoolError, Cached, find_entry, get, put}
use go_db.Storage.Pool.Entries.{find_entry_id}
use go_db.Storage.Pool.View.{Disk, view, IsCoherent}
use go_db.Storage.Pool.Refines.{Reads, get-Reads}
use go_db.Storage.Pool.Returns.{get-IsReturning, put-IsReturning}
use go_db.Storage.Pool.Writes.{Writes, put-Writes}
use go_db.Storage.Pager.{Pager, allocated, allocate_page, read_page, write_page}

-- The call came back; where it succeeded, `P` holds of its value and its state.
abbrev pub After : {E S A : Type 0} → Result E A × S → (A → S → Type 0) → Type 0
After (ok a, s) P = P a s
After (err e, s) P = Unit {0}
After (panic, s) P = Unit {0}
After (stuck, s) P = ⊥

pub After-bind :
    {E S A B : Type 0} (P : A → S → Type 0) (Q : B → S → Type 0) (m : Exec E S A)
    (f : A → Exec E S B) (s : S)
    → After (m s) P
    → ((a : A) (t : S) → P a t → After (f a t) Q)
    → After ((m >>= f) s) Q
After-bind {E} {S} {A} {B} P Q m f s h k = go (m s).0 (m s).1 h
  where
    go : (r : Result E A) (t : S) → After (r, t) P → After (continue r f t) Q
    go (ok a) t h = k a t h
    go (err e) t h = tt
    go panic t h = tt
    go stuck t h = h

pub After-weaken :
    {E S A : Type 0} (P Q : A → S → Type 0) (r : Result E A × S)
    → After r P
    → ((a : A) (t : S) → P a t → Q a t)
    → After r Q
After-weaken P Q (ok a, s) h k = k a s h
After-weaken P Q (err e, s) h k = tt
After-weaken P Q (panic, s) h k = tt
After-weaken P Q (stuck, s) h k = h

inside : (m id n : ℕ) → leb m id ≡ false → m ≡ n → id < n
inside m id n h e = ground arith

module _ {W : Type 0} (d : Disk W) where
  pub view_id : (s : Cached W) (j : ℕ) → (view d s j).id ≡ j
  unfolding view
  view_id s j = elim (Option-cases (find_entry j s.pool.lru)) [
    | inl absent ↦ rw absent (d.slot_id s.world j)
    | inr (e, found) ↦ rw found (find_entry_id j s.pool.lru found)
  ]

  -- The pager shows `v`, over `n` pages.
  pub record Shows (p : Pager W) (v : ℕ → Page) (n : ℕ) : Type 0 where
    pub coherent : IsCoherent d p.cache
    pub pages : (j : ℕ) → view d p.cache j ≡ v j
    pub number : p.num_pages ≡ n

  abbrev pub updated : (ℕ → Page) → Page → ℕ → Page
  updated v page j = if page.id == j then page else v j

  pub updated_at : (v : ℕ → Page) (page : Page) (j : ℕ) → page.id ≡ j → updated v page j ≡ page
  updated_at v page j e = rw ((==_iff page.id j).1 e) refl

  pub updated_ne :
      (v : ℕ → Page) (page : Page) (j : ℕ) → (j < page.id) ⊎ (page.id < j) → updated v page j ≡ v j
  updated_ne v page j h = rw (apart page.id j h) refl
    where
      apart : (a j : ℕ) → (j < a) ⊎ (a < j) → (a == j) ≡ false
      apart a j h = ground arith

  module _ (p : Pager W) (v : ℕ → Page) (n : ℕ) (h : Shows p v n) where
    after_read :
        (id : ℕ) (r : Result PoolError Page) (t : Cached W)
        → id < n
        → r ≢ stuck
        → Reads d p.cache t id r
        → After (r, record p { cache = t }) (λ page q. (page ≡ v id) × Shows q v n × (id < n))
    after_read id (ok page) t lt back k = (
      k.reads page refl ∙ h.pages id,
      record { coherent = k.coherent; pages = λ j. k.same j ∙ h.pages j; number = h.number },
      lt,
    )
    after_read id (err e) t lt back k = tt
    after_read id panic t lt back k = tt
    after_read id stuck t lt back k = absurd (back refl)

    pub read_page-After :
        (id : ℕ)
        → After
            (read_page d.read_disk d.write_disk id p)
            (λ page q. (page ≡ v id) × Shows q v n × (id < n))
    unfolding read_page
    read_page-After id = elim (Bool-cases (leb p.num_pages id)) [
      | inl out ↦ rw out tt
      | inr in_ ↦ rw in_ (
          after_read id (get d.read_disk d.write_disk id p.cache).0
            (get d.read_disk d.write_disk id p.cache).1 (inside p.num_pages id n in_ h.number)
            (get-IsReturning d id p.cache) (get-Reads d p.cache id h.coherent))
    ]

    after_write :
        (page : Page) (r : Result PoolError (Unit {0})) (t : Cached W)
        → page.id < n
        → r ≢ stuck
        → Writes d p.cache t page r
        → After (r, record p { cache = t }) (λ _ q. Shows q (updated v page) n × (page.id < n))
    after_write page (ok tt) t lt back k = (
      record {
        coherent = k.coherent;
        pages = λ j. k.writes refl j ∙ ap (λ x. if page.id == j then page else x) (h.pages j);
        number = h.number;
      },
      lt,
    )
    after_write page (err e) t lt back k = tt
    after_write page panic t lt back k = tt
    after_write page stuck t lt back k = absurd (back refl)

    pub write_page-After :
        (page : Page)
        → IsPage page
        → After
            (write_page d.read_disk d.write_disk page p)
            (λ _ q. Shows q (updated v page) n × (page.id < n))
    unfolding write_page
    write_page-After page is_page = elim (Bool-cases (leb p.num_pages page.id)) [
      | inl out ↦ rw out tt
      | inr in_ ↦ rw in_ (
          after_write page (put d.read_disk d.write_disk page true p.cache).0
            (put d.read_disk d.write_disk page true p.cache).1
            (inside p.num_pages page.id n in_ h.number) (put-IsReturning d page true p.cache)
            (put-Writes d p.cache page h.coherent is_page))
    ]

    after_allocate :
        (r : Result PoolError (Unit {0})) (t : Cached W)
        → p.num_pages + 1 < 2 ^ 32
        → r ≢ stuck
        → Writes d p.cache t (new_page p.num_pages) r
        → After (allocated d.read_disk d.write_disk p.num_pages r t) (λ page q.
          (page ≡ new_page p.num_pages)
          × Shows q (updated v (new_page p.num_pages)) (p.num_pages + 1))
    unfolding allocated
    after_allocate (ok tt) t room back k = (
      refl,
      record {
        coherent = k.coherent;
        pages = λ j.
            k.writes refl j
            ∙ ap (λ x. if (new_page p.num_pages).id == j then new_page p.num_pages else x)
                (h.pages j);
        number = omega arith;
      },
    )
    after_allocate (err e) t room back k = tt
    after_allocate panic t room back k = tt
    after_allocate stuck t room back k = absurd (back refl)

    pub allocate_page-After :
        n + 1 < 2 ^ 32
        → After
            (allocate_page d.read_disk d.write_disk p)
            (λ page q. (page ≡ new_page n) × Shows q (updated v (new_page n)) (n + 1))
    unfolding allocate_page
    allocate_page-After room =
        subst
          (λ k.
            After (allocate_page d.read_disk d.write_disk p)
              (λ page q. (page ≡ new_page k) × Shows q (updated v (new_page k)) (k + 1)))
          h.number
          (after_allocate (put d.read_disk d.write_disk (new_page p.num_pages) true p.cache).0
            (put d.read_disk d.write_disk (new_page p.num_pages) true p.cache).1 (rw h.number room)
            (put-IsReturning d (new_page p.num_pages) true p.cache)
            (put-Writes d p.cache (new_page p.num_pages) h.coherent (new_page-IsPage p.num_pages)))

-- A call of the pager inside the store.
pub on_pager-After :
    {W A : Type 0} (P : A → Pager W → Type 0) (m : Exec PoolError (Pager W) A) (s : Store W)
    → After (m s.pager) P
    → After (on_pager m s) (λ a t. (q : Pager W) × (t ≡ record s { pager = q }) × P a q)
on_pager-After {W} {A} P m s h = go (m s.pager).0 (m s.pager).1 h
  where
    go :
        (r : Result PoolError A) (p : Pager W)
        → After (r, p) P
        → After
            (wrap StoreError.in_pool r, record s { pager = p })
            (λ a t. (q : Pager W) × (t ≡ record s { pager = q }) × P a q)
    go (ok a) p h = (p, refl, h)
    go (err e) p h = tt
    go panic p h = tt
    go stuck p h = h
