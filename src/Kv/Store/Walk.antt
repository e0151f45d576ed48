-- ===== src/Kv/Store/Walk.antt =====
-- The walk to the last page of a store.
use go_db.Base.{
  ℕ, suc, zero, ◌+◌, ◌-◌, ◌^◌, ◌<◌, ◌≡◌, refl, sym, ap, ◌∙◌, Bool, true, false, List, [], arith,
  ◌==◌, ==_iff, if◌then◌else◌,
}
use mathlib.Core.Path.{subst}
use go_db.Base.Exec.{Exec, pure, ◌>>=◌, ◌>>◌}
use go_db.Storage.Page.{Page, new_page, no_page, next_page_id}
use go_db.Storage.Pool.View.{Disk, view}
use go_db.Storage.Pager.{Pager, read_page, allocate_page}
use go_db.Kv.Record.{Record}
use go_db.Kv.Store.{Store, StoreError, Files, on_pager, set_first_page, chain_end, last_page}
use go_db.Kv.Store.Chain.{Run, stop, link, Run-le, Chain, Chain-new_page, new_page_id}
use go_db.Kv.Store.Effects.{
  After, After-bind, After-weaken, Shows, updated, read_page-After, allocate_page-After,
}
use go_db.Kv.Store.State.{IsStore, Chained}
use go_db.Kv.Store.Effects.{on_pager-After}

module _ {W : Type 0} (d : Disk W) where
  -- A store that has a page, with that page at the end of its chain.
  pub record Ready (s t : Store W) (page : Page) (rs : List Record) : Type 0 where
    pub q : Pager W
    pub first : ℕ
    pub is : t ≡ record s { pager = q; first_page = first; has_pages = true }
    pub v : ℕ → Page
    pub n : ℕ
    pub shows : Shows d q v n
    pub few : n + 1 < 2 ^ 32
    pub chain : Chain v n first rs
    pub is_last : page ≡ v chain.last

  module _ (f : Files W) where
    abbrev pub Walked : (ℕ → Page) → ℕ → ℕ → Store W → Page → Store W → Type 0
    Walked v n last s p t =
        (q : Pager W) × (t ≡ record s { pager = q }) × Shows d q v n × (p ≡ v last)

    -- A page read through the store.
    pub read-Walked :
        (v : ℕ → Page) (n id : ℕ) (s : Store W)
        → Shows d s.pager v n
        → After (on_pager (read_page d.read_disk d.write_disk id) s) (Walked v n id s)
    read-Walked v n id s shows =
        After-weaken
          (λ p t.
            (q : Pager W) × (t ≡ record s { pager = q }) × ((p ≡ v id) × Shows d q v n × (id < n)))
          (Walked v n id s) (on_pager (read_page d.read_disk d.write_disk id) s)
          (on_pager-After (λ p q. (p ≡ v id) × Shows d q v n × (id < n))
            (read_page d.read_disk d.write_disk id) s (read_page-After d s.pager v n shows id))
          (λ p t h. (h.0, h.1, h.2.1, h.2.0))

    -- The walk along the chain.
    chain_end-After :
        (fuel : ℕ) (v : ℕ → Page) (n last : ℕ) (id : ℕ) (rs : List Record) (page : Page)
        (s : Store W)
        → Run v last id rs
        → last < fuel + id
        → last < n
        → n < 2 ^ 32
        → next_page_id (v last) ≡ no_page
        → page ≡ v id
        → Shows d s.pager v n
        → After (chain_end d.read_disk d.write_disk f fuel page s) (Walked v n last s)
    unfolding chain_end
    chain_end-After zero v n last id rs page s run enough lt few ends is shows =
        absurd (omega (arith, Run-le run))
    chain_end-After (suc fuel) v n last id rs page s (stop at q) enough lt few ends is shows =
        let same : page ≡ v last = is ∙ ap v at in
        let done : (next_page_id page == no_page) ≡ true =
          (==_iff (next_page_id page) no_page).1 (ap next_page_id same ∙ ends) in
        rw (done, chain_end) (s.pager, refl, shows, same)
    chain_end-After (suc fuel) v n last id rs page s (link {j = j} {rest = rest} less own next r q)
          enough lt few ends is shows =
        let at : next_page_id page ≡ j = ap next_page_id is ∙ next in
        let more : (next_page_id page == no_page) ≡ false =
          apart (next_page_id page) j at (omega (arith, Run-le r)) in
        rw (more, chain_end)
          (After-bind (Walked v n j s) (Walked v n last s)
            (on_pager (read_page d.read_disk d.write_disk (next_page_id page)))
            (chain_end d.read_disk d.write_disk f fuel) s
            (subst
              (λ k.
                After (on_pager (read_page d.read_disk d.write_disk (next_page_id page)) s)
                  (Walked v n k s))
              at (read-Walked v n (next_page_id page) s shows))
            (λ p t h.
              subst (λ u. After (chain_end d.read_disk d.write_disk f fuel p u) (Walked v n last s))
                (sym h.1)
                (chain_end-After fuel v n last j rest p (record s { pager = h.0 }) r
                  (omega (arith, Run-le r)) lt few ends h.3 h.2)))
      where
        apart : (a j : ℕ) → a ≡ j → j < 2 ^ 32 - 1 → (a == no_page) ≡ false
        apart a j e h = ground arith

    abbrev old_page : Store W → Exec StoreError (Store W) Page
    old_page s =
        on_pager (read_page d.read_disk d.write_disk s.first_page)
        >>= chain_end d.read_disk d.write_disk f (suc s.pager.num_pages)

    abbrev fresh_page : Exec StoreError (Store W) Page
    fresh_page = on_pager (allocate_page d.read_disk d.write_disk) >>= λ page.
        set_first_page page.id >> pure page

    module _ (s : Store W) (rs : List Record) (h : IsStore d s rs)
        (room : s.pager.num_pages + 2 < 2 ^ 32) where
      abbrev shown : ℕ → Page
      shown = view d s.pager.cache

      now : Shows d s.pager shown s.pager.num_pages
      now = record { coherent = h.coherent; pages = λ j. refl; number = refl }

      old_page-Ready :
          s.has_pages ≡ true
          → Chain shown s.pager.num_pages s.first_page rs
          → After (old_page s s) (λ page t. Ready s t page rs)
      old_page-Ready e c =
          After-bind (Walked shown s.pager.num_pages s.first_page s) (λ page t. Ready s t page rs)
            (on_pager (read_page d.read_disk d.write_disk s.first_page))
            (chain_end d.read_disk d.write_disk f (suc s.pager.num_pages)) s
            (read-Walked shown s.pager.num_pages s.first_page s now)
            (λ p t k.
              subst
                (λ u.
                  After (chain_end d.read_disk d.write_disk f (suc s.pager.num_pages) p u)
                    (λ page t. Ready s t page rs))
                (sym k.1)
                (After-weaken (Walked shown s.pager.num_pages c.last (record s { pager = k.0 }))
                  (λ page t. Ready s t page rs)
                  (chain_end d.read_disk d.write_disk f (suc s.pager.num_pages) p
                    (record s { pager = k.0 }))
                  (chain_end-After (suc s.pager.num_pages) shown s.pager.num_pages c.last
                    s.first_page c.front p (record s { pager = k.0 }) c.run
                    (omega (arith, c.inside)) c.inside (omega (arith, room)) c.ends k.3 k.2)
                  (λ page u m. record {
                    q = m.0;
                    first = s.first_page;
                    is = m.1 ∙ ap (λ b. record s { pager = m.0; has_pages = b }) e;
                    v = shown;
                    n = s.pager.num_pages;
                    shows = m.2;
                    few = omega (arith, room);
                    chain = c;
                    is_last = m.3;
                  })))

      fresh_page-Ready : rs ≡ [] → After (fresh_page s) (λ page t. Ready s t page rs)
      fresh_page-Ready e =
          After-bind
            (λ page t.
              (q : Pager W) × (t ≡ record s { pager = q })
              × ((page ≡ new_page s.pager.num_pages)
                  × Shows d q (updated d shown (new_page s.pager.num_pages))
                      (s.pager.num_pages + 1)))
            (λ page t. Ready s t page rs) (on_pager (allocate_page d.read_disk d.write_disk))
            (λ page. set_first_page page.id >> pure page) s
            (on_pager-After
              (λ page q.
                (page ≡ new_page s.pager.num_pages)
                × Shows d q (updated d shown (new_page s.pager.num_pages)) (s.pager.num_pages + 1))
              (allocate_page d.read_disk d.write_disk) s
              (allocate_page-After d s.pager shown s.pager.num_pages now (omega (arith, room))))
            (λ page t k. record {
              q = k.0;
              first = s.pager.num_pages;
              is =
                  ap (λ (u : Store W). record u { first_page = page.id; has_pages = true }) k.1
                  ∙ ap (λ a. record s { pager = k.0; first_page = a; has_pages = true })
                      (ap (λ (x : Page). x.id) k.2.0 ∙ new_page_id s.pager.num_pages);
              v = updated d shown (new_page s.pager.num_pages);
              n = s.pager.num_pages + 1;
              shows = k.2.1;
              few = omega (arith, room);
              chain = fresh.0;
              is_last =
                  k.2.0
                  ∙ sym in_place
                  ∙ ap (updated d shown (new_page s.pager.num_pages)) (sym fresh.1);
            })
        where
          in_place :
              updated d shown (new_page s.pager.num_pages) s.pager.num_pages
              ≡ new_page s.pager.num_pages
          in_place =
              rw
                ((==_iff (new_page s.pager.num_pages).id s.pager.num_pages).1
                  (new_page_id s.pager.num_pages))
                refl

          fresh :
              (c : Chain
                (updated d shown (new_page s.pager.num_pages))
                (s.pager.num_pages + 1)
                s.pager.num_pages
                rs)
              × (c.last ≡ s.pager.num_pages)
          fresh =
              Chain-new_page (updated d shown (new_page s.pager.num_pages)) s.pager.num_pages
                (omega (arith, room)) in_place e

      pub last_page-Ready :
          After (last_page d.read_disk d.write_disk f s) (λ page t. Ready s t page rs)
      unfolding last_page
      last_page-Ready = go s.has_pages refl
        where
          go :
              (b : Bool)
              → s.has_pages ≡ b
              → After (last_page d.read_disk d.write_disk f s) (λ page t. Ready s t page rs)
          go true e =
              subst
                (λ b.
                  After (if b then old_page s s else fresh_page s) (λ page t. Ready s t page rs))
                (sym e)
                (old_page-Ready e
                  (subst (λ b. Chained b shown s.pager.num_pages s.first_page rs) e h.chained))
          go false e =
              subst
                (λ b.
                  After (if b then old_page s s else fresh_page s) (λ page t. Ready s t page rs))
                (sym e)
                (fresh_page-Ready
                  (subst (λ b. Chained b shown s.pager.num_pages s.first_page rs) e h.chained))
