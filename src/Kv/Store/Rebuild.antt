-- ===== src/Kv/Store/Rebuild.antt =====
-- What `rebuildIndex` and `rebuildVersions` make of the records of a chain.
use go_db.Kv.Btree
use go_db.Kv.Btree.Returns.{put-ne-stuck, delete-ne-stuck}
use go_db.Base.Returns.{ok-ne-stuck, bind-ne-stuck, if-ne-stuck}
use go_db.Kv.Record.{flag_tombstone}
use mathlib.Core.List.{foldl}
use go_db.Base.{
  ℕ, suc, zero, ◌+◌, ◌-◌, ◌^◌, ◌<◌, ◌≡◌, ◌≢◌, refl, sym, ap, ◌∙◌, true, false, List, [], ◌∷◌, ◌++◌,
  append_assoc, arith, ◌==◌, ==_iff,
}
use mathlib.Core.Path.{subst, fun_ext}
use go_db.Base.Result.{Result, ok, err, panic, stuck}
use go_db.Base.Exec.{Exec, pure, ◌>>=◌, ◌>>◌}
use go_db.Storage.Page.{Page, no_page, next_page_id}
use go_db.Storage.Pool.View.{Disk, view}
use go_db.Storage.Pager.{Pager, read_page}
use go_db.Kv.Record.{Record}
use go_db.Kv.Record.Pages.{HoldsRecords, for_records-HoldsRecords}
use go_db.Kv.Store.{Store, StoreError, Files, on_pager, lift}
use go_db.Kv.Store.Chain.{Run, stop, link, Run-le, Chain}
use go_db.Kv.Store.Effects.{After, After-bind, After-weaken, Shows}
use go_db.Kv.Store.State.{IsStore, Chained}
use go_db.Kv.Store.Walk.{Walked, read-Walked}
use go_db.Kv.Store.Restoring.{Restores, run-Restores}
use go_db.Kv.Store.Recovery.{
  Contents, rebuild_record, set_contents, rebuild_page, rebuild_from, rebuild_index,
}

abbrev pub Body : Type 0
Body = Record → Result StoreError Contents → Result StoreError Contents

-- What a body makes of one record after the other.
abbrev pub run_records :
    Body → List Record → Result StoreError Contents → Result StoreError Contents
run_records body rs m = foldl (λ t r. body r t) m rs

-- A body that comes back behind what comes back.
abbrev pub IsForward : Body → Type 0
IsForward body = (r : Record) (m : Result StoreError Contents) → m ≢ stuck → body r m ≢ stuck

run_records-ne-stuck :
    (body : Body) (rs : List Record) (m : Result StoreError Contents)
    → IsForward body
    → m ≢ stuck
    → run_records body rs m ≢ stuck
run_records-ne-stuck body [] m forward h = h
run_records-ne-stuck body (r ∷ rs) m forward h =
    run_records-ne-stuck body rs (body r m) forward (forward r m h)

rebuild_record-IsForward : IsForward rebuild_record
unfolding rebuild_record
rebuild_record-IsForward r m h = bind-ne-stuck m _ h (λ c.
    bind-ne-stuck _ _
      (if-ne-stuck (r.flag == flag_tombstone) _ _
        (bind-ne-stuck (Btree.delete c.index r.key) _ (delete-ne-stuck c.index r.key)
          (λ x. ok-ne-stuck _))
        (put-ne-stuck c.index r.key r.value))
      (λ i. ok-ne-stuck _))

run_records_append :
    (body : Body) (rs more : List Record) (m : Result StoreError Contents)
    → run_records body (rs ++ more) m ≡ run_records body more (run_records body rs m)
run_records_append body [] more m = refl
run_records_append body (r ∷ rs) more m = run_records_append body rs more (body r m)

abbrev pub contents : {W : Type 0} → Store W → Contents
contents s = record { index = s.index; history = s.history }

module _ {W : Type 0} (d : Disk W) (f : Files W) (body : Body) (forward : IsForward body) where
  -- A store with the pages of `s` and what the records have brought it.
  abbrev Rebuilt : (ℕ → Page) → ℕ → List Record → Store W → Store W → Type 0
  Rebuilt v n rs s t =
      (q : Pager W) × (c : Contents) × (t
        ≡ record s { pager = q; index = c.index; history = c.history })
      × (Shows d q v n × (run_records body rs (ok (contents s)) ≡ ok c))

  -- The records of one page.
  rebuild_page-After :
      (page : Page) (here : List Record) (s : Store W)
      → HoldsRecords page here
      → After (rebuild_page body page s) (λ _ t.
        (c : Contents) × (t ≡ record s { index = c.index; history = c.history })
        × (run_records body here (ok (contents s)) ≡ ok c))
  unfolding rebuild_page
  rebuild_page-After page here s h =
      rw (for_records-HoldsRecords body (ok (contents s)) h)
        (go (run_records body here (ok (contents s))) refl)
    where
      go :
          (m : Result StoreError Contents)
          → run_records body here (ok (contents s)) ≡ m
          → After ((lift m >>= set_contents) s) (λ _ t.
            (c : Contents) × (t ≡ record s { index = c.index; history = c.history })
            × (run_records body here (ok (contents s)) ≡ ok c))
      go (ok c) e = (c, refl, e)
      go (err x) e = tt
      go panic e = tt
      go stuck e =
          absurd
            (run_records-ne-stuck body here (ok (contents s)) forward (ok-ne-stuck (contents s)) e)

  -- A store with these contents over that pager.
  abbrev with_contents : Store W → Pager W → Contents → Store W
  with_contents s q c = record s { pager = q; index = c.index; history = c.history }

  -- One turn of the loop over the pages: the page is read, its records are taken, and the loop goes on.
  turn-After :
      (v : ℕ → Page) (n id : ℕ) (here : List Record)
      (k : Page → Exec StoreError (Store W) (Unit {0})) (s : Store W)
      (Q : Unit {0} → Store W → Type 0)
      → Shows d s.pager v n
      → HoldsRecords (v id) here
      → ((q : Pager W) (c : Contents) (page : Page)
          → page ≡ v id
          → Shows d q v n
          → run_records body here (ok (contents s)) ≡ ok c
          → After (k page (with_contents s q c)) Q)
      → After
          ((on_pager (read_page d.read_disk d.write_disk id) >>= λ page.
              rebuild_page body page >> k page)
            s)
          Q
  turn-After v n id here k s Q shows h next =
      After-bind (Walked d f v n id s) Q (on_pager (read_page d.read_disk d.write_disk id))
        (λ page. rebuild_page body page >> k page) s (read-Walked d f v n id s shows)
        (λ page t w.
          subst (λ t. After ((rebuild_page body page >> k page) t) Q) (sym w.1)
            (After-bind _ Q (rebuild_page body page) (λ _. k page) (record s { pager = w.0 })
              (rebuild_page-After page here (record s { pager = w.0 })
                (subst (λ p. HoldsRecords p here) (sym w.3) h))
              (λ _ u r. subst (λ u. After (k page u) Q) (sym r.1) (next w.0 r.0 page w.3 w.2 r.2))))

  module _ (v : ℕ → Page) (n last : ℕ) (behind : List Record) (inside : last < n) (few : n < 2 ^ 32)
      (holds : HoldsRecords (v last) behind) (ends : next_page_id (v last) ≡ no_page) where
    -- The pages of a run, and the last one.
    rebuild_from-After :
        (fuel id : ℕ) (front : List Record) (s : Store W)
        → Run v last id front
        → last < fuel + id
        → Shows d s.pager v n
        → After
            (rebuild_from d.read_disk d.write_disk f body fuel id s)
            (λ _ t. Rebuilt v n (front ++ behind) s t)
    unfolding rebuild_from
    rebuild_from-After zero id front s run enough shows = absurd (omega (arith, Run-le run))
    rebuild_from-After (suc fuel) id front s (stop at e) enough shows =
        turn-After v n id behind
          (λ page. elim (next_page_id page == no_page) [
            | true ↦ pure tt
            | false ↦ rebuild_from d.read_disk d.write_disk f body fuel (next_page_id page)
          ])
          s (λ _ t. Rebuilt v n (front ++ behind) s t) shows
          (subst (λ k. HoldsRecords (v k) behind) (sym at) holds)
          (λ q c page is sh ran.
            let done : (next_page_id page == no_page) ≡ true =
              (==_iff (next_page_id page) no_page).1 (ap next_page_id (is ∙ ap v at) ∙ ends) in
            rw (done, e) (q, c, refl, (sh, ran)))
    rebuild_from-After (suc fuel) id front s
          (link {j = j} {here = here} {rest = rest} less own next run e) enough shows =
        turn-After v n id here
          (λ page. elim (next_page_id page == no_page) [
            | true ↦ pure tt
            | false ↦ rebuild_from d.read_disk d.write_disk f body fuel (next_page_id page)
          ])
          s (λ _ t. Rebuilt v n (front ++ behind) s t) shows own
          (λ q c page is sh ran.
            let at : next_page_id page ≡ j = ap next_page_id is ∙ next in
            let more : (next_page_id page == no_page) ≡ false =
              apart (next_page_id page) j at (omega (arith, Run-le run)) in
            rw (more, at)
              (After-weaken (λ _ t. Rebuilt v n (rest ++ behind) (with_contents s q c) t)
                (λ _ t. Rebuilt v n (front ++ behind) s t)
                (rebuild_from d.read_disk d.write_disk f body fuel j (with_contents s q c))
                (rebuild_from-After fuel j rest (with_contents s q c) run
                  (omega (arith, Run-le run)) sh)
                (λ _ t r. (
                  r.0,
                  r.1,
                  r.2,
                  (
                    r.3.0,
                    ap (λ l. run_records body (l ++ behind) (ok (contents s))) e
                        ∙ ap (λ l. run_records body l (ok (contents s)))
                            (append_assoc here rest behind)
                        ∙ run_records_append body here (rest ++ behind) (ok (contents s))
                        ∙ ap (run_records body (rest ++ behind)) ran
                        ∙ r.3.1,
                  ),
                ))))
      where
        apart : (a j : ℕ) → a ≡ j → j < 2 ^ 32 - 1 → (a == no_page) ≡ false
        apart a j e h = ground arith

-- A store over a pager that shows the same pages holds the same records.
shown_alike :
    {W : Type 0} (d : Disk W) (s : Store W) (rs : List Record)
    → IsStore d s rs
    → (q : Pager W) (c : Contents) → Shows d q (view d s.pager.cache) s.pager.num_pages
    → IsStore d (record s { pager = q; index = c.index; history = c.history }) rs
shown_alike d s rs h q c sh = record {
  coherent = sh.coherent;
  few = rw sh.number h.few;
  chained =
      subst (λ k. Chained s.has_pages (view d q.cache) k s.first_page rs) (sym sh.number)
        (subst (λ w. Chained s.has_pages w s.pager.num_pages s.first_page rs)
          (fun_ext (λ j. sym (sh.pages j))) h.chained);
}

-- A rebuild of the index over the pages of a store comes back, and where it succeeds it leaves the pages
-- as they are, and makes the index and the versions what the records stand for, in the order in which
-- they were appended: a tombstone deletes its key from the index, any other record puts its value
-- there, and each adds a version of its key. The store must have a page and its pool be coherent.
pub rebuild_index-IsStore :
    {W : Type 0} (d : Disk W) (f : Files W) (s : Store W) (rs : List Record)
    → IsStore d s rs
    → s.has_pages ≡ true
    → After
        (rebuild_index d.read_disk d.write_disk f s)
        (λ _ t. IsStore d t rs × Restores (contents s) rs (contents t))
unfolding rebuild_index
rebuild_index-IsStore d f s rs h e =
    let c : Chain (view d s.pager.cache) s.pager.num_pages s.first_page rs =
      subst (λ b. Chained b (view d s.pager.cache) s.pager.num_pages s.first_page rs) e h.chained in
    After-weaken
      (λ _ t.
        Rebuilt d f rebuild_record rebuild_record-IsForward (view d s.pager.cache) s.pager.num_pages
          (c.front ++ c.behind) s t)
      _
      (rebuild_from d.read_disk d.write_disk f rebuild_record (suc s.pager.num_pages) s.first_page
        s)
      (rebuild_from-After d f rebuild_record rebuild_record-IsForward (view d s.pager.cache)
        s.pager.num_pages c.last c.behind c.inside h.few c.holds c.ends (suc s.pager.num_pages)
        s.first_page c.front s c.run (omega (arith, c.inside))
        (record { coherent = h.coherent; pages = λ j. refl; number = refl }))
      (λ _ t r. (
        subst (λ t. IsStore d t rs) (sym r.2) (shown_alike d s rs h r.0 r.1 r.3.0),
        run-Restores rs (contents s) (contents t) (
            ap (λ l. run_records rebuild_record l (ok (contents s))) c.all
            ∙ r.3.1
            ∙ ap (λ u. ok (contents u)) (sym r.2)),
      ))
