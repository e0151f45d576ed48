-- ===== src/Kv/Store/Append.antt =====
-- `append` puts one record behind those of the store.
use go_db.Base.{
  ℕ, ◌+◌, ◌^◌, ◌<◌, ◌≡◌, ◌≢◌, refl, sym, ap, ◌∙◌, inl, inr, List, [], ◌∷◌, ◌++◌, Bytes, arith, ◌==◌,
  if◌then◌else◌,
}
use mathlib.Core.Path.{subst}
use go_db.Base.Result.{Result, ok, err, panic, stuck}
use go_db.Base.Exec.{Exec, pure, wrap, ◌>>=◌, ◌>>◌}
use go_db.Storage.Page.{Page, IsPage, new_page, no_page, next_page_id, set_next_page_id}
use go_db.Storage.Page.Header.{new_page_header, next_page_id-set_next_page_id}
use go_db.Storage.Pool.View.{Disk}
use go_db.Storage.Pager.{Pager, write_page, allocate_page}
use go_db.Kv.Record.{Record, RecordError, flag_live, write_record}
use go_db.Kv.Record.Append.{written}
use go_db.Kv.Record.Pages.{HoldsRecords, new_page-HoldsRecords, write_record-HoldsRecords}
use go_db.Kv.Record.Links.{set_next_page_id-HoldsRecords, write_record_link}
use go_db.Kv.Snapshot.{append_version}
use go_db.Kv.Store.{
  Store, StoreError, Files, lift, on_pager, last_page, append, append_to, index_record, save_index,
  index_put,
}
use go_db.Kv.Store.Chain.{Chain, Chain-append, Chain-extend, new_page_id}
use go_db.Kv.Store.Effects.{
  After, After-bind, Shows, updated, updated_at, updated_ne, view_id, write_page-After,
  allocate_page-After,
}
use go_db.Kv.Store.State.{Quiet, IsStore, holding, IsStore-holding}
use go_db.Kv.Store.Walk.{Ready, last_page-Ready}
use go_db.Kv.Store.Indexing.{IndexStep, Appended, stored_index, spilled_index}
use go_db.Kv.Store.Effects.{on_pager-After}

ok_injective : (p q : Page) → ◌≡◌ {A = Result RecordError Page} (ok p) (ok q) → p ≡ q
ok_injective p q h = cc

write_record-ne-stuck :
    (page : Page) (key value : Bytes) (flag : ℕ) {rs : List Record}
    → HoldsRecords page rs
    → write_record page key value flag ≢ stuck
write_record-ne-stuck page key value flag h e =
    elim (write_record-HoldsRecords page key value flag h) [
      | inl (full, x) ↦ cc (x, e)
      | inr (q, x, k) ↦ cc (x, e)
    ]

holds_written :
    (key value : Bytes) (flag : ℕ) (page page' : Page) (rs : List Record)
    → HoldsRecords page rs
    → write_record page key value flag ≡ ok page'
    → HoldsRecords page' (rs ++ written key value flag ∷ [])
holds_written key value flag page page' rs h e =
    elim (write_record-HoldsRecords page key value flag h) [
      | inl (full, x) ↦ cc (x, e)
      | inr (q, x, k) ↦
          subst (λ p. HoldsRecords p (rs ++ written key value flag ∷ []))
            (ok_injective q page' (sym x ∙ e)) k
    ]

module _ {W : Type 0} (d : Disk W) (f : Files W) (quiet : Quiet d f) (key value : Bytes)
    (flag : ℕ) where
  abbrev put_if_live : Exec StoreError (Store W) (Unit {0})
  put_if_live = if flag == flag_live then index_put key value else pure tt

  -- A page written through the store.
  abbrev Put : Store W → (ℕ → Page) → ℕ → Page → Store W → Type 0
  Put t v n page u =
      (q : Pager W) × (u ≡ record t { pager = q })
      × (Shows d q (updated d v page) n × (page.id < n))

  write-Put :
      (v : ℕ → Page) (n : ℕ) (page : Page) (t : Store W)
      → IsPage page
      → Shows d t.pager v n
      → After (on_pager (write_page d.read_disk d.write_disk page) t) (λ _ u. Put t v n page u)
  write-Put v n page t is_page h =
      on_pager-After (λ _ q. Shows d q (updated d v page) n × (page.id < n))
        (write_page d.read_disk d.write_disk page) t (write_page-After d t.pager v n h page is_page)

  -- The last page of a chain, with its id, its records and its link.
  module _ (s t : Store W) (page : Page) (rs : List Record) (r : Ready d s t page rs) where
    last_id : page.id ≡ r.chain.last
    last_id =
        ap (λ (x : Page). x.id) (r.is_last ∙ sym (r.shows.pages r.chain.last))
        ∙ view_id d r.q.cache r.chain.last

    last_holds : HoldsRecords page r.chain.behind
    last_holds = subst (λ p. HoldsRecords p r.chain.behind) (sym r.is_last) r.chain.holds

    last_ends : next_page_id page ≡ no_page
    last_ends = ap next_page_id r.is_last ∙ r.chain.ends

    stored-Chain :
        (page' : Page)
        → write_record page key value flag ≡ ok page'
        → Chain (updated d r.v page') r.n r.first (rs ++ written key value flag ∷ [])
    stored-Chain page' e =
        let (same_id, same_link) = write_record_link page page' key value flag last_holds e in
        let at : updated d r.v page' r.chain.last ≡ page' =
          updated_at d r.v page' r.chain.last (same_id ∙ last_id) in
        Chain-append r.chain (updated d r.v page')
          (λ j lt. updated_ne d r.v page' j (inl (rw (same_id ∙ last_id) lt)))
          (written key value flag)
          (subst (λ p. HoldsRecords p (r.chain.behind ++ written key value flag ∷ [])) (sym at)
            (holds_written key value flag page page' r.chain.behind last_holds e))
          (ap next_page_id at ∙ same_link ∙ last_ends)

  stored :
      (s t : Store W) (page page' : Page) (rs : List Record)
      → Ready d s t page rs
      → write_record page key value flag ≡ ok page'
      → After
          (append_to d.read_disk d.write_disk f key value flag page (ok page') t)
          (λ _ w. Appended d key value flag s rs w)
  unfolding append_to
  stored s t page page' rs r e =
      subst
        (λ t.
          After (append_to d.read_disk d.write_disk f key value flag page (ok page') t)
            (λ _ w. Appended d key value flag s rs w))
        (sym r.is)
        (After-bind (λ _ u. Put (holding s r.q r.first) r.v r.n page' u)
          (λ _ w. Appended d key value flag s rs w)
          (on_pager (write_page d.read_disk d.write_disk page'))
          (λ _. put_if_live >> save_index d.read_disk d.write_disk f) (holding s r.q r.first)
          (write-Put r.v r.n page' (holding s r.q r.first)
            (holds_written key value flag page page' r.chain.behind (last_holds s t page rs r)
              e).whole
            r.shows)
          (λ _ u k.
            subst
              (λ u.
                After ((put_if_live >> save_index d.read_disk d.write_disk f) u)
                  (λ _ w. Appended d key value flag s rs w))
              (sym k.1)
              (stored_index d f quiet key value flag s (holding s k.0 r.first) rs
                (IsStore-holding d s k.0 r.first r.n (updated d r.v page') _ k.2.0
                  (omega (arith, r.few)) (stored-Chain s t page rs r page' e))
                refl refl)))

  -- The new page of a record that did not fit, and the link to it.
  module _ (s t : Store W) (page : Page) (rs : List Record) (r : Ready d s t page rs) (page' : Page)
      (e : write_record (new_page r.n) key value flag ≡ ok page') where
    abbrev linked : Page
    linked = set_next_page_id page page'.id

    abbrev v1 : ℕ → Page
    v1 = updated d r.v (new_page r.n)

    abbrev v2 : ℕ → Page
    v2 = updated d v1 linked

    abbrev v3 : ℕ → Page
    v3 = updated d v2 page'

    small : r.n < 2 ^ 32
    small = omega (arith, r.few)

    new_id : page'.id ≡ r.n
    new_id =
        (write_record_link (new_page r.n) page' key value flag (new_page-HoldsRecords r.n small)
          e).0
        ∙ new_page_id r.n

    linked_id : linked.id ≡ r.chain.last
    unfolding set_next_page_id
    linked_id = last_id s t page rs r

    at_last : v3 r.chain.last ≡ linked
    at_last =
        updated_ne d v2 page' r.chain.last (inl (rw new_id r.chain.inside))
        ∙ updated_at d v1 linked r.chain.last linked_id

    spilled-Chain : Chain v3 (r.n + 1) r.first (rs ++ written key value flag ∷ [])
    spilled-Chain =
        Chain-extend r.chain v3 before (written key value flag) r.n (r.n + 1) r.chain.inside
          (omega arith)
          (subst (λ p. HoldsRecords p r.chain.behind) (sym at_last)
            (set_next_page_id-HoldsRecords page page'.id (last_holds s t page rs r)))
          (ap next_page_id at_last
            ∙ next_page_id-set_next_page_id page (last_holds s t page rs r).whole page'.id
                (rw new_id small)
            ∙ new_id)
          (subst (λ p. HoldsRecords p (written key value flag ∷ [])) (sym at_new)
            (holds_written key value flag (new_page r.n) page' [] (new_page-HoldsRecords r.n small)
              e))
          (ap next_page_id at_new
            ∙ (write_record_link (new_page r.n) page' key value flag
                (new_page-HoldsRecords r.n small) e).1
            ∙ (new_page_header r.n small).2)
      where
        at_new : v3 r.n ≡ page'
        at_new = updated_at d v2 page' r.n new_id

        before : (j : ℕ) → j < r.chain.last → v3 j ≡ r.v j
        before j lt =
            updated_ne d v2 page' j (inl (rw new_id (omega (arith, r.chain.inside))))
            ∙ updated_ne d v1 linked j (inl (rw linked_id lt))
            ∙ updated_ne d r.v (new_page r.n) j
                (inl (rw new_page_id (omega (arith, r.chain.inside))))

    -- The index behind the second write.
    abbrev finish : Exec StoreError (Store W) (Unit {0})
    finish =
        index_record d.read_disk d.write_disk f key value flag
        >> save_index d.read_disk d.write_disk f

    second_write :
        (q : Pager W)
        → Shows d q v2 (r.n + 1)
        → After
            ((on_pager (write_page d.read_disk d.write_disk page') >> finish) (holding s q r.first))
            (λ _ w. Appended d key value flag s rs w)
    second_write q h =
        After-bind (λ _ u. Put (holding s q r.first) v2 (r.n + 1) page' u)
          (λ _ w. Appended d key value flag s rs w)
          (on_pager (write_page d.read_disk d.write_disk page')) (λ _. finish) (holding s q r.first)
          (write-Put v2 (r.n + 1) page' (holding s q r.first)
            (holds_written key value flag (new_page r.n) page' [] (new_page-HoldsRecords r.n small)
              e).whole
            h)
          (λ _ u k.
            subst (λ u. After (finish u) (λ _ w. Appended d key value flag s rs w)) (sym k.1)
              (spilled_index d f quiet key value flag s (holding s k.0 r.first) rs
                (IsStore-holding d s k.0 r.first (r.n + 1) v3 (rs ++ written key value flag ∷ [])
                  k.2.0 r.few spilled-Chain)
                refl refl))

    first_write :
        (q : Pager W)
        → Shows d q v1 (r.n + 1)
        → After
            ((on_pager (write_page d.read_disk d.write_disk linked)
                >> (on_pager (write_page d.read_disk d.write_disk page') >> finish))
              (holding s q r.first))
            (λ _ w. Appended d key value flag s rs w)
    first_write q h =
        After-bind (λ _ u. Put (holding s q r.first) v1 (r.n + 1) linked u)
          (λ _ w. Appended d key value flag s rs w)
          (on_pager (write_page d.read_disk d.write_disk linked))
          (λ _. on_pager (write_page d.read_disk d.write_disk page') >> finish)
          (holding s q r.first)
          (write-Put v1 (r.n + 1) linked (holding s q r.first)
            (set_next_page_id-HoldsRecords page page'.id (last_holds s t page rs r)).whole h)
          (λ _ u k.
            subst
              (λ u.
                After ((on_pager (write_page d.read_disk d.write_disk page') >> finish) u)
                  (λ _ w. Appended d key value flag s rs w))
              (sym k.1) (second_write k.0 k.2.0))

  module _ (s t : Store W) (page : Page) (rs : List Record) (r : Ready d s t page rs) where
    -- What follows the outcome of writing the record into the new page.
    abbrev in_new : Result RecordError Page → Exec StoreError (Store W) (Unit {0})
    in_new m = lift (wrap StoreError.record_too_large m) >>= λ page'.
        on_pager (write_page d.read_disk d.write_disk (set_next_page_id page page'.id))
        >> (on_pager (write_page d.read_disk d.write_disk page')
            >> (index_record d.read_disk d.write_disk f key value flag
                >> save_index d.read_disk d.write_disk f))

    in_new-After :
        (q : Pager W) (m : Result RecordError Page)
        → write_record (new_page r.n) key value flag ≡ m
        → Shows d q (updated d r.v (new_page r.n)) (r.n + 1)
        → After (in_new m (holding s q r.first)) (λ _ w. Appended d key value flag s rs w)
    in_new-After q (ok page') e h = first_write s t page rs r page' e q h
    in_new-After q (err x) e h = tt
    in_new-After q panic e h = tt
    in_new-After q stuck e h = absurd (
        write_record-ne-stuck (new_page r.n) key value flag
          (new_page-HoldsRecords r.n (omega (arith, r.few))) e)

    spilled :
        (x : RecordError)
        → After
            (append_to d.read_disk d.write_disk f key value flag page (err x) t)
            (λ _ w. Appended d key value flag s rs w)
    unfolding append_to
    spilled x =
        subst
          (λ t.
            After (append_to d.read_disk d.write_disk f key value flag page (err x) t)
              (λ _ w. Appended d key value flag s rs w))
          (sym r.is)
          (After-bind
            (λ empty u.
              (q : Pager W) × (u ≡ holding s q r.first)
              × ((empty ≡ new_page r.n) × Shows d q (updated d r.v (new_page r.n)) (r.n + 1)))
            (λ _ w. Appended d key value flag s rs w)
            (on_pager (allocate_page d.read_disk d.write_disk))
            (λ empty. in_new (write_record empty key value flag)) (holding s r.q r.first)
            (on_pager-After
              (λ empty q.
                (empty ≡ new_page r.n) × Shows d q (updated d r.v (new_page r.n)) (r.n + 1))
              (allocate_page d.read_disk d.write_disk) (holding s r.q r.first)
              (allocate_page-After d r.q r.v r.n r.shows r.few))
            (λ empty u k.
              subst
                (λ u.
                  After (in_new (write_record empty key value flag) u)
                    (λ _ w. Appended d key value flag s rs w))
                (sym k.1)
                (in_new-After k.0 (write_record empty key value flag)
                  (ap (λ p. write_record p key value flag) (sym k.2.0)) k.2.1)))

    placed :
        (m : Result RecordError Page)
        → write_record page key value flag ≡ m
        → After
            (append_to d.read_disk d.write_disk f key value flag page m t)
            (λ _ w. Appended d key value flag s rs w)
    unfolding append_to
    placed (ok page') e = stored s t page page' rs r e
    placed (err x) e = spilled x
    placed panic e = tt
    placed stuck e = absurd (write_record-ne-stuck page key value flag (last_holds s t page rs r) e)

  -- `append` comes back, and where it succeeds, the pages of the store hold the record behind all those that they
  -- held, in the last page or in a new one that the last page links to; the key has the new version;
  -- and the index has the value of a live record, while a tombstone leaves the index alone or takes the
  -- key out of it. The pool must be coherent and the ids of two more pages must be below 2^32.
  pub append-IsStore :
      (s : Store W) (rs : List Record)
      → IsStore d s rs
      → s.pager.num_pages + 2 < 2 ^ 32
      → After (append d.read_disk d.write_disk f key value flag s) (λ _ w.
        IsStore d w (rs ++ written key value flag ∷ [])
        × (w.history ≡ append_version key value flag s.history)
        × IndexStep (flag == flag_live) s.index key value w.index)
  unfolding append
  append-IsStore s rs h room =
      After-bind (λ page t. Ready d (versioned s) t page rs)
        (λ _ w. Appended d key value flag (versioned s) rs w) (last_page d.read_disk d.write_disk f)
        (λ page.
          append_to d.read_disk d.write_disk f key value flag page
            (write_record page key value flag))
        (versioned s)
        (last_page-Ready d f (versioned s) rs
          (record { coherent = h.coherent; few = h.few; chained = h.chained }) room)
        (λ page t r. placed (versioned s) t page rs r (write_record page key value flag) refl)
    where
      versioned : Store W → Store W
      versioned s = record s { history = append_version key value flag s.history }
