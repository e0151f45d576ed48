-- ===== src/Kv/Store/Recovery.antt =====
-- `Open` of kv/store.go: the checks of every page, the index from its file or from the records, and the
-- replay of the log. Closing the files on an error is the operating system's.
use go_db.Base.{
  ℕ, zero, suc, Bool, true, false, none, some, List, [], ◌∷◌, Bytes, bytes_eq, ltb, leb, ◌==◌, ◌||◌,
  ◌&&◌, not, if◌then◌else◌,
}
use go_db.Base.Result.{Result, ok, err, panic, stuck}
use go_db.Base.Result
use go_db.Base.Exec.{Exec, pure, wrap, ◌>>=◌, ◌>>◌}
use go_db.Storage.Page.{Page, page_size, header_size, no_page, header_id, free_offset, next_page_id}
use go_db.Storage.Pool.{Io}
use go_db.Storage.Pager.{Pager}
use go_db.Kv.Record.{Record, RecordError, flag_live, flag_tombstone, for_records}
use go_db.Kv.Snapshot.{History, append_version}
use go_db.Kv.Btree.{Btree, nil}
use go_db.Kv.Btree
use go_db.Kv.Wal.{wal_put, wal_delete}
use go_db.Kv.Wal
use go_db.Kv.Store.{
  Store, StoreError, Files, in_record, in_log, mismatched_header, invalid_free_offset,
  nonexistent_next, index_mismatch, lift, on_files, set_index, set_first_page, read, append,
  save_index, get,
}

-- The fields of a store that the records determine.
pub record Contents : Type 0 where
  pub index : Btree
  pub history : History

-- The body of the loop of `rebuildIndex`, and that of `rebuildVersions`, behind the outcome of those
-- before it.
unfoldable pub rebuild_record : Record → Result StoreError Contents → Result StoreError Contents
rebuild_record r m = Result.◌>>=◌ m (λ c.
    Result.◌>>=◌
      (if r.flag == flag_tombstone
        then Result.◌>>=◌ (Btree.delete c.index r.key) (λ d. ok d.1)
        else Btree.put c.index r.key r.value)
      (λ i. ok (record { index = i; history = append_version r.key r.value r.flag c.history })))

unfoldable pub version_record : Record → Result StoreError Contents → Result StoreError Contents
version_record r m =
    Result.◌>>=◌ m (λ c.
      ok (record { index = c.index; history = append_version r.key r.value r.flag c.history }))

abbrev pub joined : Result RecordError (Result StoreError Contents) → Result StoreError Contents
joined (ok m) = m
joined (err e) = err (in_record e)
joined panic = panic
joined stuck = stuck

module _ {W : Type 0} where
  abbrev pub set_contents : Contents → Exec StoreError (Store W) (Unit {0})
  set_contents c s = (ok tt, record s { index = c.index; history = c.history })

  -- what `Open` makes of the pager
  abbrev pub new_store : Pager W → Store W
  new_store p = record {
    pager = p;
    first_page = 0;
    has_pages = false;
    index = nil;
    history = record { seq = 0; versions = []; active_snapshots = 0 };
  }

  -- The records of one page.
  unfoldable pub rebuild_page :
      (Record → Result StoreError Contents → Result StoreError Contents)
      → Page
      → Exec StoreError (Store W) (Unit {0})
  rebuild_page body page = λ s.
      (lift (
            joined (
              for_records (suc page_size) body page.bytes header_size (free_offset page)
                (ok (record { index = s.index; history = s.history }))))
          >>= set_contents)
        s

module _ {W : Type 0} (read_disk : ℕ → Io W Page) (write_disk : Page → Io W (Unit {0}))
    (f : Files W) where
  -- The loop over the pages from `id` on, on fuel.
  unfoldable pub rebuild_from :
      (Record → Result StoreError Contents → Result StoreError Contents)
      → ℕ
      → ℕ
      → Exec StoreError (Store W) (Unit {0})
  rebuild_from body zero id = λ s. (stuck, s)
  rebuild_from body (suc fuel) id = read read_disk write_disk f id >>= λ page.
      rebuild_page body page >> elim (next_page_id page == no_page) [
        | true ↦ pure tt
        | false ↦ rebuild_from body fuel (next_page_id page)
      ]

  unfoldable pub rebuild_index : Exec StoreError (Store W) (Unit {0})
  rebuild_index s = rebuild_from rebuild_record (suc s.pager.num_pages) s.first_page s

  unfoldable pub rebuild_versions : Exec StoreError (Store W) (Unit {0})
  rebuild_versions s = rebuild_from version_record (suc s.pager.num_pages) s.first_page s

  -- The checks of `validatePages` on one page, in a file of `n` pages.
  unfoldable pub validate_page : ℕ → ℕ → Page → Result StoreError (Unit {0})
  validate_page n id page =
      let free = free_offset page in
      let next = next_page_id page in
      if not (header_id page == id)
      then err (mismatched_header id)
      else if ltb free header_size || ltb page_size free
      then err (invalid_free_offset id free)
      else if not (next == no_page) && leb n next
      then err (nonexistent_next id next)
      else wrap in_record (for_records (suc page_size) (λ r t. t) page.bytes header_size free tt)

  -- The pages from `id` on, as many as `count`.
  unfoldable pub validate_from : ℕ → ℕ → Exec StoreError (Store W) (Unit {0})
  validate_from zero id = pure tt
  validate_from (suc count) id = do
    page ← read read_disk write_disk f id
    λ s. lift (validate_page s.pager.num_pages id page) s
    validate_from count (suc id)

  unfoldable pub validate_pages : Exec StoreError (Store W) (Unit {0})
  validate_pages s = validate_from s.pager.num_pages 0 s

  unfoldable pub load_index : Exec StoreError (Store W) Bool
  load_index = on_files f.load_entries >>= λ o. elim o [
    | none ↦ pure false
    | some es ↦ λ s. (lift (Btree.put_all es s.index) >>= λ i. set_index i >> pure true) s
  ]

  -- `map[byte]byte{...}[op]`, zero at a missing key
  abbrev pub flag_of : ℕ → ℕ
  flag_of op = if op == wal_delete then flag_tombstone else flag_live

  unfoldable pub apply_logged : ℕ → Bytes → Bytes → Exec StoreError (Store W) (Unit {0})
  apply_logged op key value = append read_disk write_disk f key value (flag_of op)

  unfoldable pub recover_index : Bool → Exec StoreError (Store W) (Unit {0})
  recover_index true = λ s. (if ltb 0 s.pager.num_pages then rebuild_versions else pure tt) s
  recover_index false =
      λ s. (if ltb 0 s.pager.num_pages then (set_first_page 0 >> rebuild_index) else pure tt) s

  -- `Open` behind the opening of the files and the making of the store.
  unfoldable pub open_store : Exec StoreError (Store W) (Unit {0})
  open_store = do
    validate_pages
    loaded ← load_index
    content ← on_files f.log_content
    Wal.replay f.crc32 in_log apply_logged content
    recover_index loaded
    if loaded then pure tt else save_index read_disk write_disk f

  -- the loop of `CheckInvariants` over the entries of the index
  unfoldable pub check_entries : List (Bytes × Bytes) → Exec StoreError (Store W) (Unit {0})
  check_entries [] = pure tt
  check_entries ((key, value) ∷ es) = get key >>= λ o.
      lift (elim o [
        | none ↦ err (index_mismatch key)
        | some v ↦ if bytes_eq v value then ok tt else err (index_mismatch key)
      ])
      >> check_entries es

  unfoldable pub check_invariants : Exec StoreError (Store W) (Unit {0})
  check_invariants = do validate_pages; es ← λ s. lift (Btree.entries s.index) s; check_entries es
