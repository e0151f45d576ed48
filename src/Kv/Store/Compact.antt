-- ===== src/Kv/Store/Compact.antt =====
-- `Compact` of kv/store.go: one record for each entry of the index, in a new file that takes the place of the
-- old one. The calls of the operating system are parameters: the new file, the exchange of the files, and
-- the size of a file.
use go_db.Base.{ℕ, Bool, true, false, Option, none, some, List, [], ◌∷◌, Bytes, ltb, if◌then◌else◌}
use go_db.Base.Result.{Result, ok, err, panic, stuck}
use go_db.Base.Exec.{Exec, pure, wrap, ◌>>=◌, ◌>>◌}
use go_db.Storage.Page.{Page, set_next_page_id}
use go_db.Storage.Pool.{PoolError, Io}
use go_db.Storage.Pager.{Pager, OpenError, open_pager, allocate_page, write_page, flush_pager}
use go_db.Kv.Record.{RecordError, flag_live, write_record}
use go_db.Kv.Btree
use go_db.Kv.Store.{
  Store, StoreError, Files, in_pool, in_record, in_file, active_snapshots, lift, on_files,
}

module _ {W : Type 0} (read_disk : ℕ → Io W Page) (write_disk : Page → Io W (Unit {0})) where
  abbrev in_new : {A : Type 0} → Exec PoolError (Pager W) A → Exec StoreError (Pager W) A
  in_new m p = let (r, q) = m p in (wrap in_pool r, q)

  abbrev put_record : Page → Bytes → Bytes → Exec StoreError (Pager W) Page
  put_record page key value p = (wrap in_record (write_record page key value flag_live), p)

  -- the record in the last page, or in a new one behind it
  abbrev place : Bytes → Bytes → Page → Result RecordError Page → Exec StoreError (Pager W) Page
  place key value last (ok page) = pure page
  place key value last (err e) = do
    next ← in_new (allocate_page read_disk write_disk)
    in_new (write_page read_disk write_disk (set_next_page_id last next.id))
    put_record next key value
  place key value last panic = λ p. (panic, p)
  place key value last stuck = λ p. (stuck, p)

  abbrev place_in : Bytes → Bytes → Page → Exec StoreError (Pager W) Page
  place_in key value last = place key value last (write_record last key value flag_live)

  -- `if last == nil`
  abbrev last_or_new : Option Page → Exec StoreError (Pager W) Page
  last_or_new none = in_new (allocate_page read_disk write_disk)
  last_or_new (some page) = pure page

  -- The loop over the entries, with the last page so far. A page is written when the next one begins.
  unfoldable pub compact_entries :
      List (Bytes × Bytes) → Option Page → Exec StoreError (Pager W) (Option Page)
  compact_entries [] last = pure last
  compact_entries ((key, value) ∷ es) last = do
    page ← last_or_new last
    placed ← place_in key value page
    compact_entries es (some placed)

  abbrev write_last : Option Page → Exec StoreError (Pager W) (Unit {0})
  write_last none = pure tt
  write_last (some page) = in_new (write_page read_disk write_disk page)

  abbrev is_some : {A : Type 0} → Option A → Bool
  is_some none = false
  is_some (some a) = true

  -- The pages of the new file, and whether it has any. `order` is the order of the flush.
  unfoldable pub new_file : List ℕ → List (Bytes × Bytes) → Exec StoreError (Pager W) Bool
  new_file order es = do
    last ← compact_entries es none
    write_last last
    in_new (flush_pager read_disk write_disk order)
    pure (is_some last)

  module _ (f : Files W) (file_size : W → ℕ) (exchange : W → Exec StoreError W (Unit {0})) where
    -- the store on the file that `storage.Open` found
    abbrev reopened : Bool → Result OpenError (Pager W) → Exec StoreError (Store W) (Unit {0})
    reopened has (ok p) s = (ok tt, record s { pager = p; first_page = 0; has_pages = has })
    reopened has (err e) s = (err (in_file 0), s)
    reopened has panic s = (panic, s)
    reopened has stuck s = (stuck, s)

    abbrev reopen : Bool → Exec StoreError (Store W) (Unit {0})
    reopen has s = reopened has (open_pager (file_size s.pager.cache.world) s.pager.cache.world) s

    abbrev made_pager : Result OpenError (Pager W) → Result StoreError (Pager W)
    made_pager (ok p) = ok p
    made_pager (err e) = err (in_file 0)
    made_pager panic = panic
    made_pager stuck = stuck

    -- the new file made on its own files `w`
    abbrev build :
        List ℕ → List (Bytes × Bytes) → Result StoreError (Pager W) → Result StoreError (Bool × W)
    build order es (ok p) = ((new_file order es >>= λ has q. (ok (has, q.cache.world), q)) p).0
    build order es (err e) = err e
    build order es panic = panic
    build order es stuck = stuck

    unfoldable pub compact : List ℕ → Result StoreError W → Exec StoreError (Store W) (Unit {0})
    compact order temp = λ s.
        if ltb 0 s.history.active_snapshots
        then (err active_snapshots, s)
        else (do
          w ← lift temp
          es ← lift (Btree.entries s.index)
          built ← lift (build order es (made_pager (open_pager 0 w)))
          on_files (exchange built.1)
          reopen built.0
          on_files f.log_clear)
            s
