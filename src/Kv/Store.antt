-- ===== src/Kv/Store.antt =====
-- kv/store.go: a store is a chain of pages with records, an index of the live values, the versions of
-- every key, and a log. The world `W` has the file of the pages, the log and the file of the index; the
-- calls on the last two are parameters. A page is a value here: the source changes the page that the pool
-- holds in place and hands it to `WritePage` right after, which puts the same contents there.
pub mod Chain
pub mod Effects
pub mod State
pub mod Walk
pub mod Indexing
pub mod Append
pub mod Recovery
pub mod Rebuild
pub mod Restoring
pub mod Deletes
pub mod Puts
pub mod Compact
use go_db.Base.{
  ℕ, zero, suc, ◌+◌, Bool, true, false, Option, none, some, List, [], ◌∷◌, Bytes, length, ltb, leb,
  ◌==◌, ◌||◌, ◌&&◌, not, bytes_eq, if◌then◌else◌,
}
use go_db.Base.Result.{Result, ok, err, panic, stuck}
use go_db.Base.Exec.{Exec, pure, continue, wrap, ◌>>=◌, ◌>>◌}
use go_db.Storage.Page.{
  Page, page_size, header_size, no_page, header_id, free_offset, next_page_id, set_next_page_id,
}
use go_db.Storage.Pool.{PoolError, Io}
use go_db.Storage.Pager.{Pager, allocate_page, read_page, write_page, flush_pager}
use go_db.Kv.Record.{Record, RecordError, flag_live, flag_tombstone, write_record, for_records}
use go_db.Kv.Snapshot.{History, append_version}
use go_db.Kv.Btree.{Btree, nil}
use go_db.Kv.Btree
use go_db.Kv.Wal.{WalError, BatchOp, wal_put, wal_delete}
use go_db.Kv.Wal

pub data StoreError : Type 0 where
  in_pool : PoolError → StoreError
  in_record : RecordError → StoreError
  in_log : WalError → StoreError
  -- an error of the operating system in the log or in the file of the index
  in_file : ℕ → StoreError
  record_too_large : RecordError → StoreError
  mismatched_header : ℕ → StoreError
  invalid_free_offset : ℕ → ℕ → StoreError
  nonexistent_next : ℕ → ℕ → StoreError
  index_mismatch : Bytes → StoreError
  active_snapshots : StoreError

pub record Store (W : Type 0) : Type 0 where
  pub pager : Pager W
  pub first_page : ℕ
  pub has_pages : Bool
  pub index : Btree
  pub history : History

-- What the store calls outside the pages: the log, as `file.Write`, `file.Sync` and `clear`, and the
-- file of the index, as what `saveIndex` does with the entries and `loadIndex` brings back.
pub record Files (W : Type 0) : Type 0 where
  pub sync_disk : Exec StoreError W (Unit {0})
  pub log_write : Bytes → Exec StoreError W (Unit {0})
  pub log_sync : Exec StoreError W (Unit {0})
  pub log_clear : Exec StoreError W (Unit {0})
  pub save_entries : List (Bytes × Bytes) → Exec StoreError W (Unit {0})
  -- `none` where the file does not exist
  pub load_entries : Exec StoreError W (Option (List (Bytes × Bytes)))
  pub log_content : Exec StoreError W Bytes
  pub crc32 : Bytes → ℕ

module _ {W : Type 0} where
  -- calls of the pager, of the files and of the index, inside the store
  abbrev pub on_pager : {A : Type 0} → Exec PoolError (Pager W) A → Exec StoreError (Store W) A
  on_pager m s = let (r, p) = m s.pager in (wrap in_pool r, record s { pager = p })

  abbrev pub set_world : W → Pager W → Pager W
  set_world w p = record p { cache = record (p.cache) { world = w } }

  abbrev pub on_files : {A : Type 0} → Exec StoreError W A → Exec StoreError (Store W) A
  on_files m s = let (r, w) = m s.pager.cache.world in (r, record s { pager = set_world w s.pager })

  abbrev pub lift : {A : Type 0} → Result StoreError A → Exec StoreError (Store W) A
  lift r s = (r, s)

  abbrev pub set_index : Btree → Exec StoreError (Store W) (Unit {0})
  set_index t s = (ok tt, record s { index = t })

  abbrev pub set_history : (History → History) → Exec StoreError (Store W) (Unit {0})
  set_history f s = (ok tt, record s { history = f s.history })

  abbrev pub set_first_page : ℕ → Exec StoreError (Store W) (Unit {0})
  set_first_page id s = (ok tt, record s { first_page = id; has_pages = true })

  -- `s.index.put`, `s.index.delete`
  unfoldable pub index_put : Bytes → Bytes → Exec StoreError (Store W) (Unit {0})
  index_put key value = λ s. (lift (Btree.put s.index key value) >>= set_index) s

  unfoldable pub index_delete : Bytes → Exec StoreError (Store W) (Unit {0})
  index_delete key = λ s. (lift (Btree.delete s.index key) >>= λ r. set_index r.1) s

  unfoldable pub get : Bytes → Exec StoreError (Store W) (Option Bytes)
  get key = λ s. lift (Btree.get s.index key) s

module _ {W : Type 0} (read_disk : ℕ → Io W Page) (write_disk : Page → Io W (Unit {0}))
    (f : Files W) where
  abbrev pub allocate : Exec StoreError (Store W) Page
  allocate = on_pager (allocate_page read_disk write_disk)

  abbrev pub read : ℕ → Exec StoreError (Store W) Page
  read id = on_pager (read_page read_disk write_disk id)

  abbrev pub write : Page → Exec StoreError (Store W) (Unit {0})
  write page = on_pager (write_page read_disk write_disk page)

  unfoldable pub save_index : Exec StoreError (Store W) (Unit {0})
  save_index = λ s. (lift (Btree.entries s.index) >>= λ es. on_files (f.save_entries es)) s

  -- The loop of `lastPage`, on fuel.
  unfoldable pub chain_end : ℕ → Page → Exec StoreError (Store W) Page
  chain_end zero page = λ s. (stuck, s)
  chain_end (suc fuel) page = elim (next_page_id page == no_page) [
    | true ↦ pure page
    | false ↦ read (next_page_id page) >>= chain_end fuel
  ]

  unfoldable pub last_page : Exec StoreError (Store W) Page
  last_page s =
      if s.has_pages
      then (read s.first_page >>= chain_end (suc s.pager.num_pages)) s
      else (allocate >>= λ page. set_first_page page.id >> pure page) s

  -- `if flag == flagLive { put } else { delete }`
  unfoldable pub index_record : Bytes → Bytes → ℕ → Exec StoreError (Store W) (Unit {0})
  index_record key value flag = if flag == flag_live then index_put key value else index_delete key

  -- The record has its place in the last page, or else in a new one behind it.
  unfoldable pub append_to :
      Bytes → Bytes → ℕ → Page → Result RecordError Page → Exec StoreError (Store W) (Unit {0})
  append_to key value flag last (ok page) = do
    write page
    if flag == flag_live then index_put key value else pure tt
    save_index
  append_to key value flag last (err e) = do
    empty ← allocate
    page ← lift (wrap record_too_large (write_record empty key value flag))
    write (set_next_page_id last page.id)
    write page
    index_record key value flag
    save_index
  append_to key value flag last panic = lift panic
  append_to key value flag last stuck = lift stuck

  unfoldable pub append : Bytes → Bytes → ℕ → Exec StoreError (Store W) (Unit {0})
  append key value flag = do
    set_history (append_version key value flag)
    last ← last_page
    append_to key value flag last (write_record last key value flag)

  unfoldable pub log : ℕ → Bytes → Bytes → Exec StoreError (Store W) (Unit {0})
  log op key value = on_files (Wal.append f.crc32 in_log f.log_write f.log_sync op key value)

  unfoldable pub put : Bytes → Bytes → Exec StoreError (Store W) (Unit {0})
  put key value = do log wal_put key value; append key value flag_live

  unfoldable pub delete : Bytes → Exec StoreError (Store W) (Unit {0})
  delete key = do log wal_delete key []; append key [] flag_tombstone; index_delete key; save_index

  abbrev pub batch_flag : Bool → ℕ
  batch_flag true = flag_tombstone
  batch_flag false = flag_live

  -- the loop of `ApplyBatch`
  unfoldable pub apply_operations : List BatchOp → Exec StoreError (Store W) (Unit {0})
  apply_operations [] = pure tt
  apply_operations (op ∷ ops) = do
    append op.key op.value (batch_flag op.delete)
    if op.delete then index_delete op.key else pure tt
    apply_operations ops

  unfoldable pub apply_batch : ℕ → List BatchOp → Exec StoreError (Store W) (Unit {0})
  apply_batch id ops = do
    on_files (Wal.append_transaction f.crc32 in_log f.log_write f.log_sync id ops)
    apply_operations ops
    save_index

  -- `order` is the order of the range over the pool's map.
  unfoldable pub flush : List ℕ → Exec StoreError (Store W) (Unit {0})
  flush order = do
    on_pager (flush_pager read_disk write_disk order)
    on_files f.sync_disk
    save_index
    on_files f.log_clear
