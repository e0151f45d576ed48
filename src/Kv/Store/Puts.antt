-- ===== src/Kv/Store/Puts.antt =====
-- `Put` of a store: the log, the pages and the index together.
use go_db.Base.{
  ℕ, ◌+◌, ◌-◌, ◌%◌, ◌^◌, ◌<◌, ◌≡◌, ◌≢◌, refl, sym, ◌∙◌, Bool, true, false, List, [], ◌∷◌, ◌++◌,
  Bytes, length, ltb, if◌then◌else◌,
}
use go_db.Base.Result.{Result, ok, err, panic, stuck}
use go_db.Base.Exec.{continue, ◌>>◌}
use go_db.Storage.Pool.View.{Disk}
use go_db.Kv.Record.{Record, flag_live}
use go_db.Kv.Record.Append.{written}
use go_db.Kv.Snapshot.{append_version}
use go_db.Kv.Wal.{wal_put, wal_record}
use go_db.Kv.Wal
use go_db.Kv.Store.{Store, StoreError, Files, in_log, on_files, set_world, append, log, put}
use go_db.Kv.Store.Effects.{After, After-bind, After-weaken}
use mathlib.Core.Path.{subst}
use go_db.Kv.Store.State.{Quiet, IsStore, IsStore-world}
use go_db.Kv.Store.Indexing.{IndexStep}
use go_db.Kv.Store.Append.{append-IsStore}
use go_db.Kv.Store.Recovery.{Contents}
use go_db.Kv.Store.Rebuild.{contents}
use go_db.Kv.Store.Restoring.{Restores, Restores-live}

-- The index and the versions are those that the records stand for, from `start` on.
abbrev pub IsRecoverable : {W : Type 0} → Contents → Store W → List Record → Type 0
IsRecoverable start s rs = Restores start rs (contents s)

module _ {W : Type 0} (d : Disk W) (f : Files W) (quiet : Quiet d f) where
  -- Only the files behind the pages may differ.
  abbrev pub Logged : Store W → List Record → Store W → Type 0
  Logged s rs t = (w : W) × (t ≡ record s { pager = set_world w s.pager }) × IsStore d t rs

  pub log-Settled :
      (op : ℕ) (key value : Bytes) (s : Store W) (rs : List Record)
      → IsStore d s rs
      → After (log d.read_disk d.write_disk f op key value s) (λ _ t. Logged s rs t)
  unfolding log Wal.append
  log-Settled op key value s rs h = go (ltb (2 ^ 32 - 1) ((length key + length value) % 2 ^ 64))
    where
      synced :
          (r : Result StoreError (Unit {0})) (w : W)
          → r ≢ stuck
          → ((j : ℕ) → d.slot w j ≡ d.slot s.pager.cache.world j)
          → After (r, record s { pager = set_world w s.pager }) (λ _ t. Logged s rs t)
      synced (ok tt) w back same = (w, refl, IsStore-world d s w rs same h)
      synced (err e) w back same = tt
      synced panic w back same = tt
      synced stuck w back same = absurd (back refl)

      wrote :
          (r : Result StoreError (Unit {0})) (w : W)
          → r ≢ stuck
          → ((j : ℕ) → d.slot w j ≡ d.slot s.pager.cache.world j)
          → After
              (
                (continue r (λ _. f.log_sync) w).0,
                record s { pager = set_world (continue r (λ _. f.log_sync) w).1 s.pager },
              )
              (λ _ t. Logged s rs t)
      wrote (ok tt) w back same =
          synced (f.log_sync w).0 (f.log_sync w).1 (quiet.sync_returns w)
            (λ j. quiet.sync_keeps w j ∙ same j)
      wrote (err e) w back same = tt
      wrote panic w back same = tt
      wrote stuck w back same = absurd (back refl)

      go :
          (b : Bool)
          → After
              (on_files
                (if b
                  then (λ w. (err (in_log Wal.record_too_large), w))
                  else (f.log_write (wal_record f.crc32 op key value) >> f.log_sync))
                s)
              (λ _ t. Logged s rs t)
      go true = tt
      go false =
          wrote (f.log_write (wal_record f.crc32 op key value) s.pager.cache.world).0
            (f.log_write (wal_record f.crc32 op key value) s.pager.cache.world).1
            (quiet.write_returns (wal_record f.crc32 op key value) s.pager.cache.world)
            (quiet.write_keeps (wal_record f.crc32 op key value) s.pager.cache.world)

  restored_live :
      (start : Contents) (rs : List Record) (key value : Bytes) (s t : Store W)
      → IsRecoverable start s rs
      → IndexStep true s.index key value t.index
      → t.history ≡ append_version key value flag_live s.history
      → IsRecoverable start t (rs ++ written key value flag_live ∷ [])
  restored_live start rs key value s t k i e =
      subst
        (λ h.
          Restores start (rs ++ written key value flag_live ∷ [])
            (record { index = t.index; history = h }))
        (sym e) (Restores-live (written key value flag_live) t.index k refl i)

  -- `Put` comes back, and where it succeeds on a store that is recoverable, the pages hold one live record
  -- more and the store stays recoverable: its index and its versions are what its records stand
  -- for, where a tombstone deletes its key from the index, any other record puts its value
  -- there, and each adds a version of its key. The pool must be coherent, the ids of two more pages
  -- below 2^32, the calls on the disk, the log and the index file must come back, and those on the
  -- last two must leave the pages alone.
  pub put-IsRecoverable :
      (start : Contents) (key value : Bytes) (s : Store W) (rs : List Record)
      → IsStore d s rs
      → IsRecoverable start s rs
      → s.pager.num_pages + 2 < 2 ^ 32
      → After (put d.read_disk d.write_disk f key value s) (λ _ t.
        IsStore d t (rs ++ written key value flag_live ∷ [])
        × IsRecoverable start t (rs ++ written key value flag_live ∷ []))
  unfolding put
  put-IsRecoverable start key value s rs h k room =
      After-bind (λ _ t. Logged s rs t) (λ _ t. Recovers t)
        (log d.read_disk d.write_disk f wal_put key value)
        (λ _. append d.read_disk d.write_disk f key value flag_live) s
        (log-Settled wal_put key value s rs h)
        (λ _ t l.
          subst
            (λ t.
              After (append d.read_disk d.write_disk f key value flag_live t) (λ _ t. Recovers t))
            (sym l.1)
            (behind (record s { pager = set_world l.0 s.pager })
              (subst (λ t. IsStore d t rs) l.1 l.2) k room))
    where
      Recovers : Store W → Type 0
      Recovers t =
          IsStore d t (rs ++ written key value flag_live ∷ [])
          × IsRecoverable start t (rs ++ written key value flag_live ∷ [])

      behind :
          (t : Store W)
          → IsStore d t rs
          → IsRecoverable start t rs
          → t.pager.num_pages + 2 < 2 ^ 32
          → After (append d.read_disk d.write_disk f key value flag_live t) (λ _ u. Recovers u)
      behind t h k room =
          After-weaken
            (λ _ u.
              IsStore d u (rs ++ written key value flag_live ∷ [])
              × (u.history ≡ append_version key value flag_live t.history)
              × IndexStep true t.index key value u.index)
            (λ _ u. Recovers u) (append d.read_disk d.write_disk f key value flag_live t)
            (append-IsStore d f quiet key value flag_live t rs h room)
            (λ _ u q. (q.0, restored_live start rs key value t u k q.2 q.1))
