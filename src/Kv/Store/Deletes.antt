-- ===== src/Kv/Store/Deletes.antt =====
-- What `Put` and `Delete` of a store do to its pages, whatever its index.
use go_db.Base.{ℕ, ◌+◌, ◌^◌, ◌<◌, sym, List, [], ◌∷◌, ◌++◌, Bytes}
use mathlib.Core.Path.{subst}
use go_db.Base.Exec.{Exec, ◌>>◌}
use go_db.Storage.Pool.View.{Disk}
use go_db.Kv.Record.{Record, flag_live, flag_tombstone}
use go_db.Kv.Record.Append.{written}
use go_db.Kv.Wal.{wal_put, wal_delete}
use go_db.Kv.Store.{
  Store, StoreError, Files, set_world, append, log, put, delete, index_delete, save_index,
}
use go_db.Kv.Store.Effects.{After, After-bind, After-weaken}
use go_db.Kv.Store.State.{Quiet, IsStore}
use go_db.Kv.Store.Append.{append-IsStore}
use go_db.Kv.Store.Indexing.{index_delete-After, save_index-After}
use go_db.Kv.Store.Puts.{Logged, log-Settled}

module _ {W : Type 0} (d : Disk W) (f : Files W) (quiet : Quiet d f) where
  -- One record more.
  abbrev More : List Record → Bytes → Bytes → ℕ → Store W → Type 0
  More rs key value flag t = IsStore d t (rs ++ written key value flag ∷ [])

  appended :
      (key value : Bytes) (flag : ℕ) (t : Store W) (rs : List Record)
      → IsStore d t rs
      → t.pager.num_pages + 2 < 2 ^ 32
      → After (append d.read_disk d.write_disk f key value flag t) (λ _ u. More rs key value flag u)
  appended key value flag t rs h room =
      After-weaken _ (λ _ u. More rs key value flag u)
        (append d.read_disk d.write_disk f key value flag t)
        (append-IsStore d f quiet key value flag t rs h room) (λ _ u q. q.0)

  logged :
      (op : ℕ) (key value : Bytes) (flag : ℕ) (next : Exec StoreError (Store W) (Unit {0}))
      (s : Store W) (rs : List Record)
      → IsStore d s rs
      → s.pager.num_pages + 2 < 2 ^ 32
      → ((t : Store W)
          → IsStore d t rs
          → t.pager.num_pages + 2 < 2 ^ 32
          → After (next t) (λ _ u. More rs key value flag u))
      → After
          ((log d.read_disk d.write_disk f op key value >> next) s)
          (λ _ u. More rs key value flag u)
  logged op key value flag next s rs h room after =
      After-bind (λ _ t. Logged d f quiet s rs t) (λ _ u. More rs key value flag u)
        (log d.read_disk d.write_disk f op key value) (λ _. next) s
        (log-Settled d f quiet op key value s rs h)
        (λ _ t l.
          subst (λ t. After (next t) (λ _ u. More rs key value flag u)) (sym l.1)
            (after (record s { pager = set_world l.0 s.pager })
              (subst (λ t. IsStore d t rs) l.1 l.2) room))

  pub put-IsStore :
      (key value : Bytes) (s : Store W) (rs : List Record)
      → IsStore d s rs
      → s.pager.num_pages + 2 < 2 ^ 32
      → After
          (put d.read_disk d.write_disk f key value s)
          (λ _ t. IsStore d t (rs ++ written key value flag_live ∷ []))
  unfolding put
  put-IsStore key value s rs h room =
      logged wal_put key value flag_live (append d.read_disk d.write_disk f key value flag_live) s
        rs h room (λ t k few. appended key value flag_live t rs k few)

  pub delete-IsStore :
      (key : Bytes) (s : Store W) (rs : List Record)
      → IsStore d s rs
      → s.pager.num_pages + 2 < 2 ^ 32
      → After
          (delete d.read_disk d.write_disk f key s)
          (λ _ t. IsStore d t (rs ++ written key [] flag_tombstone ∷ []))
  unfolding delete
  delete-IsStore key s rs h room =
      logged wal_delete key [] flag_tombstone
        (append d.read_disk d.write_disk f key [] flag_tombstone
          >> (index_delete key >> save_index d.read_disk d.write_disk f))
        s rs h room
        (λ t k few.
          After-bind (λ _ u. Stored u) (λ _ u. Stored u)
            (append d.read_disk d.write_disk f key [] flag_tombstone)
            (λ _. index_delete key >> save_index d.read_disk d.write_disk f) t
            (appended key [] flag_tombstone t rs k few)
            (λ _ u q.
              After-bind (λ _ v. Stored v) (λ _ v. Stored v) (index_delete key)
                (λ _. save_index d.read_disk d.write_disk f) u
                (After-weaken _ (λ _ v. Stored v) (index_delete key u)
                  (index_delete-After d f quiet key u _ q) (λ _ v r. r.0))
                (λ _ v r.
                  After-weaken _ (λ _ w. Stored w) (save_index d.read_disk d.write_disk f v)
                    (save_index-After d f quiet v _ r) (λ _ w x. x.0))))
    where
      Stored : Store W → Type 0
      Stored u = More rs key [] flag_tombstone u
