-- ===== src/Kv/Store/Indexing.antt =====
-- The index behind a write to the pages, and its file.
use go_db.Base.{
  ℕ, ◌≡◌, ◌≢◌, refl, sym, ◌∙◌, ◌⊎◌, inl, inr, Bool, true, false, List, [], ◌∷◌, ◌++◌, Bytes, ◌==◌,
  if◌then◌else◌,
}
use mathlib.Core.Path.{subst}
use go_db.Base.Result.{Result, ok, err, panic, stuck}
use go_db.Base.Exec.{pure, continue, ◌>>◌}
use go_db.Storage.Pool.View.{Disk}
use go_db.Kv.Record.{Record, flag_live}
use go_db.Kv.Record.Append.{written}
use go_db.Kv.Btree.{Btree}
use go_db.Kv.Btree
use go_db.Kv.Btree.Returns.{put-ne-stuck, delete-ne-stuck, entries-ne-stuck}
use go_db.Kv.Store.{
  Store, StoreError, Files, on_files, set_world, set_index, index_record, save_index, index_put,
  index_delete,
}
use go_db.Kv.Store.Effects.{After, After-bind, After-weaken}
use go_db.Kv.Store.State.{Quiet, IsStore, IsStore-world, IsStore-index}

-- What the index becomes. A tombstone that fits into the last page leaves it alone, and one that
-- begins a new page does not.
abbrev pub IndexStep : Bool → Btree → Bytes → Bytes → Btree → Type 0
IndexStep true i key value j = Btree.put {E = StoreError} i key value ≡ ok j
IndexStep false i key value j =
    (j ≡ i) ⊎ ((b : Bool) × (Btree.delete {E = StoreError} i key ≡ ok (b, j)))

module _ {W : Type 0} (d : Disk W) (key value : Bytes) (flag : ℕ) where
  abbrev pub Appended : Store W → List Record → Store W → Type 0
  Appended s rs w =
      IsStore d w (rs ++ written key value flag ∷ [])
      × (w.history ≡ s.history)
      × IndexStep (flag == flag_live) s.index key value w.index

module _ {W : Type 0} (d : Disk W) (f : Files W) (quiet : Quiet d f) where
  -- What is left of `u` where only the pages and the files may differ.
  abbrev pub Settled : Store W → List Record → Store W → Type 0
  Settled u rs w = IsStore d w rs × (w.index ≡ u.index) × (w.history ≡ u.history)

  pub save_index-After :
      (u : Store W) (rs : List Record)
      → IsStore d u rs
      → After (save_index d.read_disk d.write_disk f u) (λ _ w. Settled u rs w)
  unfolding save_index
  save_index-After u rs h = go (Btree.entries u.index) (entries-ne-stuck u.index)
    where
      go :
          (r : Result StoreError (List (Bytes × Bytes)))
          → r ≢ stuck
          → After (continue r (λ es. on_files (f.save_entries es)) u) (λ _ w. Settled u rs w)
      go (ok es) back =
          saved (f.save_entries es u.pager.cache.world).0 (f.save_entries es u.pager.cache.world).1
            (quiet.save_returns es u.pager.cache.world) (quiet.save_keeps es u.pager.cache.world)
        where
          saved :
              (r : Result StoreError (Unit {0})) (w : W)
              → r ≢ stuck
              → ((j : ℕ) → d.slot w j ≡ d.slot u.pager.cache.world j)
              → After (r, record u { pager = set_world w u.pager }) (λ _ w. Settled u rs w)
          saved (ok tt) w back same = (IsStore-world d u w rs same h, refl, refl)
          saved (err e) w back same = tt
          saved panic w back same = tt
          saved stuck w back same = absurd (back refl)
      go (err e) back = tt
      go panic back = tt
      go stuck back = absurd (back refl)

  index_put-After :
      (key value : Bytes) (u : Store W) (rs : List Record)
      → IsStore d u rs
      → After (index_put key value u) (λ _ w.
        IsStore d w rs
        × (Btree.put {E = StoreError} u.index key value ≡ ok w.index)
        × (w.history ≡ u.history))
  unfolding index_put
  index_put-After key value u rs h =
      go (Btree.put u.index key value) refl (put-ne-stuck u.index key value)
    where
      go :
          (r : Result StoreError Btree)
          → Btree.put u.index key value ≡ r
          → Btree.put {E = StoreError} u.index key value ≢ stuck
          → After (continue r set_index u) (λ _ w.
            IsStore d w rs
            × (Btree.put {E = StoreError} u.index key value ≡ ok w.index)
            × (w.history ≡ u.history))
      go (ok i) e back = (IsStore-index d u i rs h, e, refl)
      go (err x) e back = tt
      go panic e back = tt
      go stuck e back = absurd (back e)

  pub index_delete-After :
      (key : Bytes) (u : Store W) (rs : List Record)
      → IsStore d u rs
      → After (index_delete key u) (λ _ w.
        IsStore d w rs
        × ((b : Bool) × (Btree.delete {E = StoreError} u.index key ≡ ok (b, w.index)))
        × (w.history ≡ u.history))
  unfolding index_delete
  index_delete-After key u rs h = go (Btree.delete u.index key) refl (delete-ne-stuck u.index key)
    where
      go :
          (r : Result StoreError (Bool × Btree))
          → Btree.delete u.index key ≡ r
          → Btree.delete {E = StoreError} u.index key ≢ stuck
          → After (continue r (λ r. set_index r.1) u) (λ _ w.
            IsStore d w rs
            × ((b : Bool) × (Btree.delete {E = StoreError} u.index key ≡ ok (b, w.index)))
            × (w.history ≡ u.history))
      go (ok (b, i)) e back = (IsStore-index d u i rs h, (b, e), refl)
      go (err x) e back = tt
      go panic e back = tt
      go stuck e back = absurd (back e)

  module _ (key value : Bytes) (flag : ℕ) where
    settles :
        (s u : Store W) (rs : List Record)
        → Appended d key value flag s rs u
        → After (save_index d.read_disk d.write_disk f u) (λ _ w. Appended d key value flag s rs w)
    settles s u rs p =
        After-weaken (λ _ w. Settled u (rs ++ written key value flag ∷ []) w)
          (λ _ w. Appended d key value flag s rs w) (save_index d.read_disk d.write_disk f u)
          (save_index-After u (rs ++ written key value flag ∷ []) p.0)
          (λ _ w k.
            (k.0, k.2 ∙ p.1, subst (IndexStep (flag == flag_live) s.index key value) (sym k.1) p.2))

    module _ (s u : Store W) (rs : List Record)
        (h : IsStore d u (rs ++ written key value flag ∷ [])) (i : u.index ≡ s.index)
        (e : u.history ≡ s.history) where
      abbrev Stepped : Bool → Store W → Type 0
      Stepped b w =
          IsStore d w (rs ++ written key value flag ∷ [])
          × (w.history ≡ s.history)
          × IndexStep b s.index key value w.index

      put_step : After (index_put key value u) (λ _ w. Stepped true w)
      put_step =
          After-weaken _ (λ _ w. Stepped true w) (index_put key value u)
            (index_put-After key value u (rs ++ written key value flag ∷ []) h)
            (λ _ w k. (
              k.0,
              k.2 ∙ e,
              subst (λ x. Btree.put {E = StoreError} x key value ≡ ok w.index) i k.1,
            ))

      delete_step : After (index_delete key u) (λ _ w. Stepped false w)
      delete_step =
          After-weaken _ (λ _ w. Stepped false w) (index_delete key u)
            (index_delete-After key u (rs ++ written key value flag ∷ []) h)
            (λ _ w k. (
              k.0,
              k.2 ∙ e,
              inr (
                  subst (λ x. (b : Bool) × (Btree.delete {E = StoreError} x key ≡ ok (b, w.index)))
                    i k.1),
            ))

      put_step_if :
          (b : Bool) → After ((if b then index_put key value else pure tt) u) (λ _ w. Stepped b w)
      put_step_if true = put_step
      put_step_if false = (h, e, inl i)

      step_if :
          (b : Bool)
          → After ((if b then index_put key value else index_delete key) u) (λ _ w. Stepped b w)
      step_if true = put_step
      step_if false = delete_step

      pub stored_index :
          After
            (((if flag == flag_live then index_put key value else pure tt)
                >> save_index d.read_disk d.write_disk f)
              u)
            (λ _ w. Appended d key value flag s rs w)
      stored_index =
          After-bind (λ _ w. Appended d key value flag s rs w)
            (λ _ w. Appended d key value flag s rs w)
            (if flag == flag_live then index_put key value else pure tt)
            (λ _. save_index d.read_disk d.write_disk f) u (put_step_if (flag == flag_live))
            (λ _ w p. settles s w rs p)

      pub spilled_index :
          After
            ((index_record d.read_disk d.write_disk f key value flag
                >> save_index d.read_disk d.write_disk f)
              u)
            (λ _ w. Appended d key value flag s rs w)
      unfolding index_record
      spilled_index =
          After-bind (λ _ w. Appended d key value flag s rs w)
            (λ _ w. Appended d key value flag s rs w)
            (index_record d.read_disk d.write_disk f key value flag)
            (λ _. save_index d.read_disk d.write_disk f) u (step_if (flag == flag_live))
            (λ _ w p. settles s w rs p)
