-- ===== src/Kv/Store/State.antt =====
-- The pages of a store: what they hold, and what leaves them alone.
use go_db.Base.{ℕ, ◌^◌, ◌<◌, ◌≡◌, refl, sym, Bool, true, false, List, [], Bytes}
use mathlib.Core.Path.{subst, fun_ext}
use go_db.Base.Returns.{IsReturning}
use go_db.Storage.Page.{Page}
use go_db.Storage.Pool.Refines.{moved-IsCoherent, moved-SameView}
use go_db.Storage.Pool.View.{Disk, view, IsCoherent}
use go_db.Storage.Pager.{Pager}
use go_db.Kv.Record.{Record}
use go_db.Kv.Btree.{Btree}
use go_db.Kv.Store.{Store, Files, set_world}
use go_db.Kv.Store.Chain.{Chain}
use go_db.Kv.Store.Effects.{Shows}

-- The calls on the files beside the pages come back, and leave the pages alone.
pub record Quiet {W : Type 0} (d : Disk W) (f : Files W) : Type 0 where
  pub save_returns : (es : List (Bytes × Bytes)) → IsReturning (f.save_entries es)
  pub write_returns : (b : Bytes) → IsReturning (f.log_write b)
  pub sync_returns : IsReturning (f.log_sync)
  pub save_keeps :
      (es : List (Bytes × Bytes)) (w : W) (j : ℕ) → d.slot (f.save_entries es w).1 j ≡ d.slot w j
  pub write_keeps : (b : Bytes) (w : W) (j : ℕ) → d.slot (f.log_write b w).1 j ≡ d.slot w j
  pub sync_keeps : (w : W) (j : ℕ) → d.slot (f.log_sync w).1 j ≡ d.slot w j

-- The records of a store, none where it has no page yet.
abbrev pub Chained : Bool → (ℕ → Page) → ℕ → ℕ → List Record → Type 0
Chained true v n first rs = Chain v n first rs
Chained false v n first rs = rs ≡ []

abbrev pub holding : {W : Type 0} → Store W → Pager W → ℕ → Store W
holding s q first = record s { pager = q; first_page = first; has_pages = true }

module _ {W : Type 0} (d : Disk W) where
  -- The pages of the store hold these records, over a coherent pool.
  pub record IsStore (s : Store W) (rs : List Record) : Type 0 where
    pub coherent : IsCoherent d s.pager.cache
    pub few : s.pager.num_pages < 2 ^ 32
    pub chained : Chained s.has_pages (view d s.pager.cache) s.pager.num_pages s.first_page rs

  pub IsStore-world :
      (u : Store W) (w : W) (rs : List Record)
      → ((j : ℕ) → d.slot w j ≡ d.slot u.pager.cache.world j)
      → IsStore u rs
      → IsStore (record u { pager = set_world w u.pager }) rs
  IsStore-world u w rs same h = record {
    coherent =
        moved-IsCoherent d u.pager.cache (record (u.pager.cache) { world = w }) refl refl same
          h.coherent;
    few = h.few;
    chained =
        subst (λ v. Chained u.has_pages v u.pager.num_pages u.first_page rs)
          (fun_ext (λ j.
            sym
              (moved-SameView d u.pager.cache (record (u.pager.cache) { world = w }) refl same j)))
          h.chained;
  }

  -- The index and the history are no part of the pages.
  pub IsStore-index :
      (u : Store W) (i : Btree) (rs : List Record)
      → IsStore u rs
      → IsStore (record u { index = i }) rs
  IsStore-index u i rs h = record { coherent = h.coherent; few = h.few; chained = h.chained }

  pub IsStore-holding :
      (s : Store W) (q : Pager W) (first n : ℕ) (v : ℕ → Page) (rs : List Record)
      → Shows d q v n
      → n < 2 ^ 32
      → Chain v n first rs
      → IsStore (holding s q first) rs
  IsStore-holding s q first n v rs h few c = record {
    coherent = h.coherent;
    few = rw h.number few;
    chained =
        subst (λ k. Chain (view d q.cache) k first rs) (sym h.number)
          (subst (λ w. Chain w n first rs) (fun_ext (λ j. sym (h.pages j))) c);
  }
