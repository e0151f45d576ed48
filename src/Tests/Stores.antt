-- ===== src/Tests/Stores.antt =====
-- A store over a file: an empty one, and one with a page of one record.
use go_db.Base.{◌≡◌, refl, sym, ap, ◌∙◌, true, none, [], ◌∷◌, ◌++◌, Bytes, arith, ◌==◌}
use go_db.Base.Result.{ok}
use go_db.Base.Returns.{ok-ne-stuck}
use go_db.Storage.Page.{next_page_id}
use go_db.Storage.Pool.{Cached, find_entry}
use go_db.Storage.Pool.View.{IsCoherent, view}
use go_db.Kv.Record.{flag_live}
use mathlib.Core.Path.{subst}
use go_db.Kv.Record.Pages.{HoldsRecords}
use go_db.Kv.Record.Append.{written}
use go_db.Kv.Snapshot.{append_version}
use go_db.Kv.Btree.{nil}
use go_db.Kv.Store.{Store, Files, append, put}
use go_db.Kv.Store.Chain.{stop}
use go_db.Kv.Store.Effects.{After}
use go_db.Kv.Store.State.{Quiet, IsStore}
use go_db.Kv.Store.Indexing.{IndexStep}
use go_db.Kv.Store.Append.{append-IsStore}
use go_db.Kv.Store.Recovery.{rebuild_index, new_store}
use go_db.Kv.Store.Rebuild.{contents, rebuild_index-IsStore}
use go_db.Kv.Store.Puts.{IsRecoverable, put-IsRecoverable}
use go_db.Storage.Pager.File.{file_disk}
use go_db.Kv.Store.Restoring.{Restores, done}
use go_db.Tests.Pages.{key_record, one_page, one_page_id, one_page_ends, one_page-HoldsRecords}

-- A log and an index file that keep nothing.
abbrev pub silent : Files Bytes
silent = record {
  sync_disk = λ w. (ok tt, w);
  log_write = λ b w. (ok tt, w);
  log_sync = λ w. (ok tt, w);
  log_clear = λ w. (ok tt, w);
  save_entries = λ es w. (ok tt, w);
  load_entries = λ w. (ok none, w);
  log_content = λ w. (ok [], w);
  crc32 = λ b. 7;
}

pub silent-Quiet : Quiet file_disk silent
silent-Quiet = record {
  save_returns = λ es w. ok-ne-stuck tt;
  write_returns = λ b w. ok-ne-stuck tt;
  sync_returns = λ w. ok-ne-stuck tt;
  save_keeps = λ es w j. refl;
  write_keeps = λ b w j. refl;
  sync_keeps = λ w j. refl;
}

abbrev pub empty_cache : Bytes → Cached Bytes
empty_cache w = record {
  pool = record { capacity = 64; lru = []; hits = 0; misses = 0 };
  world = w;
}

empty_cache-IsCoherent : (w : Bytes) → IsCoherent file_disk (empty_cache w)
unfolding find_entry
empty_cache-IsCoherent w = record {
  cap_pos = omega arith;
  bounded = omega arith;
  distinct = tt;
  whole = λ j e h. cc;
  clean = λ j e h x. cc;
}

abbrev pub empty_store : Store Bytes
empty_store = new_store (record { num_pages = 0; cache = empty_cache [] })

pub empty_store-IsStore : IsStore file_disk empty_store []
empty_store-IsStore = record {
  coherent = empty_cache-IsCoherent [];
  few = omega arith;
  chained = refl;
}

append-IsStore_example :
    After
      (append file_disk.read_disk file_disk.write_disk silent
        (107 ∷ [])
        (1 ∷ [])
        flag_live
        empty_store)
      (λ _ w.
        IsStore file_disk w ([] ++ written (107 ∷ []) (1 ∷ []) flag_live ∷ [])
        × (w.history ≡ append_version (107 ∷ []) (1 ∷ []) flag_live empty_store.history)
        × IndexStep (flag_live == flag_live) nil (107 ∷ []) (1 ∷ []) w.index)
append-IsStore_example =
    append-IsStore file_disk silent silent-Quiet (107 ∷ []) (1 ∷ []) flag_live empty_store []
      empty_store-IsStore (omega arith)

put-IsRecoverable_example :
    After
      (put file_disk.read_disk file_disk.write_disk silent (107 ∷ []) (1 ∷ []) empty_store)
      (λ _ t.
        IsStore file_disk t ([] ++ written (107 ∷ []) (1 ∷ []) flag_live ∷ [])
        × IsRecoverable (contents empty_store) t ([] ++ written (107 ∷ []) (1 ∷ []) flag_live ∷ []))
put-IsRecoverable_example =
    put-IsRecoverable file_disk silent silent-Quiet (contents empty_store) (107 ∷ []) (1 ∷ [])
      empty_store [] empty_store-IsStore done (omega arith)

-- The page 5 with one record, not yet on disk, behind pages that no link reaches.
abbrev one_cached : Cached Bytes
one_cached = record {
  pool = record {
    capacity = 64;
    lru = record { page = one_page; dirty = true } ∷ [];
    hits = 0;
    misses = 0;
  };
  world = [];
}

one_cached-IsCoherent : IsCoherent file_disk one_cached
unfolding find_entry
one_cached-IsCoherent = record {
  cap_pos = omega arith;
  bounded = omega arith;
  distinct = (refl, tt);
  whole = λ j e h. ground (arith, one_page-HoldsRecords.whole);
  clean = λ j e h x. ground arith;
}

abbrev one_store : Store Bytes
one_store = record (new_store (record { num_pages = 6; cache = one_cached })) {
  first_page = 5;
  has_pages = true;
}

shows_one_page : view file_disk one_store.pager.cache 5 ≡ one_page
unfolding view find_entry
shows_one_page = rw one_page_id refl

one_store-IsStore : IsStore file_disk one_store (key_record ∷ [])
one_store-IsStore = record {
  coherent = one_cached-IsCoherent;
  few = omega arith;
  chained = record {
    last = 5;
    front = [];
    behind = key_record ∷ [];
    run = stop refl refl;
    inside = omega arith;
    holds =
        subst (λ p. HoldsRecords p (key_record ∷ [])) (sym shows_one_page) one_page-HoldsRecords;
    ends = ap next_page_id shows_one_page ∙ one_page_ends;
    all = refl;
  };
}

rebuild_index-IsStore_example :
    After (rebuild_index file_disk.read_disk file_disk.write_disk silent one_store) (λ _ t.
      IsStore file_disk t (key_record ∷ [])
      × Restores (contents one_store) (key_record ∷ []) (contents t))
rebuild_index-IsStore_example =
    rebuild_index-IsStore file_disk silent one_store (key_record ∷ []) one_store-IsStore refl
