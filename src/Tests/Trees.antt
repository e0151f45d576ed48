-- ===== src/Tests/Trees.antt =====
-- The B+ tree at concrete keys.
use go_db.Base.{some, ◌≡◌, refl, [], ◌∷◌, bytes_compare}
use go_db.Base.Result.{ok}
use go_db.Kv.Btree.{key_index}
use go_db.Kv.Btree.Search.{key_index-append}
use go_db.Kv.Wal.{WalError}
use go_db.Kv.Btree.{Leaf, insert_leaf, get_leaf}
use go_db.Kv.Btree.Leaves.{get_leaf-insert_leaf}

-- The place of "c" in "a", "b", "d".
key_index-append_example :
    key_index {E = WalError} ((97 ∷ []) ∷ (98 ∷ []) ∷ (100 ∷ []) ∷ []) (99 ∷ []) ≡ ok 2
unfolding bytes_compare
key_index-append_example =
    key_index-append (99 ∷ []) ((97 ∷ []) ∷ (98 ∷ []) ∷ []) ((100 ∷ []) ∷ []) (refl, (refl, tt))
      (refl, tt)

get_leaf-insert_leaf_example :
    (n : Leaf) × (insert_leaf {E = WalError}
        (record { keys = (97 ∷ []) ∷ (100 ∷ []) ∷ []; values = (1 ∷ []) ∷ (2 ∷ []) ∷ [] })
        (99 ∷ [])
        (3 ∷ [])
      ≡ ok n)
    × (get_leaf {E = WalError} n (99 ∷ []) ≡ ok (some (3 ∷ [])))
unfolding bytes_compare
get_leaf-insert_leaf_example =
    get_leaf-insert_leaf (99 ∷ []) (3 ∷ []) ((97 ∷ []) ∷ []) ((100 ∷ []) ∷ [])
      ((1 ∷ []) ∷ (2 ∷ []) ∷ []) (refl, tt) (refl, tt) refl
