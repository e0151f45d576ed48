-- ===== src/Kv/Btree/Returns.antt =====
-- Every operation of the index comes back, on any node: the binary search in a node has the fuel it
-- needs, whatever the keys.
use go_db.Base.{
  ℕ, zero, suc, ◌+◌, ◌-◌, ◌/◌, ◌<◌, ◌≢◌, arith, Bool, true, false, Option, none, some, List, [],
  ◌∷◌, Bytes, length, get_elem?, set, drop, ltb, ltb→lt, ◌==◌, if◌then◌else◌, Bool-cases, inl, inr,
}
use go_db.Base.Result.{Result, ok, panic, stuck, ◌>>=◌}
use go_db.Base.Returns.{ok-ne-stuck, panic-ne-stuck, bind-ne-stuck, if-ne-stuck}
use go_db.Kv.Btree.{
  Leaf, Inner, Node, Btree, nil, root, btree_order, less, element, keys_of, is_key, key_index_loop,
  key_index, get_leaf, get_node, insert_leaf, split_node, split_child, make_room, insert_non_full,
  get, put, pairs, in_order, node_entries, entries, put_all, delete, without, child_index,
  insert_at,
}

module _ {E : Type 0} where
  element-ne-stuck : {A : Type 0} (o : Option A) → element {E = E} o ≢ stuck
  element-ne-stuck none = panic-ne-stuck
  element-ne-stuck (some a) = ok-ne-stuck a

  key_index_loop-ne-stuck :
      (fuel : ℕ) (keys : List Bytes) (key : Bytes) (lo hi : ℕ)
      → hi - lo < fuel
      → key_index_loop {E = E} fuel keys key lo hi ≢ stuck
  unfolding key_index_loop
  key_index_loop-ne-stuck zero keys key lo hi enough = λ _. omega arith
  key_index_loop-ne-stuck (suc fuel) keys key lo hi enough = elim (Bool-cases (ltb lo hi)) [
    | inr done ↦ rw (done, key_index_loop) (ok-ne-stuck lo)
    | inl open_ ↦
        let lt : lo < hi = ltb→lt lo hi open_ in
        rw (open_, key_index_loop)
          (bind-ne-stuck (element (get_elem? keys ((lo + hi) / 2)))
            (λ k.
              key_index_loop fuel keys key (if less k key then (lo + hi) / 2 + 1 else lo)
                (if less k key then hi else (lo + hi) / 2))
            (element-ne-stuck (get_elem? keys ((lo + hi) / 2)))
            (λ k. elim (Bool-cases (less k key)) [
              | inl q ↦
                  rw q (key_index_loop-ne-stuck fuel keys key ((lo + hi) / 2 + 1) hi (omega arith))
              | inr q ↦
                  rw q (key_index_loop-ne-stuck fuel keys key lo ((lo + hi) / 2) (omega arith))
            ]))
  ]

  key_index-ne-stuck : (keys : List Bytes) (key : Bytes) → key_index {E = E} keys key ≢ stuck
  unfolding key_index
  key_index-ne-stuck keys key =
      key_index_loop-ne-stuck (suc (length keys)) keys key 0 (length keys) (omega arith)

  get_leaf-ne-stuck : (n : Leaf) (key : Bytes) → get_leaf {E = E} n key ≢ stuck
  unfolding get_leaf
  get_leaf-ne-stuck n key =
      bind-ne-stuck (key_index n.keys key)
        (λ i.
          if is_key (get_elem? n.keys i) key
          then (element (get_elem? n.values i) >>= λ v. ok (some v))
          else ok none)
        (key_index-ne-stuck n.keys key)
        (λ i.
          if-ne-stuck (is_key (get_elem? n.keys i) key)
            (element (get_elem? n.values i) >>= λ v. ok (some v)) (ok none)
            (bind-ne-stuck (element (get_elem? n.values i)) (λ v. ok (some v))
              (element-ne-stuck (get_elem? n.values i)) (λ v. ok-ne-stuck (some v)))
            (ok-ne-stuck none))

  get_node-ne-stuck : (h : ℕ) (n : Node h) (key : Bytes) → get_node {E = E} h n key ≢ stuck
  unfolding get_node
  get_node-ne-stuck zero n key = get_leaf-ne-stuck n key
  get_node-ne-stuck (suc h) n key =
      bind-ne-stuck (element (get_elem? n.children (child_index n.keys key)))
        (λ c. get_node h c key) (element-ne-stuck (get_elem? n.children (child_index n.keys key)))
        (λ c. get_node-ne-stuck h c key)

  insert_leaf-ne-stuck : (n : Leaf) (key value : Bytes) → insert_leaf {E = E} n key value ≢ stuck
  unfolding insert_leaf
  insert_leaf-ne-stuck n key value =
      bind-ne-stuck (key_index n.keys key)
        (λ i.
          if is_key (get_elem? n.keys i) key
          then (element (get_elem? n.values i) >>= λ _. ok (replaced i))
          else ok (inserted i))
        (key_index-ne-stuck n.keys key)
        (λ i.
          if-ne-stuck (is_key (get_elem? n.keys i) key)
            (element (get_elem? n.values i) >>= λ _. ok (replaced i)) (ok (inserted i))
            (bind-ne-stuck (element (get_elem? n.values i)) (λ _. ok (replaced i))
              (element-ne-stuck (get_elem? n.values i)) (λ v. ok-ne-stuck (replaced i)))
            (ok-ne-stuck (inserted i)))
    where
      replaced : ℕ → Leaf
      replaced i = record n { values = set n.values i value }

      inserted : ℕ → Leaf
      inserted i = record { keys = insert_at i key n.keys; values = insert_at i value n.values }

  split_node-ne-stuck : (h : ℕ) (n : Node h) → split_node {E = E} h n ≢ stuck
  unfolding split_node
  split_node-ne-stuck zero n =
      bind-ne-stuck (element (get_elem? (drop (length n.keys / 2) n.keys) 0)) _
        (element-ne-stuck (get_elem? (drop (length n.keys / 2) n.keys) 0)) (λ sep. ok-ne-stuck _)
  split_node-ne-stuck (suc h) n = if-ne-stuck (length n.children / 2 == 0) panic _ panic-ne-stuck (
      bind-ne-stuck (element (get_elem? n.keys (length n.children / 2 - 1))) _
        (element-ne-stuck (get_elem? n.keys (length n.children / 2 - 1))) (λ sep. ok-ne-stuck _))

  split_child-ne-stuck : (h : ℕ) (n : Inner (Node h)) (i : ℕ) → split_child {E = E} h n i ≢ stuck
  unfolding split_child
  split_child-ne-stuck h n i =
      bind-ne-stuck (element (get_elem? n.children i)) _ (element-ne-stuck (get_elem? n.children i))
        (λ old.
          bind-ne-stuck (split_node h old) _ (split_node-ne-stuck h old) (λ halves. ok-ne-stuck _))

  make_room-ne-stuck :
      (h : ℕ) (n : Inner (Node h)) (key : Bytes) (i : ℕ) (child : Node h)
      → make_room {E = E} h n key i child ≢ stuck
  unfolding make_room
  make_room-ne-stuck h n key i child =
      if-ne-stuck (length (keys_of h child) == btree_order) _ (ok (n, i))
        (bind-ne-stuck (split_child h n i) _ (split_child-ne-stuck h n i) (λ split.
          bind-ne-stuck (element (get_elem? split.keys i)) _
            (element-ne-stuck (get_elem? split.keys i)) (λ sep. ok-ne-stuck _)))
        (ok-ne-stuck (n, i))

  insert_non_full-ne-stuck :
      (h : ℕ) (n : Node h) (key value : Bytes) → insert_non_full {E = E} h n key value ≢ stuck
  unfolding insert_non_full
  insert_non_full-ne-stuck zero n key value = insert_leaf-ne-stuck n key value
  insert_non_full-ne-stuck (suc h) n key value =
      bind-ne-stuck (element (get_elem? n.children (child_index n.keys key))) _
        (element-ne-stuck (get_elem? n.children (child_index n.keys key)))
        (λ child.
          bind-ne-stuck (make_room h n key (child_index n.keys key) child) _
            (make_room-ne-stuck h n key (child_index n.keys key) child)
            (λ room.
              bind-ne-stuck (element (get_elem? room.0.children room.1)) _
                (element-ne-stuck (get_elem? room.0.children room.1))
                (λ below.
                  bind-ne-stuck (insert_non_full h below key value) _
                    (insert_non_full-ne-stuck h below key value) (λ i. ok-ne-stuck _))))

  pub put-ne-stuck : (t : Btree) (key value : Bytes) → put {E = E} t key value ≢ stuck
  unfolding put
  put-ne-stuck nil key value = ok-ne-stuck _
  put-ne-stuck (root h n) key value =
      if-ne-stuck (length (keys_of h n) == btree_order) _ _
        (bind-ne-stuck (split_child h (record { keys = []; children = n ∷ [] }) 0) _
          (split_child-ne-stuck h (record { keys = []; children = n ∷ [] }) 0)
          (λ top.
            bind-ne-stuck (insert_non_full (suc h) top key value) _
              (insert_non_full-ne-stuck (suc h) top key value) (λ i. ok-ne-stuck _)))
        (bind-ne-stuck (insert_non_full h n key value) _ (insert_non_full-ne-stuck h n key value)
          (λ i. ok-ne-stuck _))

  pub get-ne-stuck : (t : Btree) (key : Bytes) → get {E = E} t key ≢ stuck
  unfolding get
  get-ne-stuck nil key = ok-ne-stuck none
  get-ne-stuck (root h n) key = get_node-ne-stuck h n key

  pairs-ne-stuck : (ks vs : List Bytes) → pairs {E = E} ks vs ≢ stuck
  unfolding pairs
  pairs-ne-stuck [] vs = ok-ne-stuck []
  pairs-ne-stuck (k ∷ ks) [] = panic-ne-stuck
  pairs-ne-stuck (k ∷ ks) (v ∷ vs) =
      bind-ne-stuck (pairs ks vs) _ (pairs-ne-stuck ks vs) (λ rest. ok-ne-stuck _)

  in_order-ne-stuck :
      {C : Type 0} (f : C → Result E (List (Bytes × Bytes)))
      → ((c : C) → f c ≢ stuck)
      → (cs : List C) → in_order f cs ≢ stuck
  in_order-ne-stuck f h [] = ok-ne-stuck []
  in_order-ne-stuck f h (c ∷ cs) =
      bind-ne-stuck (f c) _ (h c)
        (λ here. bind-ne-stuck (in_order f cs) _ (in_order-ne-stuck f h cs) (λ rest. ok-ne-stuck _))

  node_entries-ne-stuck : (h : ℕ) (n : Node h) → node_entries {E = E} h n ≢ stuck
  unfolding node_entries
  node_entries-ne-stuck zero n = pairs-ne-stuck n.keys n.values
  node_entries-ne-stuck (suc h) n =
      in_order-ne-stuck (node_entries h) (node_entries-ne-stuck h) n.children

  pub entries-ne-stuck : (t : Btree) → entries {E = E} t ≢ stuck
  unfolding entries
  entries-ne-stuck nil = ok-ne-stuck []
  entries-ne-stuck (root h n) = node_entries-ne-stuck h n

  put_all-ne-stuck : (es : List (Bytes × Bytes)) (t : Btree) → put_all {E = E} es t ≢ stuck
  unfolding put_all
  put_all-ne-stuck [] t = ok-ne-stuck t
  put_all-ne-stuck ((k, v) ∷ es) t =
      bind-ne-stuck (put t k v) (put_all es) (put-ne-stuck t k v) (put_all-ne-stuck es)

  pub delete-ne-stuck : (t : Btree) (key : Bytes) → delete {E = E} t key ≢ stuck
  unfolding delete
  delete-ne-stuck t key = bind-ne-stuck (get t key) _ (get-ne-stuck t key) found_ne
    where
      found_ne :
          (found : Option Bytes)
          → ◌≢◌
              (elim found as (λ _. Result E (Bool × Btree)) [
                | none ↦ ok (false, t)
                | some v ↦
                    entries t >>= λ es. put_all (without key es) nil >>= λ packed. ok (true, packed)
              ])
              stuck
      found_ne none = ok-ne-stuck _
      found_ne (some v) = bind-ne-stuck (entries t) _ (entries-ne-stuck t) (λ es.
          bind-ne-stuck (put_all (without key es) nil) _ (put_all-ne-stuck (without key es) nil)
            (λ packed. ok-ne-stuck _))
