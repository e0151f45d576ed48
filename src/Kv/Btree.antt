-- ===== src/Kv/Btree.antt =====
-- kv/btree.go: the B+ tree that indexes a store. A node has its height in its type, so that the leaves
-- are at one depth by construction, as the source keeps them. The `next` pointers run through the
-- leaves from left to right, and the model reads that chain off the tree. An index out of range is a panic.
pub mod Returns
pub mod Search
pub mod Leaves
use go_db.Base.{
  ℕ, zero, suc, ◌+◌, ◌-◌, ◌/◌, Bool, true, false, not, Option, none, some, List, [], ◌∷◌, ◌++◌,
  Bytes, bytes_eq, bytes_compare, length, get_elem?, set, take, drop, ltb, leb, ◌==◌, if◌then◌else◌,
}
use go_db.Base.Result.{Result, ok, panic, stuck, ◌>>=◌}
use Prim.Native.Nat.{Ordering}

abbrev pub btree_order : ℕ
btree_order = 32

pub record Leaf : Type 0 where
  pub keys : List Bytes
  pub values : List Bytes

pub record Inner (C : Type 0) : Type 0 where
  pub keys : List Bytes
  pub children : List C

abbrev pub Node : ℕ → Type 0
Node zero = Leaf
Node (suc h) = Inner (Node h)

-- `bytes.Compare(a, b) < 0`
abbrev pub less : Bytes → Bytes → Bool
less a b = elim (bytes_compare a b) [ Ordering.lt ↦ true | _ ↦ false ]

unfoldable pub child_index : List Bytes → Bytes → ℕ
child_index [] key = 0
child_index (k ∷ ks) key = let rest = child_index ks key in if less key k then 0 else suc rest

-- an element, or a panic
abbrev pub element : {E A : Type 0} → Option A → Result E A
element none = panic
element (some a) = ok a

-- `i < len(n.keys) && bytes.Equal(n.keys[i], key)`
abbrev pub is_key : Option Bytes → Bytes → Bool
is_key none key = false
is_key (some k) key = bytes_eq k key

-- the shift of a slice by one to put `x` at `i`
abbrev pub insert_at : {A : Type 0} → ℕ → A → List A → List A
insert_at i x xs = take i xs ++ x ∷ drop i xs

abbrev pub keys_of : (h : ℕ) → Node h → List Bytes
keys_of zero n = n.keys
keys_of (suc h) n = n.keys

module _ {E : Type 0} where
  -- The binary search between `lo` and `hi`, on fuel.
  unfoldable pub key_index_loop : ℕ → List Bytes → Bytes → ℕ → ℕ → Result E ℕ
  key_index_loop zero keys key lo hi = stuck
  key_index_loop (suc fuel) keys key lo hi =
      let m = (lo + hi) / 2 in
      elim (ltb lo hi) [
        | false ↦ ok lo
        | true ↦ element (get_elem? keys m) >>= λ k.
            key_index_loop fuel keys key (if less k key then m + 1 else lo)
              (if less k key then hi else m)
      ]

  unfoldable pub key_index : List Bytes → Bytes → Result E ℕ
  key_index keys key = key_index_loop (suc (length keys)) keys key 0 (length keys)

  unfoldable pub get_leaf : Leaf → Bytes → Result E (Option Bytes)
  get_leaf n key = do
    i ← key_index n.keys key
    if is_key (get_elem? n.keys i) key
        then (element (get_elem? n.values i) >>= λ v. ok (some v))
        else ok none

  unfoldable pub get_node : (h : ℕ) → Node h → Bytes → Result E (Option Bytes)
  get_node zero n key = get_leaf n key
  get_node (suc h) n key =
      element (get_elem? n.children (child_index n.keys key)) >>= λ c. get_node h c key

  unfoldable pub insert_leaf : Leaf → Bytes → Bytes → Result E Leaf
  insert_leaf n key value = do
    i ← key_index n.keys key
    if is_key (get_elem? n.keys i) key
        then (element (get_elem? n.values i) >>= λ _.
            ok (record n { values = set n.values i value }))
        else ok (record { keys = insert_at i key n.keys; values = insert_at i value n.values })

  -- The two halves of a full child, and the separator between them.
  unfoldable pub split_node : (h : ℕ) → Node h → Result E (Node h × Bytes × Node h)
  split_node zero old =
      let mid = length old.keys / 2 in
      element (get_elem? (drop mid old.keys) 0) >>= λ sep. ok (
        record { keys = take mid old.keys; values = take mid old.values },
        sep,
        record { keys = drop mid old.keys; values = drop mid old.values },
      )
  split_node (suc h) old =
      let cut = length old.children / 2 in
      if cut == 0
      then panic
      else (element (get_elem? old.keys (cut - 1)) >>= λ sep. ok (
        record { keys = take (cut - 1) old.keys; children = take cut old.children },
        sep,
        record { keys = drop cut old.keys; children = drop cut old.children },
      ))

  unfoldable pub split_child : (h : ℕ) → Inner (Node h) → ℕ → Result E (Inner (Node h))
  split_child h parent i = do
    old ← element (get_elem? parent.children i)
    halves ← split_node h old
    ok (record {
      keys = insert_at i halves.1 parent.keys;
      children = insert_at (suc i) halves.2 (set parent.children i halves.0);
    })

  -- The child to insert into: a full one is split first.
  unfoldable pub make_room :
      (h : ℕ) → Inner (Node h) → Bytes → ℕ → Node h → Result E (Inner (Node h) × ℕ)
  make_room h n key i child =
      if length (keys_of h child) == btree_order
      then (do
        split ← split_child h n i
        sep ← element (get_elem? split.keys i)
        ok (split, if less key sep then i else suc i))
      else ok (n, i)

  unfoldable pub insert_non_full : (h : ℕ) → Node h → Bytes → Bytes → Result E (Node h)
  insert_non_full zero n key value = insert_leaf n key value
  insert_non_full (suc h) n key value = do
    child ← element (get_elem? n.children (child_index n.keys key))
    room ← make_room h n key (child_index n.keys key) child
    below ← element (get_elem? room.0.children room.1)
    inserted ← insert_non_full h below key value
    ok (record (room.0) { children = set room.0.children room.1 inserted })

-- A nil root, or a node.
pub data Btree : Type 0 where
  nil : Btree
  root : (h : ℕ) → Node h → Btree

abbrev pub without : Bytes → List (Bytes × Bytes) → List (Bytes × Bytes)
without key [] = []
without key ((k, v) ∷ es) =
    let rest = without key es in if bytes_eq k key then rest else (k, v) ∷ rest

module _ {E : Type 0} where
  unfoldable pub get : Btree → Bytes → Result E (Option Bytes)
  get nil key = ok none
  get (root h n) key = get_node h n key

  unfoldable pub put : Btree → Bytes → Bytes → Result E Btree
  put nil key value = ok (root 0 (record { keys = key ∷ []; values = value ∷ [] }))
  put (root h n) key value =
      if length (keys_of h n) == btree_order
      then (do
        top ← split_child h (record { keys = []; children = n ∷ [] }) 0
        inserted ← insert_non_full (suc h) top key value
        ok (root (suc h) inserted))
      else (insert_non_full h n key value >>= λ inserted. ok (root h inserted))

  -- `n.values[i]` for each `i` of `n.keys`
  unfoldable pub pairs : List Bytes → List Bytes → Result E (List (Bytes × Bytes))
  pairs [] values = ok []
  pairs (k ∷ ks) [] = panic
  pairs (k ∷ ks) (v ∷ vs) = pairs ks vs >>= λ rest. ok ((k, v) ∷ rest)

  abbrev pub in_order :
      {C : Type 0}
      → (C → Result E (List (Bytes × Bytes)))
      → List C
      → Result E (List (Bytes × Bytes))
  in_order f [] = ok []
  in_order f (c ∷ cs) = do here ← f c; rest ← in_order f cs; ok (here ++ rest)

  unfoldable pub node_entries : (h : ℕ) → Node h → Result E (List (Bytes × Bytes))
  node_entries zero n = pairs n.keys n.values
  node_entries (suc h) n = in_order (node_entries h) n.children

  unfoldable pub entries : Btree → Result E (List (Bytes × Bytes))
  entries nil = ok []
  entries (root h n) = node_entries h n

  unfoldable pub put_all : List (Bytes × Bytes) → Btree → Result E Btree
  put_all [] t = ok t
  put_all ((k, v) ∷ es) t = put t k v >>= put_all es

  -- The leaves without the key, packed into a new tree.
  unfoldable pub delete : Btree → Bytes → Result E (Bool × Btree)
  delete t key = get t key >>= λ found. elim found [
    | none ↦ ok (false, t)
    | some v ↦ do es ← entries t; packed ← put_all (without key es) nil; ok (true, packed)
  ]
