-- ===== src/Kv/Btree/Leaves.antt =====
-- Insertion into a leaf, and lookup in it.
use go_db.Base.{
  ℕ, zero, suc, ◌≤◌, ◌<◌, ◌≡◌, refl, true, false, some, List, [], ◌∷◌, ◌++◌, arith, Bytes,
  bytes_eq_iff, bytes_compare, length, length-append, get_elem?, set, take, drop, take_append,
  drop_append, Bool-cases, inl, inr,
}
use go_db.Base.Result.{ok}
use go_db.Kv.Btree.{Leaf, less, is_key, insert_at, get_leaf, insert_leaf}
use go_db.Kv.Btree.Search.{AllLess, key_index-append}

get_elem?-append :
    {A : Type 0} (xs ys : List A) (y : A) → get_elem? (xs ++ y ∷ ys) (length xs) ≡ some y
get_elem?-append [] ys y = refl
get_elem?-append (x ∷ xs) ys y = get_elem?-append xs ys y

get_elem?-set :
    {A : Type 0} (xs : List A) (i : ℕ) (v : A) → i < length xs → get_elem? (set xs i v) i ≡ some v
get_elem?-set [] i v lt = absurd (omega arith)
get_elem?-set (x ∷ xs) zero v lt = refl
get_elem?-set (x ∷ xs) (suc i) v lt = get_elem?-set xs i v (omega arith)

get_elem?-insert_at :
    {A : Type 0} (xs : List A) (i : ℕ) (v : A)
    → i ≤ length xs
    → get_elem? (insert_at i v xs) i ≡ some v
unfolding take drop
get_elem?-insert_at xs zero v le = refl
get_elem?-insert_at [] (suc i) v le = absurd (omega arith)
get_elem?-insert_at (x ∷ xs) (suc i) v le = get_elem?-insert_at xs i v (omega arith)

get_elem?-some :
    {A : Type 0} (xs : List A) (i : ℕ) → i < length xs → (x : A) × (get_elem? xs i ≡ some x)
get_elem?-some [] i lt = absurd (omega arith)
get_elem?-some (x ∷ xs) zero lt = (x, refl)
get_elem?-some (x ∷ xs) (suc i) lt = get_elem?-some xs i (omega arith)

is_key-lt :
    (ks : List Bytes) (i : ℕ) (key : Bytes) → is_key (get_elem? ks i) key ≡ true → i < length ks
is_key-lt [] i key h = cc
is_key-lt (k ∷ ks) zero key h = omega arith
is_key-lt (k ∷ ks) (suc i) key h = omega (arith, is_key-lt ks i key h)

less_irrefl : (key : Bytes) → less key key ≡ false
unfolding bytes_compare
less_irrefl [] = refl
less_irrefl (b ∷ key) = ground (arith, less_irrefl key)

module _ {E : Type 0} (key value : Bytes) (first second values : List Bytes)
    (below : AllLess true first key) (above : AllLess false second key)
    (paired : length values ≡ length (first ++ second)) where
  -- A leaf whose keys before `key` stand in front of the others, and which has a value for each key,
  -- takes a value under `key` without a panic, and then gives it back for `key`.
  pub get_leaf-insert_leaf :
      (n : Leaf) × (insert_leaf {E = E}
          (record { keys = first ++ second; values = values })
          key
          value
        ≡ ok n)
      × (get_leaf {E = E} n key ≡ ok (some value))
  unfolding get_leaf insert_leaf
  get_leaf-insert_leaf =
      elim (Bool-cases (is_key (get_elem? (first ++ second) (length first)) key)) [
        | inl there ↦
            let lt : length first < length values =
              omega (arith, is_key-lt (first ++ second) (length first) key there, paired) in
            let (v, old) = get_elem?-some values (length first) lt in
            (
              record { keys = first ++ second; values = set values (length first) value },
              rw (key_index-append {E = E} key first second below above, there, old) refl,
              rw
                  (
                    key_index-append {E = E} key first second below above,
                    there,
                    get_elem?-set values (length first) value lt,
                  )
                  refl,
            )
        | inr missing ↦
            let le : length first ≤ length values =
              omega (arith, paired, length-append first second) in
            (
              record {
                keys = insert_at (length first) key (first ++ second);
                values = insert_at (length first) value values;
              },
              rw (key_index-append {E = E} key first second below above, missing) refl,
              rw
                  (
                    take_append first second,
                    drop_append first second,
                    key_index-append {E = E} key first (key ∷ second) below
                        (less_irrefl key, above),
                    get_elem?-append first second key,
                    (bytes_eq_iff key key).1 refl,
                    get_elem?-insert_at values (length first) value le,
                  )
                  refl,
            )
      ]
