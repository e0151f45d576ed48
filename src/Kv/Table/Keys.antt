-- ===== src/Kv/Table/Keys.antt =====
-- The keys of a secondary index behind one change of it.
use go_db.Base.{
  ◌≡◌, refl, sym, ap, ◌∙◌, inl, inr, arith, Bool, true, false, ◌&&◌, ◌||◌, not, some, List, [], ◌∷◌,
  ◌++◌, Bytes, bytes_eq, bytes_eq_iff, if◌then◌else◌, Bool-cases,
}
use go_db.Base.Assoc.{Assoc, lookup, insert, lookup-insert, lookup-remove}
use go_db.Kv.Value.{Column}
use go_db.Kv.Table.Secondary.{
  SecondaryMap, keys_or_nil, map_or_nil, keys_for, has_key, add_key, drop_key, put_keys,
}

pub has_key-append :
    (k key : Bytes) (ks : List Bytes)
    → has_key k (ks ++ key ∷ []) ≡ (has_key k ks || bytes_eq key k)
unfolding has_key
has_key-append k key [] = ground arith
has_key-append k key (x ∷ ks) = ground (arith, has_key-append k key ks)

pub has_key-add_key :
    (k key : Bytes) (ks : List Bytes)
    → has_key k (add_key key ks) ≡ (has_key k ks || bytes_eq key k)
unfolding add_key
has_key-add_key k key ks = elim (Bool-cases (has_key key ks)) [
  | inl there ↦ elim (Bool-cases (bytes_eq key k)) [
    | inl same ↦
        rw (there, same)
          (ap (λ j. has_key j ks) (sym ((bytes_eq_iff key k).0 same))
            ∙ there
            ∙ sym (or_true (has_key k ks)))
    | inr other ↦ rw (there, other) (sym (or_false (has_key k ks)))
  ]
  | inr absent ↦ rw absent (has_key-append k key ks)
]
  where
    or_true : (b : Bool) → (b || true) ≡ true
    or_true true = refl
    or_true false = refl

    or_false : (b : Bool) → (b || false) ≡ b
    or_false true = refl
    or_false false = refl

pub has_key-drop_key :
    (k key : Bytes) (ks : List Bytes)
    → has_key k (drop_key key ks) ≡ (has_key k ks && not (bytes_eq key k))
unfolding has_key drop_key
has_key-drop_key k key [] = refl
has_key-drop_key k key (x ∷ ks) =
    ground
      (arith, has_key-drop_key k key ks, bytes_eq_iff x key, bytes_eq_iff x k, bytes_eq_iff key k)

pub keys-put_keys :
    (v u : Bytes) (ks : List Bytes) (m : Assoc (List Bytes))
    → keys_or_nil (lookup u (put_keys v ks m))
      ≡ (if bytes_eq v u then ks else keys_or_nil (lookup u m))
keys-put_keys v u [] m = ground (arith, lookup-remove v u m)
keys-put_keys v u (k ∷ ks) m = ground (arith, lookup-insert v u (k ∷ ks) m)

-- Every column has its map.
abbrev pub HasMaps : List Column → SecondaryMap → Type 0
HasMaps [] s = Unit {0}
HasMaps (c ∷ cs) s = ((m : Assoc (List Bytes)) × (lookup c.name s ≡ some m)) × HasMaps cs s

-- a column of that name
abbrev pub is_named : Bytes → List Column → Bool
is_named a [] = false
is_named a (c ∷ cs) = let rest = is_named a cs in bytes_eq c.name a || rest

pub HasMaps-insert :
    (cs : List Column) (a : Bytes) (m : Assoc (List Bytes)) (s : SecondaryMap)
    → HasMaps cs s
    → HasMaps cs (insert a m s)
HasMaps-insert [] a m s h = tt
HasMaps-insert (c ∷ cs) a m s (here, h) =
    (found (bytes_eq a c.name) refl, HasMaps-insert cs a m s h)
  where
    found :
        (b : Bool)
        → bytes_eq a c.name ≡ b
        → (n : Assoc (List Bytes)) × (lookup c.name (insert a m s) ≡ some n)
    found true e =
        (m, lookup-insert a c.name m s ∙ ap (λ b. if b then some m else lookup c.name s) e)
    found false e = (
      here.0,
      lookup-insert a c.name m s ∙ ap (λ b. if b then some m else lookup c.name s) e ∙ here.1,
    )

pub keys_for-insert :
    (c a v : Bytes) (m : Assoc (List Bytes)) (s : SecondaryMap)
    → keys_for (insert c m s) a v
      ≡ (if bytes_eq c a then keys_or_nil (lookup v m) else keys_for s a v)
keys_for-insert c a v m s =
    ap (λ o. keys_or_nil (lookup v (map_or_nil o))) (lookup-insert c a m s) ∙ split (bytes_eq c a)
  where
    split :
        (b : Bool)
        → keys_or_nil (lookup v (map_or_nil (if b then some m else lookup a s)))
          ≡ (if b then keys_or_nil (lookup v m) else keys_for s a v)
    split true = refl
    split false = refl
