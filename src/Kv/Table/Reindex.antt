-- ===== src/Kv/Table/Reindex.antt =====
-- The secondary index follows the rows: what `Insert` and `Delete` do to it.
use go_db.Base.{
  ◌≡◌, refl, sym, ap, ◌∙◌, arith, Bool, true, false, ◌&&◌, ◌||◌, not, Option, none, some, List, [],
  ◌∷◌, Bytes, bytes_eq, bytes_eq_iff,
}
use go_db.Base.Assoc.{Assoc, lookup, insert, remove, lookup-insert, lookup-remove}
use go_db.Base.Result.{ok}
use go_db.Kv.Value.{Value, Column, Row}
use go_db.Kv.Table.Secondary.{
  SecondaryMap, field_of, keys_or_nil, map_or_nil, keys_for, has_key, add_key, drop_key, put_keys,
  index_column, index_row, unindex_column, unindex_row,
}
use go_db.Kv.Table.Keys.{
  has_key-add_key, has_key-drop_key, keys-put_keys, HasMaps, is_named, HasMaps-insert,
  keys_for-insert,
}

module _ (index_value : Value → Bytes) where
  -- the row has that value in the column, and its key is `k`
  abbrev pub hits : Bytes → Row → Bytes → Bytes → Bytes → Bool
  hits key row a v k = bytes_eq (index_value (field_of row a)) v && bytes_eq key k

  module _ (key : Bytes) (row : Row) (c : Column) (s : SecondaryMap) (m : Assoc (List Bytes))
      (mapped : lookup c.name s ≡ some m) (a v k : Bytes) where
    abbrev own : Bytes
    own = index_value (field_of row c.name)

    keys_here : bytes_eq c.name a ≡ true → keys_for s a v ≡ keys_or_nil (lookup v m)
    keys_here e =
        ap (λ j. keys_for s j v) (sym ((bytes_eq_iff c.name a).0 e))
        ∙ ap (λ o. keys_or_nil (lookup v (map_or_nil o))) mapped

    value_here : bytes_eq c.name a ≡ true → own ≡ index_value (field_of row a)
    value_here e = ap (λ j. index_value (field_of row j)) ((bytes_eq_iff c.name a).0 e)

    -- the map of the column with the key added
    abbrev grown : SecondaryMap
    grown = insert c.name (insert own (add_key key (keys_or_nil (lookup own m))) m) s

    has_key-grown :
        has_key k (keys_for grown a v)
        ≡ (has_key k (keys_for s a v) || bytes_eq c.name a && hits key row a v k)
    has_key-grown = ground (
      arith,
      keys_for-insert c.name a v (insert own (add_key key (keys_or_nil (lookup own m))) m) s,
      lookup-insert own v (add_key key (keys_or_nil (lookup own m))) m,
      has_key-add_key k key (keys_or_nil (lookup own m)),
      keys_here,
      value_here,
      bytes_eq_iff own v,
      bytes_eq_iff (index_value (field_of row a)) v,
    )

    abbrev shrunk : SecondaryMap
    shrunk = insert c.name (put_keys own (drop_key key (keys_or_nil (lookup own m))) m) s

    has_key-shrunk :
        has_key k (keys_for shrunk a v)
        ≡ (has_key k (keys_for s a v) && not (bytes_eq c.name a && hits key row a v k))
    has_key-shrunk = ground (
      arith,
      keys_for-insert c.name a v (put_keys own (drop_key key (keys_or_nil (lookup own m))) m) s,
      keys-put_keys own v (drop_key key (keys_or_nil (lookup own m))) m,
      has_key-drop_key k key (keys_or_nil (lookup own m)),
      keys_here,
      value_here,
      bytes_eq_iff own v,
      bytes_eq_iff (index_value (field_of row a)) v,
    )

  -- What indexing a row does to an index that has the maps.
  record Indexed (cs : List Column) (key : Bytes) (row : Row) (s t : SecondaryMap) : Type 0 where
    maps : (ds : List Column) → HasMaps ds s → HasMaps ds t
    has :
        (a v k : Bytes)
        → has_key k (keys_for t a v)
          ≡ (has_key k (keys_for s a v) || is_named a cs && hits key row a v k)

  record Unindexed (cs : List Column) (key : Bytes) (row : Row) (s t : SecondaryMap) : Type 0 where
    maps : (ds : List Column) → HasMaps ds s → HasMaps ds t
    has :
        (a v k : Bytes)
        → has_key k (keys_for t a v)
          ≡ (has_key k (keys_for s a v) && not (is_named a cs && hits key row a v k))

  both_or : (x a b h : Bool) → ((x || a && h) || b && h) ≡ (x || (a || b) && h)
  both_or x a b h = ground arith

  both_and : (x a b h : Bool) → (x && not (a && h) && not (b && h)) ≡ (x && not ((a || b) && h))
  both_and x a b h = ground arith

  or_never : (x h : Bool) → x ≡ (x || false && h)
  or_never x h = ground arith

  and_always : (x h : Bool) → x ≡ (x && not (false && h))
  and_always x h = ground arith

  index_row-Indexed :
      {E : Type 0} (cs : List Column) (key : Bytes) (row : Row) (s : SecondaryMap)
      → HasMaps cs s
      → (t : SecondaryMap) × (index_row {E = E} index_value cs key row s ≡ ok t)
        × Indexed cs key row s t
  unfolding index_row index_column
  index_row-Indexed [] key row s h = (
    s,
    refl,
    record {
      maps = λ ds k. k;
      has = λ a v k. or_never (has_key k (keys_for s a v)) (hits key row a v k);
    },
  )
  index_row-Indexed {E} (c ∷ cs) key row s ((m, mapped), h) =
      let (t, e, i) =
        index_row-Indexed {E = E} cs key row (grown key row c s m mapped key key key)
          (HasMaps-insert cs c.name _ s h) in
      (
        t,
        rw (mapped, index_row, index_column) e,
        record {
          maps = λ ds k. i.maps ds (HasMaps-insert ds c.name _ s k);
          has = λ a v k.
              i.has a v k
              ∙ ap (λ b. b || is_named a cs && hits key row a v k)
                  (has_key-grown key row c s m mapped a v k)
              ∙ both_or (has_key k (keys_for s a v)) (bytes_eq c.name a) (is_named a cs)
                  (hits key row a v k);
        },
      )

  unindex_row-Unindexed :
      (cs : List Column) (key : Bytes) (row : Row) (s : SecondaryMap)
      → HasMaps cs s
      → Unindexed cs key row s (unindex_row index_value cs key row s)
  unfolding unindex_row unindex_column
  unindex_row-Unindexed [] key row s h = record {
    maps = λ ds k. k;
    has = λ a v k. and_always (has_key k (keys_for s a v)) (hits key row a v k);
  }
  unindex_row-Unindexed (c ∷ cs) key row s ((m, mapped), h) =
      let i =
        unindex_row-Unindexed cs key row (shrunk key row c s m mapped key key key)
          (HasMaps-insert cs c.name _ s h) in
      rw (mapped, unindex_row, unindex_column)
        (record {
          maps = λ ds k. i.maps ds (HasMaps-insert ds c.name _ s k);
          has = λ a v k.
              i.has a v k
              ∙ ap (λ b. b && not (is_named a cs && hits key row a v k))
                  (has_key-shrunk key row c s m mapped a v k)
              ∙ both_and (has_key k (keys_for s a v)) (bytes_eq c.name a) (is_named a cs)
                  (hits key row a v k);
        })

  -- The row under a key has that value in the column.
  abbrev pub row_has : Option Row → Bytes → Bytes → Bool
  row_has none a v = false
  row_has (some r) a v = bytes_eq (index_value (field_of r a)) v

  -- For each column of a map, the index has the keys of exactly the rows with a value.
  pub record IsIndexed (cs : List Column) (s : SecondaryMap) (rows : Assoc Row) : Type 0 where
    pub maps : HasMaps cs s
    pub exact :
        (a v k : Bytes)
        → is_named a cs ≡ true
        → has_key k (keys_for s a v) ≡ row_has (lookup k rows) a v

  abbrev pub unindex_old : List Column → Bytes → Option Row → SecondaryMap → SecondaryMap
  unindex_old cs key none s = s
  unindex_old cs key (some old) s = unindex_row index_value cs key old s

  exact_after :
      (x y z h g : Bool) (n : Bool)
      → n ≡ true
      → x ≡ (y && not (n && h))
      → z ≡ (x || n && g)
      → z ≡ (y && not h || g)
  exact_after x y z h g n e p q = ground (arith, e, p, q)

  -- What remains of the old row, and the new one.
  replaced :
      (rows : Assoc Row) (key : Bytes) (old row : Row) (a v k : Bytes)
      → lookup key rows ≡ some old
      → (row_has (lookup k rows) a v && not (hits key old a v k) || hits key row a v k)
        ≡ row_has (lookup k (insert key row rows)) a v
  replaced rows key old row a v k e =
      ground (arith, lookup-insert key k row rows, e, bytes_eq_iff key k)

  fresh_row :
      (rows : Assoc Row) (key : Bytes) (row : Row) (a v k : Bytes)
      → lookup key rows ≡ none
      → (row_has (lookup k rows) a v || hits key row a v k)
        ≡ row_has (lookup k (insert key row rows)) a v
  fresh_row rows key row a v k e =
      ground (arith, lookup-insert key k row rows, e, bytes_eq_iff key k)

  taken_out :
      (rows : Assoc Row) (key : Bytes) (old : Row) (a v k : Bytes)
      → lookup key rows ≡ some old
      → (row_has (lookup k rows) a v && not (hits key old a v k))
        ≡ row_has (lookup k (remove key rows)) a v
  taken_out rows key old a v k e = ground (arith, lookup-remove key k rows, e, bytes_eq_iff key k)

  named_or : (x g n : Bool) → n ≡ true → (x || n && g) ≡ (x || g)
  named_or x g n e = ground (arith, e)

  named_and : (x g n : Bool) → n ≡ true → (x && not (n && g)) ≡ (x && not g)
  named_and x g n e = ground (arith, e)

  -- The row under a key takes the place of the one that is there, if any.
  pub index_row-IsIndexed :
      {E : Type 0} (cs : List Column) (key : Bytes) (row : Row) (s : SecondaryMap)
      (rows : Assoc Row) (old : Option Row)
      → IsIndexed cs s rows
      → lookup key rows ≡ old
      → (t : SecondaryMap) × (index_row {E = E} index_value cs key row (unindex_old cs key old s)
          ≡ ok t)
        × IsIndexed cs t (insert key row rows)
  index_row-IsIndexed {E = E} cs key row s rows none h e =
      let (t, q, i) = index_row-Indexed {E = E} cs key row s h.maps in
      (
        t,
        q,
        record {
          maps = i.maps cs h.maps;
          exact = λ a v k n.
              i.has a v k
              ∙ named_or (has_key k (keys_for s a v)) (hits key row a v k) (is_named a cs) n
              ∙ ap (λ b. b || hits key row a v k) (h.exact a v k n)
              ∙ fresh_row rows key row a v k e;
        },
      )
  index_row-IsIndexed {E = E} cs key row s rows (some old) h e =
      let u = unindex_row-Unindexed cs key old s h.maps in
      let (t, q, i) =
        index_row-Indexed {E = E} cs key row (unindex_row index_value cs key old s)
          (u.maps cs h.maps) in
      (
        t,
        q,
        record {
          maps = i.maps cs (u.maps cs h.maps);
          exact = λ a v k n.
              exact_after _ _ _ (hits key old a v k) (hits key row a v k) (is_named a cs) n
                (u.has a v k) (i.has a v k)
              ∙ ap (λ b. b && not (hits key old a v k) || hits key row a v k) (h.exact a v k n)
              ∙ replaced rows key old row a v k e;
        },
      )

  pub unindex_row-IsIndexed :
      (cs : List Column) (key : Bytes) (old : Row) (s : SecondaryMap) (rows : Assoc Row)
      → IsIndexed cs s rows
      → lookup key rows ≡ some old
      → IsIndexed cs (unindex_row index_value cs key old s) (remove key rows)
  unindex_row-IsIndexed cs key old s rows h e =
      let u = unindex_row-Unindexed cs key old s h.maps in
      record {
        maps = u.maps cs h.maps;
        exact = λ a v k n.
            u.has a v k
            ∙ named_and (has_key k (keys_for s a v)) (hits key old a v k) (is_named a cs) n
            ∙ ap (λ b. b && not (hits key old a v k)) (h.exact a v k n)
            ∙ taken_out rows key old a v k e;
      }
