-- ===== src/Sql/Select/Buckets.antt =====
-- The maps from a key to rows, which joins and groups build.
use go_db.Base.{
  ◌≡◌, refl, sym, ap, ◌∙◌, Bool, true, false, Option, none, some, List, [], ◌∷◌, ◌++◌, Bytes,
  bytes_eq, bytes_eq_iff, append_assoc, append_nil, arith, if◌then◌else◌, Bool-cases, inl, inr,
}
use go_db.Base.Assoc.{Assoc, lookup, insert, lookup-insert}
use go_db.Kv.Value.{Row}
use go_db.Sql.Select.{is_empty, or_empty, add_row, buckets}

-- the rows with this key, in their order
unfoldable pub rows_with : (Row → Bytes) → Bytes → List Row → List Row
rows_with key k [] = []
rows_with key k (r ∷ rows) =
    let rest = rows_with key k rows in if bytes_eq (key r) k then r ∷ rest else rest

-- No list where there is no row.
abbrev pub filled : List Row → Option (List Row)
filled [] = none
filled (r ∷ rows) = some (r ∷ rows)

or_empty_if :
    (b : Bool) (xs : List Row) (m : Assoc (List Row)) (k : Bytes)
    → or_empty (if b then some xs else lookup k m) ≡ (if b then xs else or_empty (lookup k m))
or_empty_if true xs m k = refl
or_empty_if false xs m k = refl

module _ (key : Row → Bytes) (k : Bytes) where
  buckets_after :
      (rows : List Row) (m : Assoc (List Row))
      → or_empty (lookup k (buckets key rows m)) ≡ or_empty (lookup k m) ++ rows_with key k rows
  unfolding buckets add_row rows_with
  buckets_after [] m = sym (append_nil (or_empty (lookup k m)))
  buckets_after (r ∷ rows) m = elim (Bool-cases (bytes_eq (key r) k)) [
    | inl same ↦ rw same (
        buckets_after rows (add_row key r m)
        ∙ ap (λ l. l ++ rows_with key k rows)
            (ap or_empty (lookup-insert (key r) k (or_empty (lookup (key r) m) ++ r ∷ []) m)
              ∙ or_empty_if (bytes_eq (key r) k) (or_empty (lookup (key r) m) ++ r ∷ []) m k
              ∙ ap (λ b. if b then or_empty (lookup (key r) m) ++ r ∷ [] else or_empty (lookup k m))
                  same
              ∙ ap (λ j. or_empty (lookup j m) ++ r ∷ []) ((bytes_eq_iff (key r) k).0 same))
        ∙ append_assoc (or_empty (lookup k m)) (r ∷ []) (rows_with key k rows))
    | inr other ↦ rw other (
        buckets_after rows (add_row key r m)
        ∙ ap (λ l. l ++ rows_with key k rows)
            (ap or_empty (lookup-insert (key r) k (or_empty (lookup (key r) m) ++ r ∷ []) m)
              ∙ or_empty_if (bytes_eq (key r) k) (or_empty (lookup (key r) m) ++ r ∷ []) m k
              ∙ ap (λ b. if b then or_empty (lookup (key r) m) ++ r ∷ [] else or_empty (lookup k m))
                  other))
  ]

  -- A key's bucket holds the rows with that key, in their order.
  pub buckets-rows_with :
      (rows : List Row) → or_empty (lookup k (buckets key rows [])) ≡ rows_with key k rows
  unfolding lookup
  buckets-rows_with rows = buckets_after rows []

  -- The list that is there, with rows behind it.
  abbrev more_rows : Option (List Row) → List Row → Option (List Row)
  more_rows none rows = filled rows
  more_rows (some held) rows = some (held ++ rows)

  one_more :
      (o : Option (List Row)) (r : Row) (rest : List Row)
      → more_rows (some (or_empty o ++ r ∷ [])) rest ≡ more_rows o (r ∷ rest)
  one_more none r rest = refl
  one_more (some held) r rest = ap (λ l. some l) (append_assoc held (r ∷ []) rest)

  none_more : (o : Option (List Row)) → more_rows o [] ≡ o
  none_more none = refl
  none_more (some held) = ap (λ l. some l) (append_nil held)

  lookup-buckets_after :
      (rows : List Row) (m : Assoc (List Row))
      → lookup k (buckets key rows m) ≡ more_rows (lookup k m) (rows_with key k rows)
  unfolding buckets add_row rows_with
  lookup-buckets_after [] m = sym (none_more (lookup k m))
  lookup-buckets_after (r ∷ rows) m =
      lookup-buckets_after rows (add_row key r m)
      ∙ ap (λ o. more_rows o (rows_with key k rows))
          (lookup-insert (key r) k (or_empty (lookup (key r) m) ++ r ∷ []) m)
      ∙ elim (Bool-cases (bytes_eq (key r) k)) [
        | inl same ↦ rw same (
            ap (λ j. more_rows (some (or_empty (lookup j m) ++ r ∷ [])) (rows_with key k rows))
              ((bytes_eq_iff (key r) k).0 same)
            ∙ one_more (lookup k m) r (rows_with key k rows))
        | inr other ↦ rw other refl
      ]

  -- A key has a bucket where a row has the key.
  pub lookup-buckets :
      (rows : List Row) → lookup k (buckets key rows []) ≡ filled (rows_with key k rows)
  unfolding lookup
  lookup-buckets rows = lookup-buckets_after rows []

module _ (key : Row → Bytes) where
  is_empty-insert :
      (k : Bytes) (held : List Row) (m : Assoc (List Row)) → is_empty (insert k held m) ≡ false
  unfolding insert
  is_empty-insert k held [] = refl
  is_empty-insert k held ((j, rows) ∷ m) = ground arith

  is_empty-buckets_after :
      (rows : List Row) (m : Assoc (List Row))
      → is_empty m ≡ false
      → is_empty (buckets key rows m) ≡ false
  unfolding buckets add_row
  is_empty-buckets_after [] m h = h
  is_empty-buckets_after (r ∷ rows) m h =
      is_empty-buckets_after rows (add_row key r m)
        (is_empty-insert (key r) (or_empty (lookup (key r) m) ++ r ∷ []) m)

  pub is_empty-buckets : (rows : List Row) → is_empty (buckets key rows []) ≡ is_empty rows
  unfolding buckets add_row
  is_empty-buckets [] = refl
  is_empty-buckets (r ∷ rows) =
      is_empty-buckets_after rows (add_row key r [])
        (is_empty-insert (key r) (or_empty (lookup (key r) []) ++ r ∷ []) [])
