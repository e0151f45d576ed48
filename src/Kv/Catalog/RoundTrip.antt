-- ===== src/Kv/Catalog/RoundTrip.antt =====
-- A catalog that is saved opens again.
use go_db.Base.{
  ℕ, ◌≡◌, refl, sym, ap, ◌∙◌, arith, inl, inr, Bool, true, false, ◌||◌, ◌&&◌, not, ◌==◌,
  bytes_compare, Option, none, some, List, [], ◌∷◌, Bytes, bytes_eq, bytes_eq_iff, if◌then◌else◌,
  Bool-cases,
}
use go_db.Base.Assoc.{Assoc, lookup, insert, lookup-insert}
use go_db.Base.Result.{Result, ok}
use Prim.Native.Nat.{Ordering}
use go_db.Base.Runes.{runes}
use go_db.Kv.Value.{Column, Reference, ColumnConstraint}
use go_db.Kv.Codec.{validate}
use go_db.Kv.Catalog.{
  Catalog, CatalogEntry, CatalogError, encode_catalog, open_catalog, is_blank, name_before,
  insert_by_name, sort_by_name, catalog_entries, open_entries,
}

abbrev pub is_before : Ordering → Bool
is_before Ordering.lt = true
is_before _ = false

-- the entry of that name
unfoldable pub find_entry : Bytes → List CatalogEntry → Option CatalogEntry
find_entry n [] = none
find_entry n (e ∷ es) = let rest = find_entry n es in if bytes_eq e.name n then some e else rest

-- An entry that `Set` accepts.
pub record IsEntry (e : CatalogEntry) : Type 0 where
  pub named : (is_blank e.name || is_blank e.path) ≡ false
  pub valid : validate e.schema ≡ ok tt

-- Entries that `Set` accepts, each of another name.
abbrev pub Entries : List CatalogEntry → Type 0
Entries [] = Unit {0}
Entries (e ∷ es) = IsEntry e × (find_entry e.name es ≡ none) × Entries es

-- A catalog has each entry under its own name.
abbrev pub IsCatalog : Catalog → Type 0
IsCatalog [] = Unit {0}
IsCatalog ((n, e) ∷ c) = (e.name ≡ n) × IsEntry e × (lookup n c ≡ none) × IsCatalog c

find-insert_by_name :
    (n : Bytes) (e : CatalogEntry) (es : List CatalogEntry)
    → find_entry e.name es ≡ none
    → find_entry n (insert_by_name e es) ≡ (if bytes_eq e.name n then some e else find_entry n es)
unfolding find_entry insert_by_name
find-insert_by_name n e [] h = refl
find-insert_by_name n e (x ∷ es) h = elim (Bool-cases (name_before x e)) [
  | inl q ↦ rw q (
      ground (
        arith,
        h,
        find-insert_by_name n e es (absent (bytes_eq x.name e.name) h),
        bytes_eq_iff x.name n,
        bytes_eq_iff e.name n,
        bytes_eq_iff x.name e.name,
      ))
  | inr q ↦ rw q refl
]
  where
    absent :
        (b : Bool)
        → (if b then some x else find_entry e.name es) ≡ none
        → find_entry e.name es ≡ none
    absent true k = cc
    absent false k = k

insert_by_name-Entries :
    (e : CatalogEntry) (es : List CatalogEntry)
    → IsEntry e
    → find_entry e.name es ≡ none
    → Entries es
    → Entries (insert_by_name e es)
unfolding insert_by_name find_entry
insert_by_name-Entries e [] good h all = (good, h, tt)
insert_by_name-Entries e (x ∷ es) good h (x_good, x_new, all) =
    elim (Bool-cases (name_before x e)) [
      | inl q ↦ rw q (
        x_good,
        (find-insert_by_name x.name e es (absent (bytes_eq x.name e.name) h)
            ∙ other (bytes_eq e.name x.name) refl),
        insert_by_name-Entries e es good (absent (bytes_eq x.name e.name) h) all,
      )
      | inr q ↦ rw q (good, h, (x_good, x_new, all))
    ]
  where
    absent :
        (b : Bool)
        → (if b then some x else find_entry e.name es) ≡ none
        → find_entry e.name es ≡ none
    absent true k = cc
    absent false k = k

    other :
        (b : Bool)
        → bytes_eq e.name x.name ≡ b
        → (if b then some e else find_entry x.name es) ≡ none
    other false k = x_new
    other true k = ground (arith, h, k, bytes_eq_iff e.name x.name, bytes_eq_iff x.name e.name)

-- The entries of a catalog are those that it has under their names.
sort_by_name-Entries :
    (c : Catalog)
    → IsCatalog c
    → Entries (sort_by_name c) × ((n : Bytes) → find_entry n (sort_by_name c) ≡ lookup n c)
unfolding sort_by_name find_entry lookup
sort_by_name-Entries [] h = (tt, λ n. refl)
sort_by_name-Entries ((n, e) ∷ c) (named, good, new, h) =
    let (all, same) = sort_by_name-Entries c h in
    let absent : find_entry e.name (sort_by_name c) ≡ none =
      same e.name ∙ ap (λ k. lookup k c) named ∙ new in
    (
      insert_by_name-Entries e (sort_by_name c) good absent all,
      λ m.
          find-insert_by_name m e (sort_by_name c) absent
          ∙ ap (λ o. if bytes_eq e.name m then some e else o) (same m)
          ∙ ap (λ k. if bytes_eq k m then some e else lookup m c) named,
    )

abbrev or_else : Option CatalogEntry → Option CatalogEntry → Option CatalogEntry
or_else none o = o
or_else (some e) o = some e

same_name : (e : CatalogEntry) (es : List CatalogEntry) → find_entry e.name (e ∷ es) ≡ some e
unfolding find_entry
same_name e es = ground (arith, bytes_eq_iff e.name e.name)

still_absent :
    (n : Bytes) (e x : CatalogEntry) (es : List CatalogEntry) (c : Catalog)
    → find_entry e.name es ≡ none
    → ((k : Bytes) (y : CatalogEntry) → find_entry k (e ∷ es) ≡ some y → lookup k c ≡ none)
    → find_entry n es ≡ some x
    → lookup n (insert e.name e c) ≡ none
unfolding find_entry
still_absent n e x es c fresh new k = elim (Bool-cases (bytes_eq e.name n)) [
  | inl q ↦ absurd (clash (sym fresh ∙ ap (λ m. find_entry m es) ((bytes_eq_iff e.name n).0 q) ∙ k))
  | inr q ↦
      lookup-insert e.name n e c
      ∙ ap (λ b. if b then some e else lookup n c) q
      ∙ new n x (ap (λ b. if b then some e else find_entry n es) q ∙ k)
]
  where
    clash : ◌≡◌ {A = Option CatalogEntry} none (some x) → ⊥
    clash h = cc

found_in :
    (n : Bytes) (e : CatalogEntry) (es : List CatalogEntry) (c : Catalog)
    → find_entry e.name es ≡ none
    → or_else (find_entry n es) (lookup n (insert e.name e c))
      ≡ or_else (find_entry n (e ∷ es)) (lookup n c)
unfolding find_entry
found_in n e es c fresh = elim (Bool-cases (bytes_eq e.name n)) [
  | inl q ↦ rw q (
      ap (λ o. or_else o (lookup n (insert e.name e c)))
        (ap (λ m. find_entry m es) (sym ((bytes_eq_iff e.name n).0 q)) ∙ fresh)
      ∙ lookup-insert e.name n e c
      ∙ ap (λ b. if b then some e else lookup n c) q)
  | inr q ↦ rw q (
      ap (or_else (find_entry n es))
        (lookup-insert e.name n e c ∙ ap (λ b. if b then some e else lookup n c) q))
]

opened :
    (es : List CatalogEntry) (c : Catalog)
    → Entries es
    → ((n : Bytes) (e : CatalogEntry) → find_entry n es ≡ some e → lookup n c ≡ none)
    → (d : Catalog) × (open_entries es c ≡ ok d)
      × ((n : Bytes) → lookup n d ≡ or_else (find_entry n es) (lookup n c))
unfolding open_entries find_entry
opened [] c all new = (c, refl, λ n. refl)
opened (e ∷ es) c (good, fresh, all) new =
    let mine : lookup e.name c ≡ none = new e.name e (same_name e es) in
    let (d, ran, same) =
      opened es (insert e.name e c) all (λ n x k. still_absent n e x es c fresh new k) in
    (d, rw (good.named, mine, good.valid) ran, λ n. same n ∙ found_in n e es c fresh)

or_none : (o : Option CatalogEntry) → or_else o none ≡ o
or_none none = refl
or_none (some e) = refl

open_entries-catalog_entries :
    (c : Catalog)
    → IsCatalog c
    → (d : Catalog) × (open_entries (catalog_entries c) [] ≡ ok d)
      × ((n : Bytes) → lookup n d ≡ lookup n c)
unfolding catalog_entries lookup
open_entries-catalog_entries c h =
    let (all, same) = sort_by_name-Entries c h in
    let (d, ran, found) = opened (sort_by_name c) [] all (λ n e k. refl) in
    (d, ran, λ n. found n ∙ or_none (find_entry n (sort_by_name c)) ∙ same n)

-- The text of JSON is UTF-8: the encoder replaces what is not.
abbrev pub all_known : List ℕ → Bool
all_known [] = true
all_known (r ∷ rs) = not (r == 0xFFFD) && all_known rs

abbrev pub is_text : Bytes → Bool
is_text s = all_known (runes 0 s)

abbrev pub are_text : List Column → Bool
are_text [] = true
are_text (c ∷ cs) = is_text c.name && are_text cs

abbrev pub is_text_reference : Option Reference → Bool
is_text_reference none = true
is_text_reference (some r) = is_text r.table && is_text r.column

-- The encoder writes a map in the order of its keys.
abbrev pub in_order : Assoc ColumnConstraint → Bool
in_order [] = true
in_order ((n, c) ∷ []) = is_text n && is_text_reference c.references
in_order ((n, c) ∷ (m, d) ∷ rest) =
    is_text n
    && is_text_reference c.references
    && is_before (bytes_compare n m)
    && in_order ((m, d) ∷ rest)

-- An entry that JSON keeps as it is.
abbrev pub is_json : CatalogEntry → Bool
is_json e =
    is_text e.name && is_text e.path && are_text e.schema.columns && in_order e.schema.constraints

abbrev pub AreJson : List CatalogEntry → Type 0
AreJson [] = Unit {0}
AreJson (e ∷ es) = (is_json e ≡ true) × AreJson es

-- `json.MarshalIndent` and `json.Unmarshal`: entries that JSON keeps are encoded, and decoded again.
module _ {F : Type 0} (marshal : List CatalogEntry → Result CatalogError F)
    (unmarshal : F → Result CatalogError (List CatalogEntry))
    (json : (es : List CatalogEntry)
      → AreJson es
      → (b : F) × (marshal es ≡ ok b) × (unmarshal b ≡ ok es)) where
  -- A catalog is saved, and what is saved opens as a catalog with the same entry under each name.
  -- Each entry must stand under its own name, once, with a name, a path and a valid schema, as
  -- `Set` asks, the texts must be UTF-8 without U+FFFD, the constraints in the order of their columns, and JSON must
  -- decode what it made of such entries.
  pub open_catalog-encode_catalog :
      (c : Catalog)
      → IsCatalog c
      → AreJson (catalog_entries c)
      → (b : F) × (encode_catalog marshal c ≡ ok b)
        × (d : Catalog) × (open_catalog unmarshal (some b) ≡ ok d)
        × ((n : Bytes) → lookup n d ≡ lookup n c)
  unfolding encode_catalog open_catalog
  open_catalog-encode_catalog c h texts =
      let (b, made, read) = json (catalog_entries c) texts in
      let (d, ran, same) = open_entries-catalog_entries c h in (b, made, d, rw read ran, same)
