-- ===== src/Kv/Catalog.antt =====
-- kv/catalog.go: the tables of a database, by name. The JSON of the file and the write of it are
-- parameters: `save` is handed the entries in the order of their names.
pub mod RoundTrip
use Prim.Native.Nat.{Ordering}
use go_db.Base.{
  ℕ, Bool, true, false, ◌||◌, Option, none, some, List, [], ◌∷◌, Bytes, bytes_compare,
  if◌then◌else◌,
}
use go_db.Base.Assoc.{Assoc, lookup, insert, remove}
use go_db.Base.Result.{Result, ok, err, panic, stuck}
use go_db.Base.Result
use go_db.Base.Exec.{Exec, wrap, ◌>>◌}
use go_db.Kv.Value.{Schema}
use go_db.Kv.Codec.{RowError, validate}

pub record CatalogEntry : Type 0 where
  pub name : Bytes
  pub path : Bytes
  pub schema : Schema

pub data CatalogError : Type 0 where
  invalid_entry : CatalogError
  name_and_path_required : CatalogError
  duplicate_table : Bytes → CatalogError
  invalid_schema : RowError → CatalogError
  -- an error of the operating system or of the JSON encoder
  not_saved : ℕ → CatalogError

-- The field `entries`; the path is the file system's.
abbrev pub Catalog : Type 0
Catalog = Assoc CatalogEntry

abbrev pub is_blank : Bytes → Bool
is_blank [] = true
is_blank (c ∷ cs) = false

abbrev pub name_before : CatalogEntry → CatalogEntry → Bool
name_before a b = elim (bytes_compare a.name b.name) as (λ _. Bool) [
  | Ordering.lt ↦ true
  | _ ↦ false
]

-- `sort.Slice` by name
unfoldable pub insert_by_name : CatalogEntry → List CatalogEntry → List CatalogEntry
insert_by_name e [] = e ∷ []
insert_by_name e (x ∷ xs) =
    let rest = insert_by_name e xs in if name_before x e then x ∷ rest else e ∷ x ∷ xs

unfoldable pub sort_by_name : Catalog → List CatalogEntry
sort_by_name [] = []
sort_by_name ((n, e) ∷ c) = insert_by_name e (sort_by_name c)

unfoldable pub catalog_entries : Catalog → List CatalogEntry
catalog_entries c = sort_by_name c

-- `OpenCatalog` on the entries of the file
unfoldable pub open_entries : List CatalogEntry → Catalog → Result CatalogError Catalog
open_entries [] c = ok c
open_entries (e ∷ es) c =
    if is_blank e.name || is_blank e.path
    then err invalid_entry
    else elim (lookup e.name c) as (λ _. Result CatalogError Catalog) [
      | some old ↦ err (duplicate_table e.name)
      | none ↦
          Result.◌>>=◌ (wrap invalid_schema (validate e.schema))
            (λ _. open_entries es (insert e.name e c))
    ]

-- What `save` writes into the file, where `marshal` is `json.MarshalIndent`. `F` is what a file holds.
unfoldable pub encode_catalog :
    {F : Type 0} → (List CatalogEntry → Result CatalogError F) → Catalog → Result CatalogError F
encode_catalog marshal c = marshal (catalog_entries c)

-- `OpenCatalog`, where `unmarshal` is `json.Unmarshal`; without a file it is empty.
unfoldable pub open_catalog :
    {F : Type 0}
    → (F → Result CatalogError (List CatalogEntry))
    → Option F
    → Result CatalogError Catalog
open_catalog unmarshal none = ok []
open_catalog unmarshal (some b) = Result.◌>>=◌ (unmarshal b) (λ es. open_entries es [])

-- `save` encodes the entries and replaces the file.
module _ (save : List CatalogEntry → Result CatalogError (Unit {0})) where
  unfoldable pub save_catalog : Exec CatalogError Catalog (Unit {0})
  save_catalog c = (save (catalog_entries c), c)

  unfoldable pub set_entry : CatalogEntry → Exec CatalogError Catalog (Unit {0})
  set_entry e = λ c.
      if is_blank e.name || is_blank e.path
      then (err name_and_path_required, c)
      else ((λ c. (wrap invalid_schema (validate e.schema), c))
            >> ((λ c. (ok tt, insert e.name e c)) >> save_catalog))
          c

  unfoldable pub delete_entry : Bytes → Exec CatalogError Catalog (Unit {0})
  delete_entry name = (λ c. (ok tt, remove name c)) >> save_catalog
