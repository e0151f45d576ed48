-- ===== src/Tests/Sessions.antt =====
-- An executor in a transaction on one table.
use go_db.Base.{
  ◌≡◌, refl, true, false, none, some, List, [], ◌∷◌, Bytes, codes, bytes_eq, bytes_compare,
}
use go_db.Base.Assoc.{lookup}
use go_db.Base.Result.{Result, ok, err}
use go_db.Kv.Value.{text}
use go_db.Kv.Snapshot.{changed_since, versions_of}
use go_db.Kv.Table.{Table, table_changed_since}
use go_db.Kv.Codec.{validate}
use go_db.Kv.Catalog.{
  Catalog, CatalogEntry, CatalogError, sort_by_name, insert_by_name, catalog_entries,
  encode_catalog, open_catalog,
}
use go_db.Kv.Catalog.RoundTrip.{IsCatalog, AreJson, open_catalog-encode_catalog}
use go_db.Sql.Ast.{Insert, Update, Delete}
use go_db.Sql.Executor.{Executor, transaction_conflict, Transaction, commit, in_transaction}
use go_db.Sql.Executor.Statements.{insert_values, update_values, delete_values}
use go_db.Sql.Executor.Private.{Keeps, writes-heap}
use go_db.Sql.Executor.Conflicts.{here, in_this, commit-Conflicting}
use go_db.Tests.Parsing.{no_floats}
use go_db.Storage.Pager.{read_page_disk, write_page_disk}
use go_db.Tests.Stores.{silent, empty_store}
use go_db.Tests.Tables.{show_text, people, ann}

-- Another session has written the row of ann.
abbrev changed_table : Table Bytes
changed_table = record {
  store = record empty_store {
    history = record {
      seq = 1;
      versions = (codes "ann", record { seq = 1; value = []; found = true } ∷ []) ∷ [];
      active_snapshots = 1;
    };
  };
  schema = people;
  secondary = [];
}

abbrev open_transaction : Transaction
open_transaction = record {
  id = 1;
  commit = 0;
  tables =
      record {
        table = 0;
        read_at = 0;
        rollback = [];
        writes = (codes "ann", record { row = 0; deleted = false }) ∷ [];
      }
      ∷ [];
}

abbrev session : Executor Bytes
session = record {
  heap = changed_table ∷ [];
  row_store = ann ∷ [];
  tables = (codes "people", 0) ∷ [];
  tx = some open_transaction;
  catalog = none;
  next_transaction = 1;
  next_commit = 0;
}

ann_changed : table_changed_since 0 (codes "ann") changed_table ≡ true
unfolding table_changed_since changed_since versions_of lookup bytes_eq
ann_changed = refl

commit-Conflicting_example :
    (k : Bytes) × (commit read_page_disk write_page_disk silent no_floats show_text show_text
        (λ s. none)
        session
      ≡ (err (transaction_conflict k), session))
commit-Conflicting_example =
    commit-Conflicting read_page_disk write_page_disk silent no_floats show_text show_text
      (λ s. none) session open_transaction refl (in_this refl (here ann_changed))

abbrev new_person : Insert
new_person = record {
  table = codes "people";
  columns = codes "id" ∷ codes "city" ∷ [];
  values = text (codes "eve") ∷ text (codes "bonn") ∷ [];
}

abbrev move_all : Update
move_all = record {
  table = codes "people";
  assignments = (codes "city", text (codes "bern")) ∷ [];
  condition = none;
}

abbrev delete_all : Delete
delete_all = record { table = codes "people"; condition = none }

session_open : in_transaction session ≡ true
unfolding in_transaction
session_open = refl

writes-heap_example :
    Keeps read_page_disk write_page_disk silent no_floats show_text show_text
      (λ s. none)
      session
      (insert_values read_page_disk write_page_disk silent no_floats show_text show_text
        (λ s. none)
        new_person
        session)
    × Keeps read_page_disk write_page_disk silent no_floats show_text show_text
        (λ s. none)
        session
        (update_values read_page_disk write_page_disk silent no_floats show_text show_text
          (λ s. none)
          move_all
          session)
    × Keeps read_page_disk write_page_disk silent no_floats show_text show_text
        (λ s. none)
        session
        (delete_values read_page_disk write_page_disk silent no_floats show_text show_text
          (λ s. none)
          delete_all
          session)
writes-heap_example =
    writes-heap read_page_disk write_page_disk silent no_floats show_text show_text (λ s. none)
      new_person move_all delete_all session session_open

abbrev entry_of : Bytes → CatalogEntry
entry_of n = record { name = n; path = codes "/tmp/t"; schema = people }

abbrev two_tables : Catalog
two_tables = (codes "b", entry_of (codes "b")) ∷ (codes "a", entry_of (codes "a")) ∷ []

people_valid : validate people ≡ ok tt
unfolding validate bytes_eq
people_valid = refl

two_tables-IsCatalog : IsCatalog two_tables
unfolding lookup bytes_eq
two_tables-IsCatalog = (
  refl,
  record { named = refl; valid = people_valid },
  refl,
  (refl, record { named = refl; valid = people_valid }, refl, tt),
)

-- A file that keeps the entries themselves.
keep_entries :
    (es : List CatalogEntry)
    → AreJson es
    → (b : List CatalogEntry) × (◌≡◌ {A = Result CatalogError (List CatalogEntry)} (ok es) (ok b))
      × (◌≡◌ {A = Result CatalogError (List CatalogEntry)} (ok b) (ok es))
keep_entries es h = (es, refl, refl)

two_tables-AreJson : AreJson (catalog_entries two_tables)
unfolding catalog_entries bytes_compare sort_by_name insert_by_name
two_tables-AreJson = (refl, (refl, tt))

open_catalog-encode_catalog_example :
    (b : List CatalogEntry) × (encode_catalog (λ es. ok es) two_tables ≡ ok b)
    × (d : Catalog) × (open_catalog (λ es. ok es) (some b) ≡ ok d)
    × ((n : Bytes) → lookup n d ≡ lookup n two_tables)
open_catalog-encode_catalog_example =
    open_catalog-encode_catalog (λ es. ok es) (λ es. ok es) keep_entries two_tables
      two_tables-IsCatalog two_tables-AreJson
