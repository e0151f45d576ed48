-- ===== src/Tests/Tables.antt =====
-- Rows, secondary indexes, joins and groups at concrete inputs.
use mathlib.Core.Path.{subst}
use go_db.Base.{
  get_le, slice, length, ◌++◌, take, drop, bytes_compare, ◌≡◌, refl, ◌∙◌, arith, Bool, false, ◌&&◌,
  ◌||◌, bytes_eq, bytes_eq_iff, if◌then◌else◌, true, none, some, List, [], ◌∷◌, Bytes, codes,
}
use go_db.Base.Int.{pos, negsuc}
use go_db.Base.Assoc.{lookup, insert, remove}
use go_db.Base.Result.{ok}
use go_db.Kv.Value.{Value, text, Column, string_type, Schema, Row}
use go_db.Kv.Table.{Table, delete_row}
use go_db.Kv.Table.Secondary.{has_key, keys_for, keys_or_nil}
use go_db.Kv.Table.Reindex.{IsIndexed, row_has}
use go_db.Kv.Table.Keys.{is_named}
use go_db.Kv.Table.Upkeep.{left_behind, delete_row-IsIndexed}
use go_db.Sql.Ast.{Select}
use go_db.Sql.Select.{join_rows, groups_of, group_key}
use go_db.Sql.Select.Buckets.{filled, rows_with}
use go_db.Sql.Select.Joins.{nested_join, join_rows-nested_join}
use go_db.Sql.Select.Groups.{groups_of-rows_with}
use go_db.Tests.Parsing.{no_floats}
use go_db.Storage.Pager.{read_page_disk, write_page_disk}
use go_db.Tests.Stores.{silent, silent-Quiet, empty_store, empty_store-IsStore}
use go_db.Storage.Pager.File.{file_disk}
use go_db.Kv.Codec.{index_of, index_from, decode, decode_columns, decode_value, is_set_null}
use go_db.Kv.Btree.{root, get_node, get_leaf, key_index, key_index_loop}
use go_db.Kv.Btree
use go_db.Kv.Table
use go_db.Kv.Store
use go_db.Kv.Store.Effects.{After}
use go_db.Kv.Store.State.{IsStore, IsStore-index}

-- Texts print as they are, and nothing else does.
abbrev pub show_text : Value → Bytes
show_text (text s) = s
show_text _ = []

abbrev pub people : Schema
people = record {
  columns =
      record { name = codes "id"; kind = string_type }
      ∷ record { name = codes "city"; kind = string_type }
      ∷ [];
  constraints = [];
}

abbrev pub row_of : Bytes → Bytes → Row
row_of id city = (codes "id", text id) ∷ (codes "city", text city) ∷ []

abbrev pub ann : Row
ann = row_of (codes "ann") (codes "rome")

abbrev bob : Row
bob = row_of (codes "bob") (codes "oslo")

abbrev moved_ann : Row
moved_ann = row_of (codes "ann") (codes "oslo")

-- The bytes of a row: the bitmap of nulls, and two texts behind their lengths.
abbrev row_bytes : Bytes → Bytes → Bytes
row_bytes id city = 0 ∷ (length id ∷ 0 ∷ 0 ∷ 0 ∷ []) ++ id ++ (length city ∷ 0 ∷ 0 ∷ 0 ∷ []) ++ city

-- A table with one row in both of its indexes.
abbrev one_row : Table Bytes
one_row = record {
  store = record empty_store {
    index =
        root 0 (record {
          keys = codes "ann" ∷ [];
          values = row_bytes (codes "ann") (codes "rome") ∷ [];
        });
  };
  schema = people;
  secondary = (codes "city", (codes "rome", codes "ann" ∷ []) ∷ []) ∷ [];
}

abbrev city_column : List Column
city_column = record { name = codes "city"; kind = string_type } ∷ []

in_rome :
    (v k : Bytes) (b : Bool)
    → has_key k (keys_or_nil (if b then some (codes "ann" ∷ []) else none))
      ≡ (b && bytes_eq (codes "ann") k)
unfolding has_key
in_rome v k true = ground arith
in_rome v k false = refl

city_of_ann :
    (v k : Bytes) (c : Bool)
    → (bytes_eq (codes "rome") v && c)
      ≡ row_has show_text (if c then some ann else none) (codes "city") v
unfolding lookup bytes_eq
city_of_ann v k true = ground arith
city_of_ann v k false = ground arith

named_city : (a : Bytes) → is_named a city_column ≡ true → codes "city" ≡ a
named_city a n = (bytes_eq_iff (codes "city") a).0 (left (bytes_eq (codes "city") a) n)
  where
    left : (b : Bool) → (b || false) ≡ true → b ≡ true
    left true h = refl
    left false h = h

city_map : lookup (codes "city") one_row.secondary ≡ some ((codes "rome", codes "ann" ∷ []) ∷ [])
unfolding lookup bytes_eq
city_map = refl

at_city :
    (v k : Bytes)
    → has_key k (keys_for one_row.secondary (codes "city") v)
      ≡ row_has show_text (lookup k ((codes "ann", ann) ∷ [])) (codes "city") v
unfolding lookup bytes_eq
at_city v k = in_rome v k (bytes_eq (codes "rome") v) ∙ city_of_ann v k (bytes_eq (codes "ann") k)

one_row-IsIndexed : IsIndexed show_text city_column one_row.secondary ((codes "ann", ann) ∷ [])
one_row-IsIndexed = record {
  maps = ((_, city_map), tt);
  exact = λ a v k n.
      subst
        (λ a.
          has_key k (keys_for one_row.secondary a v)
          ≡ row_has show_text (lookup k ((codes "ann", ann) ∷ [])) a v)
        (named_city a n) (at_city v k);
}

one_row_store-IsStore : IsStore file_disk one_row.store []
one_row_store-IsStore =
    IsStore-index file_disk empty_store one_row.store.index [] empty_store-IsStore

decodes_ann : decode people (row_bytes (codes "ann") (codes "rome")) ≡ ok ann
unfolding decode decode_columns decode_value is_set_null lookup insert bytes_eq get_le slice take
    drop index_of index_from
decodes_ann = refl

gets_ann :
    Table.get (codes "ann") one_row ≡ (ok (lookup (codes "ann") ((codes "ann", ann) ∷ [])), one_row)
unfolding Table.get Store.get Btree.get get_node get_leaf key_index key_index_loop bytes_compare
    bytes_eq lookup
gets_ann = rw decodes_ann refl

delete_row-IsIndexed_example :
    After
      (delete_row read_page_disk write_page_disk silent no_floats show_text show_text
        (codes "ann")
        one_row)
      (λ _ u.
        IsStore file_disk u.store
          (left_behind (codes "ann") [] (lookup (codes "ann") ((codes "ann", ann) ∷ [])))
        × IsIndexed show_text city_column u.secondary
            (remove (codes "ann") ((codes "ann", ann) ∷ [])))
delete_row-IsIndexed_example =
    delete_row-IsIndexed file_disk silent silent-Quiet no_floats show_text show_text one_row
      (record { name = codes "id"; kind = string_type }) city_column ((codes "ann", ann) ∷ []) []
      refl one_row-IsIndexed one_row_store-IsStore (omega arith) (codes "ann") gets_ann

abbrev by_city : Select
by_city = record {
  columns = codes "*" ∷ [];
  table = codes "a";
  condition = none;
  order_by = [];
  desc = true;
  limit = negsuc 0;
  offset = pos 0;
  group_by = codes "city" ∷ [];
  join_table = codes "b";
  join_left = codes "city";
  join_right = codes "city";
}

join_rows-nested_join_example :
    join_rows no_floats show_text show_text by_city (ann ∷ bob ∷ []) (bob ∷ ann ∷ [])
    ≡ nested_join no_floats show_text show_text by_city (ann ∷ bob ∷ []) (bob ∷ ann ∷ [])
join_rows-nested_join_example =
    join_rows-nested_join no_floats show_text show_text by_city (ann ∷ bob ∷ []) (bob ∷ ann ∷ [])

groups_of-rows_with_example :
    lookup (codes "rome|") (groups_of show_text true (codes "city" ∷ []) (ann ∷ bob ∷ [])) ≡ (
      if false && true && false
      then if bytes_eq [] (codes "rome|") then some [] else none
      else filled
          (rows_with (group_key show_text (codes "city" ∷ [])) (codes "rome|") (ann ∷ bob ∷ [])))
groups_of-rows_with_example =
    groups_of-rows_with show_text true (codes "city" ∷ []) (ann ∷ bob ∷ []) (codes "rome|")
