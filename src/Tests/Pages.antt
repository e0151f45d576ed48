-- ===== src/Tests/Pages.antt =====
-- Pages, the pool and the pager, over the pager's file.
use mathlib.Core.List.{foldl}
use go_db.Base.{
  ℕ, ◌+◌, ◌<◌, ◌≡◌, refl, sym, suc, ◌⊎◌, true, [], ◌∷◌, ◌++◌, Bytes, arith, ◌==◌, if◌then◌else◌,
  replicate, copy_at, slice, put_le, get_le,
}
use go_db.Base.Result.{ok, err}
use go_db.Storage.Page.{
  Page, page_size, header_size, no_page, new_page, header_id, free_offset, next_page_id,
  set_free_offset, put_u16,
}
use go_db.Storage.Page.Header.{new_page_header, new_page-IsPage}
use go_db.Storage.Pool.{PoolEntry, Cached, find_entry, get, put, back}
use go_db.Storage.Pool.View.{IsCoherent, SameView, view}
use go_db.Storage.Pool.Refines.{Returns, get-view}
use go_db.Storage.Pool.Writes.{after_put, put-view}
use go_db.Storage.Pager.File.{file_disk, page_at, read_page_disk-write_page_disk}
use go_db.Storage.Pager.{
  read_page_disk, write_page_disk, Pager, read_page, write_page, allocate_page,
}
use go_db.Storage.Pager.Laws.{read_page-write_page, read_page-allocate_page}
use go_db.Kv.Record.{Record, page_full, write_record, for_records, read_record, write_at, record_of}
use go_db.Kv.Record.Append.{written}
use go_db.Kv.Record.Pages.{
  HoldsRecords, end, more, new_page-HoldsRecords, write_record-HoldsRecords,
  for_records-HoldsRecords,
}

-- a page that is in the pool and not in the file
abbrev waiting : PoolEntry
waiting = record { page = new_page 7; dirty = true }

-- A full pool of one page, over an empty file.
abbrev full_pool : Cached Bytes
full_pool = record {
  pool = record { capacity = 1; lru = waiting ∷ []; hits = 0; misses = 0 };
  world = [];
}

new_page_id : (id : ℕ) → (new_page id).id ≡ id
unfolding new_page
new_page_id id = refl

full_pool-IsCoherent : IsCoherent file_disk full_pool
unfolding find_entry
full_pool-IsCoherent = record {
  cap_pos = omega arith;
  bounded = omega arith;
  distinct = (refl, tt);
  whole = λ j e h. ground (arith, new_page-IsPage 7);
  clean = λ j e h x. ground arith;
}

-- Page 7 is evicted for page 3, which the file does not have.
get-view_example :
    IsCoherent file_disk (get read_page_disk write_page_disk 3 full_pool).1
    × SameView file_disk full_pool (get read_page_disk write_page_disk 3 full_pool).1
    × Returns (get read_page_disk write_page_disk 3 full_pool).0 (view file_disk full_pool 3)
get-view_example = get-view file_disk full_pool 3 full_pool-IsCoherent

-- Page 3 evicts page 7, which is written.
put-view_example :
    IsCoherent file_disk (put read_page_disk write_page_disk (new_page 3) true full_pool).1
    × ((j : ℕ)
        → view file_disk (put read_page_disk write_page_disk (new_page 3) true full_pool).1 j
          ≡ after_put
              (put read_page_disk write_page_disk (new_page 3) true full_pool).0
              (new_page 3)
              j
              (view file_disk full_pool j))
put-view_example =
    put-view file_disk full_pool (new_page 3) full_pool-IsCoherent (new_page-IsPage 3)

abbrev pager : Pager Bytes
pager = record { num_pages = 8; cache = full_pool }

wrote : (write_page read_page_disk write_page_disk (new_page 3) pager).0 ≡ ok tt
unfolding write_page put find_entry back new_page write_page_disk
wrote = refl

read_page-write_page_example :
    ((read_page read_page_disk write_page_disk
        (new_page 3).id
        (write_page read_page_disk write_page_disk (new_page 3) pager).1).0
      ≡ ok (new_page 3))
    × Returns
        (read_page read_page_disk write_page_disk 7
          (write_page read_page_disk write_page_disk (new_page 3) pager).1).0
        (if (new_page 3).id == 7 then new_page 3 else view file_disk full_pool 7)
read_page-write_page_example =
    read_page-write_page file_disk pager (new_page 3) 7 full_pool-IsCoherent (new_page-IsPage 3)
      wrote

allocates : (allocate_page read_page_disk write_page_disk pager).0 ≡ ok (new_page 8)
unfolding allocate_page put find_entry new_page back write_page_disk
allocates = refl

read_page-allocate_page_example :
    (new_page 8 ≡ new_page 8)
    × ((allocate_page read_page_disk write_page_disk pager).1.num_pages ≡ 8 + 1)
    × ((read_page read_page_disk write_page_disk
          (new_page 8).id
          (allocate_page read_page_disk write_page_disk pager).1).0
        ≡ ok (new_page 8))
    × Returns
        (read_page read_page_disk write_page_disk 7
          (allocate_page read_page_disk write_page_disk pager).1).0
        (if (new_page 8).id == 7 then new_page 8 else view file_disk full_pool 7)
read_page-allocate_page_example =
    read_page-allocate_page file_disk pager (new_page 8) 7 full_pool-IsCoherent (omega arith)
      allocates

read_page_disk-write_page_disk_example :
    ((read_page_disk 1 (write_page_disk (new_page 1) (7 ∷ [])).1).0 ≡ ok (new_page 1))
    × (page_at (write_page_disk (new_page 1) (7 ∷ [])).1 0
        ≡ (if 1 == 0 then new_page 1 else page_at (7 ∷ []) 0))
unfolding new_page
read_page_disk-write_page_disk_example =
    read_page_disk-write_page_disk (7 ∷ []) (new_page 1) 0 (new_page-IsPage 1)

new_page_header_example :
    (header_id (new_page 5) ≡ 5)
    × (free_offset (new_page 5) ≡ header_size)
    × (next_page_id (new_page 5) ≡ no_page)
new_page_header_example = new_page_header 5 (omega arith)

write_record-HoldsRecords_example :
    ((page_size < free_offset (new_page 5) + 5 + 1 + 2)
      × (write_record (new_page 5) (107 ∷ []) (1 ∷ 2 ∷ []) 0 ≡ err page_full))
    ⊎ ((q : Page) × (write_record (new_page 5) (107 ∷ []) (1 ∷ 2 ∷ []) 0 ≡ ok q)
        × HoldsRecords q ([] ++ written (107 ∷ []) (1 ∷ 2 ∷ []) 0 ∷ []))
write_record-HoldsRecords_example =
    write_record-HoldsRecords (new_page 5) (107 ∷ []) (1 ∷ 2 ∷ []) 0
      (new_page-HoldsRecords 5 (omega arith))

abbrev pub key_record : Record
key_record = record { flag = 0; key = 107 ∷ []; value = 1 ∷ 2 ∷ []; size = 8 }

-- A page with one record.
abbrev pub one_page : Page
unfolding set_free_offset put_u16 new_page write_at
one_page =
    set_free_offset
      (record (new_page 5) { bytes = write_at (new_page 5).bytes 16 (107 ∷ []) (1 ∷ 2 ∷ []) 0 }) 24

one_page_free : free_offset one_page ≡ 24
unfolding free_offset one_page get_le slice copy_at replicate put_le
one_page_free = refl

pub one_page_id : one_page.id ≡ 5
unfolding one_page new_page set_free_offset
one_page_id = refl

pub one_page_ends : next_page_id one_page ≡ no_page
unfolding next_page_id one_page get_le slice copy_at replicate put_le
one_page_ends = refl

pub one_page-HoldsRecords : HoldsRecords one_page (key_record ∷ [])
unfolding one_page copy_at replicate read_record record_of get_le slice put_le
one_page-HoldsRecords = record {
  whole = refl;
  fits = rw one_page_free (omega arith);
  holds = more refl (end (sym one_page_free));
}

-- The loop collects the keys.
for_records-HoldsRecords_example :
    for_records
      (suc page_size)
      (λ r ks. r.key ∷ ks)
      one_page.bytes
      header_size
      (free_offset one_page)
      []
    ≡ ok (foldl (λ ks r. r.key ∷ ks) [] (key_record ∷ []))
for_records-HoldsRecords_example =
    for_records-HoldsRecords (λ r ks. r.key ∷ ks) [] one_page-HoldsRecords
