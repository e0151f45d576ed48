-- ===== src/Storage/Pool/Entries.antt =====
-- The list of cached entries as a map: what each change of the list does to the search by id.
use go_db.Base.{
  ℕ, suc, ◌≤◌, ◌≡◌, refl, ap, false, Option, none, some, List, [], ◌∷◌, length, arith, ◌==◌,
  if◌then◌else◌,
}
use go_db.Storage.Pool.{PoolEntry, find_entry, remove_entry, back, drop_back, mark_clean}

-- No two entries hold the same page.
abbrev pub Distinct : List PoolEntry → Type 0
Distinct [] = Unit {0}
Distinct (e ∷ es) = (find_entry e.page.id es ≡ none) × Distinct es

pub find_entry_id :
    (id : ℕ) (es : List PoolEntry) {e : PoolEntry} → find_entry id es ≡ some e → e.page.id ≡ id
unfolding find_entry
find_entry_id id [] h = cc
find_entry_id id (x ∷ es) {e} h = ground (arith, find_entry_id id es {e = e})

pub length-remove_entry :
    (id : ℕ) (es : List PoolEntry) {e : PoolEntry}
    → find_entry id es ≡ some e
    → suc (length (remove_entry id es)) ≡ length es
unfolding find_entry remove_entry
length-remove_entry id [] h = cc
length-remove_entry id (x ∷ es) {e} h = ground (arith, length-remove_entry id es {e = e})

pub find_entry-remove_entry :
    (id j : ℕ) (es : List PoolEntry)
    → Distinct es
    → find_entry j (remove_entry id es) ≡ (if id == j then none else find_entry j es)
unfolding find_entry remove_entry
find_entry-remove_entry id j [] d = ground arith
find_entry-remove_entry id j (x ∷ es) d = ground (arith, find_entry-remove_entry id j es)

pub Distinct-remove_entry :
    (id : ℕ) (es : List PoolEntry) → Distinct es → Distinct (remove_entry id es)
unfolding find_entry remove_entry
Distinct-remove_entry id [] d = tt
Distinct-remove_entry id (x ∷ es) d =
    ground (arith, Distinct-remove_entry id es, find_entry-remove_entry id x.page.id es)

pub find_entry-back :
    (es : List PoolEntry) {e : PoolEntry}
    → Distinct es
    → back es ≡ some e
    → find_entry e.page.id es ≡ some e
unfolding find_entry back
find_entry-back [] d h = cc
find_entry-back (x ∷ []) d h = ground arith
find_entry-back (x ∷ y ∷ es) {e} d h = ground (arith, find_entry-back (y ∷ es) {e = e} d.1 h)

pub find_entry-drop_back :
    (j : ℕ) (es : List PoolEntry) {e : PoolEntry}
    → Distinct es
    → back es ≡ some e
    → find_entry j (drop_back es) ≡ (if e.page.id == j then none else find_entry j es)
unfolding find_entry back drop_back
find_entry-drop_back j [] d h = cc
find_entry-drop_back j (x ∷ []) d h = ground arith
find_entry-drop_back j (x ∷ y ∷ es) {e} d h =
    ground (arith, find_entry-drop_back j (y ∷ es) d.1 h, find_entry-back (y ∷ es) d.1 h)

pub Distinct-drop_back :
    (es : List PoolEntry) {e : PoolEntry} → Distinct es → back es ≡ some e → Distinct (drop_back es)
unfolding find_entry back drop_back
Distinct-drop_back [] d h = tt
Distinct-drop_back (x ∷ []) d h = tt
Distinct-drop_back (x ∷ y ∷ es) d h =
    ground (arith, Distinct-drop_back (y ∷ es) d.1 h, find_entry-drop_back x.page.id (y ∷ es) d.1 h)

pub length-drop_back :
    (es : List PoolEntry) {e : PoolEntry}
    → back es ≡ some e
    → suc (length (drop_back es)) ≡ length es
unfolding back drop_back
length-drop_back [] h = cc
length-drop_back (x ∷ []) h = refl
length-drop_back (x ∷ y ∷ es) h = ap suc (length-drop_back (y ∷ es) h)

pub back-ne-none : (es : List PoolEntry) → 1 ≤ length es → back es ≡ none → ⊥
unfolding back
back-ne-none [] h e = omega arith
back-ne-none (x ∷ []) h e = cc
back-ne-none (x ∷ y ∷ es) h e = back-ne-none (y ∷ es) (omega arith) e

abbrev pub cleaned : Option PoolEntry → Option PoolEntry
cleaned none = none
cleaned (some e) = some (record e { dirty = false })

pub find_entry-mark_clean :
    (id j : ℕ) (es : List PoolEntry)
    → find_entry j (mark_clean id es)
      ≡ (if id == j then cleaned (find_entry j es) else find_entry j es)
unfolding find_entry mark_clean
find_entry-mark_clean id j [] = ground arith
find_entry-mark_clean id j (x ∷ es) = ground (arith, find_entry-mark_clean id j es)

pub Distinct-mark_clean : (id : ℕ) (es : List PoolEntry) → Distinct es → Distinct (mark_clean id es)
unfolding find_entry mark_clean
Distinct-mark_clean id [] d = tt
Distinct-mark_clean id (x ∷ es) d =
    ground (arith, Distinct-mark_clean id es, find_entry-mark_clean id x.page.id es)

pub length-mark_clean : (id : ℕ) (es : List PoolEntry) → length (mark_clean id es) ≡ length es
unfolding mark_clean
length-mark_clean id [] = refl
length-mark_clean id (x ∷ es) = ground (arith, length-mark_clean id es)
