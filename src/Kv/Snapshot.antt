-- ===== src/Kv/Snapshot.antt =====
-- The versions of a store's values, and the snapshots that read them (kv/store.go). A store keeps
-- every version of a key in the order in which `append` wrote them.
pub mod Isolation
use go_db.Base.{
  ℕ, suc, ◌+◌, ◌-◌, ◌%◌, ◌^◌, Bool, true, false, Option, none, some, List, [], ◌∷◌, ◌++◌, Bytes,
  ltb, leb, ◌==◌, if◌then◌else◌,
}
use go_db.Base.Assoc.{Assoc, lookup, insert}
use go_db.Kv.Record.{flag_live}

pub record Version : Type 0 where
  pub seq : ℕ
  pub value : Bytes
  pub found : Bool

-- The fields of `Store` that the snapshots use.
pub record History : Type 0 where
  pub seq : ℕ
  pub versions : Assoc (List Version)
  pub active_snapshots : ℕ

-- `s.versions[string(key)]`, nil on a missing key
abbrev pub versions_or_nil : Option (List Version) → List Version
versions_or_nil none = []
versions_or_nil (some vs) = vs

unfoldable pub versions_of : History → Bytes → List Version
versions_of h key = versions_or_nil (lookup key h.versions)

-- The first two statements of `append`.
unfoldable pub append_version : Bytes → Bytes → ℕ → History → History
append_version key value flag h =
    let seq = (h.seq + 1) % 2 ^ 64 in
    let version : Version = record { seq = seq; value = value; found = flag == flag_live } in
    record h { seq = seq; versions = insert key (versions_of h key ++ version ∷ []) h.versions }

unfoldable pub begin_snapshot : History → ℕ × History
begin_snapshot h = (h.seq, record h { active_snapshots = (h.active_snapshots + 1) % 2 ^ 64 })

unfoldable pub release_snapshot : ℕ → History → History
release_snapshot snapshot h =
    if ltb 0 h.active_snapshots then record h { active_snapshots = h.active_snapshots - 1 } else h

-- `vs[len(vs)-1].seq > uint64(snapshot)`, with `len(vs) > 0`
abbrev pub last_after : ℕ → List Version → Bool
last_after snapshot [] = false
last_after snapshot (v ∷ []) = ltb snapshot v.seq
last_after snapshot (v ∷ w ∷ vs) = last_after snapshot (w ∷ vs)

unfoldable pub changed_since : ℕ → Bytes → History → Bool
changed_since snapshot key h = last_after snapshot (versions_of h key)

-- The version that a walk from the last one down to the first stops at.
unfoldable pub visible : ℕ → List Version → Option Version
visible snapshot [] = none
visible snapshot (v ∷ vs) = elim (visible snapshot vs) [
  | some w ↦ some w
  | none ↦ if leb v.seq snapshot then some v else none
]

abbrev pub value_found : Option Version → Bytes × Bool
value_found none = ([], false)
value_found (some v) = (v.value, v.found)

unfoldable pub get_at : ℕ → Bytes → History → Bytes × Bool
get_at snapshot key h = value_found (visible snapshot (versions_of h key))

-- The keys come in the order of the map, which the source leaves open.
unfoldable pub live_keys : ℕ → Assoc (List Version) → List Bytes
live_keys snapshot [] = []
live_keys snapshot ((key, vs) ∷ m) =
    let rest = live_keys snapshot m in
    if (value_found (visible snapshot vs)).1 then key ∷ rest else rest

unfoldable pub keys_at : ℕ → History → List Bytes
keys_at snapshot h = live_keys snapshot h.versions
