-- ===== src/Kv/Snapshot/Isolation.antt =====
-- A snapshot sees the writes up to it and none after it.
use go_db.Base.{
  ℕ, ◌+◌, ◌%◌, ◌^◌, ◌≤◌, ◌<◌, ◌≡◌, refl, ap, ◌∙◌, true, false, some, List, [], ◌∷◌, ◌++◌, Bytes,
  arith, ltb, leb, ◌==◌, if◌then◌else◌, inl, inr, Bool-cases, bytes_eq, bytes_eq_iff,
}
use go_db.Base.Assoc.{lookup-insert}
use go_db.Kv.Record.{flag_live}
use go_db.Kv.Snapshot.{
  Version, History, versions_or_nil, versions_of, append_version, begin_snapshot, visible,
  value_found, get_at, last_after, changed_since,
}

-- A version behind the others is seen first, or not at all.
visible_append :
    (snapshot : ℕ) (vs : List Version) (v : Version)
    → visible snapshot (vs ++ v ∷ []) ≡ (if leb v.seq snapshot then some v else visible snapshot vs)
unfolding visible
visible_append snapshot [] v = refl
visible_append snapshot (w ∷ vs) v = elim (Bool-cases (leb v.seq snapshot)) [
  | inl q ↦ rw (visible_append snapshot vs v, q)
  | inr q ↦ rw (visible_append snapshot vs v, q)
]

last_after_append :
    (snapshot : ℕ) (vs : List Version) (v : Version)
    → last_after snapshot (vs ++ v ∷ []) ≡ ltb snapshot v.seq
last_after_append snapshot [] v = refl
last_after_append snapshot (w ∷ []) v = refl
last_after_append snapshot (w ∷ x ∷ vs) v = last_after_append snapshot (x ∷ vs) v

abbrev latest : Bytes → ℕ → History → Version
latest value flag h = record {
  seq = (h.seq + 1) % 2 ^ 64;
  value = value;
  found = flag == flag_live;
}

versions_of-append_version :
    (key j value : Bytes) (flag : ℕ) (h : History)
    → versions_of (append_version key value flag h) j
      ≡ (if bytes_eq key j then versions_of h key ++ latest value flag h ∷ [] else versions_of h j)
unfolding versions_of append_version
versions_of-append_version key j value flag h =
    ap versions_or_nil (lookup-insert key j _ h.versions)
    ∙ elim (Bool-cases (bytes_eq key j)) [ inl q ↦ rw q refl | inr q ↦ rw q refl ]

-- What a snapshot shows of a key is not changed by a later write of any key, if the snapshot was begun
-- at or before the present sequence number and that number does not wrap round at the write.
pub get_at-append_version :
    (snapshot : ℕ) (key j value : Bytes) (flag : ℕ) (h : History)
    → snapshot ≤ h.seq
    → h.seq + 1 < 2 ^ 64
    → get_at snapshot j (append_version key value flag h) ≡ get_at snapshot j h
unfolding get_at
get_at-append_version snapshot key j value flag h old room = elim (Bool-cases (bytes_eq key j)) [
  | inl q ↦ rw (
    versions_of-append_version key j value flag h,
    q,
    visible_append snapshot (versions_of h key) (latest value flag h),
    later snapshot h.seq old room,
    (bytes_eq_iff key j).0 q,
  )
  | inr q ↦ rw (versions_of-append_version key j value flag h, q)
]
  where
    later : (a b : ℕ) → a ≤ b → b + 1 < 2 ^ 64 → leb ((b + 1) % 2 ^ 64) a ≡ false
    later a b le lt = ground arith

-- A snapshot begun after a write shows the value written, and finds it unless it was a tombstone;
-- the key has changed since a snapshot begun right before the write. Of any other key it shows what it
-- shows without the write, and whether that key has changed does not depend on the write.
-- The sequence number must not wrap round at the write.
pub get_at-begin_snapshot :
    (key j value : Bytes) (flag : ℕ) (h : History)
    → h.seq + 1 < 2 ^ 64
    → bytes_eq key j ≡ false
    → (get_at
          (begin_snapshot (append_version key value flag h)).0
          key
          (append_version key value flag h)
        ≡ (value, flag == flag_live))
      × (changed_since (begin_snapshot h).0 key (append_version key value flag h) ≡ true)
      × (changed_since (begin_snapshot h).0 j (append_version key value flag h)
          ≡ changed_since (begin_snapshot h).0 j h)
      × (get_at
            (begin_snapshot (append_version key value flag h)).0
            j
            (append_version key value flag h)
          ≡ get_at (begin_snapshot (append_version key value flag h)).0 j h)
unfolding get_at begin_snapshot changed_since append_version
get_at-begin_snapshot key j value flag h room other =
    let own : bytes_eq key key ≡ true = (bytes_eq_iff key key).1 refl in
    (
      rw (versions_of-append_version key key value flag h, own) (seen),
      rw (versions_of-append_version key key value flag h, own)
          (last_after_append h.seq (versions_of h key) (latest value flag h) ∙ grown h.seq room),
      rw (versions_of-append_version key j value flag h, other) refl,
      rw (versions_of-append_version key j value flag h, other) refl,
    )
  where
    leb_refl : (a : ℕ) → leb a a ≡ true
    leb_refl a = ground arith

    grown : (b : ℕ) → b + 1 < 2 ^ 64 → ltb b ((b + 1) % 2 ^ 64) ≡ true
    grown b lt = ground arith

    seen :
        value_found (visible ((h.seq + 1) % 2 ^ 64) (versions_of h key ++ latest value flag h ∷ []))
        ≡ (value, flag == flag_live)
    seen =
        ap value_found
          (visible_append ((h.seq + 1) % 2 ^ 64) (versions_of h key) (latest value flag h))
        ∙ rw (leb_refl ((h.seq + 1) % 2 ^ 64)) refl
