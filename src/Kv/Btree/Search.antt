-- ===== src/Kv/Btree/Search.antt =====
-- The binary search in a node's keys finds the place of a key.
use go_db.Base.{
  ℕ, zero, suc, ◌+◌, ◌-◌, ◌/◌, ◌≤◌, ◌<◌, ◌≡◌, refl, ap, Bool, true, false, some, List, [], ◌∷◌,
  ◌++◌, arith, Bytes, length, length-append, get_elem?, ltb, ltb→lt, le_of_ltb-false, Bool-cases,
  inl, inr,
}
use go_db.Base.Result.{ok}
use go_db.Kv.Btree.{less, key_index_loop, key_index}

-- Every key of the list comes before `key`, or none does.
abbrev pub AllLess : Bool → List Bytes → Bytes → Type 0
AllLess b [] key = Unit {0}
AllLess b (k ∷ ks) key = (less k key ≡ b) × AllLess b ks key

element_below :
    (key : Bytes) (b : Bool) (ks : List Bytes) (i : ℕ)
    → AllLess b ks key
    → i < length ks
    → (k : Bytes) × (get_elem? ks i ≡ some k) × (less k key ≡ b)
element_below key b [] i all lt = absurd (omega arith)
element_below key b (k ∷ ks) zero (here, all) lt = (k, refl, here)
element_below key b (k ∷ ks) (suc i) (here, all) lt = element_below key b ks i all (omega arith)

element_first :
    (key : Bytes) (ks rest : List Bytes) (i : ℕ)
    → AllLess true ks key
    → i < length ks
    → (k : Bytes) × (get_elem? (ks ++ rest) i ≡ some k) × (less k key ≡ true)
element_first key [] rest i all lt = absurd (omega arith)
element_first key (k ∷ ks) rest zero (here, all) lt = (k, refl, here)
element_first key (k ∷ ks) rest (suc i) (here, all) lt =
    element_first key ks rest i all (omega arith)

element_second :
    (key : Bytes) (ks rest : List Bytes) (i : ℕ)
    → AllLess false rest key
    → length ks ≤ i
    → i < length ks + length rest
    → (k : Bytes) × (get_elem? (ks ++ rest) i ≡ some k) × (less k key ≡ false)
element_second key [] rest i all le lt = element_below key false rest i all (omega arith)
element_second key (k ∷ ks) rest zero all le lt = absurd (omega arith)
element_second key (k ∷ ks) rest (suc i) all le lt =
    element_second key ks rest i all (omega arith) (omega arith)

module _ {E : Type 0} (key : Bytes) (first second : List Bytes) (below : AllLess true first key)
    (above : AllLess false second key) where
  key_index_loop_lem :
      (fuel lo hi : ℕ)
      → lo ≤ length first
      → length first ≤ hi
      → hi ≤ length first + length second
      → hi - lo < fuel
      → key_index_loop {E = E} fuel (first ++ second) key lo hi ≡ ok (length first)
  unfolding key_index_loop
  key_index_loop_lem zero lo hi left right fits enough = absurd (omega arith)
  key_index_loop_lem (suc fuel) lo hi left right fits enough = elim (Bool-cases (ltb lo hi)) [
    | inr done ↦
        let le : hi ≤ lo = le_of_ltb-false lo hi done in
        rw (done, key_index_loop) (ap ok (omega arith))
    | inl open_ ↦
        let lt : lo < hi = ltb→lt lo hi open_ in
        elim (Bool-cases (ltb ((lo + hi) / 2) (length first))) [
          | inl q ↦
              let (k, at, is) =
                element_first key first second ((lo + hi) / 2) below (ltb→lt _ _ q) in
              let m_lt : (lo + hi) / 2 < length first = ltb→lt _ _ q in
              rw (open_, key_index_loop, at, is)
                (key_index_loop_lem fuel ((lo + hi) / 2 + 1) hi (omega arith) right fits
                  (omega arith))
          | inr q ↦
              let m_le : length first ≤ (lo + hi) / 2 = le_of_ltb-false _ _ q in
              let (k, at, is) =
                element_second key first second ((lo + hi) / 2) above m_le (omega arith) in
              rw (open_, key_index_loop, at, is)
                (key_index_loop_lem fuel lo ((lo + hi) / 2) left m_le (omega arith) (omega arith))
        ]
  ]

  -- Where the keys before `key` stand in front of the others, as in a sorted list, the binary search ends,
  -- with the number of the keys before it.
  pub key_index-append : key_index {E = E} (first ++ second) key ≡ ok (length first)
  unfolding key_index
  key_index-append =
      key_index_loop_lem (suc (length (first ++ second))) 0 (length (first ++ second)) (omega arith)
        (omega (arith, length-append first second)) (omega (arith, length-append first second))
        (omega arith)
