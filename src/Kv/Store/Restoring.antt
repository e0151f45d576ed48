-- ===== src/Kv/Store/Restoring.antt =====
-- What the records of a store stand for: the index and the versions that they bring about, one record
-- after the other, described beside the code of `rebuildIndex`.
use mathlib.Core.List.{foldl}
use go_db.Base.{◌≡◌, refl, inl, inr, Bool, true, false, List, [], ◌∷◌, ◌++◌, ◌==◌, Bool-cases}
use go_db.Base.Result.{Result, ok, err, panic, stuck, ◌>>=◌}
use mathlib.Core.Path.{subst}
use go_db.Kv.Record.{Record, flag_tombstone}
use go_db.Kv.Snapshot.{append_version}
use go_db.Kv.Btree.{Btree}
use go_db.Kv.Btree
use go_db.Kv.Store.{StoreError}
use go_db.Kv.Store.Recovery.{Contents, rebuild_record}

-- The contents behind a record `r` that made the index `i`.
abbrev pub stepped : Record → Btree → Contents → Contents
stepped r i c = record { index = i; history = append_version r.key r.value r.flag c.history }

-- A tombstone takes its key out of the index, any other record puts its value there, and each is a
-- new version of its key.
pub data Restores : Contents → List Record → Contents → Type 0 where
  done : {c : Contents} → Restores c [] c
  live :
      {c e : Contents} {r : Record} {rs : List Record} (i : Btree)
      → (r.flag == flag_tombstone) ≡ false
      → Btree.put {E = StoreError} c.index r.key r.value ≡ ok i
      → Restores (stepped r i c) rs e
      → Restores c (r ∷ rs) e
  tombstone :
      {c e : Contents} {r : Record} {rs : List Record} (b : Bool) (i : Btree)
      → (r.flag == flag_tombstone) ≡ true
      → Btree.delete {E = StoreError} c.index r.key ≡ ok (b, i)
      → Restores (stepped r i c) rs e
      → Restores c (r ∷ rs) e

-- One live record more.
pub Restores-live :
    {c e : Contents} {rs : List Record} (r : Record) (i : Btree)
    → Restores c rs e
    → (r.flag == flag_tombstone) ≡ false
    → Btree.put {E = StoreError} e.index r.key r.value ≡ ok i
    → Restores c (rs ++ r ∷ []) (stepped r i e)
Restores-live r i done f p = live i f p done
Restores-live r i (live j g q h) f p = live j g q (Restores-live r i h f p)
Restores-live r i (tombstone b j g q h) f p = tombstone b j g q (Restores-live r i h f p)

abbrev run : List Record → Result StoreError Contents → Result StoreError Contents
run rs m = foldl (λ t r. rebuild_record r t) m rs

-- An error stays.
run-err : (rs : List Record) (x : StoreError) (e : Contents) → run rs (err x) ≡ ok e → ⊥
unfolding rebuild_record
run-err [] x e h = cc
run-err (r ∷ rs) x e h = run-err rs x e h

run-panic : (rs : List Record) (e : Contents) → run rs panic ≡ ok e → ⊥
unfolding rebuild_record
run-panic [] e h = cc
run-panic (r ∷ rs) e h = run-panic rs e h

run-stuck : (rs : List Record) (e : Contents) → run rs stuck ≡ ok e → ⊥
unfolding rebuild_record
run-stuck [] e h = cc
run-stuck (r ∷ rs) e h = run-stuck rs e h

-- What the loop of `rebuildIndex` makes of the records is what they stand for.
pub run-Restores : (rs : List Record) (c e : Contents) → run rs (ok c) ≡ ok e → Restores c rs e
unfolding rebuild_record
run-Restores [] c e h = subst (λ x. Restores c [] x) (ok_injective h) done
  where
    ok_injective : ◌≡◌ {A = Result StoreError Contents} (ok c) (ok e) → c ≡ e
    ok_injective h = cc
run-Restores (r ∷ rs) c e h = elim (Bool-cases (r.flag == flag_tombstone)) [
  | inl dead ↦
      deleted (run-Restores rs) dead (Btree.delete c.index r.key) refl
        (subst (λ m. run rs m ≡ ok e) (if_dead dead) h)
  | inr alive ↦
      stored (run-Restores rs) alive (Btree.put c.index r.key r.value) refl
        (subst (λ m. run rs m ≡ ok e) (if_alive alive) h)
]
  where
    if_dead :
        (r.flag == flag_tombstone) ≡ true
        → rebuild_record r (ok c)
          ≡ (Btree.delete {E = StoreError} c.index r.key >>= λ d. ok (stepped r d.1 c))
    if_dead q = rw q (twice (Btree.delete c.index r.key))
      where
        twice :
            (m : Result StoreError (Bool × Btree))
            → ◌>>=◌ {B = Contents} (◌>>=◌ {B = Btree} m (λ d. ok d.1)) (λ i. ok (stepped r i c))
              ≡ (m >>= λ d. ok (stepped r d.1 c))
        twice (ok d) = refl
        twice (err x) = refl
        twice panic = refl
        twice stuck = refl

    if_alive :
        (r.flag == flag_tombstone) ≡ false
        → rebuild_record r (ok c)
          ≡ (Btree.put {E = StoreError} c.index r.key r.value >>= λ i. ok (stepped r i c))
    if_alive q = rw q refl

    deleted :
        ((c e : Contents) → run rs (ok c) ≡ ok e → Restores c rs e)
        → (r.flag == flag_tombstone) ≡ true
        → (m : Result StoreError (Bool × Btree)) → Btree.delete c.index r.key ≡ m
        → run rs (m >>= λ d. ok (stepped r d.1 c)) ≡ ok e
        → Restores c (r ∷ rs) e
    deleted ih dead (ok (b, i)) q h = tombstone b i dead q (ih (stepped r i c) e h)
    deleted ih dead (err x) q h = absurd (run-err rs x e h)
    deleted ih dead panic q h = absurd (run-panic rs e h)
    deleted ih dead stuck q h = absurd (run-stuck rs e h)

    stored :
        ((c e : Contents) → run rs (ok c) ≡ ok e → Restores c rs e)
        → (r.flag == flag_tombstone) ≡ false
        → (m : Result StoreError Btree) → Btree.put c.index r.key r.value ≡ m
        → run rs (m >>= λ i. ok (stepped r i c)) ≡ ok e
        → Restores c (r ∷ rs) e
    stored ih alive (ok i) q h = live i alive q (ih (stepped r i c) e h)
    stored ih alive (err x) q h = absurd (run-err rs x e h)
    stored ih alive panic q h = absurd (run-panic rs e h)
    stored ih alive stuck q h = absurd (run-stuck rs e h)
