-- ===== src/Sql/Executor/Conflicts.antt =====
-- COMMIT of a transaction whose keys another session has changed.
use go_db.Base.{
  ℕ, ◌≡◌, refl, ap, ◌∙◌, inl, inr, ◌⊎◌, true, Option, none, some, List, [], ◌∷◌, Bytes, get_elem?,
  Bool-cases,
}
use go_db.Base.Int.{ℤ}
use go_db.Base.Assoc.{Assoc}
use go_db.Base.Result.{err}
use go_db.Base.Exec.{continue}
use go_db.Storage.Page.{Page}
use go_db.Storage.Pool.{Io}
use go_db.Kv.Value.{Value, Floats}
use go_db.Kv.Store.{Files}
use go_db.Kv.Table.{Table, table_changed_since}
use go_db.Sql.Executor.{
  Executor, transaction_conflict, Transaction, TransactionTableState, TransactionWrite, changed_key,
  changed_at, check_conflicts, commit, commit_open, commit_changes,
}

-- One of the written keys has changed since the snapshot.
pub data Changed {W : Type 0} (at : ℕ) (t : Table W) : Assoc TransactionWrite → Type 0 where
  here :
      {key : Bytes} {w : TransactionWrite} {writes : Assoc TransactionWrite}
      → table_changed_since at key t ≡ true
      → Changed at t ((key, w) ∷ writes)
  later :
      {key : Bytes} {w : TransactionWrite} {writes : Assoc TransactionWrite}
      → Changed at t writes
      → Changed at t ((key, w) ∷ writes)

-- Every table of the transaction is there, and one of them has a changed key.
pub data Conflicting {W : Type 0} (heap : List (Table W))
    : List TransactionTableState → Type 0 where
  in_this :
      {s : TransactionTableState} {states : List TransactionTableState} {t : Table W}
      → get_elem? heap s.table ≡ some t
      → Changed s.read_at t s.writes
      → Conflicting heap (s ∷ states)
  in_rest :
      {s : TransactionTableState} {states : List TransactionTableState} {t : Table W}
      → get_elem? heap s.table ≡ some t
      → Conflicting heap states
      → Conflicting heap (s ∷ states)

module _ {W : Type 0} (read_disk : ℕ → Io W Page) (write_disk : Page → Io W (Unit {0}))
    (f : Files W) (floats : Floats) (sprint index_value : Value → Bytes)
    (parse_time : Bytes → Option ℤ) where
  changed_key-Changed :
      (at : ℕ) (writes : Assoc TransactionWrite) (t : Table W)
      → Changed at t writes
      → (k : Bytes) × (changed_key read_disk write_disk f floats sprint index_value parse_time at
            writes t
          ≡ some k)
  unfolding changed_key
  changed_key-Changed at [] t h = elim h [ ]
  changed_key-Changed at ((key, w) ∷ writes) t (here h) = (key, rw h refl)
  changed_key-Changed at ((key, w) ∷ writes) t (later h) =
      elim (Bool-cases (table_changed_since at key t)) [
        | inl q ↦ (key, rw q refl)
        | inr q ↦ let (k, e) = changed_key-Changed at writes t h in (k, rw q e)
      ]

  check_conflicts-Conflicting :
      (states : List TransactionTableState) (e : Executor W)
      → Conflicting e.heap states
      → (k : Bytes) × (check_conflicts read_disk write_disk f floats sprint index_value parse_time
            states e
          ≡ err (transaction_conflict k))
  unfolding check_conflicts
  check_conflicts-Conflicting [] e h = elim h [ ]
  check_conflicts-Conflicting (s ∷ states) e (in_this {t = t} at h) =
      let (k, q) = changed_key-Changed s.read_at s.writes t h in (k, rw (at, changed_at, q) refl)
  check_conflicts-Conflicting (s ∷ states) e (in_rest {t = t} at h) =
      let (k, q) = check_conflicts-Conflicting states e h in
      elim (found (
        changed_key read_disk write_disk f floats sprint index_value parse_time s.read_at s.writes
          t)) [
            | inl clean ↦ (k, rw (at, changed_at, clean) q)
            | inr (j, taken) ↦ (j, rw (at, changed_at, taken) refl)
          ]
    where
      found : (o : Option Bytes) → (o ≡ none) ⊎ ((j : Bytes) × (o ≡ some j))
      found none = inl refl
      found (some j) = inr (j, refl)

  -- A COMMIT fails with a conflict, and changes nothing at all, where another session has changed a key
  -- of the transaction's writes since its snapshot: the first to commit wins. The tables of the transaction
  -- must be there.
  pub commit-Conflicting :
      (e : Executor W) (x : Transaction)
      → e.tx ≡ some x
      → Conflicting e.heap x.tables
      → (k : Bytes) × (commit read_disk write_disk f floats sprint index_value parse_time e
          ≡ (err (transaction_conflict k), e))
  unfolding commit commit_open
  commit-Conflicting e x open_ h =
      let (k, q) = check_conflicts-Conflicting x.tables e h in
      (
        k,
        ap (λ o. commit_open read_disk write_disk f floats sprint index_value parse_time o e) open_
            ∙ ap
                (λ r.
                  continue r
                    (λ _.
                      commit_changes read_disk write_disk f floats sprint index_value parse_time x)
                    e)
                q,
      )
