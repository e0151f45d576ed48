-- ===== src/Kv/Wal/Transaction.antt =====
-- A transaction in the log: `appendTransaction` writes it, and `replay` applies all of it or nothing.
use go_db.Base.{
  ℕ, ◌+◌, ◌-◌, ◌^◌, ◌%◌, ◌<◌, ◌≡◌, refl, ap, sym, ◌∙◌, Bool, true, false, List, [], ◌∷◌, ◌++◌,
  Bytes, arith, length, append_assoc, take, drop, put_le, length-put_le, bytes_eq_iff, ltb-false,
  Bool-cases, inl, inr, if◌then◌else◌,
}
use go_db.Base.Result.{Result, ok, err, panic, stuck}
use go_db.Base.Exec.{Exec, pure, continue, ◌>>=◌, ◌>>◌}
use go_db.Base.Assoc.{lookup, insert, remove, lookup-insert}
use go_db.Kv.Wal.{
  WalError, Pending, BatchOp, wal_record, wal_tx_commit, tx_kind, append, append_operations,
  append_transaction, deliver, apply_all, operations, replay, wal_put, wal_delete,
}
use go_db.Kv.Wal.Replay.{Entry, AreEntries, log_of, deliver_all, replay-log_of}

append_nil {ℓ} : {A : Type ℓ} (xs : List A) → xs ++ [] ≡ xs
append_nil [] = refl
append_nil (x ∷ xs) = ap (◌∷◌ x) (append_nil xs)

-- The records of a transaction up to its commit.
abbrev pub op_entries : ℕ → List BatchOp → List Entry
op_entries id [] = []
op_entries id (op ∷ ops) =
    record { op = tx_kind op.delete; key = put_le 8 id ++ op.key; value = op.value }
    ∷ op_entries id ops

abbrev pub commit_entry : ℕ → Entry
commit_entry id = record { op = wal_tx_commit; key = put_le 8 id; value = [] }

-- A file that takes every write.
abbrev pub file_write : {E : Type 0} → Bytes → Exec E Bytes (Unit {0})
file_write b file = (ok tt, file ++ b)

abbrev pub file_sync : {E : Type 0} → Exec E Bytes (Unit {0})
file_sync file = (ok tt, file)

module _ (crc32 : Bytes → ℕ) (small : (b : Bytes) → crc32 b < 2 ^ 32) {E : Type 0}
    (fault : WalError → E) where
  append_file :
      (op : ℕ) (key value file : Bytes)
      → length key + length value < 2 ^ 32
      → append crc32 fault file_write file_sync op key value file
        ≡ (ok tt, file ++ wal_record crc32 op key value)
  unfolding append
  append_file op key value file fit =
      rw (ltb-false (2 ^ 32 - 1) ((length key + length value) % 2 ^ 64) (omega arith)) refl

  append_operations_file :
      (id : ℕ) (ops : List BatchOp) (file : Bytes)
      → AreEntries (op_entries id ops)
      → append_operations crc32 fault file_write file_sync id ops file
        ≡ (ok tt, file ++ log_of crc32 small (op_entries id ops))
  unfolding append_operations
  append_operations_file id [] file fit = rw (append_nil file) refl
  append_operations_file id (op ∷ ops) file (fit, fits) =
      rw (append_file (tx_kind op.delete) (put_le 8 id ++ op.key) op.value file fit) (
        append_operations_file id ops _ fits
        ∙ rw
            (append_assoc file
              (wal_record crc32 (tx_kind op.delete) (put_le 8 id ++ op.key) op.value)
              (log_of crc32 small (op_entries id ops)))
            refl)

  log_of_append :
      (es fs : List Entry)
      → log_of crc32 small (es ++ fs) ≡ log_of crc32 small es ++ log_of crc32 small fs
  log_of_append [] fs = refl
  log_of_append (e ∷ es) fs =
      ap (◌++◌ (wal_record crc32 e.op e.key e.value)) (log_of_append es fs)
      ∙ sym (
          append_assoc (wal_record crc32 e.op e.key e.value) (log_of crc32 small es)
            (log_of crc32 small fs))

  append_transaction_file :
      (id : ℕ) (ops : List BatchOp)
      → AreEntries (op_entries id ops)
      → append_transaction crc32 fault file_write file_sync id ops []
        ≡ (ok tt, log_of crc32 small (op_entries id ops ++ commit_entry id ∷ []) ++ [])
  unfolding append_transaction
  append_transaction_file id ops fits = rw (append_operations_file id ops [] fits) (
      append_file wal_tx_commit (put_le 8 id) [] _ (omega (arith, length-put_le 8 id))
      ∙ rw
          (
            log_of_append (op_entries id ops) (commit_entry id ∷ []),
            append_nil (wal_record crc32 wal_tx_commit (put_le 8 id) []),
            append_nil (
                log_of crc32 small (op_entries id ops)
                ++ wal_record crc32 wal_tx_commit (put_le 8 id) []),
          )
          refl)

  module _ {S : Type 0} (apply : ℕ → Bytes → Bytes → Exec E S (Unit {0})) where
    -- An operation of a transaction waits behind those before it.
    deliver_operation :
        (id : ℕ) (key value : Bytes) (del : Bool) (p : Pending)
        → deliver crc32 fault apply (tx_kind del) (put_le 8 id ++ key) value p
          ≡ pure (
              insert
                (put_le 8 id)
                (operations (lookup (put_le 8 id) p)
                  ++ record { key = key; value = value; delete = del } ∷ [])
                p)
    unfolding deliver put_le take drop
    deliver_operation id key value true p =
        rw (ltb-false (length (put_le 8 id ++ key)) 8 (omega arith)) refl
    deliver_operation id key value false p =
        rw (ltb-false (length (put_le 8 id ++ key)) 8 (omega arith)) refl

    -- All of them wait, in their order.
    deliver_operations :
        (id : ℕ) (ops : List BatchOp) (p : Pending) (s : S)
        → (q : Pending) × (operations (lookup (put_le 8 id) q)
            ≡ operations (lookup (put_le 8 id) p) ++ ops)
          × (deliver_all crc32 small fault apply (op_entries id ops) p s ≡ (ok q, s))
    unfolding deliver_all
    deliver_operations id [] p s = (p, sym (append_nil (operations (lookup (put_le 8 id) p))), refl)
    deliver_operations id (op ∷ ops) p s =
        let waiting = operations (lookup (put_le 8 id) p) ++ op ∷ [] in
        let (q, held, run) = deliver_operations id ops (insert (put_le 8 id) waiting p) s in
        (
          q,
          held
              ∙ rw
                  (
                    lookup-insert (put_le 8 id) (put_le 8 id) waiting p,
                    (bytes_eq_iff (put_le 8 id) (put_le 8 id)).1 refl,
                  )
                  (append_assoc (operations (lookup (put_le 8 id) p)) (op ∷ []) ops),
          rw (deliver_operation id op.key op.value op.delete p) run,
        )

    -- The commit applies them.
    deliver_commit :
        (id : ℕ) (p : Pending)
        → deliver crc32 fault apply wal_tx_commit (put_le 8 id) [] p ≡ (
            apply_all crc32 fault apply (operations (lookup (put_le 8 id) p))
            >> pure (remove (put_le 8 id) p))
    unfolding deliver put_le take
    deliver_commit id p = refl

    deliver_all_append :
        (es fs : List Entry) (p : Pending) (s : S)
        → deliver_all crc32 small fault apply (es ++ fs) p s
          ≡ (deliver_all crc32 small fault apply es p >>= deliver_all crc32 small fault apply fs) s
    unfolding deliver_all
    deliver_all_append [] fs p s = refl
    deliver_all_append (e ∷ es) fs p s =
        after (deliver_all_append es fs) (deliver crc32 fault apply e.op e.key e.value p s).0
          (deliver crc32 fault apply e.op e.key e.value p s).1
      where
        after :
            ((q : Pending) (t : S)
              → deliver_all crc32 small fault apply (es ++ fs) q t
                ≡ (deliver_all crc32 small fault apply es q
                      >>= deliver_all crc32 small fault apply fs)
                    t)
            → (r : Result E Pending) (t : S)
            → continue r (deliver_all crc32 small fault apply (es ++ fs)) t
              ≡ continue
                  (continue r (deliver_all crc32 small fault apply es) t).0
                  (deliver_all crc32 small fault apply fs)
                  (continue r (deliver_all crc32 small fault apply es) t).1
        after ih (ok q) t = ih q t
        after ih (err x) t = refl
        after ih panic t = refl
        after ih stuck t = refl

    -- Nothing but the outcome of the operations is left of a committed transaction.
    committed :
        (id : ℕ) (ops : List BatchOp) (s : S)
        → (deliver_all crc32 small fault apply (op_entries id ops ++ commit_entry id ∷ []) []
              >>= λ _. pure tt)
            s
          ≡ apply_all crc32 fault apply ops s
    unfolding deliver_all lookup
    committed id ops s =
        let (q, held, run) = deliver_operations id ops [] s in
        rw
          (
            deliver_all_append (op_entries id ops) (commit_entry id ∷ []) [] s,
            run,
            deliver_commit id q,
            held,
          )
          (after (remove (put_le 8 id) q) (apply_all crc32 fault apply ops s).0
            (apply_all crc32 fault apply ops s).1)
      where
        after :
            (p : Pending) (r : Result E (Unit {0})) (t : S)
            → (((◌>>◌ {B = Pending} (λ (u : S). (r, t)) (pure p))
                    >>= deliver_all crc32 small fault apply [])
                  >>= λ _. pure tt)
                t
              ≡ (r, t)
        after p (ok tt) t = refl
        after p (err x) t = refl
        after p panic t = refl
        after p stuck t = refl

    -- The calls of a batch: its puts and deletes in order, up to the first that fails.
    abbrev pub calls : List BatchOp → Exec E S (Unit {0})
    calls [] = pure tt
    calls (op ∷ ops) = do
      if op.delete then apply wal_delete op.key op.value else apply wal_put op.key op.value
      calls ops

    apply_all-calls : (ops : List BatchOp) (s : S) → apply_all crc32 fault apply ops s ≡ calls ops s
    unfolding apply_all
    apply_all-calls [] s = refl
    apply_all-calls (op ∷ ops) s = elim (Bool-cases op.delete) [
      | inl q ↦ rw q (
          after (apply_all-calls ops) (apply wal_delete op.key op.value s).0
            (apply wal_delete op.key op.value s).1)
      | inr q ↦ rw q (
          after (apply_all-calls ops) (apply wal_put op.key op.value s).0
            (apply wal_put op.key op.value s).1)
    ]
      where
        after :
            ((t : S) → apply_all crc32 fault apply ops t ≡ calls ops t)
            → (r : Result E (Unit {0})) (t : S)
            → continue r (λ _. apply_all crc32 fault apply ops) t ≡ continue r (λ _. calls ops) t
        after ih (ok u) t = ih t
        after ih (err x) t = refl
        after ih panic t = refl
        after ih stuck t = refl

    -- What `ApplyBatch` logs is applied as a whole: when `appendTransaction` has written the operations
    -- to an empty log, a replay puts and deletes exactly their keys, in their order and up
    -- to the first call that fails, and comes back with the outcome of that; from a log that lacks the commit record, with anything shorter than a header
    -- in its place, it applies none. The records must be smaller than 4 GiB.
    -- The checksum must be below 2^32.
    pub replay-append_transaction :
        (id : ℕ) (ops : List BatchOp) (tail : Bytes) (s : S)
        → AreEntries (op_entries id ops)
        → length tail < 21
        → (replay crc32 fault apply
              (append_transaction crc32 fault file_write file_sync id ops []).1
              s
            ≡ calls ops s)
          × (replay crc32 fault apply
                ((append_operations crc32 fault file_write file_sync id ops []).1 ++ tail)
                s
              ≡ (ok tt, s))
    replay-append_transaction id ops tail s fits short =
        let (q, held, run) = deliver_operations id ops [] s in
        (
          rw (append_transaction_file id ops fits) (
              replay-log_of crc32 small fault apply (op_entries id ops ++ commit_entry id ∷ []) [] s
                (with_commit ops fits) (omega arith)
              ∙ committed id ops s
              ∙ apply_all-calls ops s),
          rw (append_operations_file id ops [] fits) (
              replay-log_of crc32 small fault apply (op_entries id ops) tail s fits short
              ∙ rw run refl),
        )
      where
        with_commit :
            (ops : List BatchOp)
            → AreEntries (op_entries id ops)
            → AreEntries (op_entries id ops ++ commit_entry id ∷ [])
        with_commit [] fits = (omega (arith, length-put_le 8 id), tt)
        with_commit (op ∷ ops) (fit, fits) = (fit, with_commit ops fits)
