-- ===== src/Kv/Wal.antt =====
-- kv/wal.go: the write-ahead log. The checksum of hash/crc32 is a parameter, and so are what a
-- replayed operation does to the store and the calls of the log's file. Replay is given the bytes that
-- the file holds; `Seek`, `Stat` and `Truncate` are the operating system's.
pub mod Replay
pub mod Torn
pub mod Transaction
use go_db.Base.{
  ℕ, zero, suc, ◌+◌, ◌-◌, ◌^◌, ◌%◌, Bool, true, false, ◌&&◌, ◌||◌, not, Option, none, some, List,
  [], ◌∷◌, ◌++◌, Bytes, codes, bytes_eq, length, take, drop, slice, put_le, get_le, ltb, ◌==◌,
  if◌then◌else◌,
}
use go_db.Base.Result.{Result, ok, err, panic, stuck}
use go_db.Base.Exec.{Exec, pure, continue, ◌>>=◌, ◌>>◌}
use go_db.Base.Assoc.{Assoc, lookup, insert, remove}

abbrev pub magic : Bytes
magic = b'M' ∷ b'Y' ∷ b'W' ∷ b'A' ∷ b'L' ∷ b'0' ∷ b'1' ∷ 0 ∷ []

-- magic, op, key length, value length, checksum
abbrev pub wal_header : ℕ
wal_header = 21

abbrev pub wal_put : ℕ
wal_put = 1

abbrev pub wal_delete : ℕ
wal_delete = 2

abbrev pub wal_tx_put : ℕ
wal_tx_put = 3

abbrev pub wal_tx_delete : ℕ
wal_tx_delete = 4

abbrev pub wal_tx_commit : ℕ
wal_tx_commit = 5

pub data WalError : Type 0 where
  record_too_large invalid_magic invalid_length checksum_mismatch : WalError
  invalid_transaction_key invalid_commit : WalError
  unknown_operation : ℕ → WalError

pub record BatchOp : Type 0 where
  pub key : Bytes
  pub value : Bytes
  pub delete : Bool

-- The operations of each transaction that has no commit yet, under the eight bytes of its id.
abbrev pub Pending : Type 0
Pending = Assoc (List BatchOp)

abbrev pub tx_kind : Bool → ℕ
tx_kind true = wal_tx_delete
tx_kind false = wal_tx_put

abbrev pub plain_kind : Bool → ℕ
plain_kind true = wal_delete
plain_kind false = wal_put

-- `pending[id]`, nil on a missing id
abbrev pub operations : Option (List BatchOp) → List BatchOp
operations none = []
operations (some ops) = ops

abbrev pub known : ℕ → Bool
known op =
    op == wal_put
    || op == wal_delete
    || op == wal_tx_put
    || op == wal_tx_delete
    || op == wal_tx_commit

module _ (crc32 : Bytes → ℕ) where
  -- The bytes behind the magic up to the key.
  abbrev pub lengths_of : ℕ → Bytes → Bytes → Bytes
  lengths_of op key value =
      op ∷ put_le 4 (length key) ++ put_le 4 (length value) ++ put_le 4 (crc32 (op ∷ key ++ value))

  -- The `record` that `append` fills in.
  unfoldable pub wal_record : ℕ → Bytes → Bytes → Bytes
  wal_record op key value = magic ++ lengths_of op key value ++ key ++ value

  module _ {E S : Type 0} (fault : WalError → E) where
    -- `file.Write` and `file.Sync`
    module _ (write : Bytes → Exec E S (Unit {0})) (sync : Exec E S (Unit {0})) where
      unfoldable pub append : ℕ → Bytes → Bytes → Exec E S (Unit {0})
      append op key value =
          if ltb (2 ^ 32 - 1) ((length key + length value) % 2 ^ 64)
          then (λ s. (err (fault record_too_large), s))
          else (write (wal_record op key value) >> sync)

      unfoldable pub append_operations : ℕ → List BatchOp → Exec E S (Unit {0})
      append_operations id [] = pure tt
      append_operations id (op ∷ ops) =
          append (tx_kind op.delete) (put_le 8 id ++ op.key) op.value >> append_operations id ops

      unfoldable pub append_transaction : ℕ → List BatchOp → Exec E S (Unit {0})
      append_transaction id ops = append_operations id ops >> append wal_tx_commit (put_le 8 id) []

    -- the callback of `replay`
    module _ (apply : ℕ → Bytes → Bytes → Exec E S (Unit {0})) where
      abbrev pub fail : {A : Type 0} → WalError → Exec E S A
      fail x s = (err (fault x), s)

      unfoldable pub apply_all : List BatchOp → Exec E S (Unit {0})
      apply_all [] = pure tt
      apply_all (op ∷ ops) = apply (plain_kind op.delete) op.key op.value >> apply_all ops

      -- What a whole record does, from its op, key and value; with the transactions that are pending then.
      unfoldable pub deliver : ℕ → Bytes → Bytes → Pending → Exec E S Pending
      deliver op key value pending =
          let id = take 8 key in
          let ops = operations (lookup id pending) in
          if not (known op)
          then fail (unknown_operation op)
          else if op == wal_tx_put || op == wal_tx_delete
          then (if ltb (length key) 8
              then fail invalid_transaction_key
              else pure (
                  insert id
                    (ops
                      ++ record { key = drop 8 key; value = value; delete = op == wal_tx_delete }
                        ∷ [])
                    pending))
          else if op == wal_tx_commit
          then (if not (length key == 8)
              then fail invalid_commit
              else (apply_all ops >> pure (remove id pending)))
          else (apply op key value >> pure pending)

      -- One turn of the loop, on the bytes not read yet and `remaining`; `none` where it returns nil.
      unfoldable pub turn : Bytes → ℕ → Pending → Exec E S (Option (Bytes × ℕ × Pending))
      turn r remaining pending =
          let key_len = get_le (slice r 9 4) in
          let body_len = key_len + get_le (slice r 13 4) in
          let left = remaining - wal_header in
          let body = slice r wal_header body_len in
          let op = get_le (slice r 8 1) in
          if ltb (length r) wal_header
          then pure none
          else if not (bytes_eq (take 8 r) magic)
          then fail invalid_magic
          else if ltb left body_len || ltb (2 ^ 63 - 1) body_len
          then fail invalid_length
          else if ltb (length r - wal_header) body_len
          then pure none
          else if not (crc32 (op ∷ body) == get_le (slice r 17 4))
          then fail checksum_mismatch
          else (deliver op (take key_len body) (drop key_len body) pending >>= λ next.
              pure (some (drop (wal_header + body_len) r, left - body_len, next)))

      unfoldable pub replay_loop : ℕ → Bytes → ℕ → Pending → Exec E S (Unit {0})
      replay_loop zero r remaining pending = λ s. (stuck, s)
      replay_loop (suc fuel) r remaining pending = turn r remaining pending >>= λ o. elim o [
        | none ↦ pure tt
        | some (r', remaining', pending') ↦ replay_loop fuel r' remaining' pending'
      ]

      unfoldable pub replay : Bytes → Exec E S (Unit {0})
      replay content = replay_loop (suc (length content)) content (length content) []
