-- ===== src/Tests/Logs.antt =====
-- The log, the snapshots and the rows at concrete inputs.
use go_db.Base.{
  ℕ, ◌^◌, ◌<◌, ◌≡◌, refl, true, false, none, List, [], ◌∷◌, ◌++◌, Bytes, codes, arith, ◌==◌, put_le,
}
use go_db.Base.Int.{pos}
use go_db.Base.Result.{ok}
use go_db.Base.Exec.{Exec, pure, ◌>>=◌}
use go_db.Kv.Wal.{
  WalError, fail, invalid_length, BatchOp, append_transaction, append_operations, replay,
}
use go_db.Kv.Wal.Replay.{Entry, log_of, deliver_all, replay-log_of}
use go_db.Kv.Wal.Torn.{torn, replay-torn}
use go_db.Kv.Wal.Transaction.{calls, file_write, file_sync, replay-append_transaction}
use go_db.Kv.Snapshot.{History, append_version, begin_snapshot, get_at, changed_since}
use go_db.Kv.Snapshot.Isolation.{get_at-append_version, get_at-begin_snapshot}
use go_db.Kv.Record.{flag_live}
use go_db.Kv.Value.{Floats, int, int_type}
use go_db.Kv.Codec.{encode_value}
use go_db.Kv.Codec.RoundTrip.{Cell, decode_value-encode_value}
use go_db.Base.{bytes_eq}

-- a checksum
abbrev checksum : Bytes → ℕ
checksum b = 7

checksum_small : (b : Bytes) → checksum b < 2 ^ 32
checksum_small b = omega arith

-- The calls of the store, noted down.
abbrev Noted : Type 0
Noted = List (ℕ × Bytes × Bytes)

abbrev note_call : ℕ → Bytes → Bytes → Exec WalError Noted (Unit {0})
note_call op key value s = (ok tt, s ++ (op, key, value) ∷ [])

abbrev two_ops : List BatchOp
two_ops =
    record { key = 97 ∷ []; value = 1 ∷ []; delete = false }
    ∷ record { key = 98 ∷ []; value = []; delete = true }
    ∷ []

replay-append_transaction_example :
    (replay checksum
        (λ e. e)
        note_call
        (append_transaction checksum (λ e. e) file_write file_sync 5 two_ops []).1
        []
      ≡ calls checksum checksum_small (λ e. e) note_call two_ops [])
    × (replay checksum
          (λ e. e)
          note_call
          ((append_operations checksum (λ e. e) file_write file_sync 5 two_ops []).1 ++ 77 ∷ [])
          []
        ≡ (ok tt, []))
unfolding put_le
replay-append_transaction_example =
    replay-append_transaction checksum checksum_small (λ e. e) note_call 5 two_ops (77 ∷ []) []
      (omega arith, (omega arith, tt)) (omega arith)

abbrev two_entries : List Entry
two_entries =
    record { op = 1; key = 97 ∷ []; value = 1 ∷ [] }
    ∷ record { op = 2; key = 97 ∷ []; value = [] }
    ∷ []

replay-log_of_example :
    replay checksum (λ e. e) note_call (log_of checksum checksum_small two_entries ++ 77 ∷ []) []
    ≡ (deliver_all checksum checksum_small (λ e. e) note_call two_entries [] >>= λ _. pure tt) []
replay-log_of_example =
    replay-log_of checksum checksum_small (λ e. e) note_call two_entries (77 ∷ []) []
      (omega arith, (omega arith, tt)) (omega arith)

replay-torn_example :
    replay checksum
      (λ e. e)
      note_call
      (log_of checksum checksum_small two_entries
        ++ torn checksum checksum_small 1 (97 ∷ []) (1 ∷ 2 ∷ []) 2)
      []
    ≡ (deliver_all checksum checksum_small (λ e. e) note_call two_entries [] >>= λ _.
          fail checksum (λ e. e) note_call invalid_length)
        []
replay-torn_example =
    replay-torn checksum checksum_small (λ e. e) note_call two_entries 1 2 (97 ∷ []) (1 ∷ 2 ∷ []) []
      (omega arith, (omega arith, tt)) (omega arith) (omega arith)

-- one write of the key "a"
abbrev written_once : History
unfolding append_version
written_once =
    append_version (97 ∷ []) (1 ∷ []) flag_live
      (record { seq = 0; versions = []; active_snapshots = 0 })

get_at-append_version_example :
    get_at 1 (97 ∷ []) (append_version (97 ∷ []) (2 ∷ []) flag_live written_once)
    ≡ get_at 1 (97 ∷ []) written_once
unfolding written_once
get_at-append_version_example =
    get_at-append_version 1 (97 ∷ []) (97 ∷ []) (2 ∷ []) flag_live written_once (omega arith)
      (omega arith)

keys_differ : bytes_eq (97 ∷ []) (98 ∷ []) ≡ false
unfolding bytes_eq
keys_differ = refl

get_at-begin_snapshot_example :
    (get_at
        (begin_snapshot (append_version (97 ∷ []) (2 ∷ []) 1 written_once)).0
        (97 ∷ [])
        (append_version (97 ∷ []) (2 ∷ []) 1 written_once)
      ≡ (2 ∷ [], 1 == flag_live))
    × (changed_since
          (begin_snapshot written_once).0
          (97 ∷ [])
          (append_version (97 ∷ []) (2 ∷ []) 1 written_once)
        ≡ true)
    × (changed_since
          (begin_snapshot written_once).0
          (98 ∷ [])
          (append_version (97 ∷ []) (2 ∷ []) 1 written_once)
        ≡ changed_since (begin_snapshot written_once).0 (98 ∷ []) written_once)
    × (get_at
          (begin_snapshot (append_version (97 ∷ []) (2 ∷ []) 1 written_once)).0
          (98 ∷ [])
          (append_version (97 ∷ []) (2 ∷ []) 1 written_once)
        ≡ get_at
            (begin_snapshot (append_version (97 ∷ []) (2 ∷ []) 1 written_once)).0
            (98 ∷ [])
            written_once)
unfolding written_once
get_at-begin_snapshot_example =
    get_at-begin_snapshot (97 ∷ []) (98 ∷ []) (2 ∷ []) 1 written_once (omega arith) keys_differ

abbrev zero_floats : Floats
zero_floats = record {
  parse_float = λ s. none;
  of_int = λ i. 0;
  to_int = λ f. pos 0;
  less = λ a b. false;
  plus = λ a b. 0;
  divide = λ a b. 0;
  zero_bits = 0;
}

decode_value-encode_value_example :
    Cell zero_floats
      (codes "id")
      (1 ∷ [])
      []
      int_type
      (int (pos 300))
      (encode_value zero_floats int_type (codes "id") (int (pos 300)))
decode_value-encode_value_example =
    decode_value-encode_value zero_floats (codes "id") (1 ∷ []) [] int_type (int (pos 300))
      (omega arith) (λ i. omega arith)
