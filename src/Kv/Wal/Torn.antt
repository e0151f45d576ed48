-- ===== src/Kv/Wal/Torn.antt =====
-- A log of whole records that ends inside the key or value of another one.
use go_db.Base.{
  ℕ, suc, List, [], ◌+◌, ◌-◌, ◌^◌, ◌<◌, ◌≡◌, refl, ap, sym, ◌∙◌, ◌++◌, Bytes, arith, length,
  length-append, length-take, take, drop, slice, put_le, get_le-put_le, bytes_eq_iff, ltb-false,
  lt→ltb,
}
use go_db.Base.Result.{err}
use go_db.Base.Exec.{Exec, ◌>>=◌}
use go_db.Kv.Wal.{
  WalError, magic, lengths_of, fail, Pending, turn, replay_loop, replay, invalid_length,
}
use go_db.Kv.Wal.Replay.{Entry, AreEntries, log_of, deliver_all, replay-records}

module _ (crc32 : Bytes → ℕ) (small : (b : Bytes) → crc32 b < 2 ^ 32) where
  -- The first `21 + n` bytes of a record.
  abbrev pub torn : ℕ → Bytes → Bytes → ℕ → Bytes
  torn op key value n = magic ++ lengths_of crc32 op key value ++ take n (key ++ value)

  torn_fields :
      (op n : ℕ) (key value : Bytes)
      → (r : Bytes) × (r ≡ torn op key value n)
        × (length r ≡ 21 + length (take n (key ++ value)))
        × (take 8 r ≡ magic)
        × (slice r 9 4 ≡ put_le 4 (length key))
        × (slice r 13 4 ≡ put_le 4 (length value))
  unfolding put_le drop take slice
  torn_fields op n key value = (torn op key value n, refl, omega arith, refl, refl, refl)

  module _ {E S : Type 0} (fault : WalError → E)
      (apply : ℕ → Bytes → Bytes → Exec E S (Unit {0})) where
    torn_parts :
        (r : Bytes) (n a b k : ℕ) (p : Pending) (s : S)
        → length r ≡ 21 + n
        → take 8 r ≡ magic
        → slice r 9 4 ≡ put_le 4 a
        → slice r 13 4 ≡ put_le 4 b
        → a + b < 2 ^ 32
        → n < a + b
        → replay_loop crc32 fault apply (suc k) r (length r) p s ≡ (err (fault invalid_length), s)
    unfolding replay_loop turn
    torn_parts r n a b i p s sized m k v fits short =
        rw
          (
            sized,
            m,
            k,
            v,
            get_le-put_le 4 a (omega arith),
            get_le-put_le 4 b (omega arith),
            ltb-false (21 + n) 21 (omega arith),
            (bytes_eq_iff magic magic).1 refl,
            lt→ltb (21 + n - 21) (a + b) (omega arith),
          )
          refl

    torn_turn :
        (op n : ℕ) (key value : Bytes) (k : ℕ) (p : Pending) (s : S)
        → length key + length value < 2 ^ 32
        → n < length key + length value
        → replay_loop crc32 fault apply
            (suc k)
            (torn op key value n)
            (length (torn op key value n))
            p
            s
          ≡ (err (fault invalid_length), s)
    torn_turn op n key value i p s fits short =
        let (r, whole, size, m, k, v) = torn_fields op n key value in
        let cut : length (take n (key ++ value)) ≡ n =
          length-take n (key ++ value) ∙ omega (arith, length-append key value) in
        ap (λ (x : Bytes). replay_loop crc32 fault apply (suc i) x (length x) p s) (sym whole)
        ∙ torn_parts r n (length key) (length value) i p s (size ∙ ap (◌+◌ 21) cut) m k v fits short

    -- A log of whole records, behind which a crash left the whole header and a part of the key and value
    -- of another one, delivers the whole records in their order, and where those calls of the store
    -- succeed, fails with an invalid length: it is not read as a log with an incomplete tail.
    -- The records must be smaller than 4 GiB, and the checksum below 2^32.
    pub replay-torn :
        (es : List Entry) (op n : ℕ) (key value : Bytes) (s : S)
        → AreEntries es
        → length key + length value < 2 ^ 32
        → n < length key + length value
        → replay crc32 fault apply (log_of crc32 small es ++ torn op key value n) s
          ≡ (deliver_all crc32 small fault apply es [] >>= λ _.
                fail crc32 fault apply invalid_length)
              s
    replay-torn es op n key value s fit fits short =
        replay-records crc32 small fault apply es (torn op key value n)
          (fail crc32 fault apply invalid_length) s fit
          (λ k p t. torn_turn op n key value k p t fits short)
