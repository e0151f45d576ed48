-- ===== src/Kv/Wal/Replay.antt =====
-- Reading the log back: a whole record is delivered, a log record by record, and a tail that is
-- shorter than a header is left out.
use go_db.Base.{
  ℕ, zero, suc, some, none, Option, ◌+◌, ◌-◌, ◌^◌, ◌<◌, ◌≡◌, refl, ap, sym, ◌∙◌, List, [], ◌∷◌,
  ◌++◌, Bytes, arith, length, length-append, append_assoc, take, drop, slice, put_le, get_le,
  get_le-put_le, take_append, drop_append, bytes_eq_iff, ltb-false, lt→ltb, ==_iff,
}
use go_db.Base.Result.{Result, ok, err, panic, stuck}
use go_db.Base.Exec.{Exec, pure, continue, ◌>>=◌}
use go_db.Kv.Wal.{WalError, Pending, magic, wal_record, turn, deliver, replay_loop, replay}

pub record Entry : Type 0 where
  pub op : ℕ
  pub key : Bytes
  pub value : Bytes

abbrev pub IsEntry : Entry → Type 0
IsEntry e = length e.key + length e.value < 2 ^ 32

abbrev pub AreEntries : List Entry → Type 0
AreEntries [] = Unit {0}
AreEntries (e ∷ es) = IsEntry e × AreEntries es

module _ (crc32 : Bytes → ℕ) (small : (b : Bytes) → crc32 b < 2 ^ 32) where
  -- The bytes of a log.
  abbrev pub log_of : List Entry → Bytes
  log_of [] = []
  log_of (e ∷ es) = wal_record crc32 e.op e.key e.value ++ log_of es

  length-wal_record :
      (op : ℕ) (key value rest : Bytes)
      → length (wal_record crc32 op key value ++ rest)
        ≡ 21 + (length key + length value + length rest)
  unfolding wal_record put_le
  length-wal_record op key value rest =
      omega (arith, length-append (key ++ value) rest, length-append key value)

  behind_header :
      (op : ℕ) (key value rest : Bytes)
      → drop 21 (wal_record crc32 op key value ++ rest) ≡ (key ++ value) ++ rest
  unfolding wal_record put_le drop
  behind_header op key value rest = refl

  header_fields :
      (op : ℕ) (key value rest : Bytes)
      → (r : Bytes) × (r ≡ wal_record crc32 op key value ++ rest)
        × (take 8 r ≡ magic)
        × (slice r 9 4 ≡ put_le 4 (length key))
        × (slice r 13 4 ≡ put_le 4 (length value))
        × (slice r 17 4 ≡ put_le 4 (crc32 (op ∷ key ++ value)))
        × (slice r 8 1 ≡ op ∷ [])
  unfolding wal_record put_le drop take slice
  header_fields op key value rest =
      (wal_record crc32 op key value ++ rest, refl, refl, refl, refl, refl, refl)

  drop_more : (a b : ℕ) (l : Bytes) → drop (a + b) l ≡ drop b (drop a l)
  unfolding drop
  drop_more zero b l = ap (λ n. drop n l) (omega arith)
  drop_more (suc a) zero [] = ap (λ n. drop {A = ℕ} n []) (plus_zero (suc a))
    where
      plus_zero : (n : ℕ) → n + zero ≡ n
      plus_zero n = omega arith
  drop_more (suc a) (suc b) [] = ap (λ n. drop {A = ℕ} n []) (plus_suc a b)
    where
      plus_suc : (a b : ℕ) → suc a + suc b ≡ suc (a + suc b)
      plus_suc a b = omega arith
  drop_more (suc a) b (x ∷ l) = ap (λ n. drop n (x ∷ l)) (suc_plus a b) ∙ drop_more a b l
    where
      suc_plus : (a b : ℕ) → suc a + b ≡ suc (a + b)
      suc_plus a b = omega arith

  get_le_one : (n : ℕ) → get_le (n ∷ []) ≡ n
  unfolding get_le
  get_le_one n = omega arith

  body_of :
      (op : ℕ) (key value rest : Bytes)
      → slice (wal_record crc32 op key value ++ rest) 21 (length key + length value) ≡ key ++ value
  unfolding slice
  body_of op key value rest =
      rw (behind_header op key value rest, sym (length-append key value))
        (take_append (key ++ value) rest)

  behind_record :
      (op : ℕ) (key value rest : Bytes)
      → drop (21 + (length key + length value)) (wal_record crc32 op key value ++ rest) ≡ rest
  behind_record op key value rest =
      drop_more 21 (length key + length value) (wal_record crc32 op key value ++ rest)
      ∙ rw (behind_header op key value rest, sym (length-append key value))
          (drop_append (key ++ value) rest)

  module _ {E S : Type 0} (fault : WalError → E)
      (apply : ℕ → Bytes → Bytes → Exec E S (Unit {0})) where
    -- The entries delivered one after the other, from the pending transactions on.
    unfoldable pub deliver_all : List Entry → Pending → Exec E S Pending
    deliver_all [] pending = pure pending
    deliver_all (e ∷ es) pending =
        deliver crc32 fault apply e.op e.key e.value pending >>= deliver_all es

    -- A turn on bytes of which the parts are known.
    turn_parts :
        (r rest key value : Bytes) (op : ℕ) (pending : Pending)
        → length r ≡ 21 + (length key + length value + length rest)
        → take 8 r ≡ magic
        → get_le (slice r 9 4) ≡ length key
        → get_le (slice r 13 4) ≡ length value
        → get_le (slice r 17 4) ≡ crc32 (op ∷ key ++ value)
        → get_le (slice r 8 1) ≡ op
        → slice r 21 (length key + length value) ≡ key ++ value
        → drop (21 + (length key + length value)) r ≡ rest
        → length key + length value < 2 ^ 32
        → turn crc32 fault apply r (length r) pending ≡ (
            deliver crc32 fault apply op key value pending >>= λ next.
            pure (some (rest, length rest, next)))
    unfolding turn
    turn_parts r rest key value op pending size m k v c o b d fits =
        rw
          (
            m,
            k,
            v,
            c,
            o,
            b,
            d,
            size,
            ltb-false (21 + (length key + length value + length rest)) 21 (omega arith),
            (bytes_eq_iff magic magic).1 refl,
            ltb-false (21 + (length key + length value + length rest) - 21)
                (length key + length value) (omega arith),
            ltb-false (2 ^ 63 - 1) (length key + length value) (omega arith),
            (==_iff (crc32 (op ∷ key ++ value)) (crc32 (op ∷ key ++ value))).1 refl,
            take_append key value,
            drop_append key value,
            left (length key + length value) (length rest),
          )
          refl
      where
        left : (a b : ℕ) → 21 + (a + b) - 21 - a ≡ b
        left a b = omega arith

    turn-wal_record :
        (e : Entry) (rest : Bytes) (pending : Pending)
        → IsEntry e
        → turn crc32 fault apply
            (wal_record crc32 e.op e.key e.value ++ rest)
            (length (wal_record crc32 e.op e.key e.value ++ rest))
            pending
          ≡ (deliver crc32 fault apply e.op e.key e.value pending >>= λ next.
              pure (some (rest, length rest, next)))
    turn-wal_record e rest pending fits =
        let (r, whole, m, k, v, c, o) = header_fields e.op e.key e.value rest in
        rw (sym whole) (
          turn_parts r rest e.key e.value e.op pending
            (ap length whole ∙ length-wal_record e.op e.key e.value rest) m
            (ap get_le k ∙ get_le-put_le 4 (length e.key) (omega arith))
            (ap get_le v ∙ get_le-put_le 4 (length e.value) (omega arith))
            (ap get_le c ∙ get_le-put_le 4 (crc32 (e.op ∷ e.key ++ e.value)) (small _))
            (ap get_le o ∙ get_le_one e.op)
            (ap (λ (l : Bytes). slice l 21 (length e.key + length e.value)) whole
              ∙ body_of e.op e.key e.value rest)
            (ap (drop (21 + (length e.key + length e.value))) whole
              ∙ behind_record e.op e.key e.value rest)
            fits)

    abbrev next_turn : ℕ → Option (Bytes × ℕ × Pending) → Exec E S (Unit {0})
    next_turn fuel none = pure tt
    next_turn fuel (some (r, remaining, pending)) =
        replay_loop crc32 fault apply fuel r remaining pending

    -- Whole records before a tail on which the loop does `m`.
    replay_loop-log_of :
        (fuel : ℕ) (es : List Entry) (tail : Bytes) (m : Exec E S (Unit {0})) (pending : Pending)
        (s : S)
        → AreEntries es
        → ((k : ℕ) (p : Pending) (t : S)
            → replay_loop crc32 fault apply (suc k) tail (length tail) p t ≡ m t)
        → length es < fuel
        → replay_loop crc32 fault apply fuel
            (log_of es ++ tail)
            (length (log_of es ++ tail))
            pending
            s
          ≡ (deliver_all es pending >>= λ _. m) s
    unfolding replay_loop deliver_all turn
    replay_loop-log_of zero es tail m pending s fit ends enough = absurd (omega arith)
    replay_loop-log_of (suc fuel) [] tail m pending s fit ends enough = ends fuel pending s
    replay_loop-log_of (suc fuel) (e ∷ es) tail m pending s (fit, fits) ends enough =
        rw (append_assoc (wal_record crc32 e.op e.key e.value) (log_of es) tail) (
          ap (λ (m : Exec E S (Option (Bytes × ℕ × Pending))). (m >>= next_turn fuel) s)
            (turn-wal_record e (log_of es ++ tail) pending fit)
          ∙ after (λ next t. replay_loop-log_of fuel es tail m next t fits ends (omega arith))
              (deliver crc32 fault apply e.op e.key e.value pending s).0
              (deliver crc32 fault apply e.op e.key e.value pending s).1)
      where
        after :
            ((next : Pending) (t : S)
              → replay_loop crc32 fault apply fuel
                  (log_of es ++ tail)
                  (length (log_of es ++ tail))
                  next
                  t
                ≡ (deliver_all es next >>= λ _. m) t)
            → (r : Result E Pending) (t : S)
            → continue
                (continue {B = Option (Bytes × ℕ × Pending)} r
                  (λ next u. (ok (some (log_of es ++ tail, length (log_of es ++ tail), next)), u))
                  t).0
                (next_turn fuel)
                (continue {B = Option (Bytes × ℕ × Pending)} r
                  (λ next u. (ok (some (log_of es ++ tail, length (log_of es ++ tail), next)), u))
                  t).1
              ≡ continue
                  (continue r (deliver_all es) t).0
                  (λ _. m)
                  (continue r (deliver_all es) t).1
        after ih (ok next) t = ih next t
        after ih (err x) t = refl
        after ih panic t = refl
        after ih stuck t = refl

    pub replay-records :
        (es : List Entry) (tail : Bytes) (m : Exec E S (Unit {0})) (s : S)
        → AreEntries es
        → ((k : ℕ) (p : Pending) (t : S)
            → replay_loop crc32 fault apply (suc k) tail (length tail) p t ≡ m t)
        → replay crc32 fault apply (log_of es ++ tail) s ≡ (deliver_all es [] >>= λ _. m) s
    unfolding replay
    replay-records es tail m s fit ends =
        replay_loop-log_of (suc (length (log_of es ++ tail))) es tail m [] s fit ends (enough es)
      where
        enough : (es : List Entry) → length es < suc (length (log_of es ++ tail))
        enough [] = omega arith
        enough (e ∷ es) = omega (
          arith,
          enough es,
          ap length (append_assoc (wal_record crc32 e.op e.key e.value) (log_of es) tail),
          length-wal_record e.op e.key e.value (log_of es ++ tail),
        )

    ends_short :
        (tail : Bytes) (k : ℕ) (p : Pending) (t : S)
        → length tail < 21
        → replay_loop crc32 fault apply (suc k) tail (length tail) p t ≡ (ok tt, t)
    unfolding replay_loop turn
    ends_short tail k p t short = rw (lt→ltb (length tail) 21 short) refl

    -- A log of whole records, with a tail too short for a header, delivers its records in their
    -- order, each once, and ignores the tail; it stops at the first call of the store that fails.
    -- The records must be smaller than 4 GiB, and the checksum below 2^32.
    pub replay-log_of :
        (es : List Entry) (tail : Bytes) (s : S)
        → AreEntries es
        → length tail < 21
        → replay crc32 fault apply (log_of es ++ tail) s ≡ (deliver_all es [] >>= λ _. pure tt) s
    replay-log_of es tail s fit short =
        replay-records es tail (pure tt) s fit (λ k p t. ends_short tail k p t short)
