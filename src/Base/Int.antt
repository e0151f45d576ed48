-- ===== src/Base/Int.antt =====
-- Go's `int` and `int64` as integers, with `strconv.Atoi` and the decimal form that `%d` prints.
use go_db.Base.Tests.{ltb, leb, ◌==◌, if◌then◌else◌}
use go_db.Base.ByteStrings.{Bytes}
use Prim.Native.Nat.{ℕ, zero, suc, ◌+◌, ◌-◌, ◌*◌, ◌/◌, ◌%◌, ◌^◌}
use mathlib.Core.Bool.{Bool, true, false, ◌&&◌}
use mathlib.Core.Option.{Option, none, some}
use mathlib.Core.List.{[], ◌∷◌}

-- `negsuc n` is -(n + 1).
pub data ℤ : Type 0 where
  pos : ℕ → ℤ
  negsuc : ℕ → ℤ

abbrev pub ltb_ℤ : ℤ → ℤ → Bool
ltb_ℤ (pos a) (pos b) = ltb a b
ltb_ℤ (pos a) (negsuc b) = false
ltb_ℤ (negsuc a) (pos b) = true
ltb_ℤ (negsuc a) (negsuc b) = ltb b a

abbrev pub eq_ℤ : ℤ → ℤ → Bool
eq_ℤ (pos a) (pos b) = a == b
eq_ℤ (pos a) (negsuc b) = false
eq_ℤ (negsuc a) (pos b) = false
eq_ℤ (negsuc a) (negsuc b) = a == b

abbrev pub is_digit : ℕ → Bool
is_digit c = leb b'0' c && leb c b'9'

-- the digits of a number, `none` at any other byte
unfoldable pub read_digits : ℕ → Bytes → Option ℕ
read_digits n [] = some n
read_digits n (c ∷ cs) =
    let rest = read_digits (n * 10 + (c - b'0')) cs in if is_digit c then rest else none

-- at least one digit
unfoldable pub read_number : Bytes → Option ℕ
unfolding read_digits
read_number [] = none
read_number (c ∷ cs) = read_digits 0 (c ∷ cs)

abbrev pub int_of : Option ℕ → Option ℤ
int_of none = none
int_of (some n) = if ltb n (2 ^ 63) then some (pos n) else none

abbrev pub negative_int_of : Option ℕ → Option ℤ
negative_int_of none = none
negative_int_of (some zero) = some (pos 0)
negative_int_of (some (suc n)) = if ltb n (2 ^ 63) then some (negsuc n) else none

-- `strconv.Atoi`: a sign, digits, and a value in the range of int64
unfoldable pub atoi : Bytes → Option ℤ
unfolding read_number
atoi [] = none
atoi (c ∷ cs) =
    if c == b'-'
    then negative_int_of (read_number cs)
    else if c == b'+'
    then int_of (read_number cs)
    else int_of (read_number (c ∷ cs))

-- `%d` of a number, with fuel for its digits
unfoldable pub decimal_onto : ℕ → ℕ → Bytes → Bytes
decimal_onto zero n acc = acc
decimal_onto (suc f) n acc =
    let rest = decimal_onto f (n / 10) ((b'0' + n % 10) ∷ acc) in
    if ltb n 10 then (b'0' + n) ∷ acc else rest

unfoldable pub decimal : ℕ → Bytes
unfolding decimal_onto
decimal n = decimal_onto (suc n) n []
