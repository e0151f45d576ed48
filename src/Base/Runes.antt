-- ===== src/Base/Runes.antt =====
-- The characters of a string, as Go's `range` reads its bytes: UTF-8, with U+FFFD for each byte that
-- begins no character. The upper case and the folding of characters are what `strings.ToUpper` and
-- `strings.EqualFold` need where one side is an ASCII word.
use go_db.Base.{
  ℕ, zero, suc, ◌+◌, ◌-◌, ◌*◌, Bool, ◌&&◌, List, [], ◌∷◌, Bytes, ltb, leb, ◌==◌, if◌then◌else◌,
}

abbrev pub between : ℕ → ℕ → ℕ → Bool
between first last byte = leb first byte && leb byte last

abbrev pub is_continuation : ℕ → Bool
is_continuation c = between 0x80 0xBF c

-- A character, with the number of bytes that it takes behind the first.
abbrev pub replacement : ℕ × ℕ
replacement = (0xFFFD, 0)

abbrev pub two_bytes : ℕ → Bytes → ℕ × ℕ
two_bytes c [] = replacement
two_bytes c (d ∷ s) = if is_continuation d then ((c - 0xC0) * 64 + (d - 0x80), 1) else replacement

abbrev pub three_bytes : ℕ → Bytes → ℕ × ℕ
three_bytes c [] = replacement
three_bytes c (d ∷ []) = replacement
three_bytes c (d ∷ e ∷ s) =
    if between (if c == 0xE0 then 0xA0 else 0x80) (if c == 0xED then 0x9F else 0xBF) d
      && is_continuation e
    then (((c - 0xE0) * 64 + (d - 0x80)) * 64 + (e - 0x80), 2)
    else replacement

abbrev pub four_bytes : ℕ → Bytes → ℕ × ℕ
four_bytes c [] = replacement
four_bytes c (d ∷ []) = replacement
four_bytes c (d ∷ e ∷ []) = replacement
four_bytes c (d ∷ e ∷ f ∷ s) =
    if between (if c == 0xF0 then 0x90 else 0x80) (if c == 0xF4 then 0x8F else 0xBF) d
      && is_continuation e
      && is_continuation f
    then ((((c - 0xF0) * 64 + (d - 0x80)) * 64 + (e - 0x80)) * 64 + (f - 0x80), 3)
    else replacement

-- The character that begins with the byte `c`, before `s`.
abbrev pub decode_rune : ℕ → Bytes → ℕ × ℕ
decode_rune c s =
    if ltb c 0x80
    then (c, 0)
    else if between 0xC2 0xDF c
    then two_bytes c s
    else if between 0xE0 0xEF c
    then three_bytes c s
    else if between 0xF0 0xF4 c
    then four_bytes c s
    else replacement

-- The characters of a string of which `skip` bytes belong to one that is read already.
abbrev pub runes : ℕ → Bytes → List ℕ
runes skip [] = []
runes (suc skip) (c ∷ s) = runes skip s
runes zero (c ∷ s) = let r = decode_rune c s in r.0 ∷ runes r.1 s

abbrev pub upper_ascii : ℕ → ℕ
upper_ascii r = if between b'a' b'z' r then r - 32 else r

-- Beside the ASCII letters, U+0131 and U+017F alone have an ASCII upper case. The upper case of the others is
-- none of ASCII, and they are left as they are.
abbrev pub upper_rune : ℕ → ℕ
upper_rune r = if r == 0x131 then b'I' else if r == 0x17F then b'S' else upper_ascii r

-- Beside the ASCII letters, U+017F and U+212A alone fold with ASCII. Of the others those of Latin-1 fold here.
abbrev pub fold_rune : ℕ → ℕ
fold_rune r =
    if r == 0x17F
    then b'S'
    else if r == 0x212A
    then b'K'
    else if between 0xE0 0xF6 r
    then r - 32
    else if between 0xF8 0xFE r
    then r - 32
    else upper_ascii r
