-- ===== src/Sql/Lexer/Total.antt =====
-- `Lex` ends on every input, without a panic, and its tokens end with the one EOF.
use go_db.Base.{
  ℕ, zero, suc, ◌≤◌, ◌<◌, refl, Bool, true, false, ◌&&◌, ◌||◌, Option, none, some, List, [], ◌∷◌,
  ◌++◌, arith, Bytes, length, ◌==◌, if◌then◌else◌, Bool-cases, inl, inr,
}
use go_db.Base.Result.{Result, ok, err, panic, stuck, ◌>>=◌}
use go_db.Kv.Value.{Floats}
use go_db.Sql.Token.{Token, TokenType, SqlError, eof, is_space, is_word, is_number_byte}
use go_db.Sql.Lexer.{
  token, prefixed, quoted, drop_while, scan_string, lex_comparison, lex_string, lex_word, lex_other,
  symbol, starts_number, lex_token, lex_loop, lex, count_parameters,
}
use go_db.Sql.Stream.Safe.{Ends}

-- A token with at most `n` bytes left, or an error.
abbrev Shorter : ℕ → Result SqlError (Token × Bytes) → Type 0
Shorter n (ok (t, rest)) = length rest ≤ n
Shorter n (err e) = Unit {0}
Shorter n panic = ⊥
Shorter n stuck = ⊥

length-drop_while : (p : ℕ → Bool) (s : Bytes) → length (drop_while p s) ≤ length s
unfolding drop_while
length-drop_while p [] = omega arith
length-drop_while p (c ∷ cs) = ground (arith, length-drop_while p cs)

abbrev Within : ℕ → Option (Bytes × Bytes) → Type 0
Within n none = Unit {0}
Within n (some (body, rest)) = length rest ≤ n

Within-prefixed :
    (n m d : ℕ) (o : Option (Bytes × Bytes)) → n ≤ m → Within n o → Within m (prefixed d o)
Within-prefixed n m d none le h = tt
Within-prefixed n m d (some (body, rest)) le h = omega (arith, h)

Within-if :
    (n : ℕ) (b : Bool) (x y : Option (Bytes × Bytes))
    → Within n x
    → Within n y
    → Within n (if b then x else y)
Within-if n true x y hx hy = hx
Within-if n false x y hx hy = hy

scan_string-Within : (q : ℕ) (s : Bytes) → Within (length s) (scan_string q s)
unfolding scan_string
scan_string-Within q [] = tt
scan_string-Within q (c ∷ []) = Within-if 1 (c == q) (some ([], [])) none (omega arith) tt
scan_string-Within q (c ∷ d ∷ cs) =
    let n : ℕ = suc (suc (length cs)) in
    Within-if n (c == q) (some ([], d ∷ cs)) _ (omega arith) (
      Within-if n (c == b'\\') (prefixed d (scan_string q cs)) (prefixed c (scan_string q (d ∷ cs)))
        (Within-prefixed (length cs) n d (scan_string q cs) (omega arith) (scan_string-Within q cs))
        (Within-prefixed (suc (length cs)) n c (scan_string q (d ∷ cs)) (omega arith)
          (scan_string-Within q (d ∷ cs))))

quoted-Shorter : (n : ℕ) (o : Option (Bytes × Bytes)) → Within n o → Shorter n (quoted o)
quoted-Shorter n none h = tt
quoted-Shorter n (some (body, rest)) h = h

lex_string-Shorter : (q : ℕ) (rest : Bytes) → Shorter (length rest) (lex_string q rest)
unfolding lex_string
lex_string-Shorter q rest =
    quoted-Shorter (length rest) (scan_string q rest) (scan_string-Within q rest)

Shorter-if :
    (n : ℕ) (b : Bool) (x y : Result SqlError (Token × Bytes))
    → Shorter n x
    → Shorter n y
    → Shorter n (if b then x else y)
Shorter-if n true x y hx hy = hx
Shorter-if n false x y hx hy = hy

lex_comparison-Shorter : (c : ℕ) (rest : Bytes) → Shorter (length rest) (lex_comparison c rest)
unfolding lex_comparison
lex_comparison-Shorter c [] = ground arith
lex_comparison-Shorter c (d ∷ rest) = ground arith

lex_word-Shorter : (fl : Floats) (c : ℕ) (rest : Bytes) → Shorter (length rest) (lex_word fl c rest)
unfolding lex_word
lex_word-Shorter fl c rest = elim (Bool-cases (is_word c)) [
  | inl w ↦ rw w (length-drop_while is_word rest)
  | inr w ↦ rw w tt
]

lex_other-Shorter :
    (fl : Floats) (k : Option TokenType) (c : ℕ) (rest : Bytes)
    → Shorter (length rest) (lex_other fl k c rest)
unfolding lex_other
lex_other-Shorter fl (some k) c rest = omega arith
lex_other-Shorter fl none c rest =
    Shorter-if (length rest) (c == b'!' || c == b'<' || c == b'>') (lex_comparison c rest)
      (if c == b'\'' || c == b'"' then lex_string c rest else lex_word fl c rest)
      (lex_comparison-Shorter c rest)
      (Shorter-if (length rest) (c == b'\'' || c == b'"') (lex_string c rest) (lex_word fl c rest)
        (lex_string-Shorter c rest) (lex_word-Shorter fl c rest))

lex_token-Shorter :
    (fl : Floats) (n c : ℕ) (rest : Bytes) → Shorter (length rest) (lex_token fl n c rest)
unfolding lex_token
lex_token-Shorter fl n c rest = elim (Bool-cases (c == b'-' && starts_number rest)) [
  | inl m ↦ rw (m, Shorter) (length-drop_while is_number_byte rest)
  | inr m ↦
      rw (m, Shorter)
        (elim (Bool-cases (c == b'?')) [
          | inl q ↦ rw (q, Shorter) (omega arith)
          | inr q ↦ rw (q, Shorter) (lex_other-Shorter fl (symbol c) c rest)
        ])
]

abbrev pub Lexed : Result SqlError (List Token) → Type 0
Lexed (ok ts) = Ends ts
Lexed (err e) = Unit {0}
Lexed panic = ⊥
Lexed stuck = ⊥

Ends-append : (ts : List Token) → Ends (ts ++ token eof [] ∷ [])
Ends-append [] = (refl, refl)
Ends-append (t ∷ []) = (refl, refl)
Ends-append (t ∷ u ∷ ts) = Ends-append (u ∷ ts)

branch :
    (b : Bool) (x y : Result SqlError (List Token))
    → Lexed x
    → Lexed y
    → Lexed (elim b as (λ _. Result SqlError (List Token)) [ true ↦ x | false ↦ y ])
branch true x y hx hy = hx
branch false x y hx hy = hy

lex_loop-Lexed :
    (fl : Floats) (f : ℕ) (input : Bytes) (out : List Token)
    → length input < f
    → Lexed (lex_loop fl f input out)
unfolding lex_loop
lex_loop-Lexed fl zero input out h = absurd (omega arith)
lex_loop-Lexed fl (suc f) [] out h = Ends-append out
lex_loop-Lexed fl (suc f) (c ∷ rest) out h =
    branch (is_space c) _ _ (lex_loop-Lexed fl f rest out (omega arith)) (
      after (lex_token fl (count_parameters out) c rest)
        (lex_token-Shorter fl (count_parameters out) c rest)
        (λ t r le. lex_loop-Lexed fl f r (out ++ t ∷ []) (omega arith)))
  where
    after :
        (r : Result SqlError (Token × Bytes))
        → Shorter (length rest) r
        → ((t : Token) (s : Bytes)
            → length s ≤ length rest
            → Lexed (lex_loop fl f s (out ++ t ∷ [])))
        → Lexed (r >>= λ p. lex_loop fl f p.1 (out ++ p.0 ∷ []))
    after (ok (t, s)) le k = k t s le
    after (err e) le k = tt
    after panic le k = le
    after stuck le k = le

-- The lexer comes back on every input, with an error or with tokens of which the last is the EOF.
pub lex-Lexed : (fl : Floats) (input : Bytes) → Lexed (lex fl input)
unfolding lex
lex-Lexed fl input = lex_loop-Lexed fl (suc (length input)) input [] (omega arith)
