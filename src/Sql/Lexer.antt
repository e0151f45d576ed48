-- ===== src/Sql/Lexer.antt =====
-- `Lex` of sql/sql.go. The input is what is left of the source's `input[i:]`, and one call of
-- `lex_one` is one round of the outer loop.
pub mod Total
use go_db.Base.{
  ℕ, zero, suc, ◌+◌, Bool, true, false, ◌&&◌, ◌||◌, not, Option, none, some, List, [], ◌∷◌, ◌++◌,
  Bytes, codes, length, bytes_eq, ◌==◌, if◌then◌else◌,
}
use go_db.Base.Int.{atoi, decimal}
use go_db.Base.Result.{Result, ok, err, stuck, ◌>>=◌}
use go_db.Kv.Value.{Floats}
use go_db.Sql.Token.{
  Token, TokenType, SqlError, eof, keyword, identifier, number, string, boolean, null, parameter,
  comma, lparen, rparen, equal, not_equal, less, greater, less_equal, greater_equal, semicolon,
  unexpected_character, unterminated_string, is_space, is_word, is_number_byte, to_upper, member,
}

abbrev pub token : TokenType → Bytes → Token
token k s = record { kind = k; lexeme = s }

-- the bytes that an inner loop takes, and those that it leaves
unfoldable pub take_while : (ℕ → Bool) → Bytes → Bytes
take_while p [] = []
take_while p (c ∷ cs) = let rest = c ∷ take_while p cs in if p c then rest else []

unfoldable pub drop_while : (ℕ → Bool) → Bytes → Bytes
drop_while p [] = []
drop_while p (c ∷ cs) = let rest = drop_while p cs in if p c then rest else c ∷ cs

abbrev is_parameter : Token → Bool
is_parameter t = elim t.kind [ parameter ↦ true | _ ↦ false ]

unfoldable pub count_parameters : List Token → ℕ
count_parameters [] = 0
count_parameters (t ∷ ts) = (if is_parameter t then 1 else 0) + count_parameters ts

abbrev pub keywords : List Bytes
keywords =
    codes "SELECT"
    ∷ codes "FROM"
    ∷ codes "WHERE"
    ∷ codes "INSERT"
    ∷ codes "INTO"
    ∷ codes "VALUES"
    ∷ codes "SHOW"
    ∷ codes "TABLES"
    ∷ codes "LIST"
    ∷ codes "CREATE"
    ∷ codes "TABLE"
    ∷ codes "ALTER"
    ∷ codes "ADD"
    ∷ codes "COLUMN"
    ∷ codes "DROP"
    ∷ codes "RENAME"
    ∷ codes "TO"
    ∷ codes "UPDATE"
    ∷ codes "SET"
    ∷ codes "DELETE"
    ∷ codes "AND"
    ∷ codes "OR"
    ∷ codes "EXPLAIN"
    ∷ codes "ORDER"
    ∷ codes "BY"
    ∷ codes "ASC"
    ∷ codes "DESC"
    ∷ codes "LIMIT"
    ∷ codes "OFFSET"
    ∷ codes "GROUP"
    ∷ codes "COUNT"
    ∷ codes "SUM"
    ∷ codes "AVG"
    ∷ codes "MIN"
    ∷ codes "MAX"
    ∷ codes "BEGIN"
    ∷ codes "COMMIT"
    ∷ codes "ROLLBACK"
    ∷ []

abbrev is_some : {A : Type 0} → Option A → Bool
is_some none = false
is_some (some a) = true

-- The type of a word: a later test of the source overrides an earlier one.
unfoldable pub word_type : Floats → Bytes → TokenType
unfolding member to_upper atoi
word_type fl word =
    let upper = to_upper word in
    if is_some (fl.parse_float word)
    then number
    else if is_some (atoi word)
    then number
    else if bytes_eq upper (codes "NULL")
    then null
    else if bytes_eq upper (codes "TRUE") || bytes_eq upper (codes "FALSE")
    then boolean
    else if member upper keywords
    then keyword
    else identifier

-- one more byte in front of a body
abbrev pub prefixed : ℕ → Option (Bytes × Bytes) → Option (Bytes × Bytes)
prefixed b none = none
prefixed b (some (s, rest)) = some (b ∷ s, rest)

-- The body of a quoted string, and what stands behind the closing quote.
unfoldable pub scan_string : ℕ → Bytes → Option (Bytes × Bytes)
scan_string quote [] = none
scan_string quote (c ∷ []) = if c == quote then some ([], []) else none
scan_string quote (c ∷ d ∷ cs) =
    let escaped = prefixed d (scan_string quote cs) in
    let plain = prefixed c (scan_string quote (d ∷ cs)) in
    if c == quote then some ([], d ∷ cs) else if c == b'\\' then escaped else plain

-- `input[i] == '='`, and the input behind it
unfoldable pub equals_sign : Bytes → Bool
equals_sign [] = false
equals_sign (c ∷ cs) = c == b'='

abbrev pub tail : Bytes → Bytes
tail [] = []
tail (c ∷ cs) = cs

abbrev pub comparison : ℕ → Bool → TokenType
comparison c eq =
    if c == b'!'
    then not_equal
    else if c == b'<'
    then (if eq then less_equal else less)
    else if eq
    then greater_equal
    else greater

-- `case '!', '<', '>'`
unfoldable pub lex_comparison : ℕ → Bytes → Result SqlError (Token × Bytes)
unfolding equals_sign
lex_comparison c rest =
    let eq = equals_sign rest in
    if c == b'!' && not eq
    then err (unexpected_character c)
    else ok (
      token (comparison c eq) (if eq then c ∷ b'=' ∷ [] else c ∷ []),
      if eq then tail rest else rest,
    )

unfoldable pub starts_number : Bytes → Bool
unfolding is_number_byte
starts_number [] = false
starts_number (c ∷ cs) = is_number_byte c

abbrev pub quoted : Option (Bytes × Bytes) → Result SqlError (Token × Bytes)
quoted none = err unterminated_string
quoted (some (s, behind)) = ok (token string s, behind)

-- a quoted string
unfoldable pub lex_string : ℕ → Bytes → Result SqlError (Token × Bytes)
unfolding scan_string
lex_string quote rest = quoted (scan_string quote rest)

-- a word; the input begins with `c`
unfoldable pub lex_word : Floats → ℕ → Bytes → Result SqlError (Token × Bytes)
unfolding is_word word_type take_while drop_while
lex_word fl c rest =
    if is_word c
    then (let word = take_while is_word (c ∷ rest) in
        ok (token (word_type fl word) word, drop_while is_word (c ∷ rest)))
    else err (unexpected_character c)

-- the symbols of one byte
unfoldable pub symbol : ℕ → Option TokenType
symbol c =
    if c == b','
    then some comma
    else if c == b'('
    then some lparen
    else if c == b')'
    then some rparen
    else if c == b'='
    then some equal
    else if c == b';'
    then some semicolon
    else if c == b'*'
    then some identifier
    else none

-- the switch, with the symbol of `c` if it is one, and what follows it
unfoldable pub lex_other : Floats → Option TokenType → ℕ → Bytes → Result SqlError (Token × Bytes)
unfolding lex_comparison lex_string lex_word
lex_other fl (some k) c rest = ok (token k (c ∷ []), rest)
lex_other fl none c rest =
    if c == b'!' || c == b'<' || c == b'>'
    then lex_comparison c rest
    else if c == b'\'' || c == b'"'
    then lex_string c rest
    else lex_word fl c rest

-- The token at a byte that is no space, and the input behind it; `n` counts the parameters so far.
unfoldable pub lex_token : Floats → ℕ → ℕ → Bytes → Result SqlError (Token × Bytes)
unfolding starts_number is_number_byte take_while drop_while decimal symbol lex_other
lex_token fl n c rest =
    if c == b'-' && starts_number rest
    then ok (token number (c ∷ take_while is_number_byte rest), drop_while is_number_byte rest)
    else if c == b'?'
    then ok (token parameter (b'$' ∷ decimal n), rest)
    else lex_other fl (symbol c) c rest

-- The outer loop, on fuel.
unfoldable pub lex_loop : Floats → ℕ → Bytes → List Token → Result SqlError (List Token)
unfolding is_space lex_token count_parameters
lex_loop fl zero input out = stuck
lex_loop fl (suc f) [] out = ok (out ++ token eof [] ∷ [])
lex_loop fl (suc f) (c ∷ rest) out = elim (is_space c) [
  | true ↦ lex_loop fl f rest out
  | false ↦ lex_token fl (count_parameters out) c rest >>= λ p. lex_loop fl f p.1 (out ++ p.0 ∷ [])
]

unfoldable pub lex : Floats → Bytes → Result SqlError (List Token)
unfolding lex_loop
lex fl input = lex_loop fl (suc (length input)) input []
