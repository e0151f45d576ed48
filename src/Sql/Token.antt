-- ===== src/Sql/Token.antt =====
-- Tokens, the errors of the front end, and the byte classes that the lexer asks for. A byte is
-- classified as the Latin-1 character that `rune(input[i])` makes of it.
use mathlib.Core.List.{map}
use go_db.Base.{ℕ, Bool, false, ◌||◌, List, [], ◌∷◌, Bytes, bytes_eq, ◌==◌}
use go_db.Base.Int.{is_digit}
use go_db.Base.Runes.{between, runes, upper_rune, fold_rune}

pub data TokenType : Type 0 where
  eof keyword identifier number string boolean null parameter : TokenType
  comma lparen rparen equal not_equal less greater less_equal greater_equal semicolon : TokenType

pub record Token : Type 0 where
  pub kind : TokenType
  pub lexeme : Bytes

pub data SqlError : Type 0 where
  unexpected_character : ℕ → SqlError
  unterminated_string : SqlError
  -- wanted, got
  expected : Bytes → Bytes → SqlError
  expected_statement expected_table_name explain_unsupported : SqlError
  unexpected_after_semicolon : Bytes → SqlError
  unknown_type : Bytes → SqlError
  expected_table unsupported_alter : SqlError
  expected_null expected_comparison expected_value : SqlError
  invalid_parameter invalid_number count_mismatch : SqlError

-- `unicode.IsSpace` below 256
unfoldable pub is_space : ℕ → Bool
is_space c = between 9 13 c || c == 32 || c == 0x85 || c == 0xA0

-- `unicode.IsLetter` below 256
unfoldable pub is_letter : ℕ → Bool
is_letter c =
    between b'A' b'Z' c
    || between b'a' b'z' c
    || c == 0xAA
    || c == 0xB5
    || c == 0xBA
    || between 0xC0 0xD6 c
    || between 0xD8 0xF6 c
    || between 0xF8 0xFF c

-- `strings.ToUpper`, as characters: the source compares the result with ASCII words alone.
unfoldable pub to_upper : Bytes → Bytes
to_upper s = map upper_rune (runes 0 s)

-- `strings.EqualFold`, with the folding of ASCII and Latin-1 and of what folds with ASCII
unfoldable pub equal_fold : Bytes → Bytes → Bool
unfolding bytes_eq
equal_fold a b = bytes_eq (map fold_rune (runes 0 a)) (map fold_rune (runes 0 b))

-- the bytes that the word loop takes
unfoldable pub is_word : ℕ → Bool
unfolding is_letter
is_word c = is_letter c || is_digit c || c == b'_' || c == b'.'

unfoldable pub is_number_byte : ℕ → Bool
is_number_byte c = is_digit c || c == b'.'

unfoldable pub member : Bytes → List Bytes → Bool
unfolding bytes_eq
member w [] = false
member w (k ∷ ks) = bytes_eq w k || member w ks
