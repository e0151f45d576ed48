-- ===== src/Sql/Parser/Values.antt =====
-- `value` of sql/sql.go: the value that a token stands for.
use go_db.Base.{
  ℕ, Bool, false, ◌||◌, Option, none, some, [], ◌∷◌, Bytes, codes, ◌==◌, if◌then◌else◌,
}
use go_db.Base.Int.{ℤ, pos, negsuc, atoi}
use go_db.Base.Result.{Result, ok, err}
use go_db.Kv.Value.{Value, Floats}
use go_db.Sql.Token.{
  TokenType, SqlError, invalid_parameter, invalid_number, expected_value, equal_fold,
}
use go_db.Sql.Stream.{Parser, ◌>>=◌, ◌>>◌, pure, lift, cur, take}

-- `strings.TrimPrefix(s, "$")`
unfoldable pub trim_dollar : Bytes → Bytes
trim_dollar [] = []
trim_dollar (c ∷ cs) = if c == b'$' then cs else c ∷ cs

-- `strings.Contains(s, ".")`
unfoldable pub has_dot : Bytes → Bool
has_dot [] = false
has_dot (c ∷ cs) = c == b'.' || has_dot cs

-- An index is never negative: the lexer counts parameters from 0.
abbrev pub parameter_of : Option ℤ → Result SqlError Value
parameter_of (some (pos n)) = ok (Value.parameter n)
parameter_of (some (negsuc n)) = err invalid_parameter
parameter_of none = err invalid_parameter

abbrev pub int_of : Option ℤ → Result SqlError Value
int_of (some i) = ok (Value.int i)
int_of none = err invalid_number

abbrev pub float_of : Option ℕ → Result SqlError Value
float_of (some f) = ok (Value.float f)
float_of none = err invalid_number

unfoldable pub value_of : Floats → TokenType → Bytes → Result SqlError Value
value_of fl TokenType.parameter s = parameter_of (atoi (trim_dollar s))
value_of fl TokenType.number s = if has_dot s then float_of (fl.parse_float s) else int_of (atoi s)
value_of fl TokenType.string s = ok (Value.text s)
value_of fl TokenType.boolean s = ok (Value.boolean (equal_fold s (codes "true")))
value_of fl TokenType.null s = ok Value.null
value_of fl _ s = err expected_value

-- `value(p.cur())`, and the token is taken
unfoldable pub value : Floats → Parser Value
value fl = do t ← cur; v ← lift (value_of fl t.kind t.lexeme); take; pure v
