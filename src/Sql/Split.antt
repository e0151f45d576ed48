-- ===== src/Sql/Split.antt =====
-- `splitStatements` of sql/sql.go, which cuts a text at the semicolons outside quotes, and
-- `strings.TrimSpace`, which here takes off the ASCII spaces; those of Unicode beyond are left.
use mathlib.Core.List.{reverse}
use go_db.Base.{ℕ, Bool, ◌||◌, ◌&&◌, not, List, [], ◌∷◌, Bytes, ◌==◌, leb, if◌then◌else◌}
use go_db.Sql.Lexer.{drop_while}

abbrev pub is_ascii_space : ℕ → Bool
is_ascii_space c = leb 9 c && leb c 13 || c == 32

unfoldable pub trim_space : Bytes → Bytes
trim_space s = reverse (drop_while is_ascii_space (reverse (drop_while is_ascii_space s)))

-- `if x := strings.TrimSpace(...); x != "" { out = append(out, x) }`, in front of what comes later
abbrev pub keep : Bytes → List Bytes → List Bytes
keep [] rest = rest
keep (c ∷ cs) rest = (c ∷ cs) ∷ rest

-- `quote` after a byte: 0 where none is open.
unfoldable pub next_quote : ℕ → ℕ → ℕ
next_quote quote c =
    if not (quote == 0)
    then (if c == quote then 0 else quote)
    else if c == b'\'' || c == b'"'
    then c
    else 0

-- a byte at which a statement ends
unfoldable pub cuts : ℕ → ℕ → Bool
cuts quote c = quote == 0 && c == b';'

-- The loop: the bytes since `start` (the last one first), the open quote, and the bytes to come.
unfoldable pub split_loop : Bytes → ℕ → Bytes → List Bytes
split_loop piece quote [] = keep (trim_space (reverse piece)) []
split_loop piece quote (c ∷ cs) =
    let rest = split_loop (if cuts quote c then [] else c ∷ piece) (next_quote quote c) cs in
    if cuts quote c then keep (trim_space (reverse piece)) rest else rest

unfoldable pub split_statements : Bytes → List Bytes
split_statements s = split_loop [] 0 s
