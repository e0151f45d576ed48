-- ===== src/Sql/Stream.antt =====
-- The parser's position in its tokens, sql/sql.go `cur`, `take`, `want`. A parser holds the tokens from
-- its position on, the source's `p.t[p.p:]`: `take` never goes back, nor past the last token.
pub mod Safe
use go_db.Base.{ℕ, zero, suc, Bool, true, false, List, [], ◌∷◌, Bytes, bytes_eq, if◌then◌else◌}
use go_db.Base.Result.{Result, ok, err, panic, stuck}
use go_db.Sql.Token.{Token, TokenType, SqlError, comma, lparen, expected, equal_fold}

abbrev pub Parser : Type 0 → Type 0
Parser A = List Token → Result SqlError (A × List Token)

abbrev pub continue :
    {A B : Type 0}
    → Result SqlError (A × List Token)
    → (A → Parser B)
    → Result SqlError (B × List Token)
continue (ok (a, ts)) f = f a ts
continue (err e) f = err e
continue panic f = panic
continue stuck f = stuck

infixl 5 ◌>>=◌ ◌>>◌
unfoldable pub ◌>>=◌ : {A B : Type 0} → Parser A → (A → Parser B) → Parser B
◌>>=◌ m f ts = continue (m ts) f

abbrev pub ◌>>◌ : {B : Type 0} → Parser (Unit {0}) → Parser B → Parser B
m >> n = m >>= λ _. n

unfoldable pub pure : {A : Type 0} → A → Parser A
pure a ts = ok (a, ts)

unfoldable pub fail : {A : Type 0} → SqlError → Parser A
fail e ts = err e

-- a failed type assertion
unfoldable pub crash : {A : Type 0} → Parser A
crash ts = panic

unfoldable pub lift : {A : Type 0} → Result SqlError A → Parser A
lift (ok a) ts = ok (a, ts)
lift (err e) ts = err e
lift panic ts = panic
lift stuck ts = stuck

-- `p.t[p.p]`
unfoldable pub cur : Parser Token
cur [] = panic
cur (t ∷ ts) = ok (t, t ∷ ts)

-- `p.t[p.p+1]`
unfoldable pub peek : Parser Token
peek [] = panic
peek (t ∷ []) = panic
peek (t ∷ u ∷ ts) = ok (u, t ∷ u ∷ ts)

unfoldable pub take : Parser (Unit {0})
take [] = ok (tt, [])
take (t ∷ []) = ok (tt, t ∷ [])
take (t ∷ u ∷ ts) = ok (tt, u ∷ ts)

unfoldable pub want : Bytes → Parser (Unit {0})
want s = do t ← cur; if equal_fold t.lexeme s then take else fail (expected s t.lexeme)

-- `strings.EqualFold(p.cur().Lexeme, s)`
unfoldable pub at_word : Bytes → Parser Bool
at_word s = do t ← cur; pure (equal_fold t.lexeme s)

-- The lexeme of the current token, which is taken.
unfoldable pub lexeme : Parser Bytes
lexeme = do t ← cur; take; pure t.lexeme

abbrev pub is_comma : TokenType → Bool
is_comma k = elim k [ comma ↦ true | _ ↦ false ]

-- `for { item; if p.cur().Type != Comma { break }; p.take() }`, on fuel
unfoldable pub comma_list : {A : Type 0} → ℕ → Parser A → Parser (List A)
comma_list zero item ts = stuck
comma_list (suc f) item ts =
    (do
      a ← item
      t ← cur
      elim (is_comma t.kind) [
        | true ↦ do take; rest ← comma_list f item; pure (a ∷ rest)
        | false ↦ pure (a ∷ [])
      ])
      ts
