-- ===== src/Sql/Stream/Safe.antt =====
-- Parsers that end: on tokens that close with an EOF they come back within their fuel, and leave
-- tokens that close with it, no more than they were given. `P` says whether they may panic.
use go_db.Base.{
  ℕ, zero, suc, ◌≤◌, ◌<◌, ◌≡◌, refl, Bool, true, false, List, [], ◌∷◌, arith, Bytes, length,
  if◌then◌else◌,
}
use go_db.Base.Result.{Result, ok, err, panic, stuck}
use go_db.Sql.Token.{Token, TokenType, SqlError, eof}
use go_db.Sql.Stream.{
  Parser, continue, ◌>>=◌, ◌>>◌, pure, fail, lift, cur, take, want, at_word, lexeme, comma_list,
  is_comma,
}

-- The last token is the EOF that `Lex` appends, and there is one.
abbrev pub Ends : List Token → Type 0
Ends [] = ⊥
Ends (t ∷ []) = (t.kind ≡ eof) × (t.lexeme ≡ [])
Ends (t ∷ u ∷ ts) = Ends (u ∷ ts)

abbrev pub Fine : {A : Type 0} → Type 0 → ℕ → Result SqlError (A × List Token) → Type 0
Fine P n (ok (a, ts)) = Ends ts × (length ts ≤ n)
Fine P n (err e) = Unit {0}
Fine P n panic = P
Fine P n stuck = ⊥

pub record Safe {A : Type 0} (P : Type 0) (n : ℕ) (m : Parser A) : Type 0 where
  pub at : (ts : List Token) → Ends ts → length ts ≤ n → Fine P (length ts) (m ts)

-- a result that is a value or an error
abbrev pub IsPlain : {A : Type 0} → Result SqlError A → Type 0
IsPlain (ok a) = Unit {0}
IsPlain (err e) = Unit {0}
IsPlain panic = ⊥
IsPlain stuck = ⊥

pub Fine-mono :
    (P : Type 0) {A : Type 0} (j k : ℕ) (r : Result SqlError (A × List Token))
    → j ≤ k
    → Fine P j r
    → Fine P k r
Fine-mono P j k (ok (a, ts)) h f = (f.0, omega (arith, f.1))
Fine-mono P j k (err e) h f = tt
Fine-mono P j k panic h f = f
Fine-mono P j k stuck h f = f

pub Fine-continue :
    (P : Type 0) {A B : Type 0} (n k : ℕ) (r : Result SqlError (A × List Token)) (f : A → Parser B)
    → Fine P k r
    → k ≤ n
    → ((a : A) → Safe P n (f a))
    → Fine P k (continue r f)
Fine-continue P n k (ok (a, ts)) f h le s =
    Fine-mono P (length ts) k (f a ts) h.1 ((s a).at ts h.0 (omega (arith, h.1)))
Fine-continue P n k (err e) f h le s = tt
Fine-continue P n k panic f h le s = h
Fine-continue P n k stuck f h le s = h

module _ {P : Type 0} {n : ℕ} where
  pub Safe-bind :
      {A B : Type 0} (m : Parser A) (f : A → Parser B)
      → Safe P n m
      → ((a : A) → Safe P n (f a))
      → Safe P n (m >>= f)
  unfolding ◌>>=◌
  Safe-bind m f sm sf = record {
    at = λ ts e h. Fine-continue P n (length ts) (m ts) f (sm.at ts e h) h sf;
  }

  pub Safe-pure : {A : Type 0} (a : A) → Safe P n (pure a)
  unfolding pure
  Safe-pure a = record { at = λ ts e h. (e, omega arith) }

  pub Safe-fail : {A : Type 0} (e : SqlError) → Safe P n (fail {A = A} e)
  unfolding fail
  Safe-fail e = record { at = λ ts x h. tt }

  pub Safe-if :
      {A : Type 0} (b : Bool) (m k : Parser A)
      → Safe P n m
      → Safe P n k
      → Safe P n (if b then m else k)
  Safe-if true m k sm sk = sm
  Safe-if false m k sm sk = sk

  pub Safe-cur : Safe P n cur
  unfolding cur
  Safe-cur = record { at = at_cur }
    where
      at_cur : (ts : List Token) → Ends ts → length ts ≤ n → Fine P (length ts) (cur ts)
      at_cur [] e h = absurd e
      at_cur (t ∷ ts) e h = (e, omega arith)

  pub Safe-take : Safe P n take
  unfolding take
  Safe-take = record { at = at_take }
    where
      at_take : (ts : List Token) → Ends ts → length ts ≤ n → Fine P (length ts) (take ts)
      at_take [] e h = absurd e
      at_take (t ∷ []) e h = (e, omega arith)
      at_take (t ∷ u ∷ ts) e h = (e, omega arith)

  pub Safe-lift : {A : Type 0} (r : Result SqlError A) → IsPlain r → Safe P n (lift r)
  unfolding lift
  Safe-lift (ok a) h = record { at = λ ts e le. (e, omega arith) }
  Safe-lift (err x) h = record { at = λ ts e le. tt }
  Safe-lift panic h = absurd h
  Safe-lift stuck h = absurd h

pub ruleset basics = (Safe-bind, Safe-pure, Safe-fail, Safe-if, Safe-cur, Safe-take)

module _ {P : Type 0} {n : ℕ} where
  pub Safe-want : (s : Bytes) → Safe P n (want s)
  unfolding want
  Safe-want s = search basics

  pub Safe-at_word : (s : Bytes) → Safe P n (at_word s)
  unfolding at_word
  Safe-at_word s = search basics

  pub Safe-lexeme : Safe P n lexeme
  unfolding lexeme
  Safe-lexeme = search basics

pub ruleset safe_rules = (basics, Safe-want, Safe-at_word, Safe-lexeme)

-- A token that is not the EOF at the end has one behind it.
pub Ends-more :
    (t : Token) (ts : List Token)
    → Ends (t ∷ ts)
    → (t.kind ≡ eof → ⊥)
    → (u : Token) × (us : List Token) × (ts ≡ u ∷ us)
Ends-more t [] e inner = absurd (inner e.0)
Ends-more t (u ∷ us) e inner = (u, us, refl)

-- A smaller bound asks less.
pub Safe-below :
    {P : Type 0} {A : Type 0} (k n : ℕ) (m : Parser A) → k ≤ n → Safe P n m → Safe P k m
Safe-below k n m le s = record { at = λ ts e h. s.at ts e (omega arith) }

-- A branch on a test, with the test's value.
pub Fine-elim :
    (P : Type 0) {A : Type 0} (n : ℕ) (b : Bool) (m k : Parser A) (ts : List Token)
    → (b ≡ true → Fine P n (m ts))
    → (b ≡ false → Fine P n (k ts))
    → Fine P n ((elim b as (λ x. Parser A) [ true ↦ m | false ↦ k ]) ts)
Fine-elim P n true m k ts on off = on refl
Fine-elim P n false m k ts on off = off refl

pub Safe-elim :
    {P : Type 0} {n : ℕ} {A : Type 0} (b : Bool) (m k : Parser A)
    → Safe P n m
    → Safe P n k
    → Safe P n (elim b as (λ x. Parser A) [ true ↦ m | false ↦ k ])
Safe-elim true m k sm sk = sm
Safe-elim false m k sm sk = sk

comma_ne : (k : TokenType) → is_comma k ≡ true → k ≡ eof → ⊥
comma_ne k h e = ground arith

module _ {P : Type 0} {A : Type 0} (n : ℕ) (item : Parser A) (safe : Safe P n item) where
  -- what follows an item, with a loop `rest` that is safe on fewer tokens
  abbrev more_items : Parser (List A) → A → Parser (List A)
  more_items rest a = do
    t ← cur
    elim (is_comma t.kind) [ true ↦ do take; as' ← rest; pure (a ∷ as') | false ↦ pure (a ∷ []) ]

  more_items-Fine :
      (rest : Parser (List A)) (a : A) (ts : List Token)
      → Ends ts
      → ((k : ℕ) → k < length ts → Safe P k rest)
      → Fine P (length ts) (more_items rest a ts)
  unfolding ◌>>=◌ cur take pure
  more_items-Fine rest a [] e shorter = absurd e
  more_items-Fine rest a (t ∷ []) e shorter =
      Fine-elim P 1 (is_comma t.kind) _ _ (t ∷ []) (λ c. absurd (comma_ne t.kind c e.0))
        (λ c. (e, omega arith))
  more_items-Fine rest a (t ∷ u ∷ us) e shorter =
      Fine-elim P (suc (suc (length us))) (is_comma t.kind) _ _ (t ∷ u ∷ us)
        (λ c. Fine-mono P (suc (length us)) (suc (suc (length us))) _ (omega arith) (
          Fine-continue P (suc (length us)) (suc (length us)) (rest (u ∷ us))
            (λ as'. pure (a ∷ as'))
            ((shorter (suc (length us)) (omega arith)).at (u ∷ us) e (omega arith)) (omega arith)
            (λ as'. Safe-pure (a ∷ as'))))
        (λ c. (e, omega arith))

  -- With fuel for every token the loop ends.
  comma_list-at : (f k : ℕ) → k ≤ f → k ≤ n → Safe P k (comma_list f item)
  unfolding comma_list
  comma_list-at zero k le le' = record { at = no_tokens }
    where
      no_tokens :
          (ts : List Token) → Ends ts → length ts ≤ k → Fine P (length ts) (comma_list zero item ts)
      no_tokens [] e h = e
      no_tokens (t ∷ ts) e h = absurd (omega arith)
  comma_list-at (suc f) k le le' =
      let loop : (j : ℕ) → j ≤ f → j ≤ n → Safe P j (comma_list f item) = comma_list-at f in
      Safe-bind item (more_items (comma_list f item)) (Safe-below k n item le' safe) (λ a. record {
        at = λ ts e h.
            more_items-Fine (comma_list f item) a ts e (λ j lt. loop j (omega arith) (omega arith));
      })

pub Safe-comma_list :
    {P : Type 0} {A : Type 0} (n f : ℕ) (item : Parser A)
    → n ≤ f
    → Safe P n item
    → Safe P n (comma_list f item)
Safe-comma_list n f item le safe = comma_list-at n item safe f n le (omega arith)
