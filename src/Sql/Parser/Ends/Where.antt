-- ===== src/Sql/Parser/Ends/Where.antt =====
-- Values and WHERE clauses: the loops over AND and OR, and the parentheses, end within their fuel.
use go_db.Base.{
  ℕ, zero, suc, ◌≤◌, ◌≡◌, refl, Bool, true, false, Option, none, some, List, [], ◌∷◌, arith, Bytes,
  codes, length, if◌then◌else◌,
}
use go_db.Base.Int.{ℤ, pos, negsuc, atoi}
use go_db.Base.Result.{Result}
use go_db.Kv.Value.{Floats}
use go_db.Sql.Token.{Token, TokenType, SqlError, eof, equal_fold}
use go_db.Sql.Ast.{Logic, Condition, both, and, or}
use go_db.Sql.Stream.{Parser, ◌>>=◌, pure, cur, take, at_word}
use go_db.Sql.Stream.Safe.{
  Ends, Fine, Safe, IsPlain, Fine-mono, Fine-continue, Fine-elim, Safe-bind, Safe-lift, safe_rules,
}
use go_db.Sql.Parser.Values.{value_of, value, has_dot, trim_dollar, int_of, float_of, parameter_of}
use go_db.Sql.Parser.Conditions.{
  chain_loop, parse_and, parse_or, parse_is, parse_comparison, parse_primary, condition, is_lparen,
}

IsPlain-parameter : (o : Option ℤ) → IsPlain (parameter_of o)
IsPlain-parameter none = tt
IsPlain-parameter (some (pos n)) = tt
IsPlain-parameter (some (negsuc n)) = tt

IsPlain-int : (o : Option ℤ) → IsPlain (int_of o)
IsPlain-int none = tt
IsPlain-int (some i) = tt

IsPlain-float : (o : Option ℕ) → IsPlain (float_of o)
IsPlain-float none = tt
IsPlain-float (some i) = tt

IsPlain-if :
    {A : Type 0} (b : Bool) (x y : Result SqlError A)
    → IsPlain x
    → IsPlain y
    → IsPlain (if b then x else y)
IsPlain-if true x y p q = p
IsPlain-if false x y p q = q

IsPlain-value_of : (fl : Floats) (k : TokenType) (s : Bytes) → IsPlain (value_of fl k s)
unfolding value_of
IsPlain-value_of fl TokenType.parameter s = IsPlain-parameter (atoi (trim_dollar s))
IsPlain-value_of fl TokenType.number s =
    IsPlain-if (has_dot s) (float_of (fl.parse_float s)) (int_of (atoi s))
      (IsPlain-float (fl.parse_float s)) (IsPlain-int (atoi s))
IsPlain-value_of fl _ s = tt

pub Safe-value : {P : Type 0} {n : ℕ} (fl : Floats) → Safe P n (value fl)
unfolding value
Safe-value fl = search (safe_rules, Safe-lift, IsPlain-value_of)

-- The loop over a word that no EOF token has.
module _ {P : Type 0} (logic : Logic) (word : Bytes) (named : equal_fold [] word ≡ false) (n : ℕ)
    (item : Parser Condition) (safe : Safe P n item) where
  chain_loop-Fine :
      (f : ℕ) (left : Condition) (ts : List Token)
      → Ends ts
      → length ts ≤ f
      → length ts ≤ n
      → Fine P (length ts) (chain_loop f logic word item left ts)
  unfolding chain_loop ◌>>=◌ at_word cur take pure
  chain_loop-Fine f left [] e le le' = absurd e
  chain_loop-Fine zero left (t ∷ ts) e le le' = absurd (omega arith)
  chain_loop-Fine (suc f) left (t ∷ []) e le le' =
      Fine-elim P 1 (equal_fold t.lexeme word) _ _ (t ∷ []) (λ c. absurd (named_ne t.lexeme e.1 c))
        (λ c. (e, omega arith))
    where
      named_ne : (s : Bytes) → s ≡ [] → equal_fold s word ≡ true → ⊥
      named_ne s q c = cc (named, q, c)
  chain_loop-Fine (suc f) left (t ∷ u ∷ us) e le le' =
      let loop : (left : Condition) (ts : List Token)
          → Ends ts
          → length ts ≤ f
          → length ts ≤ n
          → Fine P (length ts) (chain_loop f logic word item left ts) =
        chain_loop-Fine f in
      Fine-elim P (suc (suc (length us))) (equal_fold t.lexeme word) _ _ (t ∷ u ∷ us)
        (λ c. Fine-mono P (suc (length us)) (suc (suc (length us))) _ (omega arith) (
          Fine-continue P (suc (length us)) (suc (length us)) (item (u ∷ us))
            (λ right. chain_loop f logic word item (both logic left right))
            (safe.at (u ∷ us) e (omega arith)) (omega arith)
            (λ right. record {
              at = λ vs x h. loop (both logic left right) vs x (omega arith) (omega arith);
            })))
        (λ c. (e, omega arith))

  Safe-chain_loop :
      (f : ℕ) (left : Condition) → n ≤ f → Safe P n (chain_loop f logic word item left)
  Safe-chain_loop f left le = record { at = λ ts e h. chain_loop-Fine f left ts e (omega arith) h }

module _ {P : Type 0} (n f : ℕ) (enough : n ≤ f) (item : Parser Condition)
    (safe : Safe P n item) where
  Safe-parse_and : Safe P n (parse_and f item)
  unfolding parse_and equal_fold
  Safe-parse_and =
      Safe-bind item _ safe
        (λ left. Safe-chain_loop and (codes "AND") refl n item safe f left enough)

  Safe-parse_or : Safe P n (parse_or f item)
  unfolding parse_or equal_fold
  Safe-parse_or = Safe-bind (parse_and f item) _ Safe-parse_and (λ left.
      Safe-chain_loop or (codes "OR") refl n (parse_and f item) Safe-parse_and f left enough)

module _ {P : Type 0} {n : ℕ} where
  Safe-parse_is : (column : Bytes) → Safe P n (parse_is column)
  unfolding parse_is
  Safe-parse_is column = search safe_rules depth 10

  Safe-parse_comparison : (fl : Floats) → Safe P n (parse_comparison fl)
  unfolding parse_comparison
  Safe-parse_comparison fl = search (safe_rules, Safe-parse_is, Safe-value) depth 12

lparen_ne : (k : TokenType) → is_lparen k ≡ true → k ≡ eof → ⊥
lparen_ne k h e = ground arith

module _ (P : Type 0) (fl : Floats) where
  parse_primary-Fine :
      (f depth : ℕ) (ts : List Token)
      → Ends ts
      → length ts ≤ f
      → length ts ≤ depth
      → Fine P (length ts) (parse_primary fl f depth ts)
  unfolding parse_primary ◌>>=◌ cur take
  parse_primary-Fine f depth [] e le le' = absurd e
  parse_primary-Fine f zero (t ∷ ts) e le le' = absurd (omega arith)
  parse_primary-Fine f (suc depth) (t ∷ []) e le le' =
      Fine-elim P 1 (is_lparen t.kind) _ _ (t ∷ []) (λ c. absurd (lparen_ne t.kind c e.0))
        (λ c. (Safe-parse_comparison {P = P} {n = 1} fl).at (t ∷ []) e (omega arith))
  parse_primary-Fine f (suc depth) (t ∷ u ∷ us) e le le' =
      let m : ℕ = suc (length us) in
      let inner : (ts : List Token)
          → Ends ts
          → length ts ≤ f
          → length ts ≤ depth
          → Fine P (length ts) (parse_primary fl f depth ts) =
        parse_primary-Fine f depth in
      let deep : Safe P m (parse_primary fl f depth) = record {
        at = λ ts x h. inner ts x (omega arith) (omega arith);
      } in
      Fine-elim P (suc m) (is_lparen t.kind) _ _ (t ∷ u ∷ us)
        (λ c. Fine-mono P m (suc m) _ (omega arith) (
          Fine-continue P m m (parse_or f (parse_primary fl f depth) (u ∷ us)) _
            ((Safe-parse_or m f (omega arith) (parse_primary fl f depth) deep).at (u ∷ us) e
              (omega arith))
            (omega arith) (λ x. search safe_rules)))
        (λ c. (Safe-parse_comparison {P = P} {n = suc m} fl).at (t ∷ u ∷ us) e (omega arith))

  Safe-where : (n f : ℕ) → n ≤ f → Safe P n (parse_or f (parse_primary fl f f))
  Safe-where n f enough =
      Safe-parse_or n f enough (parse_primary fl f f)
        (record { at = λ ts e h. parse_primary-Fine f f ts e (omega arith) (omega arith) })

  pub Safe-condition : (n f : ℕ) → n ≤ f → Safe P n (condition fl f)
  unfolding condition
  Safe-condition n f enough = search (safe_rules, Safe-where) depth 10
