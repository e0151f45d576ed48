-- ===== src/Sql/Parser/Ends/Clauses.antt =====
-- The parts of CREATE and SELECT that look at more than one token, or loop.
use go_db.Base.{
  ℕ, zero, suc, ◌≤◌, ◌≡◌, refl, Bool, true, false, List, [], ◌∷◌, arith, Bytes, codes, length,
  if◌then◌else◌,
}
use go_db.Kv.Value.{ColumnConstraint}
use go_db.Sql.Token.{Token, equal_fold, to_upper, member}
use go_db.Sql.Stream.{Parser, ◌>>=◌, pure, cur, peek, take, want, at_word}
use go_db.Sql.Stream.Safe.{
  Ends, Fine, Safe, IsPlain, Fine-mono, Fine-continue, Fine-elim, Safe-want, Safe-lift, safe_rules,
}
use go_db.Sql.Parser.Tables.{
  column_type_of, column, reference, column_constraints, column_definition,
}
use go_db.Sql.Parser.Queries.{
  is_aggregate_name, at_call, select_column, at_join, join_clause, order_clause,
}

IsPlain-column_type_of : (s : Bytes) → IsPlain (column_type_of s)
unfolding column_type_of
IsPlain-column_type_of s = ground arith

module _ {P : Type 0} {n : ℕ} where
  pub Safe-column : Safe P n column
  unfolding column
  Safe-column = search (safe_rules, Safe-lift, IsPlain-column_type_of) depth 10

  pub Safe-reference : Safe P n reference
  unfolding reference
  Safe-reference = search safe_rules depth 10

-- The lexeme of the EOF is no word.
no_word : (s w : Bytes) → s ≡ [] → equal_fold [] w ≡ false → equal_fold s w ≡ true → ⊥
no_word s w q named c = cc (named, q, c)

module _ (P : Type 0) where
  column_constraints-Fine :
      (f : ℕ) (c : ColumnConstraint) (ts : List Token)
      → Ends ts
      → length ts ≤ f
      → Fine P (length ts) (column_constraints f c ts)
  unfolding column_constraints ◌>>=◌ at_word cur take pure equal_fold
  column_constraints-Fine f c [] e le = absurd e
  column_constraints-Fine zero c (t ∷ ts) e le = absurd (omega arith)
  column_constraints-Fine (suc f) c (t ∷ []) e le =
      Fine-elim P 1 (equal_fold t.lexeme (codes "NOT")) _ _ (t ∷ [])
        (λ x. absurd (no_word t.lexeme (codes "NOT") e.1 refl x))
        (λ _.
          Fine-elim P 1 (equal_fold t.lexeme (codes "UNIQUE")) _ _ (t ∷ [])
            (λ x. absurd (no_word t.lexeme (codes "UNIQUE") e.1 refl x))
            (λ _.
              Fine-elim P 1 (equal_fold t.lexeme (codes "REFERENCES")) _ _ (t ∷ [])
                (λ x. absurd (no_word t.lexeme (codes "REFERENCES") e.1 refl x))
                (λ _. (e, omega arith))))
  column_constraints-Fine (suc f) c (t ∷ u ∷ us) e le =
      let m : ℕ = suc (length us) in
      let loop : (c : ColumnConstraint) (ts : List Token)
          → Ends ts
          → length ts ≤ f
          → Fine P (length ts) (column_constraints f c ts) =
        column_constraints-Fine f in
      let again : (c : ColumnConstraint) → Safe P m (column_constraints f c) =
        λ c. record { at = λ ts x h. loop c ts x (omega arith) } in
      Fine-elim P (suc m) (equal_fold t.lexeme (codes "NOT")) _ _ (t ∷ u ∷ us)
        (λ _. Fine-mono P m (suc m) _ (omega arith) (
          Fine-continue P m m (want (codes "NULL") (u ∷ us)) _
            ((Safe-want {P = P} {n = m} (codes "NULL")).at (u ∷ us) e (omega arith)) (omega arith)
            (λ x. again _)))
        (λ _.
          Fine-elim P (suc m) (equal_fold t.lexeme (codes "UNIQUE")) _ _ (t ∷ u ∷ us)
            (λ _. Fine-mono P m (suc m) _ (omega arith) ((again _).at (u ∷ us) e (omega arith)))
            (λ _.
              Fine-elim P (suc m) (equal_fold t.lexeme (codes "REFERENCES")) _ _ (t ∷ u ∷ us)
                (λ _. Fine-mono P m (suc m) _ (omega arith) (
                  Fine-continue P m m (reference (u ∷ us)) _
                    ((Safe-reference {P = P} {n = m}).at (u ∷ us) e (omega arith)) (omega arith)
                    (λ x. again _)))
                (λ _. (e, omega arith))))

  Safe-column_constraints :
      (n f : ℕ) (c : ColumnConstraint) → n ≤ f → Safe P n (column_constraints f c)
  Safe-column_constraints n f c le = record {
    at = λ ts e h. column_constraints-Fine f c ts e (omega arith);
  }

  pub Safe-column_definition : (n f : ℕ) → n ≤ f → Safe P n (column_definition f)
  unfolding column_definition
  Safe-column_definition n f le = search (safe_rules, Safe-column, Safe-column_constraints) depth 8

  -- A branch of a conditional, with the test's value.
  Fine-if :
      {A : Type 0} (n : ℕ) (b : Bool) (m k : Parser A) (ts : List Token)
      → (b ≡ true → Fine P n (m ts))
      → (b ≡ false → Fine P n (k ts))
      → Fine P n ((if b then m else k) ts)
  Fine-if n true m k ts on off = on refl
  Fine-if n false m k ts on off = off refl

  no_aggregate : (s : Bytes) → s ≡ [] → is_aggregate_name s ≡ true → ⊥
  unfolding is_aggregate_name to_upper member
  no_aggregate s q c = let none_of : is_aggregate_name [] ≡ false = refl in cc (none_of, q, c)

  -- The token behind an aggregate's name, and behind INNER, is there: neither word is the EOF's.
  at_call-Fine : (ts : List Token) → Ends ts → Fine P (length ts) (at_call ts)
  unfolding at_call ◌>>=◌ cur peek pure
  at_call-Fine [] e = absurd e
  at_call-Fine (t ∷ []) e =
      Fine-if 1 (is_aggregate_name t.lexeme) _ _ (t ∷ [])
        (λ c. absurd (no_aggregate t.lexeme e.1 c)) (λ c. (e, omega arith))
  at_call-Fine (t ∷ u ∷ us) e =
      Fine-if (suc (suc (length us))) (is_aggregate_name t.lexeme) _ _ (t ∷ u ∷ us)
        (λ c. (e, omega arith)) (λ c. (e, omega arith))

  at_join-Fine : (ts : List Token) → Ends ts → Fine P (length ts) (at_join ts)
  unfolding at_join ◌>>=◌ at_word cur peek pure equal_fold
  at_join-Fine [] e = absurd e
  at_join-Fine (t ∷ []) e =
      Fine-if 1 (equal_fold t.lexeme (codes "JOIN")) _ _ (t ∷ []) (λ c. (e, omega arith))
        (λ _.
          Fine-if 1 (equal_fold t.lexeme (codes "INNER")) _ _ (t ∷ [])
            (λ c. absurd (no_word t.lexeme (codes "INNER") e.1 refl c)) (λ c. (e, omega arith)))
  at_join-Fine (t ∷ u ∷ us) e =
      Fine-if (suc (suc (length us))) (equal_fold t.lexeme (codes "JOIN")) _ _ (t ∷ u ∷ us)
        (λ c. (e, omega arith))
        (λ _.
          Fine-if (suc (suc (length us))) (equal_fold t.lexeme (codes "INNER")) _ _ (t ∷ u ∷ us)
            (λ c. (e, omega arith)) (λ c. (e, omega arith)))

  Safe-at_call : (n : ℕ) → Safe P n at_call
  Safe-at_call n = record { at = λ ts e h. at_call-Fine ts e }

  Safe-at_join : (n : ℕ) → Safe P n at_join
  Safe-at_join n = record { at = λ ts e h. at_join-Fine ts e }

  pub Safe-select_column : (n : ℕ) → Safe P n select_column
  unfolding select_column
  Safe-select_column n = search (safe_rules, Safe-at_call) depth 12

  pub Safe-join_clause : (n : ℕ) → Safe P n join_clause
  unfolding join_clause
  Safe-join_clause n = search (safe_rules, Safe-at_join) depth 16

  pub Safe-order_clause : (n : ℕ) → Safe P n order_clause
  unfolding order_clause
  Safe-order_clause n = search safe_rules depth 14
