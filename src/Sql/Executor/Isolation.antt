-- ===== src/Sql/Executor/Isolation.antt =====
-- What is written in a transaction stays in it.
use go_db.Base.{
  ℕ, zero, suc, ◌≡◌, refl, ap, ◌∙◌, inl, inr, Bool, true, false, Option, none, some, List, [], ◌∷◌,
  Bytes, get_elem?, set, if◌then◌else◌, Option-cases,
}
use go_db.Base.Result.{Result, ok, err, panic, stuck}
use go_db.Base.Exec.{Exec, continue, ◌>>=◌}
use go_db.Kv.Value.{Row}
use go_db.Kv.Table.{Table, scan}
use go_db.Sql.Executor.{
  Executor, ExecutorError, TransactionWrite, Held, on_table, run_at, in_transaction, record_write,
  new_row, change_row, table, schema_at,
}

set_same : {A : Type 0} (xs : List A) (i : ℕ) (x : A) → get_elem? xs i ≡ some x → set xs i x ≡ xs
set_same [] i x h = refl
set_same (y ∷ xs) zero x h = cc
set_same (y ∷ xs) (suc i) x h = ap (λ l. y ∷ l) (set_same xs i x h)

module _ {W : Type 0} where
  -- In a transaction, the call leaves the tables alone, and the transaction open.
  abbrev pub IsPrivate : {A : Type 0} → Exec ExecutorError (Executor W) A → Type 0
  IsPrivate m =
      (e : Executor W)
      → in_transaction e ≡ true
      → ((m e).1.heap ≡ e.heap) × (in_transaction (m e).1 ≡ true)

  pub pure-IsPrivate :
      {A : Type 0} (r : Executor W → Result ExecutorError A) → IsPrivate (λ e. (r e, e))
  pure-IsPrivate r e h = (refl, h)

  pub bind-IsPrivate :
      {A B : Type 0} (m : Exec ExecutorError (Executor W) A)
      (k : A → Exec ExecutorError (Executor W) B)
      → IsPrivate m
      → ((a : A) → IsPrivate (k a))
      → IsPrivate (m >>= k)
  bind-IsPrivate {A} {B} m k p q e h = go (m e).0 (m e).1 (p e h)
    where
      go :
          (r : Result ExecutorError A) (u : Executor W)
          → (u.heap ≡ e.heap) × (in_transaction u ≡ true)
          → ((continue r k u).1.heap ≡ e.heap) × (in_transaction (continue r k u).1 ≡ true)
      go (ok a) u (same, open_) = ((q a u open_).0 ∙ same, (q a u open_).1)
      go (err x) u kept = kept
      go panic u kept = kept
      go stuck u kept = kept

  pub if-IsPrivate :
      {A : Type 0} (b : Bool) (m n : Exec ExecutorError (Executor W) A)
      → IsPrivate m
      → IsPrivate n
      → IsPrivate (if b then m else n)
  if-IsPrivate true m n p q = p
  if-IsPrivate false m n p q = q

  pub scan-IsPrivate : (t : ℕ) → IsPrivate (on_table {W = W} t scan)
  unfolding scan in_transaction
  scan-IsPrivate t e h = go (get_elem? e.heap t) refl
    where
      go :
          (o : Option (Table W))
          → get_elem? e.heap t ≡ o
          → ((run_at scan t o e).1.heap ≡ e.heap) × (in_transaction (run_at scan t o e).1 ≡ true)
      go none q = (refl, h)
      go (some u) q = (set_same e.heap t u q, h)

  pub record_write-IsPrivate :
      (t : ℕ) (key : Bytes) (w : TransactionWrite) → IsPrivate (record_write {W = W} t key w)
  unfolding record_write in_transaction
  record_write-IsPrivate t key w e h =
      (refl, elim (Option-cases e.tx) [ inl none_open ↦ cc | inr (x, open_) ↦ rw open_ refl ])

  pub new_row-IsPrivate : (r : Row) → IsPrivate (new_row {W = W} r)
  unfolding new_row in_transaction
  new_row-IsPrivate r e h = (refl, h)

  pub change_row-IsPrivate : (old : Held) (r : Row) → IsPrivate (change_row {W = W} old r)
  unfolding change_row in_transaction new_row
  change_row-IsPrivate (Held.own old) r e h = (refl, h)
  change_row-IsPrivate (Held.shared i) r e h = (refl, h)

  pub table-IsPrivate : (name : Bytes) → IsPrivate (table {W = W} name)
  unfolding table
  table-IsPrivate name e h = (refl, h)

  pub schema_at-IsPrivate : (t : ℕ) → IsPrivate (schema_at {W = W} t)
  unfolding schema_at
  schema_at-IsPrivate t e h = (refl, h)
