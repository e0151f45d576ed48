-- ===== src/Sql/Executor/Private.antt =====
-- INSERT, UPDATE and DELETE in a transaction.
use go_db.Base.{
  inl, inr, Bool-cases, ℕ, ◌+◌, ◌≡◌, refl, true, false, Option, none, some, List, [], ◌∷◌, Bytes,
  get_elem?, if◌then◌else◌, map,
}
use go_db.Base.Int.{ℤ, pos}
use go_db.Base.Assoc.{Assoc, lookup, insert}
use go_db.Base.Result.{Result, ok, err}
use go_db.Base.Exec.{Exec, pure, ◌>>=◌}
use go_db.Storage.Page.{Page}
use go_db.Storage.Pool.{Io}
use go_db.Kv.Value.{Value, int, Floats, Column, ColumnConstraint, Reference, Row}
use go_db.Kv.Store.{Files}
use go_db.Kv.Table.{scan, insert_row, delete_row}
use go_db.Kv.Table.Rows.{assign, is_nil}
use go_db.Kv.Table.Secondary.{field_of}
use go_db.Sql.Ast.{Insert, Update, Delete}
use go_db.Sql.Eval.{match}
use go_db.Sql.Executor.{
  Executor, ExecutorError, TransactionTableState, Held, on_table, lift, in_transaction,
  record_write, new_row, change_row, value_of_held, next_id, table, schema_at, state_in, rows_in,
  held_rows, rows, key_of, missing_key_column, foreign_key_failed, no_columns,
}
use go_db.Sql.Executor.Isolation.{
  IsPrivate, pure-IsPrivate, bind-IsPrivate, if-IsPrivate, scan-IsPrivate, record_write-IsPrivate,
  new_row-IsPrivate, change_row-IsPrivate, table-IsPrivate, schema_at-IsPrivate,
}
use go_db.Sql.Executor.Statements.{
  with_key, is_int_type, ref_rows, check_reference, reference_of, check_references, save_row,
  insert_values, row_of_values, is_referred, set_of, update_held, update_each, update_values,
  delete_held, delete_each, delete_values,
}

module _ {W : Type 0} (read_disk : ℕ → Io W Page) (write_disk : Page → Io W (Unit {0}))
    (f : Files W) (floats : Floats) (sprint index_value : Value → Bytes)
    (parse_time : Bytes → Option ℤ) where
  held_rows-IsPrivate :
      (t : ℕ) → IsPrivate (held_rows read_disk write_disk f floats sprint index_value parse_time t)
  unfolding held_rows
  held_rows-IsPrivate t e h =
      go (state_in read_disk write_disk f floats sprint index_value parse_time t e.tx)
    where
      go :
          (o : Option TransactionTableState)
          → ((elim o as (λ _. Result ExecutorError (List Held) × Executor W) [
            | none ↦ (on_table t scan >>= λ rows. pure (map Held.own rows)) e
            | some state ↦ (
              rows_in read_disk write_disk f floats sprint index_value parse_time state
                  (get_elem? e.heap t),
              e,
            )
          ]).1.heap
              ≡ e.heap)
            × (in_transaction
                  (elim o as (λ _. Result ExecutorError (List Held) × Executor W) [
                    | none ↦ (on_table t scan >>= λ rows. pure (map Held.own rows)) e
                    | some state ↦ (
                      rows_in read_disk write_disk f floats sprint index_value parse_time state
                          (get_elem? e.heap t),
                      e,
                    )
                  ]).1
                ≡ true)
      go none =
          bind-IsPrivate (on_table t scan) (λ rows. pure (map Held.own rows)) (scan-IsPrivate t)
            (λ rows. pure-IsPrivate (λ _. ok (map Held.own rows))) e h
      go (some state) = (refl, h)

  rows-IsPrivate :
      (t : ℕ) → IsPrivate (rows read_disk write_disk f floats sprint index_value parse_time t)
  unfolding rows
  rows-IsPrivate t =
      bind-IsPrivate (held_rows read_disk write_disk f floats sprint index_value parse_time t)
        (λ hs e. (ok (map (value_of_held e.row_store) hs), e)) (held_rows-IsPrivate t)
        (λ hs. pure-IsPrivate (λ e. ok (map (value_of_held e.row_store) hs)))

  lift-IsPrivate : {A : Type 0} (r : Result ExecutorError A) → IsPrivate (lift {W = W} r)
  lift-IsPrivate r = pure-IsPrivate (λ _. r)

  with_key-IsPrivate :
      (t : ℕ) (cs : List Column) (r : Row)
      → IsPrivate (with_key read_disk write_disk f floats sprint index_value parse_time t cs r)
  unfolding with_key
  with_key-IsPrivate t [] r = lift-IsPrivate {A = Value × Row} (err no_columns)
  with_key-IsPrivate t (c ∷ cs) r = go (lookup c.name r)
    where
      go :
          (o : Option Value)
          → IsPrivate (elim o as (λ _. Exec ExecutorError (Executor W) (Value × Row)) [
            | some v ↦ pure (v, r)
            | none ↦
                if is_int_type c.kind
                then (rows read_disk write_disk f floats sprint index_value parse_time t >>= λ held.
                    pure (
                      int (next_id c.name held (pos 1)),
                      insert c.name (int (next_id c.name held (pos 1))) r,
                    ))
                else lift (err (missing_key_column c.name))
          ])
      go (some v) = lift-IsPrivate {A = Value × Row} (ok (v, r))
      go none =
          if-IsPrivate (is_int_type c.kind) _ _
            (bind-IsPrivate (rows read_disk write_disk f floats sprint index_value parse_time t) _
              (rows-IsPrivate t)
              (λ held. lift-IsPrivate {A = Value × Row} (
                ok (
                  int (next_id c.name held (pos 1)),
                  insert c.name (int (next_id c.name held (pos 1))) r,
                ))))
            (lift-IsPrivate {A = Value × Row} (err (missing_key_column c.name)))

  ref_rows-IsPrivate :
      (t : ℕ) → IsPrivate (ref_rows read_disk write_disk f floats sprint index_value parse_time t)
  unfolding ref_rows
  ref_rows-IsPrivate t e h = rows-IsPrivate t e h

  check_reference-IsPrivate :
      (r : Option Reference) (column : Bytes) (v : Value)
      → IsPrivate
          (check_reference read_disk write_disk f floats sprint index_value parse_time r column v)
  check_reference-IsPrivate none column v = lift-IsPrivate (ok tt)
  check_reference-IsPrivate (some r) column v =
      if-IsPrivate (is_nil v) (pure tt) _ (lift-IsPrivate (ok tt)) (
        bind-IsPrivate (table r.table) _ (table-IsPrivate r.table) (λ t.
          bind-IsPrivate (ref_rows read_disk write_disk f floats sprint index_value parse_time t) _
            (ref_rows-IsPrivate t)
            (λ held.
              if-IsPrivate
                (is_referred read_disk write_disk f floats sprint index_value parse_time r.column v
                  held)
                (pure tt) (lift (err (foreign_key_failed column))) (lift-IsPrivate (ok tt))
                (lift-IsPrivate {A = Unit {0}} (err (foreign_key_failed column))))))

  check_references-IsPrivate :
      (constraints : Assoc ColumnConstraint) (cs : List Column) (r : Row)
      → IsPrivate (
          check_references read_disk write_disk f floats sprint index_value parse_time constraints
            cs r)
  unfolding check_references
  check_references-IsPrivate constraints [] r = lift-IsPrivate (ok tt)
  check_references-IsPrivate constraints (c ∷ cs) r =
      bind-IsPrivate _ _
        (check_reference-IsPrivate (reference_of (lookup c.name constraints)) c.name
          (field_of r c.name))
        (λ _. check_references-IsPrivate constraints cs r)

  save_row-IsPrivate :
      (t : ℕ) (key : Bytes) (r : Row)
      → IsPrivate (save_row read_disk write_disk f floats sprint index_value parse_time t key r)
  unfolding save_row
  save_row-IsPrivate t key r e h = rw h (
      bind-IsPrivate (new_row r) (λ i. record_write t key (record { row = i; deleted = false }))
        (new_row-IsPrivate r)
        (λ i. record_write-IsPrivate t key (record { row = i; deleted = false })) e h)

  insert_values-IsPrivate :
      (q : Insert)
      → IsPrivate (insert_values read_disk write_disk f floats sprint index_value parse_time q)
  unfolding insert_values
  insert_values-IsPrivate q = bind-IsPrivate (table q.table) _ (table-IsPrivate q.table) (λ t.
      bind-IsPrivate (schema_at t) _ (schema_at-IsPrivate t) (λ s.
        bind-IsPrivate
          (lift (
            row_of_values read_disk write_disk f floats sprint index_value parse_time s q.columns
              q.values []))
          _
          (lift-IsPrivate (
            row_of_values read_disk write_disk f floats sprint index_value parse_time s q.columns
              q.values []))
          (λ r.
            bind-IsPrivate
              (with_key read_disk write_disk f floats sprint index_value parse_time t s.columns r) _
              (with_key-IsPrivate t s.columns r)
              (λ keyed.
                bind-IsPrivate
                  (check_references read_disk write_disk f floats sprint index_value parse_time
                    s.constraints s.columns keyed.1)
                  _ (check_references-IsPrivate s.constraints s.columns keyed.1)
                  (λ _.
                    bind-IsPrivate
                      (save_row read_disk write_disk f floats sprint index_value parse_time t
                        (sprint keyed.0) keyed.1)
                      _ (save_row-IsPrivate t (sprint keyed.0) keyed.1)
                      (λ _. lift-IsPrivate {A = ℕ} (ok 1)))))))

  -- the write to the table, which a transaction skips
  skipped :
      {A : Type 0} (a : A) (m : Exec ExecutorError (Executor W) A)
      → IsPrivate (λ e. if in_transaction e then (ok a, e) else m e)
  skipped a m e h = rw h (refl, h)

  update_held-IsPrivate :
      (t : ℕ) (set : Row) (h : Held)
      → IsPrivate (update_held read_disk write_disk f floats sprint index_value parse_time t set h)
  unfolding update_held
  update_held-IsPrivate t set h =
      bind-IsPrivate (λ e. change_row h (assign set (value_of_held e.row_store h)) e) _
        (λ e. change_row-IsPrivate h (assign set (value_of_held e.row_store h)) e)
        (λ i. bind-IsPrivate (schema_at t) _ (schema_at-IsPrivate t) (λ s.
          bind-IsPrivate _ _
            (pure-IsPrivate (λ e.
              key_of read_disk write_disk f floats sprint index_value parse_time s
                (value_of_held e.row_store (Held.shared i))))
            (λ key.
              bind-IsPrivate
                (λ e.
                  if in_transaction e
                  then (ok tt, e)
                  else on_table t
                      (insert_row read_disk write_disk f floats sprint index_value key
                        (value_of_held e.row_store (Held.shared i)))
                      e)
                _
                (skipped tt (λ e.
                  on_table t
                    (insert_row read_disk write_disk f floats sprint index_value key
                      (value_of_held e.row_store (Held.shared i)))
                    e))
                (λ _. record_write-IsPrivate t key (record { row = i; deleted = false })))))

  update_each-IsPrivate :
      (t : ℕ) (q : Update) (set : Row) (hs : List Held) (n : ℕ)
      → IsPrivate
          (update_each read_disk write_disk f floats sprint index_value parse_time t q set hs n)
  unfolding update_each
  update_each-IsPrivate t q set [] n = lift-IsPrivate (ok n)
  update_each-IsPrivate t q set (h ∷ hs) n = λ e open_.
      elim (Bool-cases (match floats sprint q.condition (value_of_held e.row_store h))) [
        | inl hit ↦ rw hit (
            bind-IsPrivate
              (update_held read_disk write_disk f floats sprint index_value parse_time t set h)
              (λ _.
                update_each read_disk write_disk f floats sprint index_value parse_time t q set hs
                  (n + 1))
              (update_held-IsPrivate t set h) (λ _. update_each-IsPrivate t q set hs (n + 1)) e
              open_)
        | inr miss ↦ rw miss (update_each-IsPrivate t q set hs n e open_)
      ]

  update_values-IsPrivate :
      (q : Update)
      → IsPrivate (update_values read_disk write_disk f floats sprint index_value parse_time q)
  unfolding update_values
  update_values-IsPrivate q = bind-IsPrivate (table q.table) _ (table-IsPrivate q.table) (λ t.
      bind-IsPrivate (schema_at t) _ (schema_at-IsPrivate t) (λ s.
        bind-IsPrivate
          (lift (
            set_of read_disk write_disk f floats sprint index_value parse_time s.columns
              q.assignments []))
          _
          (lift-IsPrivate (
            set_of read_disk write_disk f floats sprint index_value parse_time s.columns
              q.assignments []))
          (λ set.
            bind-IsPrivate (held_rows read_disk write_disk f floats sprint index_value parse_time t)
              _ (held_rows-IsPrivate t) (λ hs. update_each-IsPrivate t q set hs 0))))

  delete_held-IsPrivate :
      (t : ℕ) (r : Row)
      → IsPrivate (delete_held read_disk write_disk f floats sprint index_value parse_time t r)
  unfolding delete_held
  delete_held-IsPrivate t r = bind-IsPrivate (schema_at t) _ (schema_at-IsPrivate t) (λ s.
      bind-IsPrivate (lift (key_of read_disk write_disk f floats sprint index_value parse_time s r))
        _ (lift-IsPrivate (key_of read_disk write_disk f floats sprint index_value parse_time s r))
        (λ key.
          bind-IsPrivate
            (λ e.
              if in_transaction e
              then (ok tt, e)
              else on_table t (delete_row read_disk write_disk f floats sprint index_value key) e)
            _
            (skipped tt
              (on_table t (delete_row read_disk write_disk f floats sprint index_value key)))
            (λ _. record_write-IsPrivate t key (record { row = 0; deleted = true }))))

  delete_each-IsPrivate :
      (t : ℕ) (q : Delete) (rs : List Row) (n : ℕ)
      → IsPrivate (delete_each read_disk write_disk f floats sprint index_value parse_time t q rs n)
  unfolding delete_each
  delete_each-IsPrivate t q [] n = lift-IsPrivate (ok n)
  delete_each-IsPrivate t q (r ∷ rs) n =
      if-IsPrivate (match floats sprint q.condition r) _ _
        (bind-IsPrivate
          (delete_held read_disk write_disk f floats sprint index_value parse_time t r) _
          (delete_held-IsPrivate t r) (λ _. delete_each-IsPrivate t q rs (n + 1)))
        (delete_each-IsPrivate t q rs n)

  delete_values-IsPrivate :
      (q : Delete)
      → IsPrivate (delete_values read_disk write_disk f floats sprint index_value parse_time q)
  unfolding delete_values
  delete_values-IsPrivate q = bind-IsPrivate (table q.table) _ (table-IsPrivate q.table) (λ t.
      bind-IsPrivate (rows read_disk write_disk f floats sprint index_value parse_time t) _
        (rows-IsPrivate t) (λ rs. delete_each-IsPrivate t q rs 0))

  -- the tables as they were, and the transaction still open
  abbrev pub Keeps : {A : Type 0} → Executor W → Result ExecutorError A × Executor W → Type 0
  Keeps e (r, u) = (u.heap ≡ e.heap) × (in_transaction u ≡ true)

  -- In an open transaction INSERT, UPDATE and DELETE leave every table as it was, and the transaction open,
  -- whatever they come back with: the rows are in the writes of the transaction alone.
  pub writes-heap :
      (i : Insert) (u : Update) (d : Delete) (e : Executor W)
      → in_transaction e ≡ true
      → Keeps e (insert_values read_disk write_disk f floats sprint index_value parse_time i e)
        × Keeps e (update_values read_disk write_disk f floats sprint index_value parse_time u e)
        × Keeps e (delete_values read_disk write_disk f floats sprint index_value parse_time d e)
  writes-heap i u d e h =
      (insert_values-IsPrivate i e h, update_values-IsPrivate u e h, delete_values-IsPrivate d e h)
