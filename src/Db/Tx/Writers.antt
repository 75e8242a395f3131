-- ===== src/Db/Tx/Writers.antt =====
-- The single writer of db/db.go: a database and the transactions begun on it, step by step.
use go_database.Base.{
  ℕ, ◌+◌, ◌≡◌, sym, ◌∙◌, Bool, false, ◌||◌, List, [], ◌∷◌, ◌++◌, if◌then◌else◌, Bytes, arith,
  Option-cases, inl, inr,
}
use go_database.Base.Assoc
use go_database.Base.Result.{ok, Result-cases}
use go_database.Db.Database
use go_database.Db.Database.{Database, apply_batch_locked, close, new, set_locked}
use go_database.Db.Engine.{Engine, Mutation}
use go_database.Db.Tx
use go_database.Db.Tx.{
  Tx, begin, commit, rollback, mutations_of, record_locked, buffer, value_locked, delete_found,
}

-- whether a transaction holds the writer: it may write and is not closed
abbrev pub writes : Tx → ℕ
writes tx = if tx.is_closed || tx.read_only then 0 else 1

-- how many transactions hold the writer
unfoldable pub writers : List Tx → ℕ
writers [] = 0
writers (tx ∷ txs) = writes tx + writers txs

writers-append : (xs ys : List Tx) → writers (xs ++ ys) ≡ writers xs + writers ys
unfolding writers
writers-append [] ys = ground arith
writers-append (x ∷ xs) ys = ground (arith, writers-append xs ys)

module _ (en : Engine) where
  -- a database and the transactions begun on it
  abbrev pub State : Type 0
  State = Database en × List Tx

  -- One call of a method of the database, or of one of its transactions.
  pub data Step : State → State → Type 0 where
    began :
        (d : Database en) (read_only : Bool) (tx : Tx) (txs : List Tx)
        → (begin en d read_only).1 ≡ ok tx
        → Step (d, txs) ((begin en d read_only).0, tx ∷ txs)
    wrote :
        (d : Database en) (tx : Tx) (xs ys : List Tx) (key value : Bytes)
        → Step (d, xs ++ tx ∷ ys) (d, xs ++ (Tx.set en d tx key value).0 ∷ ys)
    deleted :
        (d : Database en) (tx : Tx) (xs ys : List Tx) (key : Bytes)
        → Step (d, xs ++ tx ∷ ys) (d, xs ++ (Tx.delete en d tx key).0 ∷ ys)
    committed :
        (d : Database en) (tx : Tx) (xs ys : List Tx)
        → Step (d, xs ++ tx ∷ ys) ((commit en d tx).0.0, xs ++ (commit en d tx).0.1 ∷ ys)
    rolled_back :
        (d : Database en) (tx : Tx) (xs ys : List Tx)
        → Step (d, xs ++ tx ∷ ys) ((rollback en d tx).0, xs ++ (rollback en d tx).1 ∷ ys)
    stored :
        (d : Database en) (txs : List Tx) (key value : Bytes)
        → Step (d, txs) ((Database.set en d key value).0, txs)
    erased :
        (d : Database en) (txs : List Tx) (key : Bytes)
        → Step (d, txs) ((Database.delete en d key).0, txs)
    closed : (d : Database en) (txs : List Tx) → Step (d, txs) ((close en d).0, txs)

  -- the states that calls lead to from a database with no transaction
  pub data Reached : State → Type 0 where
    start : (d : Database en) → d.writer_active ≡ false → Reached (d, [])
    next : (s t : State) → Reached s → Step s t → Reached t

  -- the transactions that hold the writer are one if the database's flag is set, and none if not
  abbrev pub IsSingle : State → Type 0
  IsSingle (d, txs) = writers txs ≡ (if d.writer_active then 1 else 0)

  apply_batch-flag :
      (d : Database en) (ms : List Mutation)
      → (apply_batch_locked en d ms).0.writer_active ≡ d.writer_active
  unfolding apply_batch_locked
  apply_batch-flag d ms = elim (Option-cases d.durable) [
    | inl n ↦ elim (Option-cases d.content) [ inl m ↦ ground arith | inr (m, e) ↦ ground arith ]
    | inr (s, e) ↦ ground arith
  ]

  set-flag :
      (d : Database en) (key value : Bytes)
      → (Database.set en d key value).0.writer_active ≡ d.writer_active
  unfolding Database.set set_locked
  set-flag d key value = elim (Option-cases d.durable) [
    | inl n ↦ elim (Option-cases d.content) [ inl m ↦ ground arith | inr (m, e) ↦ ground arith ]
    | inr (s, e) ↦ ground arith
  ]

  delete-flag :
      (d : Database en) (key : Bytes) → (Database.delete en d key).0.writer_active ≡ d.writer_active
  unfolding Database.delete
  delete-flag d key = elim (Option-cases d.durable) [
    | inl n ↦ elim (Option-cases d.content) [
      | inl m ↦ ground arith
      | inr (m, e) ↦ elim (Option-cases (Assoc.get key m)) [
        | inl z ↦ ground arith
        | inr (v, z) ↦ ground arith
      ]
    ]
    | inr (s, e) ↦ ground arith
  ]

  close-flag : (d : Database en) → (close en d).0.writer_active ≡ d.writer_active
  unfolding close
  close-flag d = elim (Option-cases d.durable) [ inl n ↦ ground arith | inr (s, e) ↦ ground arith ]

  set-writes :
      (d : Database en) (tx : Tx) (key value : Bytes)
      → writes (Tx.set en d tx key value).0 ≡ writes tx
  unfolding Tx.set buffer record_locked
  set-writes d tx key value = ground arith

  delete-writes :
      (d : Database en) (tx : Tx) (key : Bytes) → writes (Tx.delete en d tx key).0 ≡ writes tx
  unfolding Tx.delete record_locked
  delete-writes d tx key = elim (Result-cases (value_locked en d tx key)) [
    | inl (o, e) ↦ ground arith
    | inr (inl (e, f)) ↦ ground arith
    | inr (inr p) ↦ ground arith
  ]

  -- a commit or a rollback releases the writer that its transaction holds, and no other
  commit-writes :
      (d : Database en) (tx : Tx) (others : ℕ)
      → writes tx + others ≡ (if d.writer_active then 1 else 0)
      → writes (commit en d tx).0.1 + others ≡ (if (commit en d tx).0.0.writer_active then 1 else 0)
  unfolding commit
  commit-writes d tx others h =
      let flag = apply_batch-flag d (mutations_of tx.changes tx.order) in
      elim (Result-cases (apply_batch_locked en d (mutations_of tx.changes tx.order)).1) [
        | inl (u, e) ↦ ground (arith, flag)
        | inr (inl (x, e)) ↦ ground (arith, flag)
        | inr (inr e) ↦ ground (arith, flag)
      ]

  rollback-writes :
      (d : Database en) (tx : Tx) (others : ℕ)
      → writes tx + others ≡ (if d.writer_active then 1 else 0)
      → writes (rollback en d tx).1 + others ≡ (if (rollback en d tx).0.writer_active then 1 else 0)
  unfolding rollback
  rollback-writes d tx others h = ground arith

  begin-writes :
      (d : Database en) (read_only : Bool) (tx : Tx) (others : ℕ)
      → (begin en d read_only).1 ≡ ok tx
      → others ≡ (if d.writer_active then 1 else 0)
      → writes tx + others ≡ (if (begin en d read_only).0.writer_active then 1 else 0)
  unfolding begin
  begin-writes d read_only tx others b h = ground arith

  among :
      (tx : Tx) (xs ys : List Tx) → writers (xs ++ tx ∷ ys) ≡ writes tx + (writers xs + writers ys)
  unfolding writers
  among tx xs ys = ground (arith, writers-append xs (tx ∷ ys))

  step-IsSingle : (s t : State) → Step s t → IsSingle s → IsSingle t
  unfolding writers
  step-IsSingle s t (began d read_only tx txs b) h = begin-writes d read_only tx (writers txs) b h
  step-IsSingle s t (wrote d tx xs ys key value) h =
      among _ xs ys ∙ ground (arith, set-writes d tx key value, among tx xs ys)
  step-IsSingle s t (deleted d tx xs ys key) h =
      among _ xs ys ∙ ground (arith, delete-writes d tx key, among tx xs ys)
  step-IsSingle s t (committed d tx xs ys) h =
      among _ xs ys ∙ commit-writes d tx (writers xs + writers ys) (sym (among tx xs ys) ∙ h)
  step-IsSingle s t (rolled_back d tx xs ys) h =
      among _ xs ys ∙ rollback-writes d tx (writers xs + writers ys) (sym (among tx xs ys) ∙ h)
  step-IsSingle s t (stored d txs key value) h = rw (set-flag d key value) h
  step-IsSingle s t (erased d txs key) h = rw (delete-flag d key) h
  step-IsSingle s t (closed d txs) h = rw (close-flag d) h

  -- Whatever calls of `Begin`, `Set`, `Delete`, `Close`, and of a transaction's `Set`, `Delete`,
  -- `Commit` and `Rollback` are made, from a database with no transaction and its flag of the active
  -- writer clear, the open transactions that may write are one where the flag is set, and none where
  -- it is clear.
  pub Reached-IsSingle : (s : State) → Reached s → IsSingle s
  unfolding writers
  Reached-IsSingle s (start d h) = ground arith
  Reached-IsSingle s (next r t before step) = step-IsSingle r t step (Reached-IsSingle r before)
