-- ===== src/Db/Tx.antt =====
-- `Tx` of db/db.go: a transaction buffers its changes until `Commit` applies them as one batch. The
-- database that a transaction points to is a parameter of its methods.
pub mod Overlay
pub mod Commit
pub mod Writers
use go_database.Base.{
  ℕ, ◌+◌, ◌≡◌, Bool, true, false, not, ◌&&◌, ◌||◌, Option, none, some, List, [], ◌∷◌, ◌++◌, ◌==◌,
  if◌then◌else◌, length, Bytes, blt,
}
use go_database.Base.Assoc
use go_database.Base.Assoc.{put, remove}
use go_database.Base.Result.{Result, ok, err, panic, ◌>>=◌}
use go_database.Base.Sorted.{sorted_entries, is_some}
use go_database.Db.Database.{Database, get_locked, range_locked, apply_batch_locked}
use go_database.Db.Engine.{Engine, Mutation, Entries, between}
use go_database.Db.Error.{
  Error, empty_key, transaction_closed, read_only_transaction, write_transaction_active,
}
use go_database.Db.Error

-- `transactionChange`
pub record Change : Type 0 where
  pub value : Bytes
  pub delete : Bool

abbrev pub Changes : Type 0
Changes = List (Bytes × Change)

pub record Tx : Type 0 where
  pub read_only : Bool
  pub is_closed : Bool
  pub order : List Bytes
  pub changes : Changes

-- `recordLocked`
unfoldable pub record_locked : Tx → Bytes → Change → Tx
record_locked tx key change = record tx {
  order = if is_some (Assoc.get key tx.changes) then tx.order else tx.order ++ key ∷ [];
  changes = put key change tx.changes;
}

-- the mutation of a key of `order`; a missing change is the zero `transactionChange`
abbrev pub mutation_of : Changes → Bytes → Mutation
mutation_of changes key = elim (Assoc.get key changes) [
  | none ↦ record { key = key; value = []; delete = false }
  | some c ↦ record { key = key; value = c.value; delete = c.delete }
]

-- the loop over `order` in `commitLocked`
unfoldable pub mutations_of : Changes → List Bytes → List Mutation
mutations_of changes [] = []
mutations_of changes (key ∷ order) = mutation_of changes key ∷ mutations_of changes order

-- the loop over `changes` in `Range`
unfoldable pub overlay : Bytes → Bytes → Changes → Entries → Entries
overlay start end [] values = values
overlay start end ((key, change) ∷ changes) values = overlay start end changes (
    if not (between start end key)
    then values
    else if change.delete
    then remove key values
    else put key change.value values)

-- the loop over `items` in `Range`
unfoldable pub collect : Entries → Entries → Entries
collect [] values = values
collect ((key, value) ∷ items) values = collect items (put key value values)

module _ (en : Engine) where
  -- `Begin`
  unfoldable pub begin : Database en → Bool → Database en × Result Error Tx
  begin d read_only =
      if d.is_closed
      then (d, err Error.closed)
      else if not read_only && d.writer_active
      then (d, err write_transaction_active)
      else (
        (if read_only then d else record d { writer_active = true }),
        ok (record { read_only = read_only; is_closed = false; order = []; changes = [] }),
      )

  -- what a change shows of its key
  abbrev pub changed : Change → Option Bytes
  changed c = if c.delete then none else some c.value

  unfoldable pub get : Database en → Tx → Bytes → Result Error (Option Bytes)
  get d tx key =
      if tx.is_closed
      then err transaction_closed
      else if d.is_closed
      then err Error.closed
      else (elim (Assoc.get key tx.changes) [
        | some c ↦ ok (changed c)
        | none ↦ get_locked en d key
      ])

  -- `valueLocked`
  unfoldable pub value_locked : Database en → Tx → Bytes → Result Error (Option Bytes)
  value_locked d tx key = elim (Assoc.get key tx.changes) [
    | some c ↦ ok (changed c)
    | none ↦ get_locked en d key
  ]

  unfoldable pub buffer : Database en → Tx → Bytes → Change → Tx × Result Error (Unit {0})
  buffer d tx key change =
      if tx.is_closed
      then (tx, err transaction_closed)
      else if d.is_closed
      then (tx, err Error.closed)
      else if tx.read_only
      then (tx, err read_only_transaction)
      else if length key == 0
      then (tx, err empty_key)
      else (record_locked tx key change, ok tt)

  unfoldable pub set : Database en → Tx → Bytes → Bytes → Tx × Result Error (Unit {0})
  unfolding buffer
  set d tx key value = buffer d tx key (record { value = value; delete = false })

  abbrev pub delete_found : Tx → Bytes → Result Error (Option Bytes) → Tx × Result Error Bool
  delete_found tx key (ok o) =
      (record_locked tx key (record { value = []; delete = true }), ok (is_some o))
  delete_found tx key (err e) = (tx, err e)
  delete_found tx key panic = (tx, panic)

  unfoldable pub delete : Database en → Tx → Bytes → Tx × Result Error Bool
  delete d tx key =
      if tx.is_closed
      then (tx, err transaction_closed)
      else if d.is_closed
      then (tx, err Error.closed)
      else if tx.read_only
      then (tx, err read_only_transaction)
      else if length key == 0
      then (tx, ok false)
      else delete_found tx key (value_locked d tx key)

  unfoldable pub range : Database en → Tx → Bytes → Bytes → Result Error Entries
  range d tx start end =
      if tx.is_closed
      then err transaction_closed
      else if d.is_closed
      then err Error.closed
      else if blt end start
      then ok []
      else (do
        items ← range_locked en d start end
        ok (sorted_entries [] (λ _. true) (overlay start end tx.changes (collect items []))))

  abbrev pub committed :
      Tx → Database en × Result Error (Unit {0}) → (Database en × Tx) × Result Error (Unit {0})
  committed tx (d, ok _) =
      ((record d { writer_active = false }, record tx { is_closed = true }), ok tt)
  committed tx (d, err e) = ((d, tx), err e)
  committed tx (d, panic) = ((d, tx), panic)

  -- `Commit`
  unfoldable pub commit : Database en → Tx → (Database en × Tx) × Result Error (Unit {0})
  commit d tx =
      if tx.is_closed
      then ((d, tx), err transaction_closed)
      else if d.is_closed
      then ((d, tx), err Error.closed)
      else if tx.read_only
      then ((d, record tx { is_closed = true }), err read_only_transaction)
      else committed tx (apply_batch_locked en d (mutations_of tx.changes tx.order))

  -- `Rollback`
  unfoldable pub rollback : Database en → Tx → Database en × Tx
  rollback d tx = if tx.is_closed then (d, tx) else (
    (if tx.read_only then d else record d { writer_active = false }),
    record tx { is_closed = true },
  )
