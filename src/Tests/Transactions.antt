-- ===== src/Tests/Transactions.antt =====
-- A transaction on a durable database, up to its commit.
use go_database.Base.{
  ◌≡◌, refl, true, false, none, some, List, [], ◌∷◌, if◌then◌else◌, Bytes, codes, beq, blt,
}
use go_database.Base.Assoc
use go_database.Base.Assoc.{put, remove}
use go_database.Base.Sorted.{
  IsMap, IsAscending, keys_of, is_some, has_key, sorted_entries, entries_at, keys_where, sort_keys,
  insert_key, filter_keys,
}
use go_database.Db.Database.{
  Database, range_locked, get_locked, apply_batch_locked, new, set_locked, get_value,
}
use go_database.Db.Database
use go_database.Db.Database.Reads.{view, range-eq-locked, range_locked-view}
use go_database.Db.Database.Writes.{get_value-set, delete-view}
use go_database.Db.Engine.{between}
use go_database.Db.Tx
use go_database.Db.Tx.{
  Tx, begin, commit, rollback, mutations_of, record_locked, buffer, value_locked, overlay, collect,
}
use go_database.Db.Tx.Overlay.{IsTx, tx_view, record_locked-IsTx, delete-tx_view, range-tx_view}
use go_database.Db.Tx.Commit.{commit-view}
use go_database.Db.Tx.Writers.{IsSingle, Reached-IsSingle, start, next, began, wrote, committed}
use go_database.Tests.Memory.{memory, database, transaction}

empty-IsTx : IsTx (record { read_only = false; is_closed = false; order = []; changes = [] })
unfolding has_key Assoc.get
empty-IsTx = record { ordered = λ k. refl; once = tt }

transaction-IsTx : IsTx transaction
unfolding record_locked put Assoc.get beq
transaction-IsTx =
    record_locked-IsTx _ (codes "c") (record { value = codes "3"; delete = false })
      (record_locked-IsTx _ (codes "b") (record { value = []; delete = true }) empty-IsTx)

-- the commit deletes `b`
commit-view_example :
    ((j : Bytes)
      → view memory (commit memory database transaction).0.0 j
        ≡ tx_view memory database transaction j)
    × ((commit memory database transaction).0.0.writer_active ≡ false)
    × ((commit memory database transaction).0.1.is_closed ≡ true)
unfolding commit apply_batch_locked mutations_of
commit-view_example = commit-view memory database transaction transaction-IsTx refl

delete-tx_view_example :
    (true ≡ is_some (tx_view memory database transaction (codes "a")))
    × (tx_view memory database (Tx.delete memory database transaction (codes "a")).0 (codes "c") ≡ (
        if beq (codes "a") (codes "c")
        then none
        else tx_view memory database transaction (codes "c")))
unfolding Tx.delete value_locked get_locked Assoc.get beq
delete-tx_view_example =
    delete-tx_view memory database transaction (codes "a") (codes "c") true (λ p. cc) refl

abbrev listed : List (Bytes × Bytes)
listed = (codes "a", codes "1") ∷ (codes "c", codes "3") ∷ []

range-tx_view_example :
    IsAscending (keys_of listed)
    × ((key : Bytes)
        → Assoc.get key listed ≡ (
            if between (codes "a") (codes "d") key
            then tx_view memory database transaction key
            else none))
unfolding Tx.range range_locked overlay collect put remove sorted_entries entries_at keys_where
    sort_keys insert_key filter_keys beq blt Assoc.get
range-tx_view_example =
    range-tx_view memory database transaction (codes "a") (codes "d") listed tt transaction-IsTx
      refl

abbrev in_memory : Database memory
in_memory = record {
  content = some ((codes "b", codes "2") ∷ (codes "a", codes "1") ∷ []);
  durable = none;
  is_closed = false;
  writer_active = false;
}

in_memory-IsMap : IsMap ((codes "b", codes "2") ∷ (codes "a", codes "1") ∷ [])
unfolding Assoc.get beq
in_memory-IsMap = (refl, (refl, tt))

range-eq-locked_example :
    Database.range memory in_memory (codes "a") (codes "c")
    ≡ range_locked memory in_memory (codes "a") (codes "c")
range-eq-locked_example =
    range-eq-locked memory in_memory (codes "a") (codes "c") in_memory-IsMap refl

range_locked-view_example :
    IsAscending (keys_of ((codes "a", codes "1") ∷ (codes "b", codes "2") ∷ []))
    × ((key : Bytes)
        → Assoc.get key ((codes "a", codes "1") ∷ (codes "b", codes "2") ∷ [])
          ≡ (if between (codes "a") (codes "c") key then view memory in_memory key else none))
unfolding range_locked sorted_entries entries_at keys_where sort_keys insert_key filter_keys beq blt
    Assoc.get
range_locked-view_example =
    range_locked-view memory in_memory (codes "a") (codes "c")
      ((codes "a", codes "1") ∷ (codes "b", codes "2") ∷ []) in_memory-IsMap refl

abbrev begun : Tx
begun = record { read_only = false; is_closed = false; order = []; changes = [] }

-- a writer begins, writes and commits
Reached-IsSingle_example : IsSingle memory (
  (commit memory
      (begin memory in_memory false).0
      (Tx.set memory (begin memory in_memory false).0 begun (codes "k") (codes "v")).0).0.0,
  (commit memory
        (begin memory in_memory false).0
        (Tx.set memory (begin memory in_memory false).0 begun (codes "k") (codes "v")).0).0.1
      ∷ [],
)
unfolding begin
Reached-IsSingle_example = Reached-IsSingle memory _ (
    next _ _
      (next _ _ (next _ _ (start in_memory refl) (began in_memory false begun [] refl))
        (wrote (begin memory in_memory false).0 begun [] [] (codes "k") (codes "v")))
      (committed (begin memory in_memory false).0
        (Tx.set memory (begin memory in_memory false).0 begun (codes "k") (codes "v")).0 [] []))

get_value-set_example :
    (some (codes "2")
      ≡ (if beq (codes "a") (codes "b") then some (codes "8") else some (codes "2")))
    × (in_memory.is_closed ≡ false)
    × (in_memory.writer_active ≡ false)
    × ((Database.set memory in_memory (codes "a") (codes "8")).0.writer_active ≡ false)
unfolding Database.set set_locked get_value get_locked Assoc.get put beq
get_value-set_example =
    get_value-set memory in_memory (codes "a") (codes "8") (codes "b") (some (codes "2"))
      (some (codes "2")) refl refl refl

delete-view_example :
    (true ≡ is_some (view memory in_memory (codes "a")))
    × (view memory (Database.delete memory in_memory (codes "a")).0 (codes "b")
        ≡ (if beq (codes "a") (codes "b") then none else view memory in_memory (codes "b")))
unfolding Database.delete Assoc.get beq
delete-view_example = delete-view memory in_memory (codes "a") (codes "b") true (λ p. cc) refl
