-- ===== src/Db/Database.antt =====
-- `Database` of db/db.go and the locked helpers of db/table.go that it shares with tables. A mutex
-- makes each method one step, so a method is a function from a state to a state and a result.
pub mod Reads
pub mod Writes
use go_database.Base.{
  ℕ, ◌+◌, ◌≡◌, Bool, true, false, not, ◌&&◌, ◌||◌, Option, none, some, List, [], ◌∷◌, ltb, ◌==◌,
  if◌then◌else◌, length, Bytes, beq, blt,
}
use go_database.Base.Assoc.{get, put, remove}
use go_database.Base.Result.{Result, ok, err, panic, ◌>>=◌}
use go_database.Base.Sorted.{sorted_entries, entries_at, filter_keys, sort_keys, keys_where}
use go_database.Db.Engine.{Engine, EngineError, Mutation, Entries, between, closed, other}
use go_database.Db.Error.{
  Error, empty_key, write_transaction_active, invalid_row, not_initialized, engine,
}
use go_database.Db.Error

-- `translateError`, on a result of the engine
abbrev pub translate_error : EngineError → Error
translate_error closed = Error.closed
translate_error other = engine

abbrev pub translate {ℓ} : {A : Type ℓ} → Result EngineError A → Result Error A
translate (ok a) = ok a
translate (err e) = err (translate_error e)
translate panic = panic

module _ (en : Engine) where
  -- `data` is nil in a durable database, and `durable` in one in memory
  pub record Database : Type 0 where
    pub content : Option Entries
    pub durable : Option en.Store
    pub is_closed : Bool
    pub writer_active : Bool

  -- `New`
  abbrev pub new : Database
  new = record { content = some []; durable = none; is_closed = false; writer_active = false }

  -- reading a nil map finds nothing
  abbrev pub entries_of : Option Entries → Entries
  entries_of none = []
  entries_of (some m) = m

  -- what a method with a Store method as its last step leaves of the database
  abbrev pub with_store {ℓ} :
      {A : Type ℓ} → Database → en.Store × Result EngineError A → Database × Result Error A
  with_store d r = (record d { durable = some r.0 }, translate r.1)

  -- `d.data[key] = value`, which panics on a nil map
  abbrev pub store_entry :
      Database → Bytes → Bytes → Option Entries → Database × Result Error (Unit {0})
  store_entry d key value none = (d, panic)
  store_entry d key value (some m) = (record d { content = some (put key value m) }, ok tt)

  unfoldable pub get_locked : Database → Bytes → Result Error (Option Bytes)
  get_locked d key = elim d.durable [
    | some s ↦ translate (en.get s key)
    | none ↦ ok (get key (entries_of d.content))
  ]

  unfoldable pub set_locked : Database → Bytes → Bytes → Database × Result Error (Unit {0})
  set_locked d key value = elim d.durable [
    | some s ↦ with_store d (en.set s key value)
    | none ↦ store_entry d key value d.content
  ]

  unfoldable pub range_locked : Database → Bytes → Bytes → Result Error Entries
  range_locked d start end = elim d.durable [
    | some s ↦ translate (en.range s start end)
    | none ↦ ok (sorted_entries [] (between start end) (entries_of d.content))
  ]

  -- the loop that checks a batch in memory
  unfoldable pub bad_batch : List Mutation → Bool
  bad_batch [] = false
  bad_batch (m ∷ ms) =
      length m.key == 0
      || ltb 1000 (length m.key)
      || (not m.delete && ltb 3000 (length m.value))
      || bad_batch ms

  -- the loop that applies it
  unfoldable pub apply_all : List Mutation → Entries → Entries
  apply_all [] m = m
  apply_all (x ∷ xs) m = apply_all xs (if x.delete then remove x.key m else put x.key x.value m)

  abbrev pub apply_in_memory :
      Database → List Mutation → Option Entries → Database × Result Error (Unit {0})
  apply_in_memory d ms none = (d, err not_initialized)
  apply_in_memory d ms (some m) =
      if bad_batch ms
      then (d, err invalid_row)
      else (record d { content = some (apply_all ms m) }, ok tt)

  unfoldable pub apply_batch_locked : Database → List Mutation → Database × Result Error (Unit {0})
  apply_batch_locked d ms = if d.is_closed then (d, err Error.closed) else (elim d.durable [
    | some s ↦ with_store d (en.apply_batch s ms)
    | none ↦ apply_in_memory d ms d.content
  ])

  -- the engine's error is returned as it is
  unfoldable pub close : Database → Database × Result EngineError (Unit {0})
  close d = if d.is_closed then (d, ok tt) else (elim d.durable [
    | some s ↦ let r = en.close s in (record d { durable = some r.0; is_closed = true }, r.1)
    | none ↦ (record d { is_closed = true }, ok tt)
  ])

  unfoldable pub set : Database → Bytes → Bytes → Database × Result Error (Unit {0})
  unfolding set_locked
  set d key value =
      if d.is_closed
      then (d, err Error.closed)
      else if d.writer_active
      then (d, err write_transaction_active)
      else if length key == 0
      then (d, err empty_key)
      else set_locked d key value

  unfoldable pub get_value : Database → Bytes → Result Error (Option Bytes)
  unfolding get_locked
  get_value d key =
      if d.is_closed
      then err Error.closed
      else if length key == 0
      then ok none
      else get_locked d key

  abbrev pub delete_in_memory : Database → Bytes → Option Entries → Database × Result Error Bool
  delete_in_memory d key none = (d, ok false)
  delete_in_memory d key (some m) = elim (get key m) [
    | none ↦ (d, ok false)
    | some v ↦ (record d { content = some (remove key m) }, ok true)
  ]

  unfoldable pub delete : Database → Bytes → Database × Result Error Bool
  delete d key =
      if d.is_closed
      then (d, err Error.closed)
      else if d.writer_active
      then (d, err write_transaction_active)
      else if length key == 0
      then (d, ok false)
      else (elim d.durable [
        | some s ↦ with_store d (en.delete s key)
        | none ↦ delete_in_memory d key d.content
      ])

  -- the loop of `Range` over all keys, sorted, that skips those outside the bounds
  abbrev pub range_in_memory : Bytes → Bytes → Entries → Entries
  range_in_memory start end m =
      entries_at [] m (filter_keys (between start end) (sort_keys (keys_where (λ _. true) m)))

  unfoldable pub range : Database → Bytes → Bytes → Result Error Entries
  range d start end = if d.is_closed then err Error.closed else (elim d.durable [
    | some s ↦ translate (en.range s start end)
    | none ↦ ok (range_in_memory start end (entries_of d.content))
  ])
