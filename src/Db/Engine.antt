-- ===== src/Db/Engine.antt =====
-- The contract of the durable engine that a database uses: `Store`, `Mutation` and `ErrClosed` of
-- internal/engine/interface.go, with what an implementation promises of the entries it holds.
use go_database.Base.{
  ℕ, ◌≡◌, Bool, true, false, ◌&&◌, Option, none, some, List, [], ◌∷◌, if◌then◌else◌, Bytes, beq,
  ble, refl, arith, beq_iff, ap,
}
use go_database.Base.Assoc.{get, put, remove, get-put, get-remove}
use go_database.Base.Sorted.{IsAscending, keys_of, is_some}
use go_database.Base.Result.{Result, ok}

-- `ErrClosed`, or another error
pub data EngineError : Type 0 where
  closed other : EngineError

pub record Mutation : Type 0 where
  pub key : Bytes
  pub value : Bytes
  pub delete : Bool

abbrev pub Entries : Type 0
Entries = List (Bytes × Bytes)

-- a key between two bounds, both included
abbrev pub between : Bytes → Bytes → Bytes → Bool
between start end key = ble start key && ble key end

-- a mutation of a view: what the key `j` holds after it, where it held `o` before
abbrev pub mutate_view : Mutation → Bytes → Option Bytes → Option Bytes
mutate_view m j o = if beq m.key j then (if m.delete then none else some m.value) else o

abbrev pub mutate_views : List Mutation → Bytes → Option Bytes → Option Bytes
mutate_views [] j o = o
mutate_views (m ∷ ms) j o = mutate_views ms j (mutate_view m j o)

-- `Get`, `Range`, `Set`, `Delete`, `ApplyBatch` and `Close`. A read leaves the store as it is. The laws
-- are about calls that succeed on a store whose last publication has not failed: what an engine holds
-- after a publication of unknown outcome, which its next write may repair, is not promised.
pub record Engine : Type 1 where
  pub Store : Type 0
  pub get : Store → Bytes → Result EngineError (Option Bytes)
  pub range : Store → Bytes → Bytes → Result EngineError Entries
  pub set : Store → Bytes → Bytes → Store × Result EngineError (Unit {0})
  pub delete : Store → Bytes → Store × Result EngineError Bool
  pub apply_batch : Store → List Mutation → Store × Result EngineError (Unit {0})
  pub close : Store → Store × Result EngineError (Unit {0})
  -- what the store holds
  pub view : Store → Bytes → Option Bytes
  pub get_lem : (s : Store) (k : Bytes) (o : Option Bytes) → get s k ≡ ok o → o ≡ view s k
  pub range_lem :
      (s : Store) (a b : Bytes) (es : Entries)
      → range s a b ≡ ok es
      → IsAscending (keys_of es)
        × ((k : Bytes)
            → go_database.Base.Assoc.get k es ≡ (if between a b k then view s k else none))
  pub set_lem :
      (s : Store) (k v : Bytes)
      → (set s k v).1 ≡ ok tt
      → (j : Bytes) → view (set s k v).0 j ≡ (if beq k j then some v else view s j)
  pub delete_lem :
      (s : Store) (k : Bytes) (found : Bool)
      → (delete s k).1 ≡ ok found
      → (found ≡ is_some (view s k))
        × ((j : Bytes) → view (delete s k).0 j ≡ (if beq k j then none else view s j))
  pub apply_lem :
      (s : Store) (ms : List Mutation)
      → (apply_batch s ms).1 ≡ ok tt
      → (j : Bytes) → view (apply_batch s ms).0 j ≡ mutate_views ms j (view s j)
