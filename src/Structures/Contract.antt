-- ===== src/Structures/Contract.antt =====
-- `KV` of internal/structures/interface.go, with what an implementation promises of the entries it
-- holds. A read may change the structure, as a cache does, and not what it holds.
use go_database.Base.{◌≡◌, Bool, Option, none, some, List, if◌then◌else◌, Bytes, beq}
use go_database.Base.Result.{Result, ok, err}

abbrev pub Entries : Type 0
Entries = List (Bytes × Bytes)

-- an error, whatever it says
pub data KvError : Type 0 where
  failed : KvError

pub record Kv : Type 1 where
  pub Store : Type 0
  pub get : Store → Bytes → Store × Result KvError (Option Bytes)
  pub range : Store → Bytes → Bytes → Store × Result KvError Entries
  pub set : Store → Bytes → Bytes → Store × Result KvError (Unit {0})
  pub delete : Store → Bytes → Store × Result KvError Bool
  pub view : Store → Bytes → Option Bytes
  pub get_lem : (s : Store) (k : Bytes) (o : Option Bytes) → (get s k).1 ≡ ok o → o ≡ view s k
  pub get_same : (s : Store) (k j : Bytes) → view (get s k).0 j ≡ view s j
  pub range_same : (s : Store) (a b j : Bytes) → view (range s a b).0 j ≡ view s j
  pub set_lem :
      (s : Store) (k v : Bytes) (u : Unit {0})
      → (set s k v).1 ≡ ok u
      → (j : Bytes) → view (set s k v).0 j ≡ (if beq k j then some v else view s j)
  pub set_err :
      (s : Store) (k v : Bytes) (e : KvError)
      → (set s k v).1 ≡ err e
      → (j : Bytes) → view (set s k v).0 j ≡ view s j
  pub delete_lem :
      (s : Store) (k : Bytes) (found : Bool)
      → (delete s k).1 ≡ ok found
      → (j : Bytes) → view (delete s k).0 j ≡ (if beq k j then none else view s j)
  pub delete_err :
      (s : Store) (k : Bytes) (e : KvError)
      → (delete s k).1 ≡ err e
      → (j : Bytes) → view (delete s k).0 j ≡ view s j
