-- ===== src/Btree/Memory/Contract.antt =====
-- `Memory` of internal/btree/memory.go as an implementation of the contract of
-- internal/structures/interface.go. A store is a well-formed tree: on one, no operation panics.
use go_database.Base.{◌≡◌, refl, sym, Bool, Option, none, Bytes}
use go_database.Base.Panic.{Returns-some}
use go_database.Base.Result.{ok, ok-injective}
use go_database.Structures.Contract.{Kv}
use go_database.Btree.Memory.{Pairs, Tree, get, set}
use go_database.Btree.Memory.Removal.{delete}
use go_database.Btree.Memory.Range.{range, between}
use go_database.Btree.Memory.Range.Follow.{range-eq-between}
use go_database.Btree.Memory.Shape.{IsTree, root_entries}
use go_database.Btree.Memory.Links.{IsLinked}
use go_database.Btree.Memory.Links.Kept.{set-Keeps, delete-Keeps}
use go_database.Btree.Memory.Map.{IsSetTree, set_tree-get, IsDeletedTree}

abbrev pub Memory : Type 0
Memory = (t : Tree) × IsTree t × IsLinked t

-- `NewMemory`
abbrev pub new_tree : Tree
new_tree = record { root = none; max_keys = 0; fresh = 0 }

pub set_result :
    (m : Memory) (key value : Bytes)
    → (u : Tree) × (set m.0 key value ≡ Option.some u) × (IsSetTree m.0 key value u × IsLinked u)
set_result (t, w, c) key value =
    Returns-some (λ u. IsSetTree t key value u × IsLinked u) (set t key value)
      (set-Keeps t key value w c)

pub delete_result :
    (m : Memory) (key : Bytes)
    → (r : Bool × Tree) × (delete m.0 key ≡ Option.some r)
      × (IsDeletedTree m.0 key r × IsLinked r.1)
delete_result (t, w, c) key =
    Returns-some (λ r. IsDeletedTree t key r × IsLinked r.1) (delete t key) (delete-Keeps t key w c)

pub range_result :
    (m : Memory) (start end : Bytes) → (es : Pairs) × (range m.0 start end ≡ Option.some es)
range_result (t, w, c) start end =
    (between start end (root_entries t.root), range-eq-between t start end w c)

abbrev pub memory_kv : Kv
memory_kv = record {
  Store = Memory;
  get = λ m k. (m, ok (get m.0 k));
  range = λ m a b. (m, ok (range_result m a b).0);
  set = λ m k v. (((set_result m k v).0, (set_result m k v).2.0.0, (set_result m k v).2.1), ok tt);
  delete = λ m k. (
    ((delete_result m k).0.1, (delete_result m k).2.0.0, (delete_result m k).2.1),
    ok (delete_result m k).0.0,
  );
  view = λ m k. get m.0 k;
  get_lem = λ m k o h. sym (ok-injective h);
  get_same = λ m k j. refl;
  range_same = λ m a b j. refl;
  set_lem = λ m k v u h j. set_tree-get m.0 k v j (set_result m k v).0 m.1 (set_result m k v).2.0;
  set_err = λ m k v e h j. cc;
  delete_lem = λ m k found h j. (delete_result m k).2.0.2 j;
  delete_err = λ m k e h j. cc;
}
