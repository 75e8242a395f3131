-- ===== src/Btree/Memory/Range/Built.antt =====
-- `Range` on the trees that calls of `Set` and `Delete` make of an empty one.
use go_database.Base.{ℕ, ◌≤◌, ◌≡◌, Bool, none, some, Bytes, subst}
use go_database.Base.Panic.{Returns}
use go_database.Btree.Memory.{Tree, max_of, set}
use go_database.Btree.Memory.Removal.{delete}
use go_database.Btree.Memory.Shape.{IsTree, root_entries}
use go_database.Btree.Memory.Links.{IsLinked}
use go_database.Btree.Memory.Links.Kept.{set-and-delete-IsLinked}
use go_database.Btree.Memory.Range.{range, between}
use go_database.Btree.Memory.Range.Follow.{range-eq-between}

pub data Built : Tree → Type 0 where
  empty :
      (max_keys fresh : ℕ)
      → 2 ≤ max_of max_keys
      → Built (record { root = none; max_keys = max_keys; fresh = fresh })
  stored : (t u : Tree) (key value : Bytes) → Built t → set t key value ≡ some u → Built u
  erased :
      (t u : Tree) (key : Bytes) (found : Bool) → Built t → delete t key ≡ some (found, u) → Built u

Built-IsLinked : (t : Tree) → Built t → IsTree t × IsLinked t
Built-IsLinked t (empty max_keys fresh two) = ((two, tt), tt)
Built-IsLinked v (stored t u key value b e) =
    let (w, c) = Built-IsLinked t b in
    subst (Returns (λ r. IsTree r × IsLinked r)) e (set-and-delete-IsLinked t key value w c).0
Built-IsLinked v (erased t u key found b e) =
    let (w, c) = Built-IsLinked t b in
    subst (Returns (λ r. IsTree r.1 × IsLinked r.1)) e (set-and-delete-IsLinked t key key w c).1

-- On every tree that calls of `Set` and `Delete` make of an empty one with at least two keys to a
-- node, `Range`, which follows `next` from leaf to leaf, does not panic and lists exactly the entries
-- of the leaves whose keys are within both bounds, in the order of the leaves; reversed bounds list
-- none.
pub range-Built :
    (t : Tree) (lower upper : Bytes)
    → Built t
    → range t lower upper ≡ some (between lower upper (root_entries t.root))
range-Built t lower upper b = let (w, c) = Built-IsLinked t b in range-eq-between t lower upper w c
