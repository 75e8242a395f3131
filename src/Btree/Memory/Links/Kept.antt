-- ===== src/Btree/Memory/Links/Kept.antt =====
-- The chain of the leaves over the operations that change a tree.
use go_database.Base.{Bytes}
use go_database.Base.Panic.{Returns, Returns-and, Returns-weaken}
use go_database.Btree.Memory.{Tree, set}
use go_database.Btree.Memory.Removal.{delete}
use go_database.Btree.Memory.Shape.{IsTree}
use go_database.Btree.Memory.Map.{IsSetTree, set-Returns, IsDeletedTree, delete-Returns}
use go_database.Btree.Memory.Links.{IsLinked}
use go_database.Btree.Memory.Links.Grow.{set-IsLinked}
use go_database.Btree.Memory.Links.Drop.{delete-IsLinked}

pub set-Keeps :
    (t : Tree) (key value : Bytes)
    → IsTree t
    → IsLinked t
    → Returns (λ u. IsSetTree t key value u × IsLinked u) (set t key value)
set-Keeps t key value w c =
    Returns-and (IsSetTree t key value) IsLinked (set t key value) (set-Returns t key value w)
      (set-IsLinked t key value c)

pub delete-Keeps :
    (t : Tree) (key : Bytes)
    → IsTree t
    → IsLinked t
    → Returns (λ r. IsDeletedTree t key r × IsLinked r.1) (delete t key)
delete-Keeps t key w c =
    Returns-and (IsDeletedTree t key) (λ r. IsLinked r.1) (delete t key) (delete-Returns t key w)
      (delete-IsLinked t key c)

-- On a well-formed tree whose leaves are chained, `set` and `delete` do not panic and leave a
-- well-formed tree whose leaves are chained: no two leaves stand at one address, all stand below the
-- next address that is handed out, and the `next` of each is the leaf on its right, or nil for the
-- last.
pub set-and-delete-IsLinked :
    (t : Tree) (key value : Bytes)
    → IsTree t
    → IsLinked t
    → Returns (λ u. IsTree u × IsLinked u) (set t key value)
      × Returns (λ r. IsTree r.1 × IsLinked r.1) (delete t key)
set-and-delete-IsLinked t key value w c = (
  Returns-weaken (λ u. IsSetTree t key value u × IsLinked u) (λ u. IsTree u × IsLinked u)
      (set t key value) (set-Keeps t key value w c) (λ u h. (h.0.0, h.1)),
  Returns-weaken (λ r. IsDeletedTree t key r × IsLinked r.1) (λ r. IsTree r.1 × IsLinked r.1)
      (delete t key) (delete-Keeps t key w c) (λ r h. (h.0.0, h.1)),
)
