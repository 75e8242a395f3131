-- ===== src/Btree/Memory.antt =====
-- The B+tree in memory: `node` of internal/btree/node.go, `tree` of internal/btree/tree.go, `Memory`
-- of internal/btree/memory.go. Keys and values of a leaf are one list of entries; keys and children
-- of an internal node are interleaved, child, key, child and so on, so that `childIndex` is the walk
-- to the first key above the key looked for. Each leaf has an address and the address that its `next` holds; what
-- stands at an address is the leaf of the tree with it. `none` is a run-time panic; trace events are
-- left out.
pub mod Entries
pub mod Shape
pub mod Split
pub mod Insert
pub mod Rebalance
pub mod Delete
pub mod Removal
pub mod Erase
pub mod Neighbours
pub mod Refresh
pub mod Settle
pub mod Between
pub mod Links
pub mod Range
pub mod Map
pub mod Contract
use go_database.Base.{
  ℕ, zero, suc, ◌/◌, Bool, true, false, not, ◌&&◌, Option, none, some, List, [], ◌∷◌, ◌++◌, ltb,
  leb, ◌==◌, if◌then◌else◌, length, take, drop, Bytes, beq, blt,
}
use go_database.Base.Panic.{◌>>=◌}

abbrev pub Pairs : Type 0
Pairs = List (Bytes × Bytes)

-- where a leaf stands in memory, and its `next`
pub record Link : Type 0 where
  pub address : ℕ
  pub next : Option ℕ

mutual
  pub data Node : Type 0 where
    leaf : Link → Pairs → Node
    internal : Children → Node

  pub data Children : Type 0 where
    last : Node → Children
    more : Node → Bytes → Children → Children

-- `len(n.keys)` of an internal node
unfoldable pub count : Children → ℕ
count (last c) = 0
count (more c k cs) = suc (count cs)

-- `len(n.keys)`
abbrev pub size : Node → ℕ
size (leaf pa ps) = length ps
size (internal cs) = count cs

-- `search` and `valueAt` on a leaf: the entry at the first key that is not below the key
unfoldable pub search : Bytes → Pairs → Option Bytes
search key [] = none
search key ((j, w) ∷ ps) =
    let rest = search key ps in if blt j key then rest else if beq j key then some w else none

-- `get`
unfoldable mutual
  pub lookup : Bytes → Node → Option Bytes
  lookup key (leaf pa ps) = search key ps
  lookup key (internal cs) = lookup_child key cs

  pub lookup_child : Bytes → Children → Option Bytes
  lookup_child key (last c) = lookup key c
  lookup_child key (more c k cs) = if blt key k then lookup key c else lookup_child key cs

-- `insertIntoLeaf`
unfoldable pub insert_into_leaf : Bytes → Bytes → Pairs → Pairs
insert_into_leaf key value [] = (key, value) ∷ []
insert_into_leaf key value ((j, w) ∷ ps) =
    let rest = insert_into_leaf key value ps in
    if blt j key
    then (j, w) ∷ rest
    else if beq j key
    then (j, value) ∷ ps
    else (key, value) ∷ (j, w) ∷ ps

-- what `insert` leaves of a node: the node, or a `nodeSplit`
pub data Grown : Type 0 where
  whole : Node → Grown
  split : Node → Bytes → Node → Grown

-- the right half is the new node, and stands at `fresh`
abbrev pub split_leaf_at : ℕ → Link → Pairs → Pairs → Option Grown
split_leaf_at fresh pa left [] = none
split_leaf_at fresh pa left ((k, v) ∷ right) = some (
    split (leaf (record pa { next = some fresh }) left) k
      (leaf (record { address = fresh; next = pa.next }) ((k, v) ∷ right)))

unfoldable pub split_leaf : ℕ → Link → Pairs → Option Grown
split_leaf fresh pa ps =
    let mid = length ps / 2 in split_leaf_at fresh pa (take mid ps) (drop mid ps)

-- `n.keys[:mid]` with `n.children[:mid+1]`, `n.keys[mid]`, and what is behind it
unfoldable pub split_children : ℕ → Children → Option (Children × Bytes × Children)
split_children i (last c) = none
split_children zero (more c k cs) = some (last c, k, cs)
split_children (suc i) (more c k cs) = do
  (left, promoted, right) ← split_children i cs
  some (more c k left, promoted, right)

unfoldable pub split_internal : Children → Option Grown
split_internal cs = do
  (left, promoted, right) ← split_children (count cs / 2) cs
  some (split (internal left) promoted (internal right))

-- a node that has grown is split if it has more than `max` keys
abbrev pub fit_leaf : ℕ → ℕ → Link → Pairs → Option Grown
fit_leaf max fresh pa ps =
    if leb (length ps) max then some (whole (leaf pa ps)) else split_leaf fresh pa ps

abbrev pub fit_internal : ℕ → Children → Option Grown
fit_internal max cs = if leb (count cs) max then some (whole (internal cs)) else split_internal cs

-- `insertIntoInternal`: the child, or its two halves, in its place
abbrev pub graft_last : Grown → Children
graft_last (whole c) = last c
graft_last (split l k r) = more l k (last r)

abbrev pub graft : Grown → Bytes → Children → Children
graft (whole c) k cs = more c k cs
graft (split l s r) k cs = more l s (more r k cs)

unfoldable mutual
  pub insert : ℕ → ℕ → Bytes → Bytes → Node → Option Grown
  insert max fresh key value (leaf pa ps) = fit_leaf max fresh pa (insert_into_leaf key value ps)
  insert max fresh key value (internal cs) = do
    grown ← insert_child max fresh key value cs
    fit_internal max grown

  pub insert_child : ℕ → ℕ → Bytes → Bytes → Children → Option Children
  insert_child max fresh key value (last c) = do
    grown ← insert max fresh key value c
    some (graft_last grown)
  insert_child max fresh key value (more c k cs) =
      if blt key k
      then (do grown ← insert max fresh key value c; some (graft grown k cs))
      else (do rest ← insert_child max fresh key value cs; some (more c k rest))

pub record Tree : Type 0 where
  pub root : Option Node
  pub max_keys : ℕ
  -- an address where nothing stands yet, nor above it
  pub fresh : ℕ

-- `if t.maxKeys == 0 { t.maxKeys = 3 }`
abbrev pub max_of : ℕ → ℕ
max_of n = if n == 0 then 3 else n

abbrev pub new_root : Grown → Node
new_root (whole n) = n
new_root (split l k r) = internal (more l k (last r))

abbrev pub set_root : ℕ → ℕ → Bytes → Bytes → Option Node → Option Node
set_root max fresh key value none =
    some (leaf (record { address = fresh; next = none }) ((key, value) ∷ []))
set_root max fresh key value (some n) = do
  grown ← insert max fresh key value n
  some (new_root grown)

unfoldable pub set : Tree → Bytes → Bytes → Option Tree
set t key value = do
  root ← set_root (max_of t.max_keys) t.fresh key value t.root
  some (record { root = some root; max_keys = max_of t.max_keys; fresh = suc t.fresh })

unfoldable pub get : Tree → Bytes → Option Bytes
get t key = elim t.root [ none ↦ none | some n ↦ lookup key n ]
