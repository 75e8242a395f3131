-- ===== src/Btree/Memory/Range.antt =====
-- `Range` of internal/btree/memory.go: from the leaf where the lower bound belongs, along the leaves,
-- up to a key above the upper bound.
pub mod Listed
pub mod Follow
pub mod Built
use go_database.Base.{
  ℕ, zero, suc, not, ◌&&◌, Option, none, some, List, [], ◌∷◌, ◌++◌, ◌==◌, length, if◌then◌else◌,
  Bytes, blt,
}
use go_database.Base.Panic.{◌>>=◌}
use go_database.Btree.Memory.{Pairs, Link, Node, leaf, internal, Children, last, more, Tree}

-- the leaves below a node, from the left to the right: what stands in memory
unfoldable mutual
  pub leaves : Node → List (Link × Pairs)
  leaves (leaf pa ps) = (pa, ps) ∷ []
  leaves (internal cs) = leaves_of cs

  pub leaves_of : Children → List (Link × Pairs)
  leaves_of (last c) = leaves c
  leaves_of (more c k cs) = leaves c ++ leaves_of cs

-- the leaf that stands at an address
unfoldable pub find_leaf : ℕ → List (Link × Pairs) → Option (Link × Pairs)
find_leaf a [] = none
find_leaf a ((l, ps) ∷ heap) =
    let rest = find_leaf a heap in if l.address == a then some (l, ps) else rest

-- the leaf that `child` leads to
unfoldable mutual
  pub reach : Bytes → Node → Link × Pairs
  reach key (leaf pa ps) = (pa, ps)
  reach key (internal cs) = reach_child key cs

  pub reach_child : Bytes → Children → Link × Pairs
  reach_child key (last c) = reach key c
  reach_child key (more c k cs) = if blt key k then reach key c else reach_child key cs

-- `n.keys[idx:]` where `idx` is `n.search(lower)`
unfoldable pub drop_below : Bytes → Pairs → Pairs
drop_below lower [] = []
drop_below lower ((j, w) ∷ ps) = if blt j lower then drop_below lower ps else (j, w) ∷ ps

-- the loop over a leaf; `next` is what the leaves behind it give
unfoldable pub scan_leaf : Bytes → Option Pairs → Pairs → Option Pairs
scan_leaf upper next [] = next
scan_leaf upper next ((j, w) ∷ ps) =
    let rest = scan_leaf upper next ps in
    if blt upper j then some [] else (do listed ← rest; some ((j, w) ∷ listed))

-- the loop over the leaves, from an address on: `n = n.next` reads the leaf that stands there
unfoldable pub scan_at : ℕ → List (Link × Pairs) → Bytes → Option ℕ → Option Pairs
scan_at fuel heap upper none = some []
scan_at zero heap upper (some a) = none
scan_at (suc fuel) heap upper (some a) = do
  (l, ps) ← find_leaf a heap
  scan_leaf upper (scan_at fuel heap upper l.next) ps

abbrev pub scan_from : Bytes → Bytes → List (Link × Pairs) → Link × Pairs → Option Pairs
scan_from lower upper heap (l, ps) =
    scan_leaf upper (scan_at (length heap) heap upper l.next) (drop_below lower ps)

abbrev pub range_node : Bytes → Bytes → Option Node → Option Pairs
range_node lower upper none = some []
range_node lower upper (some n) =
    if blt upper lower then some [] else scan_from lower upper (leaves n) (reach lower n)

unfoldable pub range : Tree → Bytes → Bytes → Option Pairs
range t lower upper = range_node lower upper t.root

-- the entries whose keys are within both bounds
unfoldable pub between : Bytes → Bytes → Pairs → Pairs
between lower upper [] = []
between lower upper ((j, w) ∷ ps) =
    let rest = between lower upper ps in
    if not (blt j lower) && not (blt upper j) then (j, w) ∷ rest else rest
