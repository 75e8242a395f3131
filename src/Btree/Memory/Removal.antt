-- ===== src/Btree/Memory/Removal.antt =====
-- `delete` of internal/btree/tree.go: the entry is taken from its leaf, and on the way back a child
-- that has become too small takes an entry from a sibling, or is merged with one. The walk to the
-- child keeps the sibling on its left. Siblings of different kinds, a leaf and an internal node, do
-- not occur in a tree, and are `none`, as the panics are.
use go_database.Base.{
  ℕ, ◌/◌, Bool, true, false, Option, none, some, [], ◌∷◌, ◌++◌, ltb, ◌==◌, if◌then◌else◌, Bytes,
  beq, blt,
}
use go_database.Base.Panic.{◌>>=◌}
use go_database.Btree.Memory.{
  Pairs, Link, Node, leaf, internal, Children, last, more, size, Tree, max_of,
}

-- what is left when a key is deleted, if it was there
pub data Erased (A : Type 0) : Type 0 where
  missing : Erased A
  removed : A → Erased A

-- `if !deleted { return false }`
abbrev pub on_removed : {A B : Type 0} → Erased A → (A → Option B) → Option (Erased B)
on_removed missing rest = some missing
on_removed (removed a) rest = do b ← rest a; some (removed b)

abbrev pub put_back : Bytes × Bytes → Erased Pairs → Erased Pairs
put_back p missing = missing
put_back p (removed ps) = removed (p ∷ ps)

-- the leaf's branch of `deleteFromNode`
unfoldable pub delete_from_leaf : Bytes → Pairs → Erased Pairs
delete_from_leaf key [] = missing
delete_from_leaf key ((j, w) ∷ ps) =
    let rest = delete_from_leaf key ps in
    if blt j key then put_back (j, w) rest else if beq j key then removed ps else missing

unfoldable mutual
  pub minimum_key : Node → Option Bytes
  minimum_key (leaf pa []) = none
  minimum_key (leaf pa ((k, v) ∷ ps)) = some k
  minimum_key (internal cs) = minimum_key_of cs

  pub minimum_key_of : Children → Option Bytes
  minimum_key_of (last c) = minimum_key c
  minimum_key_of (more c k cs) = minimum_key c

-- the last entry of a leaf, and the entries before it
unfoldable pub split_last : Pairs → Option (Pairs × Bytes × Bytes)
split_last [] = none
split_last ((k, v) ∷ []) = some ([], k, v)
split_last ((k, v) ∷ q ∷ ps) = do
  (init, key, value) ← split_last (q ∷ ps)
  some ((k, v) ∷ init, key, value)

-- the last key and the last child of an internal node, and what is before them
unfoldable pub split_last_child : Children → Option (Children × Bytes × Node)
split_last_child (last c) = none
split_last_child (more c k (last d)) = some (last c, k, d)
split_last_child (more c k (more d j cs)) = do
  (init, key, child) ← split_last_child (more d j cs)
  some (more c k init, key, child)

-- the keys and children of two nodes, with a key between them
unfoldable pub append_children : Children → Bytes → Children → Children
append_children (last c) key rs = more c key rs
append_children (more c k cs) key rs = more c k (append_children cs key rs)

-- `rotateFromLeft`: the left node, the key between, the child
unfoldable pub rotate_from_left : Node → Bytes → Node → Option (Node × Bytes × Node)
rotate_from_left (leaf la ls) sep (leaf pa ps) = do
  (init, key, value) ← split_last ls
  some (leaf la init, key, leaf pa ((key, value) ∷ ps))
rotate_from_left (internal ls) sep (internal cs) = do
  (init, key, child) ← split_last_child ls
  some (internal init, key, internal (more child sep cs))
rotate_from_left (leaf la ls) sep (internal cs) = none
rotate_from_left (internal ls) sep (leaf pa ps) = none

-- `rotateFromRight`: the child, the key between, the right node
unfoldable pub rotate_from_right : Node → Bytes → Node → Option (Node × Bytes × Node)
rotate_from_right (leaf pa ps) sep (leaf ra []) = none
rotate_from_right (leaf pa ps) sep (leaf ra (p ∷ [])) = none
rotate_from_right (leaf pa ps) sep (leaf ra (p ∷ (k, v) ∷ rs)) =
    some (leaf pa (ps ++ p ∷ []), k, leaf ra ((k, v) ∷ rs))
rotate_from_right (internal cs) sep (internal (last c)) = none
rotate_from_right (internal cs) sep (internal (more c k rs)) =
    some (internal (append_children cs sep (last c)), k, internal rs)
rotate_from_right (leaf pa ps) sep (internal rs) = none
rotate_from_right (internal cs) sep (leaf ra rs) = none

-- the node that `mergeChildren` leaves in place of two
unfoldable pub merge_nodes : Node → Bytes → Node → Option Node
merge_nodes (leaf la ls) sep (leaf ra rs) = some (leaf (record la { next = ra.next }) (ls ++ rs))
merge_nodes (internal ls) sep (internal rs) = some (internal (append_children ls sep rs))
merge_nodes (leaf la ls) sep (internal rs) = none
merge_nodes (internal ls) sep (leaf ra rs) = none

abbrev pub head_of : Children → Node
head_of (last c) = c
head_of (more c k cs) = c

abbrev pub with_head : Node → Children → Children
with_head n (last c) = last n
with_head n (more c k cs) = more n k cs

-- `rebalanceChild` of the first child, of the last, and of one between
abbrev pub rebalance_first : ℕ → Node → Bytes → Children → Option Children
rebalance_first least c k cs =
    if ltb least (size (head_of cs))
    then (do
      (child, key, right) ← rotate_from_right c k (head_of cs)
      some (more child key (with_head right cs)))
    else (do merged ← merge_nodes c k (head_of cs); some (with_head merged cs))

abbrev pub rebalance_last : ℕ → Node → Bytes → Node → Option Children
rebalance_last least left sep c =
    if ltb least (size left)
    then (do (donor, key, child) ← rotate_from_left left sep c; some (more donor key (last child)))
    else (do merged ← merge_nodes left sep c; some (last merged))

abbrev pub rebalance_middle : ℕ → Node → Bytes → Node → Bytes → Children → Option Children
rebalance_middle least left sep c k cs =
    if ltb least (size left)
    then (do
      (donor, key, child) ← rotate_from_left left sep c
      some (more donor key (more child k cs)))
    else if ltb least (size (head_of cs))
    then (do
      (child, key, right) ← rotate_from_right c k (head_of cs)
      some (more left sep (more child key (with_head right cs))))
    else (do merged ← merge_nodes left sep c; some (more merged k cs))

-- the separator on the left of a child that has lost a key
abbrev pub refresh : Bytes → Node → Option Bytes
refresh sep c = if size c == 0 then some sep else minimum_key c

-- `deleteFromNode` after the recursive call, for a child without siblings, the first, the last, and
-- one between; a child without siblings has nothing to be merged with
abbrev pub settle_only : ℕ → Node → Option Children
settle_only least c = if ltb (size c) least then none else some (last c)

abbrev pub settle_first : ℕ → Bytes → Children → Node → Option Children
settle_first least k cs c =
    if ltb (size c) least then rebalance_first least c k cs else some (more c k cs)

abbrev pub settle_last : ℕ → Node → Bytes → Node → Option Children
settle_last least left sep c = do
  key ← refresh sep c
  if ltb (size c) least then rebalance_last least left key c else some (more left key (last c))

abbrev pub settle_middle : ℕ → Node → Bytes → Bytes → Children → Node → Option Children
settle_middle least left sep k cs c = do
  key ← refresh sep c
  (if ltb (size c) least
      then rebalance_middle least left key c k cs
      else some (more left key (more c k cs)))

abbrev pub erased_leaf : Link → Erased Pairs → Erased Node
erased_leaf pa missing = missing
erased_leaf pa (removed ps) = removed (leaf pa ps)

unfoldable mutual
  pub delete_from_node : ℕ → Bytes → Node → Option (Erased Node)
  delete_from_node least key (leaf pa ps) = some (erased_leaf pa (delete_from_leaf key ps))
  delete_from_node least key (internal cs) = do
    rest ← delete_child least key cs
    on_removed rest (λ children. some (internal children))

  pub delete_child : ℕ → Bytes → Children → Option (Erased Children)
  delete_child least key (last c) = do
    rest ← delete_from_node least key c
    on_removed rest (settle_only least)
  delete_child least key (more c k cs) =
      if blt key k
      then (do rest ← delete_from_node least key c; on_removed rest (settle_first least k cs))
      else delete_behind least key c k cs

  pub delete_behind : ℕ → Bytes → Node → Bytes → Children → Option (Erased Children)
  delete_behind least key left sep (last c) = do
    rest ← delete_from_node least key c
    on_removed rest (settle_last least left sep)
  delete_behind least key left sep (more c k cs) =
      if blt key k
      then (do
        rest ← delete_from_node least key c
        on_removed rest (settle_middle least left sep k cs))
      else (do
        rest ← delete_behind least key c k cs
        on_removed rest (λ children. some (more left sep children)))

-- `len(t.root.keys) == 0` after the deletion: an empty leaf goes, and an internal node gives way to
-- its only child
abbrev pub shrink : Node → Option Node
shrink (leaf pa []) = none
shrink (leaf pa (p ∷ ps)) = some (leaf pa (p ∷ ps))
shrink (internal (last c)) = some c
shrink (internal (more c k cs)) = some (internal (more c k cs))

abbrev pub delete_root : ℕ → Bytes → Option Node → Option (Erased (Option Node))
delete_root least key none = some missing
delete_root least key (some n) = do
  rest ← delete_from_node least key n
  on_removed rest (λ m. some (shrink m))

abbrev pub deleted_tree : Tree → Erased (Option Node) → Bool × Tree
deleted_tree t missing = (false, t)
deleted_tree t (removed root) =
    (true, record { root = root; max_keys = max_of t.max_keys; fresh = t.fresh })

-- `minKeys` is `maxKeys / 2`
unfoldable pub delete : Tree → Bytes → Option (Bool × Tree)
delete t key = do rest ← delete_root (max_of t.max_keys / 2) key t.root; some (deleted_tree t rest)
