-- ===== src/Tests/Btree.antt =====
-- A tree of two leaves, and a tree of three levels whose deletions merge nodes.
use go_database.Base.{◌≡◌, refl, none, some, [], ◌∷◌, if◌then◌else◌, codes, beq, blt, arith}
use go_database.Base.Panic.{Returns}
use go_database.Btree.Memory.{
  Tree, Link, leaf, internal, last, more, count, set, get, insert, insert_into_leaf, split_leaf,
}
use go_database.Btree.Memory.Shape.{IsNode, AreNodes, entries, entries_of, IsTree, root_entries}
use go_database.Btree.Memory.Links.{links, links_of, IsLinked}
use go_database.Btree.Memory.Links.Kept.{set-and-delete-IsLinked}
use go_database.Btree.Memory.Removal.{delete}
use go_database.Btree.Memory.Range.{
  leaves, leaves_of, find_leaf, reach, reach_child, drop_below, scan_leaf, scan_at, range, between,
}
use go_database.Btree.Memory.Map.{get-set, IsDeletedTree, delete-Returns}
use go_database.Btree.Memory.Range.Built.{Built, empty, stored, range-Built}

abbrev first : Link
first = record { address = 0; next = some 1 }

abbrev second : Link
second = record { address = 1; next = none }

abbrev two_leaves : Tree
two_leaves = record {
  root = some (
      internal (
        more (leaf first ((codes "a", codes "1") ∷ (codes "b", codes "2") ∷ [])) (codes "c")
          (last (leaf second ((codes "c", codes "3") ∷ [])))));
  max_keys = 3;
  fresh = 2;
}

two_leaves-IsTree : IsTree two_leaves
unfolding IsNode AreNodes entries entries_of count blt
two_leaves-IsTree = (
  ground arith,
  (
    1,
    (
      (tt, (ground arith, ground arith)),
      (refl, (refl, tt)),
      (refl, tt),
      (tt, (ground arith, ground arith)),
    ),
    ((refl, (refl, tt)), ((refl, tt), (tt, tt))),
    ground arith,
    ground arith,
  ),
)

get-set_example :
    (u : Tree) × (set two_leaves (codes "bb") (codes "9") ≡ some u)
    × IsTree u
    × (get u (codes "bb")
        ≡ (if beq (codes "bb") (codes "bb") then some (codes "9") else get two_leaves (codes "bb")))
get-set_example = get-set two_leaves (codes "bb") (codes "9") (codes "bb") two_leaves-IsTree

delete-Returns_example :
    Returns (IsDeletedTree two_leaves (codes "c")) (delete two_leaves (codes "c"))
delete-Returns_example = delete-Returns two_leaves (codes "c") two_leaves-IsTree

two_leaves-IsLinked : IsLinked two_leaves
unfolding links links_of
two_leaves-IsLinked = (ground arith, (ground arith, tt), refl, (ground arith, tt, refl, tt))

-- an empty tree after one, two and three calls of `Set`, of which the last splits the leaf
abbrev one : Tree
one = record {
  root = some (leaf (record { address = 0; next = none }) ((codes "a", codes "1") ∷ []));
  max_keys = 2;
  fresh = 1;
}

abbrev two : Tree
two = record {
  root = some (
      leaf (record { address = 0; next = none })
        ((codes "a", codes "1") ∷ (codes "b", codes "2") ∷ []));
  max_keys = 2;
  fresh = 2;
}

abbrev three : Tree
three = record {
  root = some (
      internal (
        more (leaf (record { address = 0; next = some 2 }) ((codes "a", codes "1") ∷ []))
          (codes "b")
          (last (
            leaf (record { address = 2; next = none })
              ((codes "b", codes "2") ∷ (codes "c", codes "3") ∷ [])))));
  max_keys = 2;
  fresh = 3;
}

three-Built : Built three
unfolding set insert insert_into_leaf split_leaf blt beq
three-Built =
    stored two three (codes "c") (codes "3")
      (stored one two (codes "b") (codes "2")
        (stored _ one (codes "a") (codes "1") (empty 2 0 (ground arith)) refl) refl)
      refl

range-Built_example :
    range three (codes "a") (codes "b")
    ≡ some (between (codes "a") (codes "b") (root_entries three.root))
range-Built_example = range-Built three (codes "a") (codes "b") three-Built

-- what that range lists, in two leaves
range_run :
    range three (codes "a") (codes "b")
    ≡ some ((codes "a", codes "1") ∷ (codes "b", codes "2") ∷ [])
unfolding range reach reach_child leaves leaves_of find_leaf scan_leaf scan_at drop_below blt
range_run = refl

-- `c` is deleted, and its leaf is merged
set-and-delete-IsLinked_example :
    Returns (λ u. IsTree u × IsLinked u) (set two_leaves (codes "c") (codes "7"))
    × Returns (λ r. IsTree r.1 × IsLinked r.1) (delete two_leaves (codes "c"))
set-and-delete-IsLinked_example =
    set-and-delete-IsLinked two_leaves (codes "c") (codes "7") two_leaves-IsTree two_leaves-IsLinked
