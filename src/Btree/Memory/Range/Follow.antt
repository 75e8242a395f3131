-- ===== src/Btree/Memory/Range/Follow.antt =====
-- Following `next` from the leaf reached gives the leaves behind it, in the order of the tree.
use go_database.Base.{
  ℕ, zero, suc, ◌≤◌, ◌≡◌, refl, sym, ap, ◌∙◌, subst, false, Option, none, some, List, [], ◌∷◌, ◌++◌,
  append_assoc, ◌==◌, length, length-append, Bytes, blt, arith, Bool-cases, inl, inr,
}
use go_database.Btree.Memory.{Pairs, Link, Node, leaf, internal, Children, last, more, Tree, max_of}
use go_database.Btree.Memory.Shape.{entries, IsRoot, IsTree, root_entries}
use go_database.Btree.Memory.Links.{
  links, links_of, first_address, IsAbsent, IsChain, links_of_root, IsLinked,
}
use go_database.Btree.Memory.Range.{
  leaves, leaves_of, find_leaf, reach, reach_child, drop_below, scan_leaf, scan_at, scan_from,
  range_node, range, between,
}
use go_database.Btree.Memory.Range.Listed.{
  leaves_from, leaves_from_child, listed_leaf, listed, listed_from, leaves_from-IsReached,
  listed_from-between, between-reversed,
}

-- the links of leaves
unfoldable links_in : List (Link × Pairs) → List Link
links_in [] = []
links_in ((l, ps) ∷ ls) = l ∷ links_in ls

links_in-append : (xs ys : List (Link × Pairs)) → links_in (xs ++ ys) ≡ links_in xs ++ links_in ys
unfolding links_in
links_in-append [] ys = refl
links_in-append ((l, ps) ∷ xs) ys = ap (◌∷◌ l) (links_in-append xs ys)

mutual
  unfolding leaves leaves_of links links_of links_in

  links_in-leaves : (n : Node) → links_in (leaves n) ≡ links n
  links_in-leaves (leaf pa ps) = refl
  links_in-leaves (internal cs) = links_in-leaves_of cs

  links_in-leaves_of : (cs : Children) → links_in (leaves_of cs) ≡ links_of cs
  links_in-leaves_of (last c) = links_in-leaves c
  links_in-leaves_of (more c k cs) =
      links_in-append (leaves c) (leaves_of cs) ∙ rw (links_in-leaves c, links_in-leaves_of cs) refl

-- the leaf reached, with the leaves behind it, ends the leaves of the tree
mutual
  unfolding leaves leaves_of leaves_from leaves_from_child

  leaves_from-end :
      (key : Bytes) (n : Node)
      → (front : List (Link × Pairs)) × (front ++ ((leaves_from key n).0 ∷ (leaves_from key n).1)
          ≡ leaves n)
  leaves_from-end key (leaf pa ps) = ([], refl)
  leaves_from-end key (internal cs) = leaves_from_child-end key cs

  leaves_from_child-end :
      (key : Bytes) (cs : Children)
      → (front : List (Link × Pairs)) × (front
            ++ ((leaves_from_child key cs).0 ∷ (leaves_from_child key cs).1)
          ≡ leaves_of cs)
  leaves_from_child-end key (last c) = leaves_from-end key c
  leaves_from_child-end key (more c k cs) = elim (Bool-cases (blt key k)) [
    | inl y ↦
        let (front, e) = leaves_from-end key c in
        let here = leaves_from key c in
        rw y (
          front,
          sym (append_assoc front (here.0 ∷ here.1) (leaves_of cs)) ∙ ap (◌++ leaves_of cs) e,
        )
    | inr n ↦
        let (front, e) = leaves_from_child-end key cs in
        let there = leaves_from_child key cs in
        rw n (
          leaves c ++ front,
          append_assoc (leaves c) front (there.0 ∷ there.1) ∙ ap (leaves c ++◌) e,
        )
  ]

mutual
  unfolding reach reach_child leaves_from leaves_from_child

  reach-eq-leaves_from : (key : Bytes) (n : Node) → reach key n ≡ (leaves_from key n).0
  reach-eq-leaves_from key (leaf pa ps) = refl
  reach-eq-leaves_from key (internal cs) = reach_child-eq-leaves_from key cs

  reach_child-eq-leaves_from :
      (key : Bytes) (cs : Children) → reach_child key cs ≡ (leaves_from_child key cs).0
  reach_child-eq-leaves_from key (last c) = reach-eq-leaves_from key c
  reach_child-eq-leaves_from key (more c k cs) = elim (Bool-cases (blt key k)) [
    | inl y ↦ rw y (reach-eq-leaves_from key c)
    | inr n ↦ rw n (reach_child-eq-leaves_from key cs)
  ]

absent-inside :
    (a : ℕ) (front : List (Link × Pairs)) (l : Link) (ps : Pairs) (behind : List (Link × Pairs))
    → IsAbsent a (links_in (front ++ (l, ps) ∷ behind))
    → (l.address == a) ≡ false
unfolding links_in
absent-inside a [] l ps behind w = w.0
absent-inside a ((h, qs) ∷ front) l ps behind w = absent-inside a front l ps behind w.1

find_leaf-inside :
    (b : ℕ) (front : List (Link × Pairs)) (l : Link) (ps : Pairs) (behind : List (Link × Pairs))
    → IsChain b (links_in (front ++ (l, ps) ∷ behind))
    → find_leaf l.address (front ++ (l, ps) ∷ behind) ≡ some (l, ps)
unfolding links_in find_leaf
find_leaf-inside b [] l ps behind w = ground arith
find_leaf-inside b ((h, qs) ∷ front) l ps behind w =
    let other = absent-inside h.address front l ps behind w.1 in
    let apart : (h.address == l.address) ≡ false = ground (arith, other) in
    rw apart (find_leaf-inside b front l ps behind w.3)

IsChain-behind :
    (b : ℕ) (front behind : List (Link × Pairs))
    → IsChain b (links_in (front ++ behind))
    → IsChain b (links_in behind)
unfolding links_in
IsChain-behind b [] behind w = w
IsChain-behind b ((h, qs) ∷ front) behind w = IsChain-behind b front behind w.3

scan_leaf-listed :
    (upper : Bytes) (next ps : Pairs)
    → scan_leaf upper (some next) ps ≡ some (listed_leaf upper next ps)
unfolding scan_leaf listed_leaf
scan_leaf-listed upper next [] = refl
scan_leaf-listed upper next ((j, w) ∷ ps) = elim (Bool-cases (blt upper j)) [
  | inl y ↦ rw y refl
  | inr n ↦ rw (n, scan_leaf-listed upper next ps) refl
]

scan_at-listed :
    (fuel b : ℕ) (upper : Bytes) (heap front behind : List (Link × Pairs))
    → front ++ behind ≡ heap
    → IsChain b (links_in heap)
    → length behind ≤ fuel
    → scan_at fuel heap upper (first_address (links_in behind)) ≡ some (listed upper behind)
unfolding scan_at links_in listed
scan_at-listed zero b upper heap front [] e w h = refl
scan_at-listed (suc fuel) b upper heap front [] e w h = refl
scan_at-listed zero b upper heap front ((l, ps) ∷ behind) e w h = absurd (omega arith)
scan_at-listed (suc fuel) b upper heap front ((l, ps) ∷ behind) e w h =
    let v : IsChain b (links_in (front ++ (l, ps) ∷ behind)) = rw e w in
    let found : find_leaf l.address heap ≡ some (l, ps) =
      subst (λ hp. find_leaf l.address hp ≡ some (l, ps)) e
        (find_leaf-inside b front l ps behind v) in
    let u = IsChain-behind b front ((l, ps) ∷ behind) v in
    let rest =
      scan_at-listed fuel b upper heap (front ++ (l, ps) ∷ []) behind
        (append_assoc front ((l, ps) ∷ []) behind ∙ e) w (omega arith) in
    rw (found, u.2, rest) (scan_leaf-listed upper (listed upper behind) ps)

scan_from-listed :
    (b : ℕ) (lower upper : Bytes) (n : Node)
    → IsChain b (links n)
    → scan_from lower upper (leaves n) (reach lower n)
      ≡ some (listed_from lower upper (leaves_from lower n))
unfolding listed links_in
scan_from-listed b lower upper n w =
    let (front, e) = leaves_from-end lower n in
    let (l, ps) = (leaves_from lower n).0 in
    let behind = (leaves_from lower n).1 in
    let v : IsChain b (links_in (leaves n)) = rw (links_in-leaves n) w in
    let x : IsChain b (links_in (front ++ (l, ps) ∷ behind)) = rw e v in
    let u = IsChain-behind b front ((l, ps) ∷ behind) x in
    let long : length behind ≤ length (leaves n) =
      omega (arith, ap length e, length-append front ((l, ps) ∷ behind)) in
    let rest =
      scan_at-listed (length (leaves n)) b upper (leaves n) (front ++ (l, ps) ∷ []) behind
        (append_assoc front ((l, ps) ∷ []) behind ∙ e) v long in
    rw (reach-eq-leaves_from lower n, u.2, rest)
      (scan_leaf-listed upper (listed upper behind) (drop_below lower ps))

-- `Range` on a well-formed tree whose leaves are chained, following `next` from leaf to leaf, does
-- not panic and lists exactly the entries of the leaves whose keys are within both bounds, in the
-- order of the leaves; reversed bounds list none.
pub range-eq-between :
    (t : Tree) (lower upper : Bytes)
    → IsTree t
    → IsLinked t
    → range t lower upper ≡ some (between lower upper (root_entries t.root))
unfolding range between
range-eq-between t lower upper w c = at t.root w.1 c
  where
    at :
        (root : Option Node)
        → IsRoot (max_of t.max_keys) root
        → IsChain t.fresh (links_of_root root)
        → range_node lower upper root ≡ some (between lower upper (root_entries root))
    at none v c = refl
    at (some n) v c = elim (Bool-cases (blt upper lower)) [
      | inl y ↦ rw y (ap some (sym (between-reversed lower upper (entries n) y)))
      | inr m ↦ rw m (
          scan_from-listed t.fresh lower upper n c
          ∙ ap some (
              listed_from-between lower upper (leaves_from lower n).0.0 (entries n)
                (leaves_from lower n).0.1 (leaves_from lower n).1 v.2
                (leaves_from-IsReached (max_of t.max_keys) v.0 lower n v.1)))
    ]
