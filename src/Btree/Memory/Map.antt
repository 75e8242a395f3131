-- ===== src/Btree/Memory/Map.antt =====
-- The tree as a map: `get` and `set` seen on the entries.
use go_database.Base.{
  ℕ, zero, suc, ◌/◌, ◌≤◌, ◌≡◌, ◌≢◌, refl, sym, subst, ap, ◌∙◌, Bool, true, Option, none, some, [],
  ◌∷◌, if◌then◌else◌, Bytes, beq, beq_iff, blt, arith, Bool-cases, inl, inr,
}
use go_database.Base.Assoc
use go_database.Base.Panic.{Returns, Returns-bind, Returns-some}
use go_database.Btree.Memory.{
  Pairs, Node, leaf, internal, Children, last, more, count, size, insert_into_leaf, Grown, whole,
  split, insert, lookup, lookup_child, Tree, max_of, new_root, set_root, set, get,
}
use go_database.Btree.Memory.Entries.{
  IsSorted, IsSorted-left, IsSorted-right, get-Below, get-From, get-append_left, get-append_right,
  search-eq-get, get-insert_into_leaf, insert-IsSorted,
}
use go_database.Btree.Memory.Shape.{
  entries, entries_of, IsNode, AreNodes, IsRoot, IsTree, root_entries,
}
use go_database.Btree.Memory.Split.{IsGrown}
use go_database.Btree.Memory.Insert.{insert-Returns}
use go_database.Btree.Memory.Removal.{
  Erased, missing, removed, delete_from_leaf, delete_from_node, shrink, delete_root, deleted_tree,
  delete,
}
use go_database.Btree.Memory.Erase.{Forgets, delete-Forgets}
use go_database.Btree.Memory.Delete.{
  Whether, on_removed-Returns, Erases, Erases-IsSorted, IsDeleted, delete_from_node-Returns,
}
use go_database.Base.Sorted.{is_some}

mutual
  unfolding lookup lookup_child IsNode AreNodes entries entries_of

  lookup-eq-get :
      (max h : ℕ) (key : Bytes) (n : Node)
      → IsNode max h n
      → IsSorted (entries n)
      → lookup key n ≡ Assoc.get key (entries n)
  lookup-eq-get max zero key (leaf pa ps) w s = search-eq-get key ps s
  lookup-eq-get max zero key (internal cs) w s = absurd w
  lookup-eq-get max (suc h) key (leaf pa ps) w s = absurd w
  lookup-eq-get max (suc h) key (internal cs) w s = lookup_child-eq-get max h key cs w s

  lookup_child-eq-get :
      (max h : ℕ) (key : Bytes) (cs : Children)
      → AreNodes max h cs
      → IsSorted (entries_of cs)
      → lookup_child key cs ≡ Assoc.get key (entries_of cs)
  lookup_child-eq-get max h key (last c) w s = lookup-eq-get max h key c w.0 s
  lookup_child-eq-get max h key (more c k cs) w s = elim (Bool-cases (blt key k)) [
    | inl y ↦
        let e =
          get-append_left key (entries c) (entries_of cs) (get-From key k (entries_of cs) y w.2) in
        rw (y, e) (lookup-eq-get max h key c w.0.0 (IsSorted-left (entries c) (entries_of cs) s))
    | inr n ↦
        let e =
          get-append_right key (entries c) (entries_of cs) (get-Below key k (entries c) n w.1) in
        rw (n, e)
          (lookup_child-eq-get max h key cs w.3 (IsSorted-right (entries c) (entries_of cs) s))
  ]

-- `get` of a well-formed tree finds the entry of the key among the entries of the leaves.
pub get-eq-get :
    (t : Tree) (key : Bytes) → IsTree t → get t key ≡ Assoc.get key (root_entries t.root)
unfolding get Assoc.get
get-eq-get t key (two, w) = at t.root w
  where
    at :
        (root : Option Node)
        → IsRoot (max_of t.max_keys) root
        → (elim root [ none ↦ none | some n ↦ lookup key n ]) ≡ Assoc.get key (root_entries root)
    at none w = refl
    at (some n) w = lookup-eq-get (max_of t.max_keys) w.0 key n w.1 w.2

IsPut : ℕ → Pairs → Node → Type 0
IsPut max ps n = IsRoot max (some n) × (entries n ≡ ps)

new_root-IsPut :
    (max h : ℕ) (ps : Pairs) (g : Grown)
    → 2 ≤ max
    → IsGrown max h 1 ps g
    → IsSorted ps
    → IsPut max ps (new_root g)
unfolding IsPut IsNode AreNodes entries entries_of count
new_root-IsPut max h ps (whole n) two (w, e, a, b) s = ((h, w, rw e s, omega arith, b), e)
new_root-IsPut max h ps (split l k r) two (wl, wr, e, b, f) s =
    ((suc h, (wl, b, f, wr), rw e s, omega arith, omega arith), e)

set_root-Returns :
    (max fresh : ℕ) (key value : Bytes) (root : Option Node)
    → 2 ≤ max
    → IsRoot max root
    → Returns
        (IsPut max (insert_into_leaf key value (root_entries root)))
        (set_root max fresh key value root)
unfolding IsPut IsNode insert_into_leaf entries
set_root-Returns max fresh key value none two w =
    ((0, tt, (tt, tt), omega arith, omega arith), refl)
set_root-Returns max fresh key value (some n) two w =
    Returns-bind (IsGrown max w.0 1 (insert_into_leaf key value (entries n)))
      (IsPut max (insert_into_leaf key value (entries n))) (insert max fresh key value n)
      (λ grown. some (new_root grown))
      (insert-Returns max two w.0 fresh 1 key value n w.1 w.2 w.3 w.4)
      (λ g e.
        new_root-IsPut max w.0 (insert_into_leaf key value (entries n)) g two e
          (insert-IsSorted key value (entries n) w.2))

max_of_idem : (n : ℕ) → max_of (max_of n) ≡ max_of n
max_of_idem n = ground arith

-- `set` on a well-formed tree does not panic, and inserts the entry in order into the entries of the
-- leaves; the tree stays well formed.
pub set-Returns :
    (t : Tree) (key value : Bytes)
    → IsTree t
    → Returns
        (λ u. IsTree u × (root_entries u.root ≡ insert_into_leaf key value (root_entries t.root)))
        (set t key value)
unfolding set IsPut
set-Returns t key value w =
    Returns-bind (IsPut (max_of t.max_keys) (insert_into_leaf key value (root_entries t.root)))
      (λ u. IsTree u × (root_entries u.root ≡ insert_into_leaf key value (root_entries t.root)))
      (set_root (max_of t.max_keys) t.fresh key value t.root)
      (λ root.
        some (record { root = some root; max_keys = max_of t.max_keys; fresh = suc t.fresh }))
      (set_root-Returns (max_of t.max_keys) t.fresh key value t.root w.0 w.1)
      (λ root e. rw (max_of_idem t.max_keys) ((w.0, e.0), e.1))

-- what `set` is to make of a tree
abbrev pub IsSetTree : Tree → Bytes → Bytes → Tree → Type 0
IsSetTree t key value u =
    IsTree u × (root_entries u.root ≡ insert_into_leaf key value (root_entries t.root))

pub set_tree-get :
    (t : Tree) (key value j : Bytes) (u : Tree)
    → IsTree t
    → IsSetTree t key value u
    → get u j ≡ (if beq key j then some value else get t j)
set_tree-get t key value j u w (v, p) =
    get-eq-get u j v
    ∙ ap (Assoc.get j) p
    ∙ get-insert_into_leaf key value j (root_entries t.root)
    ∙ ap (λ o. if beq key j then some value else o) (sym (get-eq-get t j w))

-- On a well-formed tree, `set` does not panic and keeps the tree well formed, and `get` then finds
-- the value that was set at its key, and at every other key what it found before.
pub get-set :
    (t : Tree) (key value j : Bytes)
    → IsTree t
    → (u : Tree) × (set t key value ≡ some u)
      × IsTree u
      × (get u j ≡ (if beq key j then some value else get t j))
get-set t key value j w =
    let (u, e, d) =
      Returns-some (IsSetTree t key value) (set t key value) (set-Returns t key value w) in
    (u, e, d.0, set_tree-get t key value j u w d)

-- what `delete` makes of the root
abbrev pub IsCut : ℕ → Bytes → Option Node → Erased (Option Node) → Type 0
IsCut max key root =
    Whether (delete_from_leaf key (root_entries root) ≡ missing)
      (λ new. IsRoot max new × Erases key (root_entries root) (root_entries new))

shrink-IsRoot :
    (max h : ℕ) (n : Node)
    → 2 ≤ max
    → IsNode max h n
    → IsSorted (entries n)
    → size n ≤ max
    → IsRoot max (shrink n) × (root_entries (shrink n) ≡ entries n)
unfolding IsNode AreNodes entries entries_of count
shrink-IsRoot max zero (leaf pa []) two w s a = (tt, refl)
shrink-IsRoot max zero (leaf pa (p ∷ ps)) two w s a = ((zero, tt, s, omega arith, a), refl)
shrink-IsRoot max zero (internal cs) two w s a = absurd w
shrink-IsRoot max (suc h) (leaf pa ps) two w s a = absurd w
shrink-IsRoot max (suc h) (internal (last c)) two w s a =
    ((h, w.0, s, omega (arith, w.1.0), w.1.1), refl)
shrink-IsRoot max (suc h) (internal (more c k cs)) two w s a = ((suc h, w, s, omega arith, a), refl)

delete_root-Returns :
    (max : ℕ) (key : Bytes) (root : Option Node)
    → 2 ≤ max
    → IsRoot max root
    → Returns (IsCut max key root) (delete_root (max / 2) key root)
unfolding delete_from_leaf
delete_root-Returns max key none two w = refl
delete_root-Returns max key (some n) two (h, w, s, a, b) =
    on_removed-Returns (delete_from_leaf key (entries n) ≡ missing)
      (delete_from_leaf key (entries n) ≡ missing) (λ m. IsDeleted max two h key n (removed m))
      (λ new. IsCut max key (some n) (removed new)) (delete_from_node (max / 2) key n)
      (λ m. some (shrink m)) (delete_from_node-Returns max two h key n w s a) (λ e. e)
      (λ m (e, v, p, q).
        let (r, f) =
          shrink-IsRoot max h m two v (Erases-IsSorted key (entries n) (entries m) e s)
            (omega arith) in
        (r, e ∙ ap removed (sym f)))

-- the outcome of `delete` is right
abbrev pub IsDeletedTree : Tree → Bytes → Bool × Tree → Type 0
IsDeletedTree t key (found, u) =
    IsTree u
    × (found ≡ is_some (get t key))
    × ((j : Bytes) → get u j ≡ (if beq key j then none else get t j))

IsRoot-IsSorted : (max : ℕ) (root : Option Node) → IsRoot max root → IsSorted (root_entries root)
IsRoot-IsSorted max none w = tt
IsRoot-IsSorted max (some n) w = w.2

deleted_tree-IsDeletedTree :
    (t : Tree) (key : Bytes) (r : Erased (Option Node))
    → IsTree t
    → IsCut (max_of t.max_keys) key t.root r
    → IsDeletedTree t key (deleted_tree t r)
deleted_tree-IsDeletedTree t key missing w e =
    let sorted = IsRoot-IsSorted (max_of t.max_keys) t.root w.1 in
    let g : Assoc.get key (root_entries t.root) ≡ none =
      subst (Forgets key key (root_entries t.root)) e
        (delete-Forgets key key (root_entries t.root) sorted) in
    let gone = get-eq-get t key w ∙ g in
    (w, rw gone refl, λ j. ground (arith, gone, (beq_iff key j).0))
deleted_tree-IsDeletedTree t key (removed new) w (v, e) =
    let sorted = IsRoot-IsSorted (max_of t.max_keys) t.root w.1 in
    let u : Tree = record { root = new; max_keys = max_of t.max_keys; fresh = t.fresh } in
    let x : IsTree u = rw (max_of_idem t.max_keys) (w.0, v) in
    let forgets = λ (j : Bytes).
      let g : Forgets key j (root_entries t.root) (removed (root_entries new)) =
        subst (Forgets key j (root_entries t.root)) e
          (delete-Forgets key j (root_entries t.root) sorted) in
      g in
    (
      x,
      found (get t key) (λ o. (forgets key).0 (sym (get-eq-get t key w) ∙ o)),
      λ j.
          get-eq-get u j x
          ∙ (forgets j).1
          ∙ ap (λ o. if beq key j then none else o) (sym (get-eq-get t j w)),
    )
  where
    found : (o : Option Bytes) → o ≢ none → true ≡ is_some o
    found none n = absurd (n refl)
    found (some v) n = refl

-- `delete` on a well-formed tree does not panic, keeps the tree well formed, and tells whether `get`
-- found the key; `get` then finds nothing at the key, and at every other key what it found before.
pub delete-Returns :
    (t : Tree) (key : Bytes) → IsTree t → Returns (IsDeletedTree t key) (delete t key)
unfolding delete
delete-Returns t key w =
    Returns-bind (IsCut (max_of t.max_keys) key t.root) (IsDeletedTree t key)
      (delete_root (max_of t.max_keys / 2) key t.root) (λ rest. some (deleted_tree t rest))
      (delete_root-Returns (max_of t.max_keys) key t.root w.0 w.1)
      (λ r. deleted_tree-IsDeletedTree t key r w)
