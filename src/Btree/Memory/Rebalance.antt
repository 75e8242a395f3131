-- ===== src/Btree/Memory/Rebalance.antt =====
-- Rotations and merges: two neighbours keep their entries.
use go_database.Base.{
  ℕ, zero, suc, ◌+◌, ◌*◌, ◌/◌, ◌≤◌, ◌<◌, ◌≡◌, refl, sym, ap, ◌∙◌, some, [], ◌∷◌, ◌++◌, append_assoc,
  length, length-append, Bytes, arith,
}
use go_database.Base.Panic.{Returns, Returns-bind}
use go_database.Btree.Memory.{Pairs, Node, leaf, internal, Children, last, more, count, size}
use go_database.Btree.Memory.Entries.{
  Below, From, Below-chain, From-chain, Below-append, Below-right, From-append, From-left, IsSorted,
  Below-before, From-behind,
}
use go_database.Btree.Memory.Shape.{entries, entries_of, IsSized, IsNode, AreNodes}
use go_database.Btree.Memory.Split.{entries-nonempty, entries_of-nonempty}
use go_database.Btree.Memory.Removal.{
  split_last, split_last_child, append_children, rotate_from_left, rotate_from_right, merge_nodes,
}

-- two neighbours with the key between them, and the entries they hold
abbrev pub IsPair : ℕ → ℕ → Pairs → Node × Bytes × Node → Type 0
IsPair max h ps (l, k, r) =
    (IsNode max h l × IsSized max l)
    × (IsNode max h r × IsSized max r)
    × (entries l ++ entries r ≡ ps)
    × Below k (entries l)
    × From k (entries r)

abbrev pub IsMerged : ℕ → ℕ → Pairs → Node → Type 0
IsMerged max h ps n = (IsNode max h n × IsSized max n) × (entries n ≡ ps)

split_last-Returns :
    (ps : Pairs)
    → 0 < length ps
    → Returns
        (λ (init, k, v). (init ++ (k, v) ∷ [] ≡ ps) × (suc (length init) ≡ length ps))
        (split_last ps)
unfolding split_last
split_last-Returns [] a = ground arith
split_last-Returns ((k, v) ∷ []) a = (refl, refl)
split_last-Returns ((k, v) ∷ q ∷ ps) a =
    Returns-bind
      (λ (init, j, w). (init ++ (j, w) ∷ [] ≡ q ∷ ps) × (suc (length init) ≡ suc (length ps)))
      (λ (init, j, w).
        (init ++ (j, w) ∷ [] ≡ (k, v) ∷ q ∷ ps) × (suc (length init) ≡ suc (suc (length ps))))
      (split_last (q ∷ ps)) (λ (init, key, value). some ((k, v) ∷ init, key, value))
      (split_last-Returns (q ∷ ps) (ground arith))
      (λ (init, j, w) (e, n). (ap (◌∷◌ (k, v)) e, ap suc n))

module _ (max : ℕ) (two : 2 ≤ max) where
  IsSplit : ℕ → Children → Children × Bytes × Node → Type 0
  IsSplit h cs (init, k, d) =
      (AreNodes max h init × (suc (count init) ≡ count cs))
      × (IsNode max h d × IsSized max d)
      × (entries_of init ++ entries d ≡ entries_of cs)
      × Below k (entries_of init)
      × From k (entries d)

  split_last_child-Returns :
      (h : ℕ) (cs : Children)
      → AreNodes max h cs
      → 0 < count cs
      → Returns (IsSplit h cs) (split_last_child cs)
  unfolding split_last_child count AreNodes entries_of IsSplit
  split_last_child-Returns h (last c) w a = ground arith
  split_last_child-Returns h (more c k (last d)) w a = ((w.0, refl), w.3, refl, w.1, w.2)
  split_last_child-Returns h (more c k (more d j cs)) w a =
      Returns-bind (IsSplit h (more d j cs)) (IsSplit h (more c k (more d j cs)))
        (split_last_child (more d j cs)) (λ (init, key, child). some (more c k init, key, child))
        (split_last_child-Returns h (more d j cs) w.3 (omega arith))
        (λ (init, p, child) e.
          let f : From k (entries_of init ++ entries child) = rw (e.2) (w.2) in
          let g = From-left k (entries_of init) (entries child) f in
          let b =
            Below-chain k p (entries c) (entries_of init) w.1 g e.3
              (entries_of-nonempty max two h init e.0.0) in
          (
            ((w.0, w.1, g, e.0.0), ap suc e.0.1),
            e.1,
            append_assoc (entries c) (entries_of init) (entries child) ∙ ap (entries c ++◌) e.2,
            Below-append p (entries c) (entries_of init) b e.3,
            e.4,
          ))

  append_children-entries :
      (cs : Children) (k : Bytes) (rs : Children)
      → (entries_of (append_children cs k rs) ≡ entries_of cs ++ entries_of rs)
        × (count (append_children cs k rs) ≡ suc (count cs + count rs))
  unfolding append_children entries_of count
  append_children-entries (last c) k rs = (refl, omega arith)
  append_children-entries (more c j cs) k rs =
      let (e, n) = append_children-entries cs k rs in
      (
        ap (entries c ++◌) e ∙ sym (append_assoc (entries c) (entries_of cs) (entries_of rs)),
        omega arith,
      )

  append_children-AreNodes :
      (h : ℕ) (cs : Children) (k : Bytes) (rs : Children)
      → AreNodes max h cs
      → Below k (entries_of cs)
      → From k (entries_of rs)
      → AreNodes max h rs
      → AreNodes max h (append_children cs k rs)
  unfolding append_children entries_of AreNodes
  append_children-AreNodes h (last c) k rs w b f v = (w, b, f, v)
  append_children-AreNodes h (more c j cs) k rs w b f v =
      let b' = Below-right k (entries c) (entries_of cs) b in
      let g =
        From-chain j k (entries_of cs) (entries_of rs) w.2 b' (entries_of-nonempty max two h cs w.3)
          f in
      (
        w.0,
        w.1,
        rw ((append_children-entries cs k rs).0)
            (From-append j (entries_of cs) (entries_of rs) w.2 g),
        append_children-AreNodes h cs k rs w.3 b' f v,
      )

  -- two neighbours, of one height, and the key between them
  abbrev pub AreBeside : ℕ → Bytes → Node → Node → Type 0
  AreBeside h k l r =
      (IsNode max h l × IsNode max h r)
      × Below k (entries l)
      × From k (entries r)
      × IsSorted (entries l ++ entries r)

  pub rotate_from_left-Returns :
      (h : ℕ) (l : Node) (k : Bytes) (r : Node)
      → AreBeside h k l r
      → max / 2 < size l
      → size l ≤ max
      → size r < max / 2
      → max / 2 ≤ suc (size r)
      → Returns (IsPair max h (entries l ++ entries r)) (rotate_from_left l k r)
  unfolding rotate_from_left IsNode AreNodes entries entries_of count IsSplit
  rotate_from_left-Returns zero (leaf la ls) k (leaf pa ps) (w, b, f, s) a1 a2 a3 a4 =
      Returns-bind (λ (init, j, v). (init ++ (j, v) ∷ [] ≡ ls) × (suc (length init) ≡ length ls))
        (IsPair max zero (ls ++ ps)) (split_last ls)
        (λ (init, key, value). some (leaf la init, key, leaf pa ((key, value) ∷ ps)))
        (split_last-Returns ls (omega arith))
        (λ (init, j, v) (e, n).
          let p : init ++ (j, v) ∷ ps ≡ ls ++ ps =
            sym (append_assoc init ((j, v) ∷ []) ps) ∙ ap (◌++ ps) e in
          let t : IsSorted (init ++ (j, v) ∷ ps) = rw p s in
          (
            (tt, (omega arith, omega arith)),
            (tt, (omega arith, omega arith)),
            p,
            Below-before init j v ps t,
            From-behind init j v ps t,
          ))
  rotate_from_left-Returns (suc h) (internal ls) k (internal cs) (w, b, f, s) a1 a2 a3 a4 =
      Returns-bind (IsSplit h ls) (IsPair max (suc h) (entries_of ls ++ entries_of cs))
        (split_last_child ls)
        (λ (init, key, child). some (internal init, key, internal (more child k cs)))
        (split_last_child-Returns h ls w.0 (omega arith))
        (λ (init, j, d) (wi, wd, e, bi, fd).
          let b' : Below k (entries_of init ++ entries d) = rw e b in
          let bd = Below-right k (entries_of init) (entries d) b' in
          let g =
            From-chain j k (entries d) (entries_of cs) fd bd
              (entries-nonempty max two h d wd.0 wd.1.0) f in
          (
            (wi.0, (omega (arith, wi.1), omega (arith, wi.1))),
            ((wd, bd, f, w.1), (omega arith, omega arith)),
            sym (append_assoc (entries_of init) (entries d) (entries_of cs))
                ∙ ap (◌++ entries_of cs) e,
            bi,
            From-append j (entries d) (entries_of cs) fd g,
          ))
  rotate_from_left-Returns zero (internal ls) k r w a1 a2 a3 a4 = absurd w.0.0
  rotate_from_left-Returns zero (leaf la ls) k (internal cs) w a1 a2 a3 a4 = absurd w.0.1
  rotate_from_left-Returns (suc h) (leaf la ls) k r w a1 a2 a3 a4 = absurd w.0.0
  rotate_from_left-Returns (suc h) (internal ls) k (leaf pa ps) w a1 a2 a3 a4 = absurd w.0.1

  pub rotate_from_right-Returns :
      (h : ℕ) (l : Node) (k : Bytes) (r : Node)
      → AreBeside h k l r
      → max / 2 < size r
      → size r ≤ max
      → size l < max / 2
      → max / 2 ≤ suc (size l)
      → Returns (IsPair max h (entries l ++ entries r)) (rotate_from_right l k r)
  unfolding rotate_from_right IsNode AreNodes entries entries_of count
  rotate_from_right-Returns zero (leaf pa ps) k (leaf ra []) w a1 a2 a3 a4 = ground arith
  rotate_from_right-Returns zero (leaf pa ps) k (leaf ra (p ∷ [])) w a1 a2 a3 a4 = omega arith
  rotate_from_right-Returns zero (leaf pa ps) k (leaf ra (p ∷ (j, v) ∷ rs)) (w, b, f, s) a1 a2 a3
        a4 =
      let e : (ps ++ p ∷ []) ++ (j, v) ∷ rs ≡ ps ++ p ∷ (j, v) ∷ rs =
        append_assoc ps (p ∷ []) ((j, v) ∷ rs) in
      let n = length-append ps (p ∷ []) in
      let t : IsSorted ((ps ++ p ∷ []) ++ (j, v) ∷ rs) = rw e s in
      (
        (tt, (omega arith, omega arith)),
        (tt, (omega arith, omega arith)),
        e,
        Below-before (ps ++ p ∷ []) j v rs t,
        From-behind (ps ++ p ∷ []) j v rs t,
      )
  rotate_from_right-Returns (suc h) (internal cs) k (internal (last d)) w a1 a2 a3 a4 = ground arith
  rotate_from_right-Returns (suc h) (internal cs) k (internal (more d j rs)) (w, b, f, s) a1 a2 a3
        a4 =
      let (wd, bd, fr, wr) = w.1 in
      let fd = From-left k (entries d) (entries_of rs) f in
      let (e, n) = append_children-entries cs k (last d) in
      let full = entries-nonempty max two h d wd.0 wd.1.0 in
      (
        (append_children-AreNodes h cs k (last d) w.0 b fd wd, (omega arith, omega arith)),
        (wr, (omega arith, omega arith)),
        rw e (append_assoc (entries_of cs) (entries d) (entries_of rs)),
        rw e (
            Below-append j (entries_of cs) (entries d)
              (Below-chain k j (entries_of cs) (entries d) b fd bd full) bd),
        fr,
      )
  rotate_from_right-Returns zero (internal ls) k r w a1 a2 a3 a4 = absurd w.0.0
  rotate_from_right-Returns zero (leaf la ls) k (internal cs) w a1 a2 a3 a4 = absurd w.0.1
  rotate_from_right-Returns (suc h) (leaf la ls) k r w a1 a2 a3 a4 = absurd w.0.0
  rotate_from_right-Returns (suc h) (internal ls) k (leaf pa ps) w a1 a2 a3 a4 = absurd w.0.1

  pub merge_nodes-Returns :
      (h : ℕ) (l : Node) (k : Bytes) (r : Node)
      → AreBeside h k l r
      → max / 2 ≤ size l + size r
      → suc (size l + size r) ≤ (max / 2) * 2
      → Returns (IsMerged max h (entries l ++ entries r)) (merge_nodes l k r)
  unfolding merge_nodes IsNode AreNodes entries entries_of count
  merge_nodes-Returns zero (leaf la ls) k (leaf ra rs) w a b =
      let n = length-append ls rs in ((tt, (omega arith, omega arith)), refl)
  merge_nodes-Returns (suc h) (internal ls) k (internal rs) (w, b, f, s) a1 a2 =
      let (e, n) = append_children-entries ls k rs in
      ((append_children-AreNodes h ls k rs w.0 b f w.1, (omega arith, omega arith)), e)
  merge_nodes-Returns zero (internal ls) k r w a1 a2 = absurd w.0.0
  merge_nodes-Returns zero (leaf la ls) k (internal cs) w a1 a2 = absurd w.0.1
  merge_nodes-Returns (suc h) (leaf la ls) k r w a1 a2 = absurd w.0.0
  merge_nodes-Returns (suc h) (internal ls) k (leaf pa ps) w a1 a2 = absurd w.0.1
