-- ===== src/Btree/Memory/Range/Listed.antt =====
-- The entries of the leaves from the one reached on, as the leaves stand in the tree.
use go_database.Base.{
  ℕ, zero, suc, ◌≡◌, refl, sym, ap, ◌∙◌, true, false, List, [], ◌∷◌, ◌++◌, append_assoc, append-nil,
  if◌then◌else◌, Bytes, blt, blt_trans, arith, Bool-cases, inl, inr,
}
use go_database.Base.Sorted.{IsAbove, keys_of}
use go_database.Btree.Memory.{Pairs, Link, Node, leaf, internal, Children, last, more}
use go_database.Btree.Memory.Entries.{
  Below, From, Below-append, From-append, From-extend, Below-trans, IsSorted, IsSorted-left,
  IsSorted-right, below_from,
}
use go_database.Btree.Memory.Shape.{entries, entries_of, IsNode, AreNodes}
use go_database.Btree.Memory.Range.{leaves, leaves_of, drop_below, between}

-- the leaf that is reached, and the leaves behind it
unfoldable mutual
  pub leaves_from : Bytes → Node → (Link × Pairs) × List (Link × Pairs)
  leaves_from key (leaf pa ps) = ((pa, ps), [])
  leaves_from key (internal cs) = leaves_from_child key cs

  pub leaves_from_child : Bytes → Children → (Link × Pairs) × List (Link × Pairs)
  leaves_from_child key (last c) = leaves_from key c
  leaves_from_child key (more c k cs) =
      let here = leaves_from key c in
      if blt key k then (here.0, here.1 ++ leaves_of cs) else leaves_from_child key cs

-- the entries of a leaf and those behind it, up to a key above the upper bound
unfoldable pub listed_leaf : Bytes → Pairs → Pairs → Pairs
listed_leaf upper next [] = next
listed_leaf upper next ((j, w) ∷ ps) =
    let rest = listed_leaf upper next ps in if blt upper j then [] else (j, w) ∷ rest

unfoldable pub listed : Bytes → List (Link × Pairs) → Pairs
listed upper [] = []
listed upper ((l, ps) ∷ leaves) = listed_leaf upper (listed upper leaves) ps

abbrev pub listed_from : Bytes → Bytes → (Link × Pairs) × List (Link × Pairs) → Pairs
listed_from lower upper ((l, ps), behind) = listed upper ((l, drop_below lower ps) ∷ behind)

unfoldable pub concat : List (Link × Pairs) → Pairs
concat [] = []
concat ((l, ps) ∷ pss) = ps ++ concat pss

concat-append : (xs ys : List (Link × Pairs)) → concat (xs ++ ys) ≡ concat xs ++ concat ys
unfolding concat
concat-append [] ys = refl
concat-append ((l, x) ∷ xs) ys =
    ap (x ++◌) (concat-append xs ys) ∙ sym (append_assoc x (concat xs) (concat ys))

mutual
  unfolding leaves leaves_of entries entries_of concat

  concat-leaves : (n : Node) → concat (leaves n) ≡ entries n
  concat-leaves (leaf pa ps) = append-nil ps
  concat-leaves (internal cs) = concat-leaves_of cs

  concat-leaves_of : (cs : Children) → concat (leaves_of cs) ≡ entries_of cs
  concat-leaves_of (last c) = concat-leaves c
  concat-leaves_of (more c k cs) =
      concat-append (leaves c) (leaves_of cs) ∙ rw (concat-leaves c, concat-leaves_of cs) refl

-- what is in front of the leaf is below the key, and what is behind it is not
abbrev pub IsReached : Bytes → Pairs → (Link × Pairs) × List (Link × Pairs) → Type 0
IsReached key ps ((l, first), behind) =
    (front : Pairs) × (front ++ (first ++ concat behind) ≡ ps)
    × Below key front
    × From key (concat behind)

From-weaken : (key k : Bytes) (ps : Pairs) → From k ps → blt key k ≡ true → From key ps
From-weaken key k [] f h = tt
From-weaken key k ((j, w) ∷ ps) f h =
    (ground (arith, blt_trans j key k, f.0), From-weaken key k ps f.1 h)

mutual
  unfolding leaves_from leaves_from_child IsNode AreNodes entries entries_of concat

  pub leaves_from-IsReached :
      (max h : ℕ) (key : Bytes) (n : Node)
      → IsNode max h n
      → IsReached key (entries n) (leaves_from key n)
  leaves_from-IsReached max h key (leaf pa ps) w = ([], append-nil ps, tt, tt)
  leaves_from-IsReached max zero key (internal cs) w = absurd w
  leaves_from-IsReached max (suc h) key (internal cs) w = leaves_from_child-IsReached max h key cs w

  leaves_from_child-IsReached :
      (max h : ℕ) (key : Bytes) (cs : Children)
      → AreNodes max h cs
      → IsReached key (entries_of cs) (leaves_from_child key cs)
  leaves_from_child-IsReached max h key (last c) w = leaves_from-IsReached max h key c w.0
  leaves_from_child-IsReached max h key (more c k cs) w = elim (Bool-cases (blt key k)) [
    | inl y ↦
        let (front, e, b, f) = leaves_from-IsReached max h key c w.0.0 in
        let first = (leaves_from key c).0.1 in
        let behind = (leaves_from key c).1 in
        let split =
          concat-append behind (leaves_of cs) ∙ ap (concat behind ++◌) (concat-leaves_of cs) in
        rw y (
          front,
          rw split (
              ap (front ++◌) (sym (append_assoc first (concat behind) (entries_of cs)))
              ∙ sym (append_assoc front (first ++ concat behind) (entries_of cs))
              ∙ ap (◌++ entries_of cs) e),
          b,
          rw split (
              From-append key (concat behind) (entries_of cs) f
                (From-weaken key k (entries_of cs) w.2 y)),
        )
    | inr n ↦
        let (front, e, b, f) = leaves_from_child-IsReached max h key cs w.3 in
        let first = (leaves_from_child key cs).0.1 in
        let behind = (leaves_from_child key cs).1 in
        rw n (
          entries c ++ front,
          append_assoc (entries c) front (first ++ concat behind) ∙ ap (entries c ++◌) e,
          Below-append key (entries c) front (Below-trans k key (entries c) w.1 n) b,
          f,
        )
  ]

listed_leaf-append :
    (upper : Bytes) (xs ys : Pairs)
    → listed_leaf upper (listed_leaf upper [] ys) xs ≡ listed_leaf upper [] (xs ++ ys)
unfolding listed_leaf
listed_leaf-append upper [] ys = refl
listed_leaf-append upper ((j, w) ∷ xs) ys =
    ap (λ rest. if blt upper j then [] else (j, w) ∷ rest) (listed_leaf-append upper xs ys)

listed-concat :
    (upper : Bytes) (pss : List (Link × Pairs))
    → listed upper pss ≡ listed_leaf upper [] (concat pss)
unfolding listed concat listed_leaf
listed-concat upper [] = refl
listed-concat upper ((l, ps) ∷ pss) =
    ap (λ next. listed_leaf upper next ps) (listed-concat upper pss)
    ∙ listed_leaf-append upper ps (concat pss)

between-above :
    (lower upper : Bytes) (j : Bytes) (ps : Pairs)
    → blt upper j ≡ true
    → IsAbove j (keys_of ps)
    → between lower upper ps ≡ []
unfolding between
between-above lower upper j [] h a = refl
between-above lower upper j ((i, w) ∷ ps) h a =
    ground (arith, blt_trans upper j i h a.0, between-above lower upper j ps h a.1)

listed_leaf-between :
    (lower upper : Bytes) (ps : Pairs)
    → From lower ps
    → IsSorted ps
    → listed_leaf upper [] ps ≡ between lower upper ps
unfolding listed_leaf between
listed_leaf-between lower upper [] f s = refl
listed_leaf-between lower upper ((j, w) ∷ ps) f s = elim (Bool-cases (blt upper j)) [
  | inl y ↦ rw (y, f.0) (sym (between-above lower upper j ps y s.0))
  | inr n ↦ rw (n, f.0) (ap (◌∷◌ (j, w)) (listed_leaf-between lower upper ps f.1 s.1))
]

between-front :
    (lower upper : Bytes) (xs ys : Pairs)
    → Below lower xs
    → between lower upper (xs ++ ys) ≡ between lower upper ys
unfolding between
between-front lower upper [] ys b = refl
between-front lower upper ((j, w) ∷ xs) ys b = rw b.0 (between-front lower upper xs ys b.1)

From-behind_key :
    (lower j w : Bytes) (ps : Pairs)
    → blt j lower ≡ false
    → IsSorted ((j, w) ∷ ps)
    → From lower ((j, w) ∷ ps)
From-behind_key lower j w ps n s = From-extend lower ((j, w) ∷ []) ps (n, tt) (omega arith) s

-- `drop_below` drops what is below, in front of what is not
drop_below-splits :
    (lower : Bytes) (ps : Pairs)
    → IsSorted ps
    → (front : Pairs) × (front ++ drop_below lower ps ≡ ps)
      × Below lower front
      × From lower (drop_below lower ps)
unfolding drop_below
drop_below-splits lower [] s = ([], refl, tt, tt)
drop_below-splits lower ((j, w) ∷ ps) s = elim (Bool-cases (blt j lower)) [
  | inl y ↦
      let (front, e, b, f) = drop_below-splits lower ps s.1 in
      rw y ((j, w) ∷ front, ap (◌∷◌ (j, w)) e, (y, b), f)
  | inr n ↦ rw n ([], refl, tt, From-behind_key lower j w ps n s)
]

pub listed_from-between :
    (lower upper : Bytes) (l : Link) (ps first : Pairs) (behind : List (Link × Pairs))
    → IsSorted ps
    → IsReached lower ps ((l, first), behind)
    → listed_from lower upper ((l, first), behind) ≡ between lower upper ps
unfolding concat
listed_from-between lower upper l ps first behind s (front, e, b, f) =
    let t : IsSorted (front ++ (first ++ concat behind)) = rw e s in
    let u = IsSorted-right front (first ++ concat behind) t in
    let (low, d, bl, fl) = drop_below-splits lower first (IsSorted-left first (concat behind) u) in
    let glue : low ++ (drop_below lower first ++ concat behind) ≡ first ++ concat behind =
      sym (append_assoc low (drop_below lower first) (concat behind)) ∙ ap (◌++ concat behind) d in
    let sorted : IsSorted (low ++ (drop_below lower first ++ concat behind)) = rw glue u in
    listed-concat upper ((l, drop_below lower first) ∷ behind)
    ∙ listed_leaf-between lower upper (drop_below lower first ++ concat behind)
        (From-append lower (drop_below lower first) (concat behind) fl f)
        (IsSorted-right low (drop_below lower first ++ concat behind) sorted)
    ∙ sym (between-front lower upper low (drop_below lower first ++ concat behind) bl)
    ∙ ap (between lower upper) glue
    ∙ sym (between-front lower upper front (first ++ concat behind) b)
    ∙ ap (between lower upper) e

pub between-reversed :
    (lower upper : Bytes) (ps : Pairs) → blt upper lower ≡ true → between lower upper ps ≡ []
unfolding between
between-reversed lower upper [] h = refl
between-reversed lower upper ((j, w) ∷ ps) h =
    ground (arith, between-reversed lower upper ps h, below_from upper lower j h)
