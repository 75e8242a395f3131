-- ===== src/Btree/Memory/Split.antt =====
-- The halves of a node that is split: `splitLeaf` and `splitInternal`.
use go_database.Base.{
  ℕ, zero, suc, ◌+◌, ◌-◌, ◌/◌, ◌≤◌, ◌<◌, ◌≡◌, refl, ap, ◌∙◌, some, [], ◌∷◌, ◌++◌, append_assoc, leb,
  length, take, drop, take-append-drop, length-take, length-drop, min, Bytes, length-append, arith,
  Bool-cases, inl, inr,
}
use go_database.Base.Panic.{Returns, Returns-bind}
use go_database.Btree.Memory.{
  Pairs, Link, Node, leaf, internal, Children, last, more, count, size, insert_into_leaf, Grown,
  whole, split, split_leaf_at, split_leaf, split_children, split_internal, fit_leaf, fit_internal,
}
use go_database.Btree.Memory.Entries.{
  Below, From, Below-append, Below-chain, From-left, IsSorted, Below-before, From-behind,
}
use go_database.Btree.Memory.Shape.{entries, entries_of, IsSized, IsNode, AreNodes}

-- a node that has grown: its entries, its shape, and, where it was split, sized halves
abbrev pub IsGrown : ℕ → ℕ → ℕ → Pairs → Grown → Type 0
IsGrown max h low ps (whole n) = IsNode max h n × (entries n ≡ ps) × (low ≤ size n) × (size n ≤ max)
IsGrown max h low ps (split l k r) =
    (IsNode max h l × IsSized max l)
    × (IsNode max h r × IsSized max r)
    × (entries l ++ entries r ≡ ps)
    × Below k (entries l)
    × From k (entries r)

pub length-insert_into_leaf :
    (key value : Bytes) (ps : Pairs)
    → (length ps ≤ length (insert_into_leaf key value ps))
      × (length (insert_into_leaf key value ps) ≤ suc (length ps))
unfolding insert_into_leaf
length-insert_into_leaf key value [] = (ground arith, ground arith)
length-insert_into_leaf key value ((j, w) ∷ ps) =
    let (a, b) = length-insert_into_leaf key value ps in (ground arith, ground arith)

module _ (max : ℕ) (two : 2 ≤ max) where
  pub fit_leaf-Returns :
      (fresh low : ℕ) (pa : Link) (ps : Pairs)
      → IsSorted ps
      → low ≤ length ps
      → length ps ≤ suc max
      → Returns (IsGrown max zero low ps) (fit_leaf max fresh pa ps)
  unfolding split_leaf IsNode entries
  fit_leaf-Returns fresh low pa ps s a b = elim (Bool-cases (leb (length ps) max)) [
    | inl y ↦ rw y (tt, refl, a, ground arith)
    | inr n ↦ rw n (
        halves (take (length ps / 2) ps) (drop (length ps / 2) ps)
          (take-append-drop (length ps / 2) ps) (length-take (length ps / 2) ps)
          (length-drop (length ps / 2) ps) (ground arith))
  ]
    where
      halves :
          (l r : Pairs)
          → l ++ r ≡ ps
          → length l ≡ min (length ps / 2) (length ps)
          → length r ≡ length ps - length ps / 2
          → length ps ≡ suc max
          → Returns (IsGrown max zero low ps) (split_leaf_at fresh pa l r)
      halves l [] e x y z = ground arith
      halves l ((k, v) ∷ r) e x y z =
          let t : IsSorted (l ++ (k, v) ∷ r) = rw e s in
          (
            (tt, (omega arith, omega arith)),
            (tt, (omega arith, omega arith)),
            e,
            Below-before l k v r t,
            From-behind l k v r t,
          )

module _ (max : ℕ) (two : 2 ≤ max) where
  mutual
    unfolding IsNode AreNodes entries entries_of count

    pub entries-nonempty :
        (h : ℕ) (n : Node) → IsNode max h n → max / 2 ≤ size n → 0 < length (entries n)
    entries-nonempty zero (leaf pa ps) w a = omega arith
    entries-nonempty zero (internal cs) w a = absurd w
    entries-nonempty (suc h) (leaf pa ps) w a = absurd w
    entries-nonempty (suc h) (internal cs) w a = entries_of-nonempty h cs w

    pub entries_of-nonempty :
        (h : ℕ) (cs : Children) → AreNodes max h cs → 0 < length (entries_of cs)
    entries_of-nonempty h (last c) w = entries-nonempty h c w.0 w.1.0
    entries_of-nonempty h (more c k cs) w =
        let e = entries-nonempty h c w.0.0 w.0.1.0 in
        let f = length-append (entries c) (entries_of cs) in omega arith

  -- what is left and right of the key that moves up
  AreHalves : ℕ → ℕ → Children → Children × Bytes × Children → Type 0
  AreHalves h i cs (l, k, r) =
      ((count l ≡ i) × (count r + suc i ≡ count cs))
      × (AreNodes max h l × AreNodes max h r)
      × (entries_of l ++ entries_of r ≡ entries_of cs)
      × Below k (entries_of l)
      × From k (entries_of r)

  split_children-Returns :
      (h i : ℕ) (cs : Children)
      → AreNodes max h cs
      → i < count cs
      → Returns (AreHalves h i cs) (split_children i cs)
  unfolding split_children count AreNodes entries_of AreHalves
  split_children-Returns h i (last c) w a = ground arith
  split_children-Returns h zero (more c k cs) w a =
      ((refl, omega arith), (w.0, w.3), refl, w.1, w.2)
  split_children-Returns h (suc i) (more c k cs) w a =
      Returns-bind (AreHalves h i cs) (AreHalves h (suc i) (more c k cs)) (split_children i cs)
        (λ (l, p, r). some (more c k l, p, r)) (split_children-Returns h i cs w.3 (omega arith))
        (λ (l, p, r) e.
          let f : From k (entries_of l ++ entries_of r) = rw (e.2) (w.2) in
          let g = From-left k (entries_of l) (entries_of r) f in
          let b =
            Below-chain k p (entries c) (entries_of l) w.1 g e.3 (entries_of-nonempty h l e.1.0) in
          (
            (ap suc e.0.0, omega (arith, e.0.1)),
            ((w.0, w.1, g, e.1.0), e.1.1),
            append_assoc (entries c) (entries_of l) (entries_of r) ∙ ap (entries c ++◌) e.2,
            Below-append p (entries c) (entries_of l) b e.3,
            e.4,
          ))

  pub fit_internal-Returns :
      (h low : ℕ) (cs : Children)
      → AreNodes max h cs
      → low ≤ count cs
      → count cs ≤ suc max
      → Returns (IsGrown max (suc h) low (entries_of cs)) (fit_internal max cs)
  unfolding split_internal IsNode entries count AreHalves
  fit_internal-Returns h low cs w a b = elim (Bool-cases (leb (count cs) max)) [
    | inl y ↦ rw y (w, refl, a, ground arith)
    | inr n ↦
        let z : count cs ≡ suc max = ground arith in
        rw n (
          Returns-bind (AreHalves h (count cs / 2) cs) (IsGrown max (suc h) low (entries_of cs))
            (split_children (count cs / 2) cs)
            (λ (l, p, r). some (split (internal l) p (internal r)))
            (split_children-Returns h (count cs / 2) cs w (omega arith))
            (λ (l, p, r) e. (
              (e.1.0, (omega (arith, e.0.0), omega (arith, e.0.0))),
              (e.1.1, (omega (arith, e.0.1), omega (arith, e.0.1))),
              e.2,
              e.3,
              e.4,
            )))
  ]
