-- ===== src/Btree/Memory/Delete.antt =====
-- A deletion from a well-formed node.
use go_database.Base.{
  ℕ, zero, suc, ◌/◌, ◌≤◌, ◌<◌, ◌≡◌, refl, sym, subst, ap, ◌∙◌, true, false, Option, none, some,
  ◌++◌, append_assoc, length, Bytes, blt, arith, Bool-cases, inl, inr,
}
use go_database.Base.Panic.{◌>>=◌, Returns, Returns-bind, Returns-weaken}
use go_database.Btree.Memory.{Link, Pairs, Node, leaf, internal, Children, last, more, count, size}
use go_database.Btree.Memory.Entries.{
  Below, From, Below-chain, Below-append, From-left, IsSorted, IsSorted-left, IsSorted-right,
}
use go_database.Btree.Memory.Shape.{entries, entries_of, IsNode, AreNodes}
use go_database.Btree.Memory.Split.{entries-nonempty}
use go_database.Btree.Memory.Removal.{
  Erased, missing, removed, on_removed, delete_from_leaf, erased_leaf, delete_from_node,
  delete_child, delete_behind, settle_first, settle_last, settle_middle,
}
use go_database.Btree.Memory.Erase.{
  Remains, behind, before, delete-append_left, delete-append_right, delete-Below, delete-From,
  delete-IsSorted, length-delete,
}
use go_database.Btree.Memory.Neighbours.{IsSettled}
use go_database.Btree.Memory.Settle.{settle_first-Returns, settle_last-Returns}
use go_database.Btree.Memory.Between.{IsMiddle, settle_middle-Returns}

-- nothing is deleted and `M` holds, or what is left satisfies `P`
abbrev pub Whether : {A : Type 0} → Type 0 → (A → Type 0) → Erased A → Type 0
Whether M P missing = M
Whether M P (removed a) = P a

pub on_removed-Returns :
    {A B : Type 0} (M N : Type 0) (P : A → Type 0) (Q : B → Type 0) (o : Option (Erased A))
    (f : A → Option B)
    → Returns (Whether M P) o
    → (M → N)
    → ((a : A) → P a → Returns Q (f a))
    → Returns (Whether N Q) (o >>= λ r. on_removed r f)
on_removed-Returns M N P Q none f r g k = absurd r
on_removed-Returns M N P Q (some missing) f r g k = g r
on_removed-Returns M N P Q (some (removed a)) f r g k =
    Returns-bind Q (Whether N Q) (f a) (λ b. some (removed b)) (k a r) (λ b q. q)

-- the sorted list `ps` without `key`, if it is there
abbrev pub Erases : Bytes → Pairs → Pairs → Type 0
Erases key ps qs = delete_from_leaf key ps ≡ removed qs

module _ (key : Bytes) (ps qs : Pairs) (e : Erases key ps qs) where
  Erases-Below : (k : Bytes) → Below k ps → Below k qs
  Erases-Below k b = subst (Remains (Below k)) e (delete-Below key k ps b)

  Erases-From : (k : Bytes) → From k ps → From k qs
  Erases-From k f = subst (Remains (From k)) e (delete-From key k ps f)

  pub Erases-IsSorted : IsSorted ps → IsSorted qs
  Erases-IsSorted s = subst (Remains IsSorted) e (delete-IsSorted key ps s)

  Erases-length : suc (length qs) ≡ length ps
  Erases-length = subst (Remains (λ rs. suc (length rs) ≡ length ps)) e (length-delete key ps)

module _ (max : ℕ) (two : 2 ≤ max) where
  -- a deletion from a node, and from the children of a node
  abbrev pub IsDeleted : ℕ → Bytes → Node → Erased Node → Type 0
  IsDeleted h key n = Whether (delete_from_leaf key (entries n) ≡ missing) (λ m.
      Erases key (entries n) (entries m)
      × IsNode max h m
      × (size n ≤ suc (size m))
      × (size m ≤ size n))

  abbrev pub AreDeleted : ℕ → Bytes → Children → Erased Children → Type 0
  AreDeleted h key cs = Whether (delete_from_leaf key (entries_of cs) ≡ missing) (λ ds.
      Erases key (entries_of cs) (entries_of ds)
      × AreNodes max h ds
      × (count cs ≤ suc (count ds))
      × (count ds ≤ count cs))

  leaf-IsDeleted :
      (key : Bytes) (pa : Link) (ps : Pairs)
      → IsDeleted zero key (leaf pa ps) (erased_leaf pa (delete_from_leaf key ps))
  unfolding IsNode entries
  leaf-IsDeleted key pa ps = by_case (delete_from_leaf key ps) refl
    where
      by_case :
          (r : Erased Pairs)
          → delete_from_leaf key ps ≡ r
          → IsDeleted zero key (leaf pa ps) (erased_leaf pa r)
      by_case missing e = e
      by_case (removed qs) e =
          let n = Erases-length key ps qs e in (e, tt, omega arith, omega arith)

  -- the entries after a deletion in the first child, and in a child behind the first
  first-Erases :
      (key k : Bytes) (xs ys qs : Pairs)
      → blt key k ≡ true
      → From k ys
      → Erases key xs qs
      → Erases key (xs ++ ys) (qs ++ ys)
  first-Erases key k xs ys qs y f e = delete-append_left key k xs ys y f ∙ ap (λ r. behind r ys) e

  behind-Erases :
      (key k : Bytes) (xs ys qs : Pairs)
      → blt key k ≡ false
      → Below k xs
      → Erases key ys qs
      → Erases key (xs ++ ys) (xs ++ qs)
  behind-Erases key k xs ys qs n b e = delete-append_right key k xs ys n b ∙ ap (before xs) e

  settled-AreDeleted :
      (h n : ℕ) (key : Bytes) (cs : Children) (qs : Pairs) (ds : Children)
      → Erases key (entries_of cs) qs
      → n ≡ count cs
      → IsSettled max h two n qs ds
      → AreDeleted h key cs (removed ds)
  settled-AreDeleted h n key cs qs ds e c (v, p, x, y) =
      (e ∙ ap removed (sym p), v, omega arith, omega arith)

  -- the child has lost a key
  deleted-IsMiddle :
      (h : ℕ) (key : Bytes) (left : Node) (sep : Bytes) (c : Node) (k : Bytes) (cs : Children)
      (m : Node)
      → AreNodes max h (more left sep (more c k cs))
      → IsNode max h m
      → size c ≤ suc (size m)
      → size m ≤ size c
      → Erases key (entries c) (entries m)
      → Erases key
          (entries left ++ (entries c ++ entries_of cs))
          (entries left ++ (entries m ++ entries_of cs))
      → Erases key (entries c ++ entries_of cs) (entries m ++ entries_of cs)
      → IsSorted (entries left ++ (entries c ++ entries_of cs))
      → IsMiddle max h two left sep m k cs
  unfolding AreNodes entries_of
  deleted-IsMiddle h key left sep c k cs m w v p q e whole near s =
      let wc = w.3.0 in
      let bk =
        Below-chain sep k (entries left) (entries c) w.1
          (From-left sep (entries c) (entries_of cs) w.2) w.3.1
          (entries-nonempty max two h c wc.0 wc.1.0) in
      (
        (w.0, (v, omega (arith, wc.1.0), omega (arith, wc.1.1)), w.3.3),
        w.1,
        Erases-From key (entries c ++ entries_of cs) (entries m ++ entries_of cs) near sep w.2,
        Below-append k (entries left) (entries m) bk
            (Erases-Below key (entries c) (entries m) e k w.3.1),
        w.3.2,
        rw (append_assoc (entries left) (entries m) (entries_of cs)) (
            Erases-IsSorted key (entries left ++ (entries c ++ entries_of cs))
              (entries left ++ (entries m ++ entries_of cs)) whole s),
      )

  mutual
    unfolding delete_from_node delete_child delete_behind IsNode AreNodes entries entries_of count

    pub delete_from_node-Returns :
        (h : ℕ) (key : Bytes) (n : Node)
        → IsNode max h n
        → IsSorted (entries n)
        → 0 < size n
        → Returns (IsDeleted h key n) (delete_from_node (max / 2) key n)
    delete_from_node-Returns zero key (leaf pa ps) w s a = leaf-IsDeleted key pa ps
    delete_from_node-Returns zero key (internal cs) w s a = absurd w
    delete_from_node-Returns (suc h) key (leaf pa ps) w s a = absurd w
    delete_from_node-Returns (suc h) key (internal cs) w s a =
        on_removed-Returns (delete_from_leaf key (entries_of cs) ≡ missing)
          (delete_from_leaf key (entries_of cs) ≡ missing) (λ ds. AreDeleted h key cs (removed ds))
          (λ m. IsDeleted (suc h) key (internal cs) (removed m)) (delete_child (max / 2) key cs)
          (λ children. some (internal children)) (delete_child-Returns h key cs w s a) (λ e. e)
          (λ ds e. e)

    delete_child-Returns :
        (h : ℕ) (key : Bytes) (cs : Children)
        → AreNodes max h cs
        → IsSorted (entries_of cs)
        → 0 < count cs
        → Returns (AreDeleted h key cs) (delete_child (max / 2) key cs)
    delete_child-Returns h key (last c) w s a = ground arith
    delete_child-Returns h key (more c k cs) w s a = elim (Bool-cases (blt key k)) [
      | inl y ↦ rw y (
          on_removed-Returns (delete_from_leaf key (entries c) ≡ missing)
            (delete_from_leaf key (entries c ++ entries_of cs) ≡ missing)
            (λ m. IsDeleted h key c (removed m)) (λ ds. AreDeleted h key (more c k cs) (removed ds))
            (delete_from_node (max / 2) key c) (settle_first (max / 2) k cs)
            (delete_from_node-Returns h key c w.0.0 (IsSorted-left (entries c) (entries_of cs) s)
              (omega (arith, w.0.1.0)))
            (λ e.
              delete-append_left key k (entries c) (entries_of cs) y w.2
              ∙ ap (λ r. behind r (entries_of cs)) e)
            (λ m (e, v, p, q).
              let whole = first-Erases key k (entries c) (entries_of cs) (entries m) y w.2 e in
              Returns-weaken (IsSettled max h two (suc (count cs)) (entries m ++ entries_of cs))
                (λ ds. AreDeleted h key (more c k cs) (removed ds)) (settle_first (max / 2) k cs m)
                (settle_first-Returns max h two m k cs (
                  (v, omega (arith, w.0.1.0), omega (arith, w.0.1.1)),
                  w.3,
                  Erases-Below key (entries c) (entries m) e k w.1,
                  w.2,
                  Erases-IsSorted key (entries c ++ entries_of cs) (entries m ++ entries_of cs)
                      whole s,
                ))
                (λ ds.
                  settled-AreDeleted h (suc (count cs)) key (more c k cs)
                    (entries m ++ entries_of cs) ds whole refl)))
      | inr n ↦ rw n (delete_behind-Returns h key c k cs w s n)
    ]

    delete_behind-Returns :
        (h : ℕ) (key : Bytes) (left : Node) (sep : Bytes) (cs : Children)
        → AreNodes max h (more left sep cs)
        → IsSorted (entries_of (more left sep cs))
        → blt key sep ≡ false
        → Returns (AreDeleted h key (more left sep cs)) (delete_behind (max / 2) key left sep cs)
    delete_behind-Returns h key left sep (last c) w s n =
        on_removed-Returns (delete_from_leaf key (entries c) ≡ missing)
          (delete_from_leaf key (entries left ++ entries c) ≡ missing)
          (λ m. IsDeleted h key c (removed m))
          (λ ds. AreDeleted h key (more left sep (last c)) (removed ds))
          (delete_from_node (max / 2) key c) (settle_last (max / 2) left sep)
          (delete_from_node-Returns h key c w.3.0 (IsSorted-right (entries left) (entries c) s)
            (omega (arith, w.3.1.0)))
          (λ e.
            delete-append_right key sep (entries left) (entries c) n w.1
            ∙ ap (before (entries left)) e)
          (λ m (e, v, p, q).
            let whole = behind-Erases key sep (entries left) (entries c) (entries m) n w.1 e in
            Returns-weaken (IsSettled max h two 1 (entries left ++ entries m))
              (λ ds. AreDeleted h key (more left sep (last c)) (removed ds))
              (settle_last (max / 2) left sep m)
              (settle_last-Returns max h two left sep m (
                w.0,
                (v, omega (arith, w.3.1.0), omega (arith, w.3.1.1)),
                w.1,
                Erases-From key (entries c) (entries m) e sep w.2,
                Erases-IsSorted key (entries left ++ entries c) (entries left ++ entries m) whole s,
              ))
              (λ ds.
                settled-AreDeleted h 1 key (more left sep (last c)) (entries left ++ entries m) ds
                  whole refl))
    delete_behind-Returns h key left sep (more c k cs) w s n = elim (Bool-cases (blt key k)) [
      | inl y ↦ rw y (
          on_removed-Returns (delete_from_leaf key (entries c) ≡ missing)
            (delete_from_leaf key (entries left ++ (entries c ++ entries_of cs)) ≡ missing)
            (λ m. IsDeleted h key c (removed m))
            (λ ds. AreDeleted h key (more left sep (more c k cs)) (removed ds))
            (delete_from_node (max / 2) key c) (settle_middle (max / 2) left sep k cs)
            (delete_from_node-Returns h key c w.3.0.0
              (IsSorted-left (entries c) (entries_of cs)
                (IsSorted-right (entries left) (entries c ++ entries_of cs) s))
              (omega (arith, w.3.0.1.0)))
            (λ e.
              delete-append_right key sep (entries left) (entries c ++ entries_of cs) n w.1
              ∙ ap (before (entries left)) (
                  delete-append_left key k (entries c) (entries_of cs) y w.3.2
                  ∙ ap (λ r. behind r (entries_of cs)) e))
            (λ m (e, v, p, q).
              let near = first-Erases key k (entries c) (entries_of cs) (entries m) y w.3.2 e in
              let whole =
                behind-Erases key sep (entries left) (entries c ++ entries_of cs)
                  (entries m ++ entries_of cs) n w.1 near in
              Returns-weaken
                (IsSettled max h two (suc (suc (count cs)))
                  (entries left ++ (entries m ++ entries_of cs)))
                (λ ds. AreDeleted h key (more left sep (more c k cs)) (removed ds))
                (settle_middle (max / 2) left sep k cs m)
                (settle_middle-Returns max h two left sep m k cs
                  (deleted-IsMiddle h key left sep c k cs m w v p q e whole near s))
                (λ ds.
                  settled-AreDeleted h (suc (suc (count cs))) key (more left sep (more c k cs))
                    (entries left ++ (entries m ++ entries_of cs)) ds whole refl)))
      | inr z ↦ rw z (
          on_removed-Returns (delete_from_leaf key (entries c ++ entries_of cs) ≡ missing)
            (delete_from_leaf key (entries left ++ (entries c ++ entries_of cs)) ≡ missing)
            (λ ds. AreDeleted h key (more c k cs) (removed ds))
            (λ ds. AreDeleted h key (more left sep (more c k cs)) (removed ds))
            (delete_behind (max / 2) key c k cs) (λ children. some (more left sep children))
            (delete_behind-Returns h key c k cs w.3
              (IsSorted-right (entries left) (entries c ++ entries_of cs) s) z)
            (λ e.
              delete-append_right key sep (entries left) (entries c ++ entries_of cs) n w.1
              ∙ ap (before (entries left)) e)
            (λ ds (e, v, p, q). (
              behind-Erases key sep (entries left) (entries c ++ entries_of cs) (entries_of ds) n
                  w.1 e,
              (w.0, w.1, Erases-From key (entries c ++ entries_of cs) (entries_of ds) e sep w.2, v),
              omega arith,
              omega arith,
            )))
    ]
