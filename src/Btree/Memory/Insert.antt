-- ===== src/Btree/Memory/Insert.antt =====
-- What an insertion makes of a well-formed node.
use go_database.Base.{
  ℕ, zero, suc, ◌/◌, ◌≤◌, ◌≡◌, sym, ap, ◌∙◌, some, ◌++◌, append_assoc, Bytes, blt, arith,
  Bool-cases, inl, inr,
}
use go_database.Base.Panic.{Returns, Returns-bind}
use go_database.Btree.Memory.{
  Pairs, Node, leaf, internal, Children, last, more, count, size, insert_into_leaf, Grown, whole,
  split, fit_internal, graft_last, graft, insert, insert_child,
}
use go_database.Btree.Memory.Entries.{
  Below, From, Below-right, From-append, From-chain, IsSorted, IsSorted-left, IsSorted-right,
  insert-append_left, insert-append_right, insert-Below, insert-From, insert-IsSorted,
}
use go_database.Btree.Memory.Shape.{entries, entries_of, IsNode, AreNodes}
use go_database.Btree.Memory.Split.{
  IsGrown, length-insert_into_leaf, fit_leaf-Returns, entries-nonempty, fit_internal-Returns,
}

-- the children after an insertion under one of them
IsGrafted : ℕ → ℕ → ℕ → Pairs → Children → Type 0
IsGrafted max h n ps cs =
    AreNodes max h cs × (entries_of cs ≡ ps) × (n ≤ count cs) × (count cs ≤ suc n)

module _ (max : ℕ) (two : 2 ≤ max) where
  graft_last-IsGrafted :
      (h : ℕ) (ps : Pairs) (g : Grown)
      → IsGrown max h (max / 2) ps g
      → IsGrafted max h 0 ps (graft_last g)
  unfolding IsGrafted AreNodes entries_of count
  graft_last-IsGrafted h ps (whole n) (w, e, a, b) = ((w, (a, b)), e, omega arith, omega arith)
  graft_last-IsGrafted h ps (split l s r) (wl, wr, e, b, f) =
      ((wl, b, f, wr), e, omega arith, omega arith)

  graft-IsGrafted :
      (h : ℕ) (ps : Pairs) (k : Bytes) (cs : Children) (g : Grown)
      → IsGrown max h (max / 2) ps g
      → Below k ps
      → From k (entries_of cs)
      → AreNodes max h cs
      → IsGrafted max h (suc (count cs)) (ps ++ entries_of cs) (graft g k cs)
  unfolding IsGrafted AreNodes entries_of count
  graft-IsGrafted h ps k cs (whole n) (w, e, a, b) bk fk wc =
      (((w, (a, b)), rw e bk, fk, wc), rw e, omega arith, omega arith)
  graft-IsGrafted h ps k cs (split l s r) (wl, wr, e, b, f) bk fk wc =
      let be : Below k (entries l ++ entries r) = rw e bk in
      let br = Below-right k (entries l) (entries r) be in
      let full = entries-nonempty max two h r wr.0 wr.1.0 in
      let fs =
        From-append s (entries r) (entries_of cs) f
          (From-chain s k (entries r) (entries_of cs) f br full fk) in
      (
        (wl, b, fs, (wr, br, fk, wc)),
        sym (append_assoc (entries l) (entries r) (entries_of cs)) ∙ ap (◌++ entries_of cs) e,
        omega arith,
        omega arith,
      )

  mutual
    unfolding insert insert_child IsNode AreNodes entries entries_of count IsGrafted

    -- an insertion returns, with the entries inserted in order
    pub insert-Returns :
        (h fresh low : ℕ) (key value : Bytes) (n : Node)
        → IsNode max h n
        → IsSorted (entries n)
        → low ≤ size n
        → size n ≤ max
        → Returns
            (IsGrown max h low (insert_into_leaf key value (entries n)))
            (insert max fresh key value n)
    insert-Returns zero fresh low key value (leaf pa ps) w s a b =
        let (c, d) = length-insert_into_leaf key value ps in
        fit_leaf-Returns max two fresh low pa (insert_into_leaf key value ps)
          (insert-IsSorted key value ps s) (omega arith) (omega arith)
    insert-Returns zero fresh low key value (internal cs) w s a b = absurd w
    insert-Returns (suc h) fresh low key value (leaf pa ps) w s a b = absurd w
    insert-Returns (suc h) fresh low key value (internal cs) w s a b =
        Returns-bind (IsGrafted max h (count cs) (insert_into_leaf key value (entries_of cs)))
          (IsGrown max (suc h) low (insert_into_leaf key value (entries_of cs)))
          (insert_child max fresh key value cs) (fit_internal max)
          (insert_child-Returns h fresh key value cs w s)
          (λ grown (v, e, c, d).
            rw (← e) (fit_internal-Returns max two h low grown v (omega arith) (omega arith)))

    insert_child-Returns :
        (h fresh : ℕ) (key value : Bytes) (cs : Children)
        → AreNodes max h cs
        → IsSorted (entries_of cs)
        → Returns
            (IsGrafted max h (count cs) (insert_into_leaf key value (entries_of cs)))
            (insert_child max fresh key value cs)
    insert_child-Returns h fresh key value (last c) w s =
        Returns-bind (IsGrown max h (max / 2) (insert_into_leaf key value (entries c)))
          (IsGrafted max h 0 (insert_into_leaf key value (entries c)))
          (insert max fresh key value c) (λ grown. some (graft_last grown))
          (insert-Returns h fresh (max / 2) key value c w.0 s w.1.0 w.1.1)
          (graft_last-IsGrafted h (insert_into_leaf key value (entries c)))
    insert_child-Returns h fresh key value (more c k cs) w s = elim (Bool-cases (blt key k)) [
      | inl y ↦
          rw (y, insert-append_left key value k (entries c) (entries_of cs) y w.2)
            (Returns-bind (IsGrown max h (max / 2) (insert_into_leaf key value (entries c)))
              (IsGrafted max h (suc (count cs))
                (insert_into_leaf key value (entries c) ++ entries_of cs))
              (insert max fresh key value c) (λ grown. some (graft grown k cs))
              (insert-Returns h fresh (max / 2) key value c w.0.0
                (IsSorted-left (entries c) (entries_of cs) s) w.0.1.0 w.0.1.1)
              (λ g e.
                graft-IsGrafted h (insert_into_leaf key value (entries c)) k cs g e
                  (insert-Below key value k (entries c) y w.1) w.2 w.3))
      | inr n ↦
          rw (n, insert-append_right key value k (entries c) (entries_of cs) n w.1)
            (Returns-bind (IsGrafted max h (count cs) (insert_into_leaf key value (entries_of cs)))
              (IsGrafted max h (suc (count cs))
                (entries c ++ insert_into_leaf key value (entries_of cs)))
              (insert_child max fresh key value cs) (λ rest. some (more c k rest))
              (insert_child-Returns h fresh key value cs w.3
                (IsSorted-right (entries c) (entries_of cs) s))
              (λ rest (v, e, a, b). (
                (w.0, w.1, rw e (insert-From key value k (entries_of cs) n w.2), v),
                ap (entries c ++◌) e,
                omega arith,
                omega arith,
              )))
    ]
