-- ===== src/Btree/Memory/Between.antt =====
-- A child that has lost a key and has neighbours on both sides.
use go_database.Base.{
  ℕ, suc, ◌/◌, ◌≤◌, ◌<◌, ◌≡◌, refl, sym, ap, ◌∙◌, some, ◌++◌, append_assoc, Bytes, arith,
  Bool-cases, inl, inr, ltb, if◌then◌else◌,
}
use go_database.Base.Panic.{Returns, Returns-bind}
use go_database.Btree.Memory.{Pairs, Node, Children, more, count, size}
use go_database.Btree.Memory.Entries.{
  Below, From, From-extend, Below-right, From-left, IsSorted, IsSorted-left, IsSorted-right,
}
use go_database.Btree.Memory.Shape.{entries, entries_of, IsSized, IsNode, AreNodes}
use go_database.Btree.Memory.Split.{entries-nonempty}
use go_database.Btree.Memory.Removal.{
  rotate_from_left, rotate_from_right, merge_nodes, head_of, with_head, rebalance_middle, refresh,
  settle_middle,
}
use go_database.Btree.Memory.Rebalance.{
  IsPair, IsMerged, AreBeside, rotate_from_left-Returns, rotate_from_right-Returns,
  merge_nodes-Returns,
}
use go_database.Btree.Memory.Refresh.{refresh-Returns}
use go_database.Btree.Memory.Neighbours.{head_of-IsNode, IsSettled, IsReduced, right_pair}
use go_database.Btree.Memory.Settle.{IsFirst, first-AreBeside}

module _ (max h : ℕ) (two : 2 ≤ max) where
  -- the same with children on the right
  abbrev pub IsMiddle : Node → Bytes → Node → Bytes → Children → Type 0
  IsMiddle left sep c k cs =
      ((IsNode max h left × IsSized max left) × IsReduced max h two c × AreNodes max h cs)
      × Below sep (entries left)
      × From sep (entries c ++ entries_of cs)
      × Below k (entries left ++ entries c)
      × From k (entries_of cs)
      × IsSorted (entries left ++ entries c ++ entries_of cs)

  middle-IsSorted :
      (left : Node) (sep : Bytes) (c : Node) (k : Bytes) (cs : Children)
      → IsMiddle left sep c k cs
      → IsSorted (entries left ++ (entries c ++ entries_of cs))
  middle-IsSorted left sep c k cs w =
      rw (← append_assoc (entries left) (entries c) (entries_of cs)) w.5

  middle-AreBeside :
      (left : Node) (sep : Bytes) (c : Node) (k : Bytes) (cs : Children)
      → IsMiddle left sep c k cs
      → AreBeside max two h sep left c
  middle-AreBeside left sep c k cs w = (
    (w.0.0.0, w.0.1.0),
    w.1,
    From-left sep (entries c) (entries_of cs) w.2,
    IsSorted-left (entries left ++ entries c) (entries_of cs) w.5,
  )

  middle-IsFirst :
      (left : Node) (sep : Bytes) (c : Node) (k : Bytes) (cs : Children)
      → IsMiddle left sep c k cs
      → IsFirst max h two c k cs
  middle-IsFirst left sep c k cs w = (
    w.0.1,
    w.0.2,
    Below-right k (entries left) (entries c) w.3,
    w.4,
    IsSorted-right (entries left) (entries c ++ entries_of cs) (middle-IsSorted left sep c k cs w),
  )

  -- settled children behind a left neighbour
  behind-IsSettled :
      (left : Node) (sep : Bytes) (n : ℕ) (ps : Pairs) (cs : Children)
      → IsNode max h left × IsSized max left
      → Below sep (entries left)
      → From sep ps
      → IsSettled max h two n ps cs
      → IsSettled max h two (suc n) (entries left ++ ps) (more left sep cs)
  unfolding AreNodes entries_of count
  behind-IsSettled left sep n ps cs w b f (v, e, x, y) =
      ((w, b, rw e f, v), ap (entries left ++◌) e, omega arith, omega arith)

  rebalance_middle-Returns :
      (left : Node) (sep : Bytes) (c : Node) (k : Bytes) (cs : Children)
      → IsMiddle left sep c k cs
      → size c < max / 2
      → Returns
          (IsSettled max h two
            (suc (suc (count cs)))
            (entries left ++ (entries c ++ entries_of cs)))
          (rebalance_middle (max / 2) left sep c k cs)
  unfolding AreNodes entries_of count
  rebalance_middle-Returns left sep c k cs w small = elim (Bool-cases (ltb (max / 2) (size left))) [
    | inl y ↦ rw y (
        Returns-bind (IsPair max h (entries left ++ entries c))
          (IsSettled max h two (suc (suc (count cs)))
            (entries left ++ (entries c ++ entries_of cs)))
          (rotate_from_left left sep c)
          (λ (donor, key, child). some (more donor key (more child k cs)))
          (rotate_from_left-Returns max two h left sep c (middle-AreBeside left sep c k cs w)
            (ground arith) w.0.0.1.1 small w.0.1.1)
          (λ (l, j, r) (wl, wr, e, b, f).
            let below : Below k (entries l ++ entries r) = rw e w.3 in
            let glue : entries l ++ (entries r ++ entries_of cs)
                ≡ entries left ++ (entries c ++ entries_of cs) =
              sym (append_assoc (entries l) (entries r) (entries_of cs))
              ∙ ap (◌++ entries_of cs) e
              ∙ append_assoc (entries left) (entries c) (entries_of cs) in
            let sorted : IsSorted (entries l ++ (entries r ++ entries_of cs)) =
              rw glue (middle-IsSorted left sep c k cs w) in
            let full = entries-nonempty max two h r wr.0 wr.1.0 in
            (
              (
                wl,
                b,
                From-extend j (entries r) (entries_of cs) f full
                    (IsSorted-right (entries l) (entries r ++ entries_of cs) sorted),
                (wr, Below-right k (entries l) (entries r) below, w.4, w.0.2),
              ),
              glue,
              omega arith,
              omega arith,
            )))
    | inr n ↦ rw n (elim (Bool-cases (ltb (max / 2) (size (head_of cs)))) [
      | inl y ↦
          let (wh, fh) = head_of-IsNode max h two cs w.0.2 in
          let first = middle-IsFirst left sep c k cs w in
          rw y (
            Returns-bind (IsPair max h (entries c ++ entries (head_of cs)))
              (IsSettled max h two (suc (suc (count cs)))
                (entries left ++ (entries c ++ entries_of cs)))
              (rotate_from_right c k (head_of cs))
              (λ (child, key, right). some (more left sep (more child key (with_head right cs))))
              (rotate_from_right-Returns max two h c k (head_of cs)
                (first-AreBeside max h two c k cs first) (ground arith) wh.1.1 small w.0.1.1)
              (λ (child, key, right) e.
                behind-IsSettled left sep (suc (count cs)) (entries c ++ entries_of cs)
                  (more child key (with_head right cs)) w.0.0 w.1 w.2
                  (right_pair max h two c cs child key right w.0.2 first.4 e)))
      | inr m ↦ rw m (
          Returns-bind (IsMerged max h (entries left ++ entries c))
            (IsSettled max h two (suc (suc (count cs)))
              (entries left ++ (entries c ++ entries_of cs)))
            (merge_nodes left sep c) (λ merged. some (more merged k cs))
            (merge_nodes-Returns max two h left sep c (middle-AreBeside left sep c k cs w)
              (omega (arith, w.0.0.1.0)) (ground (arith, w.0.1.1)))
            (λ merged (wm, e). (
              (wm, rw e w.3, w.4, w.0.2),
              ap (◌++ entries_of cs) e ∙ append_assoc (entries left) (entries c) (entries_of cs),
              omega arith,
              omega arith,
            )))
    ])
  ]

  pub settle_middle-Returns :
      (left : Node) (sep : Bytes) (c : Node) (k : Bytes) (cs : Children)
      → IsMiddle left sep c k cs
      → Returns
          (IsSettled max h two
            (suc (suc (count cs)))
            (entries left ++ (entries c ++ entries_of cs)))
          (settle_middle (max / 2) left sep k cs c)
  unfolding AreNodes entries_of count
  settle_middle-Returns left sep c k cs w =
      Returns-bind (λ key. Below key (entries left) × From key (entries c ++ entries_of cs))
        (IsSettled max h two (suc (suc (count cs))) (entries left ++ (entries c ++ entries_of cs)))
        (refresh sep c)
        (λ key.
          if ltb (size c) (max / 2)
          then rebalance_middle (max / 2) left key c k cs
          else some (more left key (more c k cs)))
        (refresh-Returns max two h (entries left) sep c (entries_of cs) w.0.1.0 w.1 w.2
          (middle-IsFirst left sep c k cs w).4)
        (λ key (b, f). elim (Bool-cases (ltb (size c) (max / 2))) [
          | inl y ↦
              rw y
                (rebalance_middle-Returns left key c k cs (w.0, b, f, w.3, w.4, w.5) (ground arith))
          | inr n ↦ rw n (
            (
              w.0.0,
              b,
              f,
              (
                (w.0.1.0, (ground arith, w.0.1.2)),
                Below-right k (entries left) (entries c) w.3,
                w.4,
                w.0.2,
              ),
            ),
            refl,
            omega arith,
            omega arith,
          )
        ])
