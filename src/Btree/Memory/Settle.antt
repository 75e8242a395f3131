-- ===== src/Btree/Memory/Settle.antt =====
-- The children of a node after a deletion under one of them: the separator is refreshed, and a child
-- that is too small is rebalanced.
use go_database.Base.{
  ℕ, suc, ◌/◌, ◌≤◌, ◌<◌, refl, subst, some, [], ◌++◌, append-nil, Bytes, arith, Bool-cases, inl,
  inr, ltb, if◌then◌else◌,
}
use go_database.Base.Panic.{Returns, Returns-bind}
use go_database.Btree.Memory.{Node, Children, last, more, count, size}
use go_database.Btree.Memory.Entries.{Below, From, From-left, IsSorted, IsSorted-right}
use go_database.Btree.Memory.Shape.{entries, entries_of, IsSized, IsNode, AreNodes}
use go_database.Btree.Memory.Removal.{
  rotate_from_left, rotate_from_right, merge_nodes, head_of, with_head, rebalance_last, refresh,
  settle_first, settle_last,
}
use go_database.Btree.Memory.Rebalance.{
  IsPair, IsMerged, AreBeside, rotate_from_left-Returns, rotate_from_right-Returns,
  merge_nodes-Returns,
}
use go_database.Btree.Memory.Refresh.{refresh-Returns}
use go_database.Btree.Memory.Neighbours.{
  rest_of, head_of-entries, head_of-IsNode, IsSettled, IsReduced, beside-IsSorted, right_pair,
  right_merged,
}

module _ (max h : ℕ) (two : 2 ≤ max) where
  -- a child that has lost a key, with the entries on its right
  abbrev pub IsFirst : Node → Bytes → Children → Type 0
  IsFirst c k cs =
      IsReduced max h two c
      × AreNodes max h cs
      × Below k (entries c)
      × From k (entries_of cs)
      × IsSorted (entries c ++ entries_of cs)

  pub first-AreBeside :
      (c : Node) (k : Bytes) (cs : Children) → IsFirst c k cs → AreBeside max two h k c (head_of cs)
  first-AreBeside c k cs (w, v, b, f, s) = (
    (w.0, (head_of-IsNode max h two cs v).0.0),
    b,
    From-left k (entries (head_of cs)) (rest_of cs) (rw (head_of-entries cs) f),
    beside-IsSorted max h two c cs s,
  )

  pub settle_first-Returns :
      (c : Node) (k : Bytes) (cs : Children)
      → IsFirst c k cs
      → Returns
          (IsSettled max h two (suc (count cs)) (entries c ++ entries_of cs))
          (settle_first (max / 2) k cs c)
  unfolding AreNodes entries_of count
  settle_first-Returns c k cs first = elim (Bool-cases (ltb (size c) (max / 2))) [
    | inr n ↦ rw n (
      ((first.0.0, (ground arith, first.0.2)), first.2, first.3, first.1),
      refl,
      omega arith,
      omega arith,
    )
    | inl y ↦
        let (wh, fh) = head_of-IsNode max h two cs first.1 in
        let beside = first-AreBeside c k cs first in
        rw y (elim (Bool-cases (ltb (max / 2) (size (head_of cs)))) [
          | inl z ↦ rw z (
              Returns-bind (IsPair max h (entries c ++ entries (head_of cs)))
                (IsSettled max h two (suc (count cs)) (entries c ++ entries_of cs))
                (rotate_from_right c k (head_of cs))
                (λ (child, key, right). some (more child key (with_head right cs)))
                (rotate_from_right-Returns max two h c k (head_of cs) beside (ground arith) wh.1.1
                  (ground arith) first.0.1)
                (λ (child, key, right) e.
                  right_pair max h two c cs child key right first.1 first.4 e))
          | inr m ↦ rw m (
              Returns-bind (IsMerged max h (entries c ++ entries (head_of cs)))
                (IsSettled max h two (suc (count cs)) (entries c ++ entries_of cs))
                (merge_nodes c k (head_of cs)) (λ merged. some (with_head merged cs))
                (merge_nodes-Returns max two h c k (head_of cs) beside (omega (arith, wh.1.0))
                  (ground (arith, first.0.1)))
                (λ merged e. right_merged max h two c cs merged first.1 first.4 e))
        ])
  ]

  -- a child that has lost a key, with its left neighbour, and the key between them
  abbrev pub IsLast : Node → Bytes → Node → Type 0
  IsLast left sep c =
      (IsNode max h left × IsSized max left)
      × IsReduced max h two c
      × Below sep (entries left)
      × From sep (entries c)
      × IsSorted (entries left ++ entries c)

  last-AreBeside :
      (left : Node) (sep : Bytes) (c : Node) → IsLast left sep c → AreBeside max two h sep left c
  last-AreBeside left sep c w = ((w.0.0, w.1.0), w.2, w.3, w.4)

  rebalance_last-Returns :
      (left : Node) (sep : Bytes) (c : Node)
      → IsLast left sep c
      → size c < max / 2
      → Returns
          (IsSettled max h two 1 (entries left ++ entries c))
          (rebalance_last (max / 2) left sep c)
  unfolding AreNodes entries_of count
  rebalance_last-Returns left sep c w small = elim (Bool-cases (ltb (max / 2) (size left))) [
    | inl y ↦ rw y (
        Returns-bind (IsPair max h (entries left ++ entries c))
          (IsSettled max h two 1 (entries left ++ entries c)) (rotate_from_left left sep c)
          (λ (donor, key, child). some (more donor key (last child)))
          (rotate_from_left-Returns max two h left sep c (last-AreBeside left sep c w)
            (ground arith) w.0.1.1 small w.1.1)
          (λ (l, k, r) (wl, wr, e, b, f). ((wl, b, f, wr), e, omega arith, omega arith)))
    | inr n ↦ rw n (
        Returns-bind (IsMerged max h (entries left ++ entries c))
          (IsSettled max h two 1 (entries left ++ entries c)) (merge_nodes left sep c)
          (λ merged. some (last merged))
          (merge_nodes-Returns max two h left sep c (last-AreBeside left sep c w)
            (omega (arith, w.0.1.0)) (ground (arith, w.1.1)))
          (λ m (wm, e). (wm, e, omega arith, omega arith)))
  ]

  pub settle_last-Returns :
      (left : Node) (sep : Bytes) (c : Node)
      → IsLast left sep c
      → Returns
          (IsSettled max h two 1 (entries left ++ entries c))
          (settle_last (max / 2) left sep c)
  unfolding AreNodes entries_of count
  settle_last-Returns left sep c w =
      Returns-bind (λ key. Below key (entries left) × From key (entries c))
        (IsSettled max h two 1 (entries left ++ entries c)) (refresh sep c)
        (λ key.
          if ltb (size c) (max / 2)
          then rebalance_last (max / 2) left key c
          else some (more left key (last c)))
        (subst (λ ps. Returns (λ key. Below key (entries left) × From key ps) (refresh sep c))
          (append-nil (entries c))
          (refresh-Returns max two h (entries left) sep c [] w.1.0 w.2
            (rw (append-nil (entries c)) w.3)
            (rw (append-nil (entries c)) (IsSorted-right (entries left) (entries c) w.4))))
        (λ key (b, f). elim (Bool-cases (ltb (size c) (max / 2))) [
          | inl y ↦ rw y (rebalance_last-Returns left key c (w.0, w.1, b, f, w.4) (ground arith))
          | inr n ↦
              rw n ((w.0, b, f, (w.1.0, (ground arith, w.1.2))), refl, omega arith, omega arith)
        ])
