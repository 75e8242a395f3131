-- ===== src/Btree/Memory/Neighbours.antt =====
-- A child and its right neighbour, whose entries are shared out anew: the children stay well formed.
use go_database.Base.{
  ℕ, suc, ◌/◌, ◌≤◌, ◌<◌, ◌≡◌, refl, sym, ap, ◌∙◌, [], ◌++◌, append_assoc, append-nil, length, Bytes,
  arith,
}
use go_database.Btree.Memory.{Pairs, Node, Children, last, more, count, size}
use go_database.Btree.Memory.Entries.{
  Below, Below-extend, From-extend, Below-append, Below-right, IsSorted, IsSorted-left,
  IsSorted-right,
}
use go_database.Btree.Memory.Shape.{entries, entries_of, IsSized, IsNode, AreNodes}
use go_database.Btree.Memory.Split.{entries-nonempty}
use go_database.Btree.Memory.Removal.{head_of, with_head}
use go_database.Btree.Memory.Rebalance.{IsPair, IsMerged}

-- the entries behind those of the first child
abbrev pub rest_of : Children → Pairs
rest_of (last c) = []
rest_of (more c k cs) = entries_of cs

-- the entries may stand under the first child
abbrev pub Fits : Pairs → Children → Type 0
Fits ps (last c) = Unit
Fits ps (more c k cs) = Below k ps

pub head_of-entries : (cs : Children) → entries (head_of cs) ++ rest_of cs ≡ entries_of cs
unfolding entries_of
head_of-entries (last c) = append-nil (entries c)
head_of-entries (more c k cs) = refl

pub with_head-entries :
    (n : Node) (cs : Children) → entries_of (with_head n cs) ≡ entries n ++ rest_of cs
unfolding entries_of
with_head-entries n (last c) = sym (append-nil (entries n))
with_head-entries n (more c k cs) = refl

with_head-count : (n : Node) (cs : Children) → count (with_head n cs) ≡ count cs
unfolding count
with_head-count n (last c) = refl
with_head-count n (more c k cs) = refl

module _ (max h : ℕ) (two : 2 ≤ max) where
  pub with_head-AreNodes :
      (n : Node) (cs : Children)
      → IsNode max h n × IsSized max n
      → Fits (entries n) cs
      → AreNodes max h cs
      → AreNodes max h (with_head n cs)
  unfolding AreNodes
  with_head-AreNodes n (last c) w f v = w
  with_head-AreNodes n (more c k cs) w f v = (w, f, v.2, v.3)

  pub head_of-IsNode :
      (cs : Children)
      → AreNodes max h cs
      → (IsNode max h (head_of cs) × IsSized max (head_of cs)) × Fits (entries (head_of cs)) cs
  unfolding AreNodes
  head_of-IsNode (last c) v = (v, tt)
  head_of-IsNode (more c k cs) v = (v.0, v.1)

  Fits-append :
      (xs ys : Pairs) (cs : Children)
      → Fits ys cs
      → 0 < length ys
      → IsSorted (xs ++ ys)
      → Fits (xs ++ ys) cs
  Fits-append xs ys (last c) f n s = tt
  Fits-append xs ys (more c k cs) f n s = Below-append k xs ys (Below-extend k xs ys f n s) f

  Fits-right : (xs ys : Pairs) (cs : Children) → Fits (xs ++ ys) cs → Fits ys cs
  Fits-right xs ys (last c) f = tt
  Fits-right xs ys (more c k cs) f = Below-right k xs ys f

  -- the children after the deletion under one of `n + 1`
  abbrev pub IsSettled : ℕ → Pairs → Children → Type 0
  IsSettled n ps cs =
      AreNodes max h cs × (entries_of cs ≡ ps) × (count cs ≤ n) × (n ≤ suc (count cs))

  -- a node that has lost a key at most
  abbrev pub IsReduced : Node → Type 0
  IsReduced c = IsNode max h c × (max / 2 ≤ suc (size c)) × (size c ≤ max)

  -- the first child of `cs` with the node on its left
  beside-entries :
      (c : Node) (cs : Children)
      → (entries c ++ entries (head_of cs)) ++ rest_of cs ≡ entries c ++ entries_of cs
  beside-entries c cs =
      append_assoc (entries c) (entries (head_of cs)) (rest_of cs)
      ∙ ap (entries c ++◌) (head_of-entries cs)

  pub beside-IsSorted :
      (c : Node) (cs : Children)
      → IsSorted (entries c ++ entries_of cs)
      → IsSorted (entries c ++ entries (head_of cs))
  beside-IsSorted c cs s =
      IsSorted-left (entries c ++ entries (head_of cs)) (rest_of cs) (rw (beside-entries c cs) s)

  beside-Fits :
      (c : Node) (cs : Children)
      → AreNodes max h cs
      → IsSorted (entries c ++ entries_of cs)
      → Fits (entries c ++ entries (head_of cs)) cs
  beside-Fits c cs v s =
      let (wh, fh) = head_of-IsNode cs v in
      Fits-append (entries c) (entries (head_of cs)) cs fh
        (entries-nonempty max two h (head_of cs) wh.0 wh.1.0) (beside-IsSorted c cs s)

  -- the first child and its right neighbour hold what they held, in a pair or in one node
  pub right_pair :
      (c : Node) (cs : Children) (l : Node) (k : Bytes) (r : Node)
      → AreNodes max h cs
      → IsSorted (entries c ++ entries_of cs)
      → IsPair max h (entries c ++ entries (head_of cs)) (l, k, r)
      → IsSettled (suc (count cs)) (entries c ++ entries_of cs) (more l k (with_head r cs))
  unfolding AreNodes entries_of count
  right_pair c cs l k r v s (wl, wr, e, b, f) =
      let whole = beside-entries c cs in
      let fits = beside-Fits c cs v s in
      let fits' : Fits (entries l ++ entries r) cs = rw e fits in
      let glue : entries l ++ (entries r ++ rest_of cs) ≡ entries c ++ entries_of cs =
        sym (append_assoc (entries l) (entries r) (rest_of cs)) ∙ ap (◌++ rest_of cs) e ∙ whole in
      let s'' : IsSorted (entries l ++ (entries r ++ rest_of cs)) = rw glue s in
      let full = entries-nonempty max two h r wr.0 wr.1.0 in
      (
        (
          wl,
          b,
          rw (with_head-entries r cs) (
              From-extend k (entries r) (rest_of cs) f full
                (IsSorted-right (entries l) (entries r ++ rest_of cs) s'')),
          with_head-AreNodes r cs wr (Fits-right (entries l) (entries r) cs fits') v,
        ),
        rw (with_head-entries r cs) glue,
        rw (with_head-count r cs) (omega arith),
        rw (with_head-count r cs) (omega arith),
      )

  pub right_merged :
      (c : Node) (cs : Children) (n : Node)
      → AreNodes max h cs
      → IsSorted (entries c ++ entries_of cs)
      → IsMerged max h (entries c ++ entries (head_of cs)) n
      → IsSettled (suc (count cs)) (entries c ++ entries_of cs) (with_head n cs)
  unfolding AreNodes entries_of count
  right_merged c cs n v s (wn, e) =
      let whole = beside-entries c cs in
      let fits = beside-Fits c cs v s in
      (
        with_head-AreNodes n cs wn (rw e fits) v,
        with_head-entries n cs ∙ ap (◌++ rest_of cs) e ∙ whole,
        rw (with_head-count n cs) (omega arith),
        rw (with_head-count n cs) (omega arith),
      )
