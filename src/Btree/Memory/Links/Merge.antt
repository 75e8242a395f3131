-- ===== src/Btree/Memory/Links/Merge.antt =====
-- `delete` keeps the chain of the leaves: a leaf that is merged with the one on its right points to
-- where that pointed.
use go_database.Base.{
  ℕ, ◌≡◌, refl, sym, ap, ◌∙◌, some, List, [], ◌∷◌, ◌++◌, append_assoc, append-nil, ltb, Bytes,
  Bool-cases, inl, inr,
}
use go_database.Base.Panic.{WhenReturns, WhenReturns-bind, WhenReturns-any}
use go_database.Btree.Memory.{Link, Node, leaf, internal, Children, last, more, size}
use go_database.Btree.Memory.Links.{
  links, links_of, Replaces, Replaces-left, Replaces-equal, merge-Replaces,
}
use go_database.Btree.Memory.Removal.{
  split_last, split_last_child, append_children, rotate_from_left, rotate_from_right, merge_nodes,
  head_of, with_head, rebalance_first, rebalance_last, rebalance_middle,
}

split_last_child-links :
    (cs : Children)
    → WhenReturns (λ (init, k, d). links_of init ++ links d ≡ links_of cs) (split_last_child cs)
unfolding split_last_child links_of
split_last_child-links (last c) = tt
split_last_child-links (more c k (last d)) = refl
split_last_child-links (more c k (more d j cs)) =
    WhenReturns-bind (λ (init, i, e). links_of init ++ links e ≡ links_of (more d j cs))
      (λ (init, i, e). links_of init ++ links e ≡ links c ++ links_of (more d j cs))
      (split_last_child (more d j cs)) (λ (init, key, child). some (more c k init, key, child))
      (split_last_child-links (more d j cs))
      (λ (init, i, e) h. append_assoc (links c) (links_of init) (links e) ∙ ap (links c ++◌) h)

append_children-links :
    (cs : Children) (k : Bytes) (ds : Children)
    → links_of (append_children cs k ds) ≡ links_of cs ++ links_of ds
unfolding append_children links_of
append_children-links (last c) k ds = refl
append_children-links (more c j cs) k ds =
    ap (links c ++◌) (append_children-links cs k ds)
    ∙ sym (append_assoc (links c) (links_of cs) (links_of ds))

-- two siblings and what is left of them have the same leaves
abbrev SameLinks : Node → Node → Node × Bytes × Node → Type 0
SameLinks l r (a, k, b) = links a ++ links b ≡ links l ++ links r

rotate_from_left-links :
    (l : Node) (sep : Bytes) (c : Node) → WhenReturns (SameLinks l c) (rotate_from_left l sep c)
unfolding rotate_from_left links links_of
rotate_from_left-links (leaf la ls) sep (leaf pa ps) =
    WhenReturns-bind (λ r. Unit {0}) (SameLinks (leaf la ls) (leaf pa ps)) (split_last ls)
      (λ (init, key, value). some (leaf la init, key, leaf pa ((key, value) ∷ ps)))
      (WhenReturns-any (split_last ls)) (λ (init, key, value) u. refl)
rotate_from_left-links (internal ls) sep (internal cs) =
    WhenReturns-bind (λ (init, k, d). links_of init ++ links d ≡ links_of ls)
      (SameLinks (internal ls) (internal cs)) (split_last_child ls)
      (λ (init, key, child). some (internal init, key, internal (more child sep cs)))
      (split_last_child-links ls)
      (λ (init, k, d) h.
        sym (append_assoc (links_of init) (links d) (links_of cs)) ∙ ap (◌++ links_of cs) h)
rotate_from_left-links (leaf la ls) sep (internal cs) = tt
rotate_from_left-links (internal ls) sep (leaf pa ps) = tt

rotate_from_right-links :
    (c : Node) (sep : Bytes) (r : Node) → WhenReturns (SameLinks c r) (rotate_from_right c sep r)
unfolding rotate_from_right links links_of
rotate_from_right-links (leaf pa ps) sep (leaf ra []) = tt
rotate_from_right-links (leaf pa ps) sep (leaf ra (p ∷ [])) = tt
rotate_from_right-links (leaf pa ps) sep (leaf ra (p ∷ (k, v) ∷ rs)) = refl
rotate_from_right-links (internal cs) sep (internal (last c)) = tt
rotate_from_right-links (internal cs) sep (internal (more c k rs)) =
    ap (◌++ links_of rs) (append_children-links cs sep (last c))
    ∙ append_assoc (links_of cs) (links c) (links_of rs)
rotate_from_right-links (leaf pa ps) sep (internal rs) = tt
rotate_from_right-links (internal cs) sep (leaf ra rs) = tt

-- the leaves behind those of the first child
abbrev links_behind : Children → List Link
links_behind (last c) = []
links_behind (more c k cs) = links_of cs

head_of-links : (cs : Children) → links_of cs ≡ links (head_of cs) ++ links_behind cs
unfolding links_of
head_of-links (last c) = sym (append-nil (links c))
head_of-links (more c k cs) = refl

with_head-links :
    (n : Node) (cs : Children) → links_of (with_head n cs) ≡ links n ++ links_behind cs
unfolding links_of
with_head-links n (last c) = sym (append-nil (links n))
with_head-links n (more c k cs) = refl

module _ (b : ℕ) where
  merge_nodes-Replaces :
      (l : Node) (sep : Bytes) (r : Node)
      → WhenReturns (λ m. Replaces b b (links l ++ links r) (links m)) (merge_nodes l sep r)
  unfolding merge_nodes links
  merge_nodes-Replaces (leaf la ls) sep (leaf ra rs) = merge-Replaces b la ra
  merge_nodes-Replaces (internal ls) sep (internal rs) =
      Replaces-equal b (links_of ls ++ links_of rs) (links_of (append_children ls sep rs))
        (sym (append_children-links ls sep rs))
  merge_nodes-Replaces (leaf la ls) sep (internal rs) = tt
  merge_nodes-Replaces (internal ls) sep (leaf ra rs) = tt

  -- children that may stand in the place of the leaves `xs`
  unfoldable pub Settled : List Link → Children → Type 0
  Settled xs ds = Replaces b b xs (links_of ds)

  pub rebalance_first-Settled :
      (least : ℕ) (c : Node) (k : Bytes) (cs : Children)
      → WhenReturns (Settled (links c ++ links_of cs)) (rebalance_first least c k cs)
  unfolding Settled links_of
  rebalance_first-Settled least c k cs =
      let r = head_of cs in
      let whole : (links c ++ links r) ++ links_behind cs ≡ links c ++ links_of cs =
        append_assoc (links c) (links r) (links_behind cs)
        ∙ ap (links c ++◌) (sym (head_of-links cs)) in
      elim (Bool-cases (ltb least (size r))) [
        | inl y ↦ rw y (
            WhenReturns-bind (SameLinks c r) (Settled (links c ++ links_of cs))
              (rotate_from_right c k r)
              (λ (child, key, right). some (more child key (with_head right cs)))
              (rotate_from_right-links c k r)
              (λ (child, key, right) e.
                Replaces-equal b (links c ++ links_of cs)
                  (links child ++ links_of (with_head right cs))
                  (sym (
                    ap (links child ++◌) (with_head-links right cs)
                    ∙ sym (append_assoc (links child) (links right) (links_behind cs))
                    ∙ ap (◌++ links_behind cs) e
                    ∙ whole))))
        | inr n ↦ rw n (
            WhenReturns-bind (λ m. Replaces b b (links c ++ links r) (links m))
              (Settled (links c ++ links_of cs)) (merge_nodes c k r)
              (λ merged. some (with_head merged cs)) (merge_nodes-Replaces c k r)
              (λ m p.
                rw (with_head-links m cs, ← whole)
                  (Replaces-left b b (links c ++ links r) (links m) (links_behind cs) p)))
      ]

  pub rebalance_last-Settled :
      (least : ℕ) (left : Node) (sep : Bytes) (c : Node)
      → WhenReturns (Settled (links left ++ links c)) (rebalance_last least left sep c)
  unfolding Settled links_of
  rebalance_last-Settled least left sep c = elim (Bool-cases (ltb least (size left))) [
    | inl y ↦ rw y (
        WhenReturns-bind (SameLinks left c) (Settled (links left ++ links c))
          (rotate_from_left left sep c) (λ (donor, key, child). some (more donor key (last child)))
          (rotate_from_left-links left sep c)
          (λ (donor, key, child) e.
            Replaces-equal b (links left ++ links c) (links donor ++ links child) (sym e)))
    | inr n ↦ rw n (
        WhenReturns-bind (λ m. Replaces b b (links left ++ links c) (links m))
          (Settled (links left ++ links c)) (merge_nodes left sep c) (λ merged. some (last merged))
          (merge_nodes-Replaces left sep c) (λ m p. p))
  ]

  pub rebalance_middle-Settled :
      (least : ℕ) (left : Node) (sep : Bytes) (c : Node) (k : Bytes) (cs : Children)
      → WhenReturns
          (Settled (links left ++ (links c ++ links_of cs)))
          (rebalance_middle least left sep c k cs)
  unfolding Settled links_of
  rebalance_middle-Settled least left sep c k cs =
      let all = links left ++ (links c ++ links_of cs) in
      let glue = append_assoc (links left) (links c) (links_of cs) in
      elim (Bool-cases (ltb least (size left))) [
        | inl y ↦ rw y (
            WhenReturns-bind (SameLinks left c) (Settled all) (rotate_from_left left sep c)
              (λ (donor, key, child). some (more donor key (more child k cs)))
              (rotate_from_left-links left sep c)
              (λ (donor, key, child) e.
                Replaces-equal b all (links donor ++ (links child ++ links_of cs)) (
                  sym (
                    sym (append_assoc (links donor) (links child) (links_of cs))
                    ∙ ap (◌++ links_of cs) e
                    ∙ glue))))
        | inr n ↦ elim (Bool-cases (ltb least (size (head_of cs)))) [
          | inl y ↦
              rw (n, y)
                (WhenReturns-bind (SameLinks c (head_of cs)) (Settled all)
                  (rotate_from_right c k (head_of cs))
                  (λ (child, key, right).
                    some (more left sep (more child key (with_head right cs))))
                  (rotate_from_right-links c k (head_of cs))
                  (λ (child, key, right) e.
                    Replaces-equal b all
                      (links left ++ (links child ++ links_of (with_head right cs)))
                      (ap (links left ++◌) (
                        sym (
                          ap (links child ++◌) (with_head-links right cs)
                          ∙ sym (append_assoc (links child) (links right) (links_behind cs))
                          ∙ ap (◌++ links_behind cs) e
                          ∙ append_assoc (links c) (links (head_of cs)) (links_behind cs)
                          ∙ ap (links c ++◌) (sym (head_of-links cs)))))))
          | inr m ↦
              rw (n, m)
                (WhenReturns-bind (λ q. Replaces b b (links left ++ links c) (links q))
                  (Settled all) (merge_nodes left sep c) (λ merged. some (more merged k cs))
                  (merge_nodes-Replaces left sep c)
                  (λ q p.
                    rw (← glue)
                      (Replaces-left b b (links left ++ links c) (links q) (links_of cs) p)))
        ]
      ]
