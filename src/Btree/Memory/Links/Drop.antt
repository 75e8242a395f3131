-- ===== src/Btree/Memory/Links/Drop.antt =====
-- `deleteFromNode` and `delete` on the chain of the leaves.
use go_database.Base.{
  ℕ, ◌/◌, ◌++◌, Option, none, some, List, [], ◌∷◌, ltb, Bytes, blt, arith, Bool-cases, inl, inr,
}
use go_database.Base.Panic.{WhenReturns, WhenReturns-bind, WhenReturns-any}
use go_database.Btree.Memory.{
  Pairs, Link, Node, leaf, internal, Children, last, more, size, Tree, max_of,
}
use go_database.Btree.Memory.Links.{
  links, links_of, IsChain, links_of_root, IsLinked, Replaces, Replaces-refl, Replaces-trans,
  Replaces-left, Replaces-right, Replaces-IsChain,
}
use go_database.Btree.Memory.Links.Merge.{
  Settled, rebalance_first-Settled, rebalance_last-Settled, rebalance_middle-Settled,
}
use go_database.Btree.Memory.Removal.{
  Erased, missing, removed, on_removed, delete_from_leaf, refresh, settle_only, settle_first,
  settle_last, settle_middle, erased_leaf, delete_from_node, delete_child, delete_behind, shrink,
  delete_root, deleted_tree, delete,
}

abbrev WhenRemoved : {A : Type 0} → (A → Type 0) → Erased A → Type 0
WhenRemoved P missing = Unit
WhenRemoved P (removed a) = P a

on_removed-WhenRemoved :
    {A B : Type 0} (P : A → Type 0) (Q : B → Type 0) (e : Erased A) (rest : A → Option B)
    → WhenRemoved P e
    → ((a : A) → P a → WhenReturns Q (rest a))
    → WhenReturns (WhenRemoved Q) (on_removed e rest)
on_removed-WhenRemoved P Q missing rest h g = tt
on_removed-WhenRemoved P Q (removed a) rest h g =
    WhenReturns-bind Q (WhenRemoved Q) (rest a) (λ b. some (removed b)) (g a h) (λ b q. q)

module _ (b : ℕ) where
  settle_only-Settled :
      (least : ℕ) (c : Node) → WhenReturns (Settled b (links c)) (settle_only least c)
  unfolding Settled links_of
  settle_only-Settled least c = elim (Bool-cases (ltb (size c) least)) [
    | inl y ↦ rw y tt
    | inr n ↦ rw n (Replaces-refl b b (links c) (omega arith))
  ]

  settle_first-Settled :
      (least : ℕ) (k : Bytes) (cs : Children) (c : Node)
      → WhenReturns (Settled b (links c ++ links_of cs)) (settle_first least k cs c)
  unfolding Settled links_of
  settle_first-Settled least k cs c = elim (Bool-cases (ltb (size c) least)) [
    | inl y ↦ rw y (rebalance_first-Settled b least c k cs)
    | inr n ↦ rw n (Replaces-refl b b (links c ++ links_of cs) (omega arith))
  ]

  settle_last-Settled :
      (least : ℕ) (left : Node) (sep : Bytes) (c : Node)
      → WhenReturns (Settled b (links left ++ links c)) (settle_last least left sep c)
  unfolding Settled links_of
  settle_last-Settled least left sep c =
      WhenReturns-bind (λ key. Unit {0}) (Settled b (links left ++ links c)) (refresh sep c) _
        (WhenReturns-any (refresh sep c))
        (λ key u. elim (Bool-cases (ltb (size c) least)) [
          | inl y ↦ rw y (rebalance_last-Settled b least left key c)
          | inr n ↦ rw n (Replaces-refl b b (links left ++ links c) (omega arith))
        ])

  settle_middle-Settled :
      (least : ℕ) (left : Node) (sep k : Bytes) (cs : Children) (c : Node)
      → WhenReturns
          (Settled b (links left ++ (links c ++ links_of cs)))
          (settle_middle least left sep k cs c)
  unfolding Settled links_of
  settle_middle-Settled least left sep k cs c =
      WhenReturns-bind (λ key. Unit {0}) (Settled b (links left ++ (links c ++ links_of cs)))
        (refresh sep c) _ (WhenReturns-any (refresh sep c))
        (λ key u. elim (Bool-cases (ltb (size c) least)) [
          | inl y ↦ rw y (rebalance_middle-Settled b least left key c k cs)
          | inr n ↦ rw n (Replaces-refl b b (links left ++ (links c ++ links_of cs)) (omega arith))
        ])

  after-Settled :
      (xs ys : List Link) (o : Option Children)
      → Replaces b b xs ys
      → WhenReturns (Settled b ys) o
      → WhenReturns (Settled b xs) o
  unfolding Settled
  after-Settled xs ys none p q = tt
  after-Settled xs ys (some ds) p q = Replaces-trans b xs ys (links_of ds) p q

  leaf-Replaces :
      (pa : Link) (e : Erased Pairs)
      → WhenRemoved (λ m. Replaces b b (pa ∷ []) (links m)) (erased_leaf pa e)
  unfolding links
  leaf-Replaces pa missing = tt
  leaf-Replaces pa (removed ps) = Replaces-refl b b (pa ∷ []) (omega arith)

  mutual
    unfolding delete_from_node delete_child delete_behind links links_of Settled

    delete_from_node-Replaces :
        (least : ℕ) (key : Bytes) (n : Node)
        → WhenReturns
            (WhenRemoved (λ m. Replaces b b (links n) (links m)))
            (delete_from_node least key n)
    delete_from_node-Replaces least key (leaf pa ps) = leaf-Replaces pa (delete_from_leaf key ps)
    delete_from_node-Replaces least key (internal cs) =
        WhenReturns-bind (WhenRemoved (Settled b (links_of cs)))
          (WhenRemoved (λ m. Replaces b b (links_of cs) (links m))) (delete_child least key cs)
          (λ rest. on_removed rest (λ children. some (internal children)))
          (delete_child-Replaces least key cs)
          (λ e p.
            on_removed-WhenRemoved (Settled b (links_of cs))
              (λ m. Replaces b b (links_of cs) (links m)) e (λ children. some (internal children)) p
              (λ ds q. q))

    delete_child-Replaces :
        (least : ℕ) (key : Bytes) (cs : Children)
        → WhenReturns (WhenRemoved (Settled b (links_of cs))) (delete_child least key cs)
    delete_child-Replaces least key (last c) =
        WhenReturns-bind (WhenRemoved (λ m. Replaces b b (links c) (links m)))
          (WhenRemoved (Settled b (links c))) (delete_from_node least key c)
          (λ rest. on_removed rest (settle_only least)) (delete_from_node-Replaces least key c)
          (λ e p.
            on_removed-WhenRemoved (λ m. Replaces b b (links c) (links m)) (Settled b (links c)) e
              (settle_only least) p
              (λ m q.
                after-Settled (links c) (links m) (settle_only least m) q
                  (settle_only-Settled least m)))
    delete_child-Replaces least key (more c k cs) = elim (Bool-cases (blt key k)) [
      | inl y ↦
          let all = links c ++ links_of cs in
          rw y (
            WhenReturns-bind (WhenRemoved (λ m. Replaces b b (links c) (links m)))
              (WhenRemoved (Settled b all)) (delete_from_node least key c)
              (λ rest. on_removed rest (settle_first least k cs))
              (delete_from_node-Replaces least key c)
              (λ e p.
                on_removed-WhenRemoved (λ m. Replaces b b (links c) (links m)) (Settled b all) e
                  (settle_first least k cs) p
                  (λ m q.
                    after-Settled all (links m ++ links_of cs) (settle_first least k cs m)
                      (Replaces-left b b (links c) (links m) (links_of cs) q)
                      (settle_first-Settled least k cs m))))
      | inr n ↦ rw n (delete_behind-Replaces least key c k cs)
    ]

    delete_behind-Replaces :
        (least : ℕ) (key : Bytes) (left : Node) (sep : Bytes) (cs : Children)
        → WhenReturns
            (WhenRemoved (Settled b (links left ++ links_of cs)))
            (delete_behind least key left sep cs)
    delete_behind-Replaces least key left sep (last c) =
        let all = links left ++ links c in
        WhenReturns-bind (WhenRemoved (λ m. Replaces b b (links c) (links m)))
          (WhenRemoved (Settled b all)) (delete_from_node least key c)
          (λ rest. on_removed rest (settle_last least left sep))
          (delete_from_node-Replaces least key c)
          (λ e p.
            on_removed-WhenRemoved (λ m. Replaces b b (links c) (links m)) (Settled b all) e
              (settle_last least left sep) p
              (λ m q.
                after-Settled all (links left ++ links m) (settle_last least left sep m)
                  (Replaces-right b b (links left) (links c) (links m) (omega arith) q)
                  (settle_last-Settled least left sep m)))
    delete_behind-Replaces least key left sep (more c k cs) =
        let all = links left ++ (links c ++ links_of cs) in
        elim (Bool-cases (blt key k)) [
          | inl y ↦ rw y (
              WhenReturns-bind (WhenRemoved (λ m. Replaces b b (links c) (links m)))
                (WhenRemoved (Settled b all)) (delete_from_node least key c)
                (λ rest. on_removed rest (settle_middle least left sep k cs))
                (delete_from_node-Replaces least key c)
                (λ e p.
                  on_removed-WhenRemoved (λ m. Replaces b b (links c) (links m)) (Settled b all) e
                    (settle_middle least left sep k cs) p
                    (λ m q.
                      after-Settled all (links left ++ (links m ++ links_of cs))
                        (settle_middle least left sep k cs m)
                        (Replaces-right b b (links left) (links c ++ links_of cs)
                          (links m ++ links_of cs) (omega arith)
                          (Replaces-left b b (links c) (links m) (links_of cs) q))
                        (settle_middle-Settled least left sep k cs m))))
          | inr n ↦ rw n (
              WhenReturns-bind (WhenRemoved (Settled b (links c ++ links_of cs)))
                (WhenRemoved (Settled b all)) (delete_behind least key c k cs)
                (λ rest. on_removed rest (λ children. some (more left sep children)))
                (delete_behind-Replaces least key c k cs)
                (λ e p.
                  on_removed-WhenRemoved (Settled b (links c ++ links_of cs)) (Settled b all) e
                    (λ children. some (more left sep children)) p
                    (λ ds q.
                      Replaces-right b b (links left) (links c ++ links_of cs) (links_of ds)
                        (omega arith) q)))
        ]

shrink-IsChain : (b : ℕ) (n : Node) → IsChain b (links n) → IsChain b (links_of_root (shrink n))
unfolding links links_of
shrink-IsChain b (leaf pa []) w = tt
shrink-IsChain b (leaf pa (p ∷ ps)) w = w
shrink-IsChain b (internal (last c)) w = w
shrink-IsChain b (internal (more c k cs)) w = w

delete_root-IsChain :
    (b least : ℕ) (key : Bytes) (root : Option Node)
    → IsChain b (links_of_root root)
    → WhenReturns (WhenRemoved (λ new. IsChain b (links_of_root new))) (delete_root least key root)
delete_root-IsChain b least key none w = tt
delete_root-IsChain b least key (some n) w =
    WhenReturns-bind (WhenRemoved (λ m. Replaces b b (links n) (links m)))
      (WhenRemoved (λ new. IsChain b (links_of_root new))) (delete_from_node least key n)
      (λ rest. on_removed rest (λ m. some (shrink m))) (delete_from_node-Replaces b least key n)
      (λ e p.
        on_removed-WhenRemoved (λ m. Replaces b b (links n) (links m))
          (λ new. IsChain b (links_of_root new)) e (λ m. some (shrink m)) p
          (λ m q. shrink-IsChain b m (Replaces-IsChain b b (links n) (links m) q w)))

-- `delete` keeps the chain of the leaves.
pub delete-IsLinked :
    (t : Tree) (key : Bytes) → IsLinked t → WhenReturns (λ r. IsLinked r.1) (delete t key)
unfolding delete
delete-IsLinked t key w =
    WhenReturns-bind (WhenRemoved (λ new. IsChain t.fresh (links_of_root new))) (λ r. IsLinked r.1)
      (delete_root (max_of t.max_keys / 2) key t.root) (λ rest. some (deleted_tree t rest))
      (delete_root-IsChain t.fresh (max_of t.max_keys / 2) key t.root w) outcome
  where
    outcome :
        (e : Erased (Option Node))
        → WhenRemoved (λ new. IsChain t.fresh (links_of_root new)) e
        → IsLinked (deleted_tree t e).1
    outcome missing p = w
    outcome (removed new) p = p
