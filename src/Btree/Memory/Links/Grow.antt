-- ===== src/Btree/Memory/Links/Grow.antt =====
-- `set` keeps the chain of the leaves: a leaf that is split points to its new right half, which
-- points to where the leaf pointed.
use go_database.Base.{
  ℕ, zero, suc, ◌/◌, ◌≡◌, refl, ap, ◌∙◌, Option, none, some, List, [], ◌∷◌, ◌++◌, append_assoc, leb,
  length, take, drop, Bytes, blt, arith, Bool-cases, inl, inr,
}
use go_database.Base.Panic.{WhenReturns, WhenReturns-bind, WhenReturns-weaken}
use go_database.Btree.Memory.{
  Pairs, Link, Node, leaf, internal, Children, last, more, count, insert_into_leaf, Grown, whole,
  split, split_leaf_at, split_leaf, split_children, split_internal, fit_leaf, fit_internal,
  graft_last, graft, insert, insert_child, Tree, max_of, new_root, set_root, set,
}
use go_database.Btree.Memory.Links.{
  links, links_of, IsChain, links_of_root, IsLinked, Replaces, Replaces-refl, Replaces-left,
  Replaces-right, split-Replaces, Replaces-IsChain,
}

abbrev links_grown : Grown → List Link
links_grown (whole n) = links n
links_grown (split l k r) = links l ++ links r

split_leaf_at-Replaces :
    (fresh : ℕ) (pa : Link) (left right : Pairs)
    → WhenReturns
        (λ g. Replaces fresh (suc fresh) (pa ∷ []) (links_grown g))
        (split_leaf_at fresh pa left right)
unfolding links
split_leaf_at-Replaces fresh pa left [] = tt
split_leaf_at-Replaces fresh pa left (p ∷ right) = split-Replaces fresh pa

fit_leaf-Replaces :
    (max fresh : ℕ) (pa : Link) (ps : Pairs)
    → WhenReturns
        (λ g. Replaces fresh (suc fresh) (pa ∷ []) (links_grown g))
        (fit_leaf max fresh pa ps)
unfolding split_leaf links
fit_leaf-Replaces max fresh pa ps = elim (Bool-cases (leb (length ps) max)) [
  | inl y ↦ rw y (Replaces-refl fresh (suc fresh) (pa ∷ []) (omega arith))
  | inr n ↦
      rw n (split_leaf_at-Replaces fresh pa (take (length ps / 2) ps) (drop (length ps / 2) ps))
]

split_children-links :
    (i : ℕ) (cs : Children)
    → WhenReturns (λ (l, k, r). links_of l ++ links_of r ≡ links_of cs) (split_children i cs)
unfolding split_children links_of
split_children-links i (last c) = tt
split_children-links zero (more c k cs) = refl
split_children-links (suc i) (more c k cs) =
    WhenReturns-bind (λ (l, j, r). links_of l ++ links_of r ≡ links_of cs)
      (λ (l, j, r). links_of l ++ links_of r ≡ links c ++ links_of cs) (split_children i cs)
      (λ (l, p, r). some (more c k l, p, r)) (split_children-links i cs)
      (λ (l, p, r) e. append_assoc (links c) (links_of l) (links_of r) ∙ ap (links c ++◌) e)

fit_internal-links :
    (max : ℕ) (cs : Children) → WhenReturns (λ g. links_grown g ≡ links_of cs) (fit_internal max cs)
unfolding split_internal links
fit_internal-links max cs = elim (Bool-cases (leb (count cs) max)) [
  | inl y ↦ rw y refl
  | inr n ↦ rw n (
      WhenReturns-bind (λ (l, j, r). links_of l ++ links_of r ≡ links_of cs)
        (λ g. links_grown g ≡ links_of cs) (split_children (count cs / 2) cs)
        (λ (l, p, r). some (split (internal l) p (internal r)))
        (split_children-links (count cs / 2) cs) (λ (l, p, r) e. e))
]

graft_last-links : (g : Grown) → links_of (graft_last g) ≡ links_grown g
unfolding links_of
graft_last-links (whole c) = refl
graft_last-links (split l k r) = refl

graft-links :
    (g : Grown) (k : Bytes) (cs : Children) → links_of (graft g k cs) ≡ links_grown g ++ links_of cs
unfolding links_of
graft-links (whole c) k cs = refl
graft-links (split l s r) k cs = rw (append_assoc (links l) (links r) (links_of cs)) refl

mutual
  unfolding insert insert_child links links_of

  insert-Replaces :
      (max fresh : ℕ) (key value : Bytes) (n : Node)
      → WhenReturns
          (λ g. Replaces fresh (suc fresh) (links n) (links_grown g))
          (insert max fresh key value n)
  insert-Replaces max fresh key value (leaf pa ps) =
      fit_leaf-Replaces max fresh pa (insert_into_leaf key value ps)
  insert-Replaces max fresh key value (internal cs) =
      WhenReturns-bind (λ ds. Replaces fresh (suc fresh) (links_of cs) (links_of ds))
        (λ g. Replaces fresh (suc fresh) (links_of cs) (links_grown g))
        (insert_child max fresh key value cs) (fit_internal max)
        (insert_child-Replaces max fresh key value cs)
        (λ ds p.
          WhenReturns-weaken (λ g. links_grown g ≡ links_of ds)
            (λ g. Replaces fresh (suc fresh) (links_of cs) (links_grown g)) (fit_internal max ds)
            (fit_internal-links max ds) (λ g e. rw e p))

  insert_child-Replaces :
      (max fresh : ℕ) (key value : Bytes) (cs : Children)
      → WhenReturns
          (λ ds. Replaces fresh (suc fresh) (links_of cs) (links_of ds))
          (insert_child max fresh key value cs)
  insert_child-Replaces max fresh key value (last c) =
      WhenReturns-bind (λ g. Replaces fresh (suc fresh) (links c) (links_grown g))
        (λ ds. Replaces fresh (suc fresh) (links c) (links_of ds)) (insert max fresh key value c)
        (λ g. some (graft_last g)) (insert-Replaces max fresh key value c)
        (λ g p. rw (graft_last-links g) p)
  insert_child-Replaces max fresh key value (more c k cs) = elim (Bool-cases (blt key k)) [
    | inl y ↦ rw y (
        WhenReturns-bind (λ g. Replaces fresh (suc fresh) (links c) (links_grown g))
          (λ ds. Replaces fresh (suc fresh) (links c ++ links_of cs) (links_of ds))
          (insert max fresh key value c) (λ g. some (graft g k cs))
          (insert-Replaces max fresh key value c)
          (λ g p.
            rw (graft-links g k cs)
              (Replaces-left fresh (suc fresh) (links c) (links_grown g) (links_of cs) p)))
    | inr n ↦ rw n (
        WhenReturns-bind (λ ds. Replaces fresh (suc fresh) (links_of cs) (links_of ds))
          (λ ds. Replaces fresh (suc fresh) (links c ++ links_of cs) (links_of ds))
          (insert_child max fresh key value cs) (λ rest. some (more c k rest))
          (insert_child-Replaces max fresh key value cs)
          (λ ds p.
            Replaces-right fresh (suc fresh) (links c) (links_of cs) (links_of ds) (omega arith) p))
  ]

new_root-links : (g : Grown) → links (new_root g) ≡ links_grown g
unfolding links links_of
new_root-links (whole n) = refl
new_root-links (split l k r) = refl

set_root-IsChain :
    (max fresh : ℕ) (key value : Bytes) (root : Option Node)
    → IsChain fresh (links_of_root root)
    → WhenReturns (λ n. IsChain (suc fresh) (links n)) (set_root max fresh key value root)
unfolding links
set_root-IsChain max fresh key value none w = (omega arith, tt, refl, tt)
set_root-IsChain max fresh key value (some n) w =
    WhenReturns-bind (λ g. Replaces fresh (suc fresh) (links n) (links_grown g))
      (λ m. IsChain (suc fresh) (links m)) (insert max fresh key value n) (λ g. some (new_root g))
      (insert-Replaces max fresh key value n)
      (λ g p.
        rw (new_root-links g) (Replaces-IsChain fresh (suc fresh) (links n) (links_grown g) p w))

-- `set` keeps the chain of the leaves.
pub set-IsLinked :
    (t : Tree) (key value : Bytes) → IsLinked t → WhenReturns IsLinked (set t key value)
unfolding set
set-IsLinked t key value w =
    WhenReturns-bind (λ n. IsChain (suc t.fresh) (links n)) IsLinked
      (set_root (max_of t.max_keys) t.fresh key value t.root)
      (λ root.
        some (record { root = some root; max_keys = max_of t.max_keys; fresh = suc t.fresh }))
      (set_root-IsChain (max_of t.max_keys) t.fresh key value t.root w) (λ n c. c)
