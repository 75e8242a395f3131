-- ===== src/Btree/Memory/Links.antt =====
-- The chain of the leaves: each leaf's `next` is where the leaf on its right stands, and no two leaves
-- stand at one address.
pub mod Grow
pub mod Merge
pub mod Drop
pub mod Kept
use go_database.Base.{
  ℕ, suc, ◌≤◌, ◌<◌, ◌≡◌, refl, sym, ◌∙◌, subst, false, Option, none, some, List, [], ◌∷◌, ◌++◌,
  append_assoc, append-nil, ◌==◌, arith,
}
use go_database.Btree.Memory.{Link, Node, leaf, internal, Children, last, more, Tree}

-- the links of the leaves below a node, from the left to the right
unfoldable mutual
  pub links : Node → List Link
  links (leaf pa ps) = pa ∷ []
  links (internal cs) = links_of cs

  pub links_of : Children → List Link
  links_of (last c) = links c
  links_of (more c k cs) = links c ++ links_of cs

-- where the first of some leaves stands
abbrev pub first_address : List Link → Option ℕ
first_address [] = none
first_address (l ∷ ls) = some l.address

abbrev pub IsAbsent : ℕ → List Link → Type 0
IsAbsent a [] = Unit
IsAbsent a (l ∷ ls) = ((l.address == a) ≡ false) × IsAbsent a ls

-- a chain whose leaves stand below the address `fresh`
abbrev pub IsChain : ℕ → List Link → Type 0
IsChain fresh [] = Unit
IsChain fresh (l ∷ ls) =
    (l.address < fresh) × IsAbsent l.address ls × (l.next ≡ first_address ls) × IsChain fresh ls

abbrev pub links_of_root : Option Node → List Link
links_of_root none = []
links_of_root (some n) = links n

abbrev pub IsLinked : Tree → Type 0
IsLinked t = IsChain t.fresh (links_of_root t.root)

pub IsChain-weaken : (b c : ℕ) (ls : List Link) → b ≤ c → IsChain b ls → IsChain c ls
IsChain-weaken b c [] h w = tt
IsChain-weaken b c (l ∷ ls) h w = (omega (arith, w.0), w.1, w.2, IsChain-weaken b c ls h w.3)

pub fresh-IsAbsent : (b : ℕ) (ls : List Link) → IsChain b ls → IsAbsent b ls
fresh-IsAbsent b [] w = tt
fresh-IsAbsent b (l ∷ ls) w = (ground (arith, w.0), fresh-IsAbsent b ls w.3)

-- some leaves may be put in place of others: whatever leaves follow them, and whatever leaves stand
-- before
pub record Replaces (b c : ℕ) (xs ys : List Link) : Type 0 where
  pub chain : (post : List Link) → IsChain b (xs ++ post) → IsChain c (ys ++ post)
  pub first : (post : List Link) → first_address (ys ++ post) ≡ first_address (xs ++ post)
  pub absent :
      (post : List Link) (a : ℕ) → a < b → IsAbsent a (xs ++ post) → IsAbsent a (ys ++ post)

pub Replaces-refl : (b c : ℕ) (xs : List Link) → b ≤ c → Replaces b c xs xs
Replaces-refl b c xs h = record {
  chain = λ post w. IsChain-weaken b c (xs ++ post) h w;
  first = λ post. refl;
  absent = λ post a l w. w;
}

pub Replaces-trans :
    (b : ℕ) (xs ys zs : List Link) → Replaces b b xs ys → Replaces b b ys zs → Replaces b b xs zs
Replaces-trans b xs ys zs p q = record {
  chain = λ post w. q.chain post (p.chain post w);
  first = λ post. q.first post ∙ p.first post;
  absent = λ post a l w. q.absent post a l (p.absent post a l w);
}

pub Replaces-left :
    (b c : ℕ) (xs ys zs : List Link) → Replaces b c xs ys → Replaces b c (xs ++ zs) (ys ++ zs)
Replaces-left b c xs ys zs p = record {
  chain = λ post w.
      rw (append_assoc ys zs post) (p.chain (zs ++ post) (rw (append_assoc xs zs post) at w));
  first = λ post. rw (append_assoc ys zs post, append_assoc xs zs post) (p.first (zs ++ post));
  absent = λ post a l w.
      rw (append_assoc ys zs post) (p.absent (zs ++ post) a l (rw (append_assoc xs zs post) at w));
}

Replaces-behind :
    (b c : ℕ) (l : Link) (xs ys : List Link)
    → b ≤ c
    → Replaces b c xs ys
    → Replaces b c (l ∷ xs) (l ∷ ys)
Replaces-behind b c l xs ys h p = record {
  chain = λ post w. (
    omega (arith, w.0),
    p.absent post l.address w.0 w.1,
    w.2 ∙ sym (p.first post),
    p.chain post w.3,
  );
  first = λ post. refl;
  absent = λ post a l w. (w.0, p.absent post a l w.1);
}

pub Replaces-right :
    (b c : ℕ) (zs xs ys : List Link)
    → b ≤ c
    → Replaces b c xs ys
    → Replaces b c (zs ++ xs) (zs ++ ys)
Replaces-right b c [] xs ys h p = p
Replaces-right b c (z ∷ zs) xs ys h p =
    Replaces-behind b c z (zs ++ xs) (zs ++ ys) h (Replaces-right b c zs xs ys h p)

-- a leaf that is split, and two leaves that are merged
pub split-Replaces :
    (b : ℕ) (l : Link)
    → Replaces b
        (suc b)
        (l ∷ [])
        (record l { next = some b } ∷ record { address = b; next = l.next } ∷ [])
split-Replaces b l = record {
  chain = λ post w. (
    omega (arith, w.0),
    (ground (arith, w.0), w.1),
    refl,
    (omega arith, fresh-IsAbsent b post w.3, w.2, IsChain-weaken b (suc b) post (omega arith) w.3),
  );
  first = λ post. refl;
  absent = λ post a h w. (w.0, (ground (arith, h), w.1));
}

pub merge-Replaces :
    (b : ℕ) (l r : Link) → Replaces b b (l ∷ r ∷ []) (record l { next = r.next } ∷ [])
merge-Replaces b l r = record {
  chain = λ post w. (w.0, w.1.1, w.3.2, w.3.3);
  first = λ post. refl;
  absent = λ post a h w. (w.0, w.1.1);
}

pub Replaces-IsChain :
    (b c : ℕ) (xs ys : List Link) → Replaces b c xs ys → IsChain b xs → IsChain c ys
Replaces-IsChain b c xs ys p w =
    subst (IsChain c) (append-nil ys) (p.chain [] (subst (IsChain b) (sym (append-nil xs)) w))

pub Replaces-equal : (b : ℕ) (xs ys : List Link) → xs ≡ ys → Replaces b b xs ys
Replaces-equal b xs ys e = subst (Replaces b b xs) e (Replaces-refl b b xs (omega arith))
