-- ===== src/Btree/Memory/Erase.antt =====
-- The deletion of an entry from a sorted list: what `deleteFromNode` does to a leaf, seen on the
-- entries of a whole tree.
use go_database.Base.{
  suc, ◌≡◌, ◌≢◌, refl, sym, ap, ◌∙◌, true, false, none, [], ◌∷◌, ◌++◌, if◌then◌else◌, length, Bytes,
  beq, beq_iff, blt, blt_irrefl, blt_total, blt_asymm, arith, Bool-cases, inl, inr,
}
use go_database.Base.Assoc
use go_database.Base.Sorted.{IsAbove, keys_of, ascending-IsMap}
use go_database.Btree.Memory.{Pairs}
use go_database.Btree.Memory.Entries.{
  Below, From, below_from, from_below, neq_below, IsSorted, get-From, From-head,
}
use go_database.Btree.Memory.Removal.{Erased, missing, removed, put_back, delete_from_leaf}

-- what is left, if the key was there
abbrev pub Remains : (Pairs → Type 0) → Erased Pairs → Type 0
Remains P missing = Unit
Remains P (removed ps) = P ps

abbrev pub behind : Erased Pairs → Pairs → Erased Pairs
behind missing ys = missing
behind (removed xs) ys = removed (xs ++ ys)

abbrev pub before : Pairs → Erased Pairs → Erased Pairs
before xs missing = missing
before xs (removed ys) = removed (xs ++ ys)

put_back-Remains :
    (P Q : Pairs → Type 0) (p : Bytes × Bytes) (r : Erased Pairs)
    → ((ps : Pairs) → P ps → Q (p ∷ ps))
    → Remains P r
    → Remains Q (put_back p r)
put_back-Remains P Q p missing f a = tt
put_back-Remains P Q p (removed ps) f a = f ps a

put_back-behind :
    (p : Bytes × Bytes) (r : Erased Pairs) (ys : Pairs)
    → put_back p (behind r ys) ≡ behind (put_back p r) ys
put_back-behind p missing ys = refl
put_back-behind p (removed xs) ys = refl

put_back-before :
    (p : Bytes × Bytes) (xs : Pairs) (r : Erased Pairs)
    → put_back p (before xs r) ≡ before (p ∷ xs) r
put_back-before p xs missing = refl
put_back-before p xs (removed ys) = refl

before-nil : (r : Erased Pairs) → before [] r ≡ r
before-nil missing = refl
before-nil (removed ys) = refl

-- deletion of a key below `k` in front of keys that are not
pub delete-append_left :
    (key k : Bytes) (xs ys : Pairs)
    → blt key k ≡ true
    → From k ys
    → delete_from_leaf key (xs ++ ys) ≡ behind (delete_from_leaf key xs) ys
unfolding delete_from_leaf
delete-append_left key k [] [] h f = refl
delete-append_left key k [] ((j, w) ∷ ys) h f =
    let b = from_below j k key f.0 h in rw (blt_asymm key j b, neq_below key j b)
delete-append_left key k ((j, w) ∷ xs) ys h f = elim (Bool-cases (blt j key)) [
  | inl y ↦ rw y (
      ap (put_back (j, w)) (delete-append_left key k xs ys h f)
      ∙ put_back-behind (j, w) (delete_from_leaf key xs) ys)
  | inr n ↦ elim (Bool-cases (beq j key)) [ inl y ↦ rw (n, y) | inr m ↦ rw (n, m) ]
]

-- deletion of a key that is not below `k` behind keys that are
pub delete-append_right :
    (key k : Bytes) (xs ys : Pairs)
    → blt key k ≡ false
    → Below k xs
    → delete_from_leaf key (xs ++ ys) ≡ before xs (delete_from_leaf key ys)
unfolding delete_from_leaf
delete-append_right key k [] ys h b = sym (before-nil (delete_from_leaf key ys))
delete-append_right key k ((j, w) ∷ xs) ys h b = rw (below_from j k key b.0 h) (
    ap (put_back (j, w)) (delete-append_right key k xs ys h b.1)
    ∙ put_back-before (j, w) xs (delete_from_leaf key ys))

pub delete-Below :
    (key k : Bytes) (ps : Pairs) → Below k ps → Remains (Below k) (delete_from_leaf key ps)
unfolding delete_from_leaf
delete-Below key k [] b = tt
delete-Below key k ((j, w) ∷ ps) b = elim (Bool-cases (blt j key)) [
  | inl y ↦ rw y (
      put_back-Remains (Below k) (Below k) (j, w) (delete_from_leaf key ps) (λ qs a. (b.0, a))
        (delete-Below key k ps b.1))
  | inr n ↦ elim (Bool-cases (beq j key)) [ inl y ↦ rw (n, y) (b.1) | inr m ↦ rw (n, m) tt ]
]

pub delete-From :
    (key k : Bytes) (ps : Pairs) → From k ps → Remains (From k) (delete_from_leaf key ps)
unfolding delete_from_leaf
delete-From key k [] b = tt
delete-From key k ((j, w) ∷ ps) b = elim (Bool-cases (blt j key)) [
  | inl y ↦ rw y (
      put_back-Remains (From k) (From k) (j, w) (delete_from_leaf key ps) (λ qs a. (b.0, a))
        (delete-From key k ps b.1))
  | inr n ↦ elim (Bool-cases (beq j key)) [ inl y ↦ rw (n, y) (b.1) | inr m ↦ rw (n, m) tt ]
]

delete-IsAbove :
    (key k : Bytes) (ps : Pairs)
    → IsAbove k (keys_of ps)
    → Remains (λ qs. IsAbove k (keys_of qs)) (delete_from_leaf key ps)
unfolding delete_from_leaf
delete-IsAbove key k [] b = tt
delete-IsAbove key k ((j, w) ∷ ps) b = elim (Bool-cases (blt j key)) [
  | inl y ↦ rw y (
      put_back-Remains (λ qs. IsAbove k (keys_of qs)) (λ qs. IsAbove k (keys_of qs)) (j, w)
        (delete_from_leaf key ps) (λ qs a. (b.0, a)) (delete-IsAbove key k ps b.1))
  | inr n ↦ elim (Bool-cases (beq j key)) [ inl y ↦ rw (n, y) (b.1) | inr m ↦ rw (n, m) tt ]
]

Remains-both :
    (P Q : Pairs → Type 0) (r : Erased Pairs)
    → Remains P r
    → Remains Q r
    → Remains (λ qs. P qs × Q qs) r
Remains-both P Q missing a b = tt
Remains-both P Q (removed ps) a b = (a, b)

pub delete-IsSorted :
    (key : Bytes) (ps : Pairs) → IsSorted ps → Remains IsSorted (delete_from_leaf key ps)
unfolding delete_from_leaf
delete-IsSorted key [] s = tt
delete-IsSorted key ((j, w) ∷ ps) s = elim (Bool-cases (blt j key)) [
  | inl y ↦ rw y (
      put_back-Remains (λ qs. IsAbove j (keys_of qs) × IsSorted qs) IsSorted (j, w)
        (delete_from_leaf key ps) (λ qs a. a)
        (Remains-both (λ qs. IsAbove j (keys_of qs)) IsSorted (delete_from_leaf key ps)
          (delete-IsAbove key j ps s.0) (delete-IsSorted key ps s.1)))
  | inr n ↦ elim (Bool-cases (beq j key)) [ inl y ↦ rw (n, y) (s.1) | inr m ↦ rw (n, m) tt ]
]

pub length-delete :
    (key : Bytes) (ps : Pairs)
    → Remains (λ qs. suc (length qs) ≡ length ps) (delete_from_leaf key ps)
unfolding delete_from_leaf
length-delete key [] = tt
length-delete key ((j, w) ∷ ps) = elim (Bool-cases (blt j key)) [
  | inl y ↦ rw y (
      put_back-Remains (λ qs. suc (length qs) ≡ length ps) (λ qs. suc (length qs) ≡ suc (length ps))
        (j, w) (delete_from_leaf key ps) (λ qs a. ap suc a) (length-delete key ps))
  | inr n ↦ elim (Bool-cases (beq j key)) [ inl y ↦ rw (n, y) refl | inr m ↦ rw (n, m) tt ]
]

-- what a deletion means to `get`
abbrev pub Forgets : Bytes → Bytes → Pairs → Erased Pairs → Type 0
Forgets key j ps missing = Assoc.get key ps ≡ none
Forgets key j ps (removed qs) =
    (Assoc.get key ps ≢ none) × (Assoc.get j qs ≡ (if beq key j then none else Assoc.get j ps))

put_back-Forgets :
    (key j i w : Bytes) (ps : Pairs) (r : Erased Pairs)
    → beq i key ≡ false
    → Forgets key j ps r
    → Forgets key j ((i, w) ∷ ps) (put_back (i, w) r)
unfolding Assoc.get
put_back-Forgets key j i w ps missing n f = rw n f
put_back-Forgets key j i w ps (removed qs) n (f, g) =
    (rw n f, ground (arith, g, beq_iff key j, beq_iff i j, beq_iff i key))

-- A deletion from a sorted list forgets the key, and nothing else.
pub delete-Forgets :
    (key j : Bytes) (ps : Pairs) → IsSorted ps → Forgets key j ps (delete_from_leaf key ps)
unfolding delete_from_leaf Assoc.get
delete-Forgets key j [] s = refl
delete-Forgets key j ((i, w) ∷ ps) s = elim (Bool-cases (blt i key)) [
  | inl y ↦ rw y (
      put_back-Forgets key j i w ps (delete_from_leaf key ps)
        (ground (arith, (beq_iff i key).0, blt_irrefl key)) (delete-Forgets key j ps s.1))
  | inr n ↦ elim (Bool-cases (beq i key)) [
    | inl y ↦
        rw (n, y)
          (
            λ e. ground (arith, e),
            ground (
              arith,
              beq_iff key j,
              beq_iff i j,
              beq_iff i key,
              (ascending-IsMap ((i, w) ∷ ps) s).0,
            ),
          )
    | inr m ↦
        let lt : blt key i ≡ true = ground (arith, blt_total i key n, (beq_iff i key).1) in
        rw (n, m) (get-From key i ((i, w) ∷ ps) lt (From-head i w ps s))
  ]
]
