-- ===== src/Btree/Memory/Entries.antt =====
-- Sorted lists of entries: what leaves do, seen on the entries of a whole tree.
use go_database.Base.{
  ◌<◌, length, ◌≡◌, refl, sym, subst, ap, true, false, none, some, [], ◌∷◌, ◌++◌, if◌then◌else◌,
  Bytes, beq, beq_iff, beq_refl, blt, blt_irrefl, blt_trans, blt_total, blt_asymm, arith,
  Bool-cases, inl, inr,
}
use go_database.Base.Assoc
use go_database.Base.Sorted.{IsAbove, IsAscending, keys_of}
use go_database.Btree.Memory.{Pairs, search, insert_into_leaf}

-- every key is below `k`
abbrev pub Below : Bytes → Pairs → Type 0
Below k [] = Unit
Below k ((j, w) ∷ ps) = (blt j k ≡ true) × Below k ps

-- no key is below `k`
abbrev pub From : Bytes → Pairs → Type 0
From k [] = Unit
From k ((j, w) ∷ ps) = (blt j k ≡ false) × From k ps

pub Below-append : (k : Bytes) (xs ys : Pairs) → Below k xs → Below k ys → Below k (xs ++ ys)
Below-append k [] ys a b = b
Below-append k ((j, w) ∷ xs) ys a b = (a.0, Below-append k xs ys a.1 b)

pub Below-left : (k : Bytes) (xs ys : Pairs) → Below k (xs ++ ys) → Below k xs
Below-left k [] ys a = tt
Below-left k ((j, w) ∷ xs) ys a = (a.0, Below-left k xs ys a.1)

pub Below-right : (k : Bytes) (xs ys : Pairs) → Below k (xs ++ ys) → Below k ys
Below-right k [] ys a = a
Below-right k ((j, w) ∷ xs) ys a = Below-right k xs ys a.1

pub From-append : (k : Bytes) (xs ys : Pairs) → From k xs → From k ys → From k (xs ++ ys)
From-append k [] ys a b = b
From-append k ((j, w) ∷ xs) ys a b = (a.0, From-append k xs ys a.1 b)

pub From-left : (k : Bytes) (xs ys : Pairs) → From k (xs ++ ys) → From k xs
From-left k [] ys a = tt
From-left k ((j, w) ∷ xs) ys a = (a.0, From-left k xs ys a.1)

pub From-right : (k : Bytes) (xs ys : Pairs) → From k (xs ++ ys) → From k ys
From-right k [] ys a = a
From-right k ((j, w) ∷ xs) ys a = From-right k xs ys a.1

-- ascending keys
abbrev pub IsSorted : Pairs → Type 0
IsSorted ps = IsAscending (keys_of ps)

IsAbove→From : (k : Bytes) (ps : Pairs) → IsAbove k (keys_of ps) → From k ps
IsAbove→From k [] a = tt
IsAbove→From k ((j, w) ∷ ps) a = (blt_asymm k j a.0, IsAbove→From k ps a.1)

-- the first key bounds a sorted list
pub From-head : (k v : Bytes) (ps : Pairs) → IsSorted ((k, v) ∷ ps) → From k ((k, v) ∷ ps)
From-head k v ps s = (blt_irrefl k, IsAbove→From k ps s.0)

IsAbove-right :
    (k : Bytes) (xs ys : Pairs) → IsAbove k (keys_of (xs ++ ys)) → IsAbove k (keys_of ys)
IsAbove-right k [] ys a = a
IsAbove-right k ((j, w) ∷ xs) ys a = IsAbove-right k xs ys a.1

IsAbove-left : (k : Bytes) (xs ys : Pairs) → IsAbove k (keys_of (xs ++ ys)) → IsAbove k (keys_of xs)
IsAbove-left k [] ys a = tt
IsAbove-left k ((j, w) ∷ xs) ys a = (a.0, IsAbove-left k xs ys a.1)

pub IsSorted-left : (xs ys : Pairs) → IsSorted (xs ++ ys) → IsSorted xs
IsSorted-left [] ys s = tt
IsSorted-left ((j, w) ∷ xs) ys s = (IsAbove-left j xs ys s.0, IsSorted-left xs ys s.1)

pub IsSorted-right : (xs ys : Pairs) → IsSorted (xs ++ ys) → IsSorted ys
IsSorted-right [] ys s = s
IsSorted-right ((j, w) ∷ xs) ys s = IsSorted-right xs ys s.1

-- in a sorted list, what stands before a key is below it
pub Below-before :
    (xs : Pairs) (k v : Bytes) (ys : Pairs) → IsSorted (xs ++ (k, v) ∷ ys) → Below k xs
Below-before [] k v ys s = tt
Below-before ((j, w) ∷ xs) k v ys s =
    ((IsAbove-right j xs ((k, v) ∷ ys) s.0).0, Below-before xs k v ys s.1)

-- and what stands from it on is not
pub From-behind :
    (xs : Pairs) (k v : Bytes) (ys : Pairs) → IsSorted (xs ++ (k, v) ∷ ys) → From k ((k, v) ∷ ys)
From-behind xs k v ys s = From-head k v ys (IsSorted-right xs ((k, v) ∷ ys) s)

pub below_from : (j k key : Bytes) → blt j k ≡ true → blt key k ≡ false → blt j key ≡ true
below_from j k key a b = elim (Bool-cases (blt j key)) [
  | inl y ↦ y
  | inr n ↦ elim (Bool-cases (blt key j)) [
    | inl z ↦ ground (arith, blt_trans key j k z a)
    | inr w ↦ let e = blt_total j key n w in ground (arith, e)
  ]
]

pub from_below : (j k key : Bytes) → blt j k ≡ false → blt key k ≡ true → blt key j ≡ true
from_below j k key a b = elim (Bool-cases (blt key j)) [
  | inl y ↦ y
  | inr n ↦ elim (Bool-cases (blt j key)) [
    | inl z ↦ ground (arith, blt_trans j key k z b)
    | inr w ↦ let e = blt_total j key w n in ground (arith, e)
  ]
]

pub neq_below : (a b : Bytes) → blt a b ≡ true → beq b a ≡ false
neq_below a b h = ground (arith, (beq_iff b a).0, blt_irrefl a)

-- insertion of a key below `k` in front of keys that are not
pub insert-append_left :
    (key value k : Bytes) (xs ys : Pairs)
    → blt key k ≡ true
    → From k ys
    → insert_into_leaf key value (xs ++ ys) ≡ insert_into_leaf key value xs ++ ys
unfolding insert_into_leaf
insert-append_left key value k [] [] h f = refl
insert-append_left key value k [] ((j, w) ∷ ys) h f =
    let b = from_below j k key f.0 h in rw (blt_asymm key j b, neq_below key j b)
insert-append_left key value k ((j, w) ∷ xs) ys h f =
    ground (arith, insert-append_left key value k xs ys h f)

-- insertion of a key that is not below `k` behind keys that are
pub insert-append_right :
    (key value k : Bytes) (xs ys : Pairs)
    → blt key k ≡ false
    → Below k xs
    → insert_into_leaf key value (xs ++ ys) ≡ xs ++ insert_into_leaf key value ys
unfolding insert_into_leaf
insert-append_right key value k [] ys h b = refl
insert-append_right key value k ((j, w) ∷ xs) ys h b =
    rw (below_from j k key b.0 h) (ap (◌∷◌ (j, w)) (insert-append_right key value k xs ys h b.1))

pub insert-Below :
    (key value k : Bytes) (xs : Pairs)
    → blt key k ≡ true
    → Below k xs
    → Below k (insert_into_leaf key value xs)
unfolding insert_into_leaf
insert-Below key value k [] h b = (h, tt)
insert-Below key value k ((j, w) ∷ xs) h b = elim (Bool-cases (blt j key)) [
  | inl y ↦ rw y (b.0, insert-Below key value k xs h b.1)
  | inr n ↦ elim (Bool-cases (beq j key)) [ inl y ↦ rw (n, y) b | inr m ↦ rw (n, m) (h, b) ]
]

pub insert-From :
    (key value k : Bytes) (xs : Pairs)
    → blt key k ≡ false
    → From k xs
    → From k (insert_into_leaf key value xs)
unfolding insert_into_leaf
insert-From key value k [] h b = (h, tt)
insert-From key value k ((j, w) ∷ xs) h b = elim (Bool-cases (blt j key)) [
  | inl y ↦ rw y (b.0, insert-From key value k xs h b.1)
  | inr n ↦ elim (Bool-cases (beq j key)) [ inl y ↦ rw (n, y) b | inr m ↦ rw (n, m) (h, b) ]
]

insert-IsAbove :
    (key value k : Bytes) (xs : Pairs)
    → blt k key ≡ true
    → IsAbove k (keys_of xs)
    → IsAbove k (keys_of (insert_into_leaf key value xs))
unfolding insert_into_leaf
insert-IsAbove key value k [] h b = (h, tt)
insert-IsAbove key value k ((j, w) ∷ xs) h b = elim (Bool-cases (blt j key)) [
  | inl y ↦ rw y (b.0, insert-IsAbove key value k xs h b.1)
  | inr n ↦ elim (Bool-cases (beq j key)) [ inl y ↦ rw (n, y) b | inr m ↦ rw (n, m) (h, b) ]
]

IsAbove-trans :
    (key k : Bytes) (ps : Pairs)
    → blt key k ≡ true
    → IsAbove k (keys_of ps)
    → IsAbove key (keys_of ps)
IsAbove-trans key k [] h a = tt
IsAbove-trans key k ((j, w) ∷ ps) h a = (blt_trans key k j h a.0, IsAbove-trans key k ps h a.1)

pub insert-IsSorted :
    (key value : Bytes) (xs : Pairs) → IsSorted xs → IsSorted (insert_into_leaf key value xs)
unfolding insert_into_leaf
insert-IsSorted key value [] s = (tt, tt)
insert-IsSorted key value ((j, w) ∷ xs) s = elim (Bool-cases (blt j key)) [
  | inl y ↦ rw y (insert-IsAbove key value j xs y s.0, insert-IsSorted key value xs s.1)
  | inr n ↦ elim (Bool-cases (beq j key)) [
    | inl y ↦ rw (n, y) s
    | inr m ↦
        let lt : blt key j ≡ true = ground (arith, blt_total j key n, (beq_iff j key).1) in
        rw (n, m) ((lt, IsAbove-trans key j xs lt s.0), s)
  ]
]

-- a sorted list with an insertion reads back the inserted value
pub get-insert_into_leaf :
    (key value j : Bytes) (xs : Pairs)
    → Assoc.get j (insert_into_leaf key value xs)
      ≡ (if beq key j then some value else Assoc.get j xs)
unfolding insert_into_leaf Assoc.get
get-insert_into_leaf key value j [] = refl
get-insert_into_leaf key value j ((i, w) ∷ xs) = ground (
  arith,
  get-insert_into_leaf key value j xs,
  (beq_iff i key).0,
  (beq_iff key j).0,
  (beq_iff i j).0,
  blt_irrefl key,
  beq_refl key,
  beq_refl j,
)

pub get-Below :
    (key k : Bytes) (xs : Pairs) → blt key k ≡ false → Below k xs → Assoc.get key xs ≡ none
unfolding Assoc.get
get-Below key k [] h b = refl
get-Below key k ((j, w) ∷ xs) h b =
    let n = neq_below j key (below_from j k key b.0 h) in
    ground (arith, get-Below key k xs h b.1, (beq_iff j key).0, (beq_iff key j).1)

pub get-From : (key k : Bytes) (xs : Pairs) → blt key k ≡ true → From k xs → Assoc.get key xs ≡ none
unfolding Assoc.get
get-From key k [] h b = refl
get-From key k ((j, w) ∷ xs) h b =
    let n = neq_below key j (from_below j k key b.0 h) in rw n (get-From key k xs h b.1)

pub get-append_left :
    (key : Bytes) (xs ys : Pairs)
    → Assoc.get key ys ≡ none
    → Assoc.get key (xs ++ ys) ≡ Assoc.get key xs
unfolding Assoc.get
get-append_left key [] ys e = e
get-append_left key ((j, w) ∷ xs) ys e = ground (arith, get-append_left key xs ys e)

pub get-append_right :
    (key : Bytes) (xs ys : Pairs)
    → Assoc.get key xs ≡ none
    → Assoc.get key (xs ++ ys) ≡ Assoc.get key ys
unfolding Assoc.get
get-append_right key [] ys e = refl
get-append_right key ((j, w) ∷ xs) ys e = ground (arith, get-append_right key xs ys)

pub search-eq-get : (key : Bytes) (ps : Pairs) → IsSorted ps → search key ps ≡ Assoc.get key ps
unfolding search Assoc.get
search-eq-get key [] s = refl
search-eq-get key ((j, w) ∷ ps) s = elim (Bool-cases (blt j key)) [
  | inl y ↦ rw (y, neq j key y) (search-eq-get key ps s.1)
  | inr n ↦ elim (Bool-cases (beq j key)) [
    | inl y ↦ rw (n, y)
    | inr m ↦
        let lt : blt key j ≡ true = ground (arith, blt_total j key n, (beq_iff j key).1) in
        rw (n, m) (sym (get-From key j ps lt (IsAbove→From j ps s.0)))
  ]
]
  where
    neq : (a b : Bytes) → blt a b ≡ true → beq a b ≡ false
    neq a b h = ground (arith, (beq_iff a b).0, blt_irrefl b)

-- between two separators stands a key
pub Below-chain :
    (k l : Bytes) (xs ys : Pairs) → Below k xs → From k ys → Below l ys → 0 < length ys → Below l xs
Below-chain k l [] ys a b c d = tt
Below-chain k l ((i, v) ∷ xs) [] a b c d = ground arith
Below-chain k l ((i, v) ∷ xs) ((j, w) ∷ ys) a b c d =
    (blt_trans i j l (below_from i k j a.0 b.0) c.0, Below-chain k l xs ((j, w) ∷ ys) a.1 b c d)

-- and the same from the other side
pub From-chain :
    (s k : Bytes) (xs ys : Pairs) → From s xs → Below k xs → 0 < length xs → From k ys → From s ys
From-chain s k xs [] a b c d = tt
From-chain s k [] ((j, w) ∷ ys) a b c d = ground arith
From-chain s k ((i, v) ∷ xs) ((j, w) ∷ ys) a b c d = (
  ground (arith, below_from i k j b.0 d.0, blt_trans i j s, a.0),
  From-chain s k ((i, v) ∷ xs) ys a b c d.1,
)

pub Below-trans : (k l : Bytes) (xs : Pairs) → Below k xs → blt l k ≡ false → Below l xs
Below-trans k l [] a b = tt
Below-trans k l ((i, v) ∷ xs) a b = (below_from i k l a.0 b, Below-trans k l xs a.1 b)

-- in a sorted list, a key above the last part is above the whole, if the last part is not empty
pub Below-extend :
    (k : Bytes) (xs ys : Pairs) → Below k ys → 0 < length ys → IsSorted (xs ++ ys) → Below k xs
Below-extend k [] ys a b s = tt
Below-extend k ((i, v) ∷ xs) [] a b s = ground arith
Below-extend k ((i, v) ∷ xs) ((j, w) ∷ ys) a b s = (
  blt_trans i j k (IsAbove-right i xs ((j, w) ∷ ys) s.0).0 a.0,
  Below-extend k xs ((j, w) ∷ ys) a b s.1,
)

From-trans : (k l : Bytes) (ys : Pairs) → IsAbove l (keys_of ys) → blt l k ≡ false → From k ys
From-trans k l [] a b = tt
From-trans k l ((j, w) ∷ ys) a b = (ground (arith, blt_trans l j k, a.0), From-trans k l ys a.1 b)

pub From-extend :
    (k : Bytes) (xs ys : Pairs)
    → From k xs
    → 0 < length xs
    → IsSorted (xs ++ ys)
    → From k (xs ++ ys)
From-extend k [] ys a b s = ground arith
From-extend k ((i, v) ∷ xs) ys a b s = (a.0, From-trans k i (xs ++ ys) s.0 a.0)

-- the first key
abbrev pub Starts : Bytes → Pairs → Type 0
Starts k [] = ⊥
Starts k ((j, w) ∷ ps) = k ≡ j

-- the first key of what is not below `sep` separates as `sep` does
pub Starts-separates :
    (k sep : Bytes) (xs ps ys : Pairs)
    → Starts k ps
    → Below sep xs
    → From sep (ps ++ ys)
    → IsSorted (ps ++ ys)
    → Below k xs × From k (ps ++ ys)
Starts-separates k sep xs [] ys t b f s = absurd t
Starts-separates k sep xs ((j, w) ∷ ps) ys t b f s =
    subst (λ i. Below i xs × From i ((j, w) ∷ (ps ++ ys))) (sym t)
      (Below-trans sep j xs b f.0, From-head j w (ps ++ ys) s)
