-- ===== src/Structures/SortedSlice.antt =====
-- `SortedSlice` of internal/structures/sorted_slice.go. `sort.Search` gives the first index at which
-- its test holds. Trace events are left out.
use go_database.Base.{
  ℕ, zero, suc, ◌≡◌, refl, sym, ap, ◌∙◌, Bool, true, false, Option, none, some, [], ◌∷◌, ◌++◌,
  if◌then◌else◌, get_elem?, take, drop, Bytes, beq, beq_iff, blt, arith, Bool-cases, inl, inr,
}
use go_database.Base.Assoc
use go_database.Base.Result.{ok, ok-injective}
use go_database.Base.Sorted.{is_some}
use go_database.Structures.Contract.{Kv, Entries}
use go_database.Btree.Memory.{search, insert_into_leaf}
use go_database.Btree.Memory.Entries.{
  IsSorted, insert-IsSorted, get-insert_into_leaf, search-eq-get,
}
use go_database.Btree.Memory.Removal.{Erased, missing, removed, put_back, delete_from_leaf}
use go_database.Btree.Memory.Erase.{Remains, Forgets, delete-IsSorted, delete-Forgets}

unfoldable pub position : Entries → Bytes → ℕ
position [] k = 0
position ((j, w) ∷ es) k = let rest = position es k in if blt j k then suc rest else 0

abbrev pub value_of : Bytes → Option (Bytes × Bytes) → Option Bytes
value_of k none = none
value_of k (some (j, w)) = if beq j k then some w else none

-- whether the entry at the position has the key
unfoldable pub found : Entries → Bytes → Bool
found es k = is_some (value_of k (get_elem? es (position es k)))

unfoldable pub get : Entries → Bytes → Option Bytes
get es k = value_of k (get_elem? es (position es k))

-- `s.entries[i].Value = v`
unfoldable pub write_value : Entries → ℕ → Bytes → Entries
write_value [] i v = []
write_value ((j, w) ∷ es) zero v = (j, v) ∷ es
write_value ((j, w) ∷ es) (suc i) v = (j, w) ∷ write_value es i v

unfoldable pub set : Entries → Bytes → Bytes → Entries
set es k v =
    let i = position es k in
    if found es k then write_value es i v else take i es ++ (k, v) ∷ drop i es

unfoldable pub delete : Entries → Bytes → Entries × Bool
delete es k =
    let i = position es k in
    if found es k then (take i es ++ drop (suc i) es, true) else (es, false)

-- the loop of `Range`
unfoldable pub until : Bytes → Entries → Entries
until end [] = []
until end ((j, w) ∷ es) = let rest = until end es in if blt end j then [] else (j, w) ∷ rest

unfoldable pub range : Entries → Bytes → Bytes → Entries
range es start end = until end (drop (position es start) es)

-- the operations at an index are those that walk to the key
get-eq-search : (es : Entries) (k : Bytes) → get es k ≡ search k es
unfolding get position search
get-eq-search [] k = refl
get-eq-search ((j, w) ∷ es) k = elim (Bool-cases (blt j k)) [
  | inl y ↦ rw y (get-eq-search es k)
  | inr n ↦ rw n
]

if-cons :
    (b : Bool) (p : Bytes × Bytes) (xs ys : Entries)
    → (if b then p ∷ xs else p ∷ ys) ≡ p ∷ (if b then xs else ys)
if-cons true p xs ys = refl
if-cons false p xs ys = refl

set-eq-insert : (es : Entries) (k v : Bytes) → set es k v ≡ insert_into_leaf k v es
unfolding set found position insert_into_leaf write_value
set-eq-insert [] k v = refl
set-eq-insert ((j, w) ∷ es) k v = elim (Bool-cases (blt j k)) [
  | inl y ↦ rw y (
      if-cons (found es k) (j, w) (write_value es (position es k) v)
        (take (position es k) es ++ (k, v) ∷ drop (position es k) es)
      ∙ ap (◌∷◌ (j, w)) (set-eq-insert es k v))
  | inr n ↦ elim (Bool-cases (beq j k)) [ inl y ↦ rw (n, y) | inr m ↦ rw (n, m) ]
]

-- the outcome of a deletion, as `Delete` tells it
abbrev outcome : Entries → Erased Entries → Entries × Bool
outcome es missing = (es, false)
outcome es (removed left) = (left, true)

abbrev with_front : Bytes × Bytes → Entries × Bool → Entries × Bool
with_front p (es, b) = (p ∷ es, b)

outcome-put_back :
    (p : Bytes × Bytes) (es : Entries) (r : Erased Entries)
    → with_front p (outcome es r) ≡ outcome (p ∷ es) (put_back p r)
outcome-put_back p es missing = refl
outcome-put_back p es (removed left) = refl

if-front :
    (b : Bool) (p : Bytes × Bytes) (xs ys : Entries)
    → ◌≡◌ {A = Entries × Bool}
        (if b then (p ∷ xs, true) else (p ∷ ys, false))
        (with_front p (if b then (xs, true) else (ys, false)))
if-front true p xs ys = refl
if-front false p xs ys = refl

delete-eq-outcome : (es : Entries) (k : Bytes) → delete es k ≡ outcome es (delete_from_leaf k es)
unfolding delete found position delete_from_leaf
delete-eq-outcome [] k = refl
delete-eq-outcome ((j, w) ∷ es) k = elim (Bool-cases (blt j k)) [
  | inl y ↦ rw y (
      if-front (found es k) (j, w) (take (position es k) es ++ drop (suc (position es k)) es) es
      ∙ ap (with_front (j, w)) (delete-eq-outcome es k)
      ∙ outcome-put_back (j, w) es (delete_from_leaf k es))
  | inr n ↦ elim (Bool-cases (beq j k)) [ inl y ↦ rw (n, y) | inr m ↦ rw (n, m) ]
]

get-eq-view : (es : Entries) (k : Bytes) → IsSorted es → get es k ≡ Assoc.get k es
get-eq-view es k s = get-eq-search es k ∙ search-eq-get k es s

pub set-IsSorted : (es : Entries) (k v : Bytes) → IsSorted es → IsSorted (set es k v)
set-IsSorted es k v s = rw (set-eq-insert es k v) (insert-IsSorted k v es s)

pub get-set_slice :
    (es : Entries) (k v j : Bytes)
    → IsSorted es
    → get (set es k v) j ≡ (if beq k j then some v else get es j)
get-set_slice es k v j s =
    get-eq-view (set es k v) j (set-IsSorted es k v s)
    ∙ ap (Assoc.get j) (set-eq-insert es k v)
    ∙ get-insert_into_leaf k v j es
    ∙ ap (λ o. if beq k j then some v else o) (sym (get-eq-view es j s))

outcome-IsSorted :
    (es : Entries) (r : Erased Entries)
    → IsSorted es
    → Remains IsSorted r
    → IsSorted (outcome es r).0
outcome-IsSorted es missing s h = s
outcome-IsSorted es (removed left) s h = h

pub delete-slice-IsSorted : (es : Entries) (k : Bytes) → IsSorted es → IsSorted (delete es k).0
delete-slice-IsSorted es k s =
    rw (delete-eq-outcome es k)
      (outcome-IsSorted es (delete_from_leaf k es) s (delete-IsSorted k es s))

outcome-get :
    (es : Entries) (k j : Bytes) (r : Erased Entries)
    → Forgets k j es r
    → Assoc.get j (outcome es r).0 ≡ (if beq k j then none else Assoc.get j es)
outcome-get es k j missing f = ground (arith, f, (beq_iff k j).0)
outcome-get es k j (removed left) f = f.1

pub get-delete_slice :
    (es : Entries) (k j : Bytes)
    → IsSorted es
    → get (delete es k).0 j ≡ (if beq k j then none else get es j)
get-delete_slice es k j s =
    get-eq-view (delete es k).0 j (delete-slice-IsSorted es k s)
    ∙ ap (λ r. Assoc.get j r.0) (delete-eq-outcome es k)
    ∙ outcome-get es k j (delete_from_leaf k es) (delete-Forgets k j es s)
    ∙ ap (λ o. if beq k j then none else o) (sym (get-eq-view es j s))

-- a slice that is sorted, as an implementation of the contract
abbrev pub Slice : Type 0
Slice = (es : Entries) × IsSorted es

abbrev pub slice_kv : Kv
slice_kv = record {
  Store = Slice;
  get = λ s k. (s, ok (get s.0 k));
  range = λ s a b. (s, ok (range s.0 a b));
  set = λ s k v. ((set s.0 k v, set-IsSorted s.0 k v s.1), ok tt);
  delete = λ s k. (((delete s.0 k).0, delete-slice-IsSorted s.0 k s.1), ok (delete s.0 k).1);
  view = λ s k. get s.0 k;
  get_lem = λ s k o h. sym (ok-injective h);
  get_same = λ s k j. refl;
  range_same = λ s a b j. refl;
  set_lem = λ s k v u h j. get-set_slice s.0 k v j s.1;
  set_err = λ s k v e h j. cc;
  delete_lem = λ s k found h j. get-delete_slice s.0 k j s.1;
  delete_err = λ s k e h j. cc;
}
