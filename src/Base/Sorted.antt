-- ===== src/Base/Sorted.antt =====
-- `sort.Strings`, and the sorted listing of the entries of a map whose keys pass a test.
use mathlib.Core.Path.{◌≡◌, refl, ap, ◌∙◌}
use mathlib.Core.Bool.{Bool, true, false, ◌&&◌, ◌||◌}
use mathlib.Core.Logic.{inl, inr}
use mathlib.Core.List.{List, [], ◌∷◌}
use mathlib.Core.Option.{Option, none, some}
use native.Mathlib.Omega.{arith}
use go_database.Base.Tests.{if◌then◌else◌, Bool-cases}
use go_database.Base.ByteString.{Bytes, beq, beq_iff, blt, blt_irrefl, blt_trans, blt_total}
use go_database.Base.Assoc.{get, put, remove, get-put, get-remove}

-- `sort.Strings` puts the strings in ascending order; here, by insertion
unfoldable pub insert_key : Bytes → List Bytes → List Bytes
insert_key k [] = k ∷ []
insert_key k (x ∷ xs) = if blt k x then k ∷ x ∷ xs else x ∷ insert_key k xs

unfoldable pub sort_keys : List Bytes → List Bytes
unfolding insert_key
sort_keys [] = []
sort_keys (k ∷ ks) = insert_key k (sort_keys ks)

-- the keys that pass a test, in the order of the map
unfoldable pub keys_where {ℓ} : {V : Type ℓ} → (Bytes → Bool) → List (Bytes × V) → List Bytes
keys_where p [] = []
keys_where p ((k, v) ∷ m) = if p k then k ∷ keys_where p m else keys_where p m

-- the keys of a list that pass a test
unfoldable pub filter_keys : (Bytes → Bool) → List Bytes → List Bytes
filter_keys p [] = []
filter_keys p (k ∷ ks) = if p k then k ∷ filter_keys p ks else filter_keys p ks

unfoldable pub has_key : Bytes → List Bytes → Bool
has_key k [] = false
has_key k (x ∷ xs) = beq x k || has_key k xs

-- for each key, the entry of the map; `d` stands for a key that is missing
unfoldable pub entries_at {ℓ} : {V : Type ℓ} → V → List (Bytes × V) → List Bytes → List (Bytes × V)
entries_at d m [] = []
entries_at d m (k ∷ ks) = (k, (elim (get k m) [ none ↦ d | some v ↦ v ])) ∷ entries_at d m ks

-- the entries whose keys pass the test, in ascending order of the keys
unfoldable pub sorted_entries {ℓ} :
    {V : Type ℓ} → V → (Bytes → Bool) → List (Bytes × V) → List (Bytes × V)
sorted_entries d p m = entries_at d m (sort_keys (keys_where p m))

abbrev pub IsAbove : Bytes → List Bytes → Type 0
IsAbove x [] = Unit
IsAbove x (y ∷ ys) = (blt x y ≡ true) × IsAbove x ys

-- strictly ascending
abbrev pub IsAscending : List Bytes → Type 0
IsAscending [] = Unit
IsAscending (x ∷ xs) = IsAbove x xs × IsAscending xs

abbrev pub keys_of {ℓ} : {V : Type ℓ} → List (Bytes × V) → List Bytes
keys_of [] = []
keys_of ((k, v) ∷ m) = k ∷ keys_of m

-- no key twice
abbrev pub IsMap {ℓ} : {V : Type ℓ} → List (Bytes × V) → Type ℓ
IsMap [] = Unit
IsMap ((k, v) ∷ m) = (get k m ≡ none) × IsMap m

abbrev pub IsDistinct : List Bytes → Type 0
IsDistinct [] = Unit
IsDistinct (x ∷ xs) = (has_key x xs ≡ false) × IsDistinct xs

and_false : (b : Bool) → (b && false) ≡ false
and_false true = refl
and_false false = refl

has_key-insert :
    (j k : Bytes) (ks : List Bytes) → has_key j (insert_key k ks) ≡ (beq k j || has_key j ks)
unfolding has_key insert_key
has_key-insert j k [] = refl
has_key-insert j k (x ∷ xs) = ground (arith, has_key-insert j k xs)

has_key-sort : (j : Bytes) (ks : List Bytes) → has_key j (sort_keys ks) ≡ has_key j ks
unfolding has_key sort_keys
has_key-sort j [] = refl
has_key-sort j (k ∷ ks) =
    has_key-insert j k (sort_keys ks) ∙ ap (◌||◌ (beq k j)) (has_key-sort j ks)

abbrev pub is_some {ℓ} : {V : Type ℓ} → Option V → Bool
is_some none = false
is_some (some v) = true

module _ {ℓ} {V : Type ℓ} where
  has_key-where :
      (j : Bytes) (p : Bytes → Bool) (m : List (Bytes × V))
      → has_key j (keys_where p m) ≡ (p j && is_some (get j m))
  unfolding has_key keys_where get
  has_key-where j p [] = ground arith
  has_key-where j p ((k, v) ∷ m) = ground (arith, has_key-where j p m, (beq_iff k j).0)

  get-entries :
      (j : Bytes) (d : V) (m : List (Bytes × V)) (ks : List Bytes)
      → get j (entries_at d m ks)
        ≡ (if has_key j ks then some (elim (get j m) [ none ↦ d | some v ↦ v ]) else none)
  unfolding has_key entries_at get
  get-entries j d m [] = refl
  get-entries j d m (k ∷ ks) = ground (arith, get-entries j d m ks, (beq_iff k j).0)

  -- The listing holds exactly the entries of the map whose keys pass the test.
  pub get-sorted_entries :
      (j : Bytes) (d : V) (p : Bytes → Bool) (m : List (Bytes × V))
      → get j (sorted_entries d p m) ≡ (if p j then get j m else none)
  unfolding sorted_entries
  get-sorted_entries j d p m = ground (
    arith,
    get-entries j d m (sort_keys (keys_where p m)),
    has_key-sort j (keys_where p m),
    has_key-where j p m,
  )

IsAbove-insert :
    (x k : Bytes) (ks : List Bytes) → blt x k ≡ true → IsAbove x ks → IsAbove x (insert_key k ks)
unfolding insert_key
IsAbove-insert x k [] h a = (h, tt)
IsAbove-insert x k (y ∷ ys) h a = elim (Bool-cases (blt k y)) [
  | inl b ↦ rw b (h, a)
  | inr n ↦ rw n (a.0, IsAbove-insert x k ys h a.1)
]

IsAbove-trans : (k x : Bytes) (xs : List Bytes) → blt k x ≡ true → IsAbove x xs → IsAbove k xs
IsAbove-trans k x [] h a = tt
IsAbove-trans k x (y ∷ ys) h a = (blt_trans k x y h a.0, IsAbove-trans k x ys h a.1)

insert-IsAscending :
    (k : Bytes) (ks : List Bytes)
    → has_key k ks ≡ false
    → IsAscending ks
    → IsAscending (insert_key k ks)
unfolding insert_key has_key
insert-IsAscending k [] h a = (tt, tt)
insert-IsAscending k (x ∷ xs) h a = elim (Bool-cases (blt k x)) [
  | inl y ↦ rw y ((y, IsAbove-trans k x xs y a.0), a)
  | inr n ↦ rw n (
    IsAbove-insert x k xs (ground (arith, blt_total k x, (beq_iff x k).1)) a.0,
    insert-IsAscending k xs (ground arith) a.1,
  )
]

sort-IsAscending : (ks : List Bytes) → IsDistinct ks → IsAscending (sort_keys ks)
unfolding sort_keys
sort-IsAscending [] h = tt
sort-IsAscending (k ∷ ks) h =
    insert-IsAscending k (sort_keys ks) (has_key-sort k ks ∙ h.0) (sort-IsAscending ks h.1)

module _ {ℓ} {V : Type ℓ} where
  where-absent :
      (k : Bytes) (p : Bytes → Bool) (m : List (Bytes × V))
      → get k m ≡ none
      → has_key k (keys_where p m) ≡ false
  where-absent k p m h = has_key-where k p m ∙ rw h (and_false (p k))

  keys_where-IsDistinct :
      (p : Bytes → Bool) (m : List (Bytes × V)) → IsMap m → IsDistinct (keys_where p m)
  unfolding keys_where
  keys_where-IsDistinct p [] h = tt
  keys_where-IsDistinct p ((k, v) ∷ m) h = elim (Bool-cases (p k)) [
    | inl y ↦ rw y (where-absent k p m h.0, keys_where-IsDistinct p m h.1)
    | inr n ↦ rw n (keys_where-IsDistinct p m h.1)
  ]

  keys_of-entries :
      (d : V) (m : List (Bytes × V)) (ks : List Bytes) → keys_of (entries_at d m ks) ≡ ks
  unfolding entries_at
  keys_of-entries d m [] = refl
  keys_of-entries d m (k ∷ ks) = ap (◌∷◌ k) (keys_of-entries d m ks)

  -- The listing of a map is strictly ascending.
  pub sorted_entries-IsAscending :
      (d : V) (p : Bytes → Bool) (m : List (Bytes × V))
      → IsMap m
      → IsAscending (keys_of (sorted_entries d p m))
  unfolding sorted_entries
  sorted_entries-IsAscending d p m h =
      rw (keys_of-entries d m (sort_keys (keys_where p m)))
        (sort-IsAscending (keys_where p m) (keys_where-IsDistinct p m h))

  pub put-IsMap : (k : Bytes) (v : V) (m : List (Bytes × V)) → IsMap m → IsMap (put k v m)
  unfolding put get
  put-IsMap k v [] h = (refl, tt)
  put-IsMap k v ((j, w) ∷ m) h = elim (Bool-cases (beq j k)) [
    | inl y ↦ rw y (let e : j ≡ k = (beq_iff j k).0 y in rw (← e) h.0, h.1)
    | inr n ↦ rw n (rw (get-put k j v m, neq j k n) h.0, put-IsMap k v m h.1)
  ]
    where
      neq : (j k : Bytes) → beq j k ≡ false → beq k j ≡ false
      neq j k n = ground (arith, (beq_iff k j).0, (beq_iff j k).1)

  pub remove-IsMap : (k : Bytes) (m : List (Bytes × V)) → IsMap m → IsMap (remove k m)
  unfolding remove
  remove-IsMap k [] h = tt
  remove-IsMap k ((j, w) ∷ m) h = elim (Bool-cases (beq j k)) [
    | inl y ↦ rw y (remove-IsMap k m h.1)
    | inr n ↦ rw n (rw (get-remove k j m, h.0) (same (beq k j)), remove-IsMap k m h.1)
  ]
    where
      same : (b : Bool) → ◌≡◌ {A = Option V} (if b then none else none) none
      same true = refl
      same false = refl

insert-above : (k : Bytes) (xs : List Bytes) → IsAbove k xs → insert_key k xs ≡ k ∷ xs
unfolding insert_key
insert-above k [] h = refl
insert-above k (x ∷ xs) h = rw h.0

IsAbove-filter :
    (p : Bytes → Bool) (x : Bytes) (xs : List Bytes) → IsAbove x xs → IsAbove x (filter_keys p xs)
unfolding filter_keys
IsAbove-filter p x [] h = tt
IsAbove-filter p x (y ∷ ys) h = elim (Bool-cases (p y)) [
  | inl b ↦ rw b (h.0, IsAbove-filter p x ys h.1)
  | inr n ↦ rw n (IsAbove-filter p x ys h.1)
]

filter-insert :
    (p : Bytes → Bool) (k : Bytes) (ks : List Bytes)
    → IsAscending ks
    → filter_keys p (insert_key k ks)
      ≡ (if p k then insert_key k (filter_keys p ks) else filter_keys p ks)
unfolding filter_keys insert_key
filter-insert p k [] h = refl
filter-insert p k (x ∷ xs) h =
    let above = λ (b : blt k x ≡ true).
      insert-above k (filter_keys p xs) (IsAbove-filter p k xs (IsAbove-trans k x xs b h.0)) in
    ground (arith, filter-insert p k xs h.1, above)

-- Sorting keys and then dropping some is dropping them and then sorting.
pub filter-sort {ℓ} :
    {V : Type ℓ} (p : Bytes → Bool) (m : List (Bytes × V))
    → IsMap m
    → filter_keys p (sort_keys (keys_where (λ _. true) m)) ≡ sort_keys (keys_where p m)
unfolding sort_keys keys_where filter_keys
filter-sort p [] h = refl
filter-sort p ((k, v) ∷ m) h =
    filter-insert p k (sort_keys (keys_where (λ _. true) m))
      (sort-IsAscending (keys_where (λ _. true) m) (keys_where-IsDistinct (λ _. true) m h.1))
    ∙ step (p k) (filter-sort p m h.1)
  where
    step :
        (b : Bool)
        → filter_keys p (sort_keys (keys_where (λ _. true) m)) ≡ sort_keys (keys_where p m)
        → (if b
            then insert_key k (filter_keys p (sort_keys (keys_where (λ _. true) m)))
            else filter_keys p (sort_keys (keys_where (λ _. true) m)))
          ≡ sort_keys (if b then k ∷ keys_where p m else keys_where p m)
    step true e = ap (insert_key k) e
    step false e = e

module _ {ℓ} {V : Type ℓ} where
  get-above : (x : Bytes) (m : List (Bytes × V)) → IsAbove x (keys_of m) → get x m ≡ none
  unfolding get
  get-above x [] h = refl
  get-above x ((k, v) ∷ m) h =
      rw (let n : beq k x ≡ false = ground (arith, (beq_iff k x).0, blt_irrefl x) in n)
        (get-above x m h.1)

  -- A strictly ascending listing has no key twice.
  pub ascending-IsMap : (m : List (Bytes × V)) → IsAscending (keys_of m) → IsMap m
  ascending-IsMap [] h = tt
  ascending-IsMap ((k, v) ∷ m) h = (get-above k m h.0, ascending-IsMap m h.1)
