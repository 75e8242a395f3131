-- ===== src/Db/Escape/PrefixEnd.antt =====
-- The half-open range from a prefix to `prefixEnd` of it, by which rows and indexes are scanned.
use go_database.Base.{
  ℕ, zero, suc, ◌+◌, ◌≤◌, ◌<◌, ◌≡◌, ◌≢◌, refl, ap, true, false, ◌&&◌, Option, none, some, inl, inr,
  ◌⊎◌, Option-cases, Bool-cases, [], ◌∷◌, ◌++◌, arith, ◌==◌, if◌then◌else◌, length, take, drop, set,
  get_elem?, Bytes, IsBytes, beq, blt, ble, take-length,
}
use go_database.Db.Escape.{has_prefix, prefix_end, prefix_end_from}

-- the last byte below ff, raised by one, with what follows it cut off; none if there is none
pub bump : Bytes → Option Bytes
bump [] = none
bump (x ∷ xs) = elim (bump xs) [
  | some e ↦ some (x ∷ e)
  | none ↦ if x == 0xff then none else some ((x + 1) ∷ [])
]

pub or_else : Bytes → Option Bytes → Bytes
or_else d none = d
or_else d (some e) = e

bump-concat :
    (t : Bytes) (x : ℕ)
    → bump (t ++ x ∷ []) ≡ (if x == 0xff then bump t else some (t ++ (x + 1) ∷ []))
unfolding bump
bump-concat [] x = ground arith
bump-concat (y ∷ t) x = ground (arith, bump-concat t x)

get_elem-some : (i : ℕ) (bytes : Bytes) → i < length bytes → (x : ℕ) × (get_elem? bytes i ≡ some x)
get_elem-some i [] h = elim h [ ]
get_elem-some zero (x ∷ xs) h = (x, refl)
get_elem-some (suc i) (x ∷ xs) h = get_elem-some i xs (omega arith)

take-suc :
    (i x : ℕ) (bytes : Bytes)
    → get_elem? bytes i ≡ some x
    → take (suc i) bytes ≡ take i bytes ++ x ∷ []
take-suc i x [] h = cc
take-suc zero x (y ∷ ys) h = ground arith
take-suc (suc i) x (y ∷ ys) h = ap (◌∷◌ y) (take-suc i x ys h)

take-set :
    (i x v : ℕ) (bytes : Bytes)
    → get_elem? bytes i ≡ some x
    → take (suc i) (set bytes i v) ≡ take i bytes ++ v ∷ []
take-set i x v [] h = cc
take-set zero x v (y ∷ ys) h = refl
take-set (suc i) x v (y ∷ ys) h = ap (◌∷◌ y) (take-set i x v ys h)

from-eq-bump :
    (i : ℕ) (bytes : Bytes)
    → i ≤ length bytes
    → prefix_end_from i bytes ≡ or_else (bytes ++ 0 ∷ []) (bump (take i bytes))
unfolding prefix_end_from bump or_else
from-eq-bump zero bytes h = refl
from-eq-bump (suc i) bytes h =
    let (x, e) = get_elem-some i bytes h in
    rw (e, prefix_end_from)
      (rw (take-suc i x bytes e, take-set i x (x + 1) bytes e, bump-concat (take i bytes) x)
        (ground (arith, from-eq-bump i bytes (omega arith))))

prefix_end-eq-bump : (p : Bytes) → prefix_end p ≡ or_else (p ++ 0 ∷ []) (bump p)
unfolding prefix_end
prefix_end-eq-bump p = rw (from-eq-bump (length p) p (omega arith), take-length p)

bump-some : (p e s : Bytes) → bump p ≡ some e → blt (p ++ s) e ≡ true
unfolding bump blt
bump-some [] e s h = cc
bump-some (x ∷ xs) e s h = elim (Option-cases (bump xs)) [
  | inl n ↦ ground arith
  | inr (t, n) ↦ ground (arith, bump-some xs t s n)
]

-- all bytes are ff
bump-none : (p k : Bytes) → bump p ≡ none → IsBytes k → ble p k ≡ true → has_prefix k p ≡ true
unfolding bump blt has_prefix beq
bump-none [] k h b l = ground arith
bump-none (x ∷ xs) [] h b l = ground arith
bump-none (x ∷ xs) (y ∷ ys) h b l = ground (arith, bump-none xs ys)

blt_nil : (a : Bytes) → blt a [] ≡ false
unfolding blt
blt_nil [] = refl
blt_nil (x ∷ xs) = refl

bump-below :
    (p e k : Bytes)
    → bump p ≡ some e
    → IsBytes k
    → ble p k ≡ true
    → blt k e ≡ true
    → has_prefix k p ≡ true
unfolding bump blt has_prefix beq
bump-below [] e k h b l u = ground arith
bump-below (x ∷ xs) e [] h b l u = ground arith
bump-below (x ∷ xs) e (y ∷ ys) h b l u = elim (Option-cases (bump xs)) [
  | inl n ↦
      let end : e ≡ (x + 1) ∷ [] = ground arith in
      let u' : blt (y ∷ ys) ((x + 1) ∷ []) ≡ true = rw end at u in
      ground (arith, bump-none xs ys n b.1, blt_nil ys)
  | inr (t, n) ↦
      let end : e ≡ x ∷ t = ground arith in
      let u' : blt (y ∷ ys) (x ∷ t) ≡ true = rw end at u in ground (arith, bump-below xs t ys n b.1)
]

-- some byte is not ff
abbrev pub HasRoom : Bytes → Type 0
HasRoom [] = ⊥
HasRoom (x ∷ xs) = (x ≢ 0xff) ⊎ HasRoom xs

HasRoom-bump : (p : Bytes) → HasRoom p → (e : Bytes) × (bump p ≡ some e)
unfolding bump
HasRoom-bump [] h = absurd h
HasRoom-bump (x ∷ xs) (inl p) = elim (Option-cases (bump xs)) [
  | inl n ↦ ((x + 1) ∷ [], rw (n, bump) (ground arith))
  | inr (t, n) ↦ (x ∷ t, rw (n, bump))
]
HasRoom-bump (x ∷ xs) (inr r) = let (t, n) = HasRoom-bump xs r in (x ∷ t, rw (n, bump))

pub has_prefix-eq : (k p : Bytes) → has_prefix k p ≡ true → k ≡ p ++ drop (length p) k
unfolding has_prefix beq
has_prefix-eq k [] h = refl
has_prefix-eq [] (x ∷ p) h = ground arith
has_prefix-eq (y ∷ k) (x ∷ p) h = ground (arith, has_prefix-eq k p)

blt-extend : (p s : Bytes) → blt (p ++ s) p ≡ false
unfolding blt
blt-extend [] [] = refl
blt-extend [] (x ∷ s) = refl
blt-extend (x ∷ p) s = ground (arith, blt-extend p s)

-- Where `prefix` holds a byte other than ff, the keys, of bytes below 256, from `prefix` up to,
-- and not at, `prefixEnd` of it are exactly those that start with `prefix`.
pub prefix_end_exact :
    (prefix key : Bytes)
    → HasRoom prefix
    → IsBytes key
    → (ble prefix key && blt key (prefix_end prefix)) ≡ has_prefix key prefix
unfolding or_else
prefix_end_exact prefix key room b =
    let (e, h) = HasRoom-bump prefix room in
    rw (prefix_end-eq-bump prefix, h)
      (elim (Bool-cases (has_prefix key prefix)) [
        | inl y ↦
            rw (y, has_prefix-eq key prefix y)
              (rw (blt-extend prefix (drop (length prefix) key)) (bump-some prefix e _ h))
        | inr n ↦ rw n (other e h n (Bool-cases (ble prefix key)) (Bool-cases (blt key e)))
      ])
  where
    other :
        (e : Bytes)
        → bump prefix ≡ some e
        → has_prefix key prefix ≡ false
        → (ble prefix key ≡ true) ⊎ (ble prefix key ≡ false)
        → (blt key e ≡ true) ⊎ (blt key e ≡ false)
        → (ble prefix key && blt key e) ≡ false
    other e h n (inl l) (inl u) = cc (bump-below prefix e key h b l u)
    other e h n (inl l) (inr u) = ground arith
    other e h n (inr l) u = ground arith
