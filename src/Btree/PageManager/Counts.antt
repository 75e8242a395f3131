-- ===== src/Btree/PageManager/Counts.antt =====
-- How often a page stands on a list of pages.
use go_database.Base.{
  ℕ, ◌+◌, ◌-◌, ◌≡◌, refl, Bool, not, ◌&&◌, Option, none, some, List, [], ◌∷◌, ◌++◌, ltb, ◌==◌,
  if◌then◌else◌, arith,
}
use go_database.Btree.PageManager.{
  contains_page_id, remove_page_id, remove_from_set, with_front, split_last,
}

-- one, if the test holds
abbrev pub one_if : Bool → ℕ
one_if b = if b then 1 else 0

unfoldable pub occurrences : List ℕ → ℕ → ℕ
occurrences [] j = 0
occurrences (i ∷ is) j = one_if (i == j) + occurrences is j

pub occurrences-append :
    (xs ys : List ℕ) (j : ℕ) → occurrences (xs ++ ys) j ≡ occurrences xs j + occurrences ys j
unfolding occurrences
occurrences-append [] ys j = omega arith
occurrences-append (x ∷ xs) ys j = omega (arith, occurrences-append xs ys j)

pub contains-eq-occurrences :
    (xs : List ℕ) (j : ℕ) → contains_page_id xs j ≡ ltb 0 (occurrences xs j)
unfolding occurrences contains_page_id
contains-eq-occurrences [] j = ground arith
contains-eq-occurrences (x ∷ xs) j = ground (arith, contains-eq-occurrences xs j)

pub occurrences-remove :
    (xs : List ℕ) (i j : ℕ)
    → occurrences (remove_page_id xs i) j ≡ occurrences xs j - one_if (i == j)
unfolding occurrences remove_page_id
occurrences-remove [] i j = ground arith
occurrences-remove (x ∷ xs) i j = ground (arith, occurrences-remove xs i j)

pub contains-remove_from_set :
    (xs : List ℕ) (i j : ℕ)
    → contains_page_id (remove_from_set xs i) j ≡ (contains_page_id xs j && not (i == j))
unfolding contains_page_id remove_from_set
contains-remove_from_set [] i j = refl
contains-remove_from_set (x ∷ xs) i j = ground (arith, contains-remove_from_set xs i j)

split_last-none : (xs : List ℕ) → split_last xs ≡ none → xs ≡ []
unfolding split_last
split_last-none [] e = refl
split_last-none (x ∷ xs) e = absurd (by_case (split_last xs) e)
  where
    by_case : (o : Option (List ℕ × ℕ)) → with_front x o ≡ none → ⊥
    by_case none h = cc
    by_case (some q) h = cc

pub occurrences-split_last :
    (xs ys : List ℕ) (y j : ℕ)
    → split_last xs ≡ some (ys, y)
    → occurrences xs j ≡ occurrences ys j + one_if (y == j)
unfolding split_last occurrences
occurrences-split_last [] ys y j e = absurd (none-ne-some e)
  where
    none-ne-some : {p : List ℕ × ℕ} → ◌≡◌ {A = Option (List ℕ × ℕ)} none (some p) → ⊥
    none-ne-some h = cc
occurrences-split_last (x ∷ xs) ys y j e =
    by_case (split_last xs) refl e (λ zs z. occurrences-split_last xs zs z j)
  where
    by_case :
        (o : Option (List ℕ × ℕ))
        → split_last xs ≡ o
        → with_front x o ≡ some (ys, y)
        → ((zs : List ℕ) (z : ℕ)
            → split_last xs ≡ some (zs, z)
            → occurrences xs j ≡ occurrences zs j + one_if (z == j))
        → one_if (x == j) + occurrences xs j ≡ occurrences ys j + one_if (y == j)
    by_case none h k ih =
        let a : ys ≡ [] = cc in let b : y ≡ x = cc in rw (a, b, split_last-none xs h) (omega arith)
    by_case (some (zs, z)) h k ih =
        let a : ys ≡ x ∷ zs = cc in let b : y ≡ z = cc in rw (a, b) (omega (arith, ih zs z h))
