-- ===== src/Btree/Memory/Refresh.antt =====
-- The separator on the left of a child that has lost a key: `minimumKey`, and its use in
-- `deleteFromNode`.
use go_database.Base.{
  ℕ, zero, suc, ◌≤◌, ◌<◌, ◌≡◌, refl, false, [], ◌∷◌, ◌++◌, length, Bytes, arith, Bool-cases, inl,
  inr, ◌==◌,
}
use go_database.Base.Panic.{Returns, Returns-weaken}
use go_database.Btree.Memory.{Pairs, Node, leaf, internal, Children, last, more, size}
use go_database.Btree.Memory.Entries.{Below, From, IsSorted, Starts, Starts-separates}
use go_database.Btree.Memory.Shape.{entries, entries_of, IsNode, AreNodes}
use go_database.Btree.Memory.Split.{entries-nonempty, entries_of-nonempty}
use go_database.Btree.Memory.Removal.{minimum_key, minimum_key_of, refresh}

Starts-append : (k : Bytes) (xs ys : Pairs) → Starts k xs → Starts k (xs ++ ys)
Starts-append k [] ys s = absurd s
Starts-append k ((j, w) ∷ xs) ys s = s

module _ (max : ℕ) (two : 2 ≤ max) where
  mutual
    unfolding minimum_key minimum_key_of IsNode AreNodes entries entries_of

    minimum_key-Returns :
        (h : ℕ) (n : Node)
        → IsNode max h n
        → 0 < length (entries n)
        → Returns (λ k. Starts k (entries n)) (minimum_key n)
    minimum_key-Returns zero (leaf pa []) w a = ground arith
    minimum_key-Returns zero (leaf pa ((k, v) ∷ ps)) w a = refl
    minimum_key-Returns zero (internal cs) w a = absurd w
    minimum_key-Returns (suc h) (leaf pa ps) w a = absurd w
    minimum_key-Returns (suc h) (internal cs) w a = minimum_key_of-Returns h cs w

    minimum_key_of-Returns :
        (h : ℕ) (cs : Children)
        → AreNodes max h cs
        → Returns (λ k. Starts k (entries_of cs)) (minimum_key_of cs)
    minimum_key_of-Returns h (last c) w =
        minimum_key-Returns h c w.0 (entries-nonempty max two h c w.0 w.1.0)
    minimum_key_of-Returns h (more c k cs) w =
        Returns-weaken (λ j. Starts j (entries c)) (λ j. Starts j (entries c ++ entries_of cs))
          (minimum_key c)
          (minimum_key-Returns h c w.0.0 (entries-nonempty max two h c w.0.0 w.0.1.0))
          (λ j. Starts-append j (entries c) (entries_of cs))

  has_entries : (h : ℕ) (n : Node) → IsNode max h n → (size n == 0) ≡ false → 0 < length (entries n)
  unfolding IsNode entries
  has_entries zero (leaf pa ps) w e = ground arith
  has_entries zero (internal cs) w e = absurd w
  has_entries (suc h) (leaf pa ps) w e = absurd w
  has_entries (suc h) (internal cs) w e = entries_of-nonempty max two h cs w

  pub refresh-Returns :
      (h : ℕ) (xs : Pairs) (sep : Bytes) (c : Node) (ys : Pairs)
      → IsNode max h c
      → Below sep xs
      → From sep (entries c ++ ys)
      → IsSorted (entries c ++ ys)
      → Returns (λ key. Below key xs × From key (entries c ++ ys)) (refresh sep c)
  refresh-Returns h xs sep c ys w b f s = elim (Bool-cases (size c == 0)) [
    | inl y ↦ rw y (b, f)
    | inr n ↦ rw n (
        Returns-weaken (λ k. Starts k (entries c))
          (λ key. Below key xs × From key (entries c ++ ys)) (minimum_key c)
          (minimum_key-Returns h c w (has_entries h c w n))
          (λ k t. Starts-separates k sep xs (entries c) ys t b f s))
  ]
