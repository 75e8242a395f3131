-- ===== src/Btree/PageManager/Plan.antt =====
-- The number of free-list nodes that `writeFreeListSnapshot` chooses.
use go_database.Base.{
  ℕ, zero, suc, ◌+◌, ◌-◌, ◌*◌, ◌≤◌, ◌<◌, min, Option, none, some, ◌==◌, arith, Bool-cases, inl, inr,
}
use go_database.Btree.FreeList.{capacity}
use go_database.Btree.PageManager.{nodes_for, try_candidates, plan_nodes}

-- `count` nodes, of which `reused` are taken from the entries, are just enough for the others
abbrev pub IsPlan : ℕ → ℕ → ℕ × ℕ → Type 0
IsPlan total recyclable (count, reused) =
    (reused ≤ count)
    × (reused ≤ recyclable)
    × (total - reused ≤ count * capacity)
    × (count * capacity < total - reused + capacity)

abbrev WhenFound : (ℕ × ℕ → Type 0) → Option (ℕ × ℕ) → Type 0
WhenFound P none = Unit
WhenFound P (some c) = P c

try_candidates-IsPlan :
    (left candidate total recyclable : ℕ)
    → WhenFound (IsPlan total recyclable) (try_candidates left candidate total recyclable)
unfolding try_candidates
try_candidates-IsPlan zero candidate total recyclable = tt
try_candidates-IsPlan (suc left) candidate total recyclable =
    elim (Bool-cases (nodes_for (total - min candidate recyclable) == candidate)) [
      | inl y ↦ rw y (omega arith, omega arith, ground arith, ground arith)
      | inr n ↦ rw n (try_candidates-IsPlan left (suc candidate) total recyclable)
    ]

-- The free-list nodes that are chosen hold the entries that are not reused as nodes, and no fewer
-- nodes would; the pages reused as nodes are among those that may be.
pub plan_nodes-IsPlan :
    (total recyclable : ℕ) → IsPlan total recyclable (plan_nodes total recyclable)
unfolding plan_nodes
plan_nodes-IsPlan total recyclable =
    by_case (try_candidates (nodes_for total) 1 total recyclable)
      (try_candidates-IsPlan (nodes_for total) 1 total recyclable)
  where
    by_case :
        (o : Option (ℕ × ℕ))
        → WhenFound (IsPlan total recyclable) o
        → IsPlan total recyclable (elim o [ none ↦ (nodes_for total, 0) | some chosen ↦ chosen ])
    by_case none w = (omega arith, omega arith, omega arith, omega arith)
    by_case (some c) w = w
