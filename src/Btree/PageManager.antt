-- ===== src/Btree/PageManager.antt =====
-- The page manager of internal/btree/page_manager.go: which pages are free, and the publication of
-- a root.
pub mod Publish
pub mod Counts
pub mod Plan
pub mod Free
pub mod Assign
pub mod Allocate
pub mod Keeps
pub mod Commit
pub mod Recover
use go_database.Base.{
  ℕ, zero, suc, ◌+◌, ◌-◌, ◌*◌, ◌/◌, ◌%◌, ◌^◌, min, Bool, true, false, not, ◌&&◌, ◌||◌, Option, none,
  some, List, [], ◌∷◌, ◌++◌, ltb, leb, ◌==◌, if◌then◌else◌, length, take, drop, replicate, Bytes,
  codes, le,
}
use go_database.Base.Result.{Result, ok, err, panic, ◌>>=◌, ◌>>◌, refuse}
use go_database.Btree.Disk.{
  PageError, invalid_page_id, invalid_page_data, unexpected_eof, short_write, Disk, page_size,
  data_page_offset,
}
use go_database.Btree.FreeList.{
  capacity, FreeListNode, encode_free_list_node, decode_free_list_node, read_raw_data_page,
}

-- `pageManager` without its file; `freePageSet` is a list
pub record Pages : Type 0 where
  pub next_page_id : ℕ
  pub committed_page_count : ℕ
  pub root_page_id : ℕ
  pub generation : ℕ
  pub free_page_ids : List ℕ
  pub retired_page_ids : List ℕ
  pub pending_free_page_ids : List ℕ
  pub free_page_set : List ℕ
  pub free_list_page_ids : List ℕ

unfoldable pub contains_page_id : List ℕ → ℕ → Bool
contains_page_id [] target = false
contains_page_id (id ∷ ids) target = id == target || contains_page_id ids target

-- `removePageID`: the first occurrence goes
unfoldable pub remove_page_id : List ℕ → ℕ → List ℕ
remove_page_id [] target = []
remove_page_id (id ∷ ids) target = if id == target then ids else id ∷ remove_page_id ids target

-- `delete(pm.freePageSet, pageID)`
unfoldable pub remove_from_set : List ℕ → ℕ → List ℕ
remove_from_set [] target = []
remove_from_set (id ∷ ids) target =
    let rest = remove_from_set ids target in if id == target then rest else id ∷ rest

abbrev pub with_front : ℕ → Option (List ℕ × ℕ) → Option (List ℕ × ℕ)
with_front x none = some ([], x)
with_front x (some (ys, y)) = some (x ∷ ys, y)

-- the last element, and what is before it
unfoldable pub split_last : List ℕ → Option (List ℕ × ℕ)
split_last [] = none
split_last (x ∷ xs) = with_front x (split_last xs)

unfoldable pub validate_existing_page_id : Pages → ℕ → Result PageError (Unit {0})
validate_existing_page_id p id =
    refuse (id == 0 || leb p.next_page_id id) invalid_page_id
    >> refuse (contains_page_id p.free_page_set id) invalid_page_id

abbrev pub new_page : Pages → Result PageError ℕ → Pages × Result PageError ℕ
new_page p (ok offset) = (record p { next_page_id = suc p.next_page_id }, ok p.next_page_id)
new_page p (err e) = (p, err e)
new_page p panic = (p, panic)

abbrev pub reserve_from : Pages → Option (List ℕ × ℕ) → Pages × Result PageError ℕ
reserve_from p none = new_page p (data_page_offset p.next_page_id)
reserve_from p (some (ids, id)) =
    (record p { free_page_ids = ids; free_page_set = remove_from_set p.free_page_set id }, ok id)

unfoldable pub reserve_page : Pages → Pages × Result PageError ℕ
reserve_page p = reserve_from p (split_last p.free_page_ids)

abbrev pub freed : Pages → ℕ → Result PageError (Unit {0}) → Pages × Result PageError (Unit {0})
freed p id (ok done) =
    (record p { pending_free_page_ids = p.pending_free_page_ids ++ id ∷ [] }, ok tt)
freed p id (err e) = (p, err e)
freed p id panic = (p, panic)

unfoldable pub may_free : Pages → ℕ → Result PageError (Unit {0})
may_free p id =
    validate_existing_page_id p id
    >> (refuse (contains_page_id p.free_list_page_ids id) invalid_page_id
        >> refuse
            (contains_page_id p.retired_page_ids id || contains_page_id p.pending_free_page_ids id)
            invalid_page_id)

unfoldable pub free_page : Pages → ℕ → Pages × Result PageError (Unit {0})
free_page p id = freed p id (may_free p id)

-- `pageManagerState`, `snapshot` and `restore`: `freePageSet` is made anew
pub record PageManagerState : Type 0 where
  pub next_page_id : ℕ
  pub committed_page_count : ℕ
  pub root_page_id : ℕ
  pub generation : ℕ
  pub free_page_ids : List ℕ
  pub retired_page_ids : List ℕ
  pub pending_free_page_ids : List ℕ
  pub free_list_page_ids : List ℕ

unfoldable pub snapshot : Pages → PageManagerState
snapshot p = record {
  next_page_id = p.next_page_id;
  committed_page_count = p.committed_page_count;
  root_page_id = p.root_page_id;
  generation = p.generation;
  free_page_ids = p.free_page_ids;
  retired_page_ids = p.retired_page_ids;
  pending_free_page_ids = p.pending_free_page_ids;
  free_list_page_ids = p.free_list_page_ids;
}

unfoldable pub restore : PageManagerState → Pages
restore s = record {
  next_page_id = s.next_page_id;
  committed_page_count = s.committed_page_count;
  root_page_id = s.root_page_id;
  generation = s.generation;
  free_page_ids = s.free_page_ids;
  retired_page_ids = s.retired_page_ids;
  pending_free_page_ids = s.pending_free_page_ids;
  free_page_set = s.free_page_ids;
  free_list_page_ids = s.free_list_page_ids;
}

-- `(n + freeListPageCapacity - 1) / freeListPageCapacity`
abbrev pub nodes_for : ℕ → ℕ
nodes_for n = (n + capacity - 1) / capacity

-- the loop over `candidate`; `left` rounds remain
unfoldable pub try_candidates : ℕ → ℕ → ℕ → ℕ → Option (ℕ × ℕ)
try_candidates zero candidate total recyclable = none
try_candidates (suc left) candidate total recyclable =
    let reused = min candidate recyclable in
    let rest = try_candidates left (suc candidate) total recyclable in
    if nodes_for (total - reused) == candidate then some (candidate, reused) else rest

-- the number of nodes, and how many of them are pages that are reused
unfoldable pub plan_nodes : ℕ → ℕ → ℕ × ℕ
plan_nodes total recyclable = elim (try_candidates (nodes_for total) 1 total recyclable) [
  | none ↦ (nodes_for total, 0)
  | some chosen ↦ chosen
]
