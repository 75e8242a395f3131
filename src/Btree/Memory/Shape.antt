-- ===== src/Btree/Memory/Shape.antt =====
-- The shape of a well-formed tree: leaves at one depth, bounded nodes, and keys that separate the
-- entries of the children around them.
use go_database.Base.{ℕ, zero, suc, ◌/◌, ◌≤◌, ◌<◌, Option, none, some, [], ◌++◌}
use go_database.Btree.Memory.{Pairs, Node, leaf, internal, Children, last, more, size, Tree, max_of}
use go_database.Btree.Memory.Entries.{Below, From, IsSorted}

-- the entries of the leaves, from the left to the right
unfoldable mutual
  pub entries : Node → Pairs
  entries (leaf pa ps) = ps
  entries (internal cs) = entries_of cs

  pub entries_of : Children → Pairs
  entries_of (last c) = entries c
  entries_of (more c k cs) = entries c ++ entries_of cs

-- a node below the root has at least half of the keys it may have
abbrev pub IsSized : ℕ → Node → Type 0
IsSized max n = (max / 2 ≤ size n) × (size n ≤ max)

-- a node of a height, whose keys separate its children, and whose children are well formed and sized
unfoldable mutual
  pub IsNode : ℕ → ℕ → Node → Type 0
  IsNode max zero (leaf pa ps) = Unit
  IsNode max zero (internal cs) = ⊥
  IsNode max (suc h) (leaf pa ps) = ⊥
  IsNode max (suc h) (internal cs) = AreNodes max h cs

  pub AreNodes : ℕ → ℕ → Children → Type 0
  AreNodes max h (last c) = IsNode max h c × IsSized max c
  AreNodes max h (more c k cs) =
      (IsNode max h c × IsSized max c)
      × Below k (entries c)
      × From k (entries_of cs)
      × AreNodes max h cs

-- the root has a key at least; the whole tree is sorted
abbrev pub IsRoot : ℕ → Option Node → Type 0
IsRoot max none = Unit
IsRoot max (some n) =
    (h : ℕ) × IsNode max h n × IsSorted (entries n) × (0 < size n) × (size n ≤ max)

-- `maxKeys` is 0, which stands for 3, or 2 at least
abbrev pub IsTree : Tree → Type 0
IsTree t = (2 ≤ max_of t.max_keys) × IsRoot (max_of t.max_keys) t.root

abbrev pub root_entries : Option Node → Pairs
root_entries none = []
root_entries (some n) = entries n
