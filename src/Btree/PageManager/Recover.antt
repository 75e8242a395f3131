-- ===== src/Btree/PageManager/Recover.antt =====
-- Opening a file: `readRootMetadata`, `readRootMetadataSlot`, `loadFreeListMetadata` and the checks of
-- `openPageManager` of internal/btree/page_manager.go. The file is open and locked already.
pub mod Lists
pub mod Nodes
pub mod Versions
pub mod Opened
use go_database.Base.{
  ℕ, zero, suc, ◌+◌, ◌-◌, ◌*◌, ◌/◌, ◌%◌, ◌^◌, Bool, true, false, not, ◌&&◌, ◌||◌, Option, none,
  some, List, [], ◌∷◌, ◌++◌, ltb, leb, ◌==◌, if◌then◌else◌, length, take, drop, Bytes, codes, beq,
  le, le_value,
}
use go_database.Base.Action
use go_database.Base.Result.{Result, ok, err, panic, ◌>>=◌, ◌>>◌, refuse}
use go_database.Btree.Disk.{
  PageError, invalid_page_id, invalid_page_data, invalid_page_size, file_error, unexpected_eof,
  short_write, Disk, page_size, metadata_size,
}
use go_database.Btree.FreeList.{
  FreeListNode, slice, uint, decode_free_list_node, read_raw_data_page,
}
use go_database.Btree.PageManager.{Pages, contains_page_id}
use go_database.Btree.PageManager.Publish.{RootMetadata}

-- what the loops of `loadFreeListMetadata` have gathered; `seenEntries` and `expectedSequence` too
pub record Loaded : Type 0 where
  pub free : List ℕ
  pub retired : List ℕ
  pub list_pages : List ℕ
  pub seen_entries : List ℕ
  pub sequence : ℕ

abbrev pub add_entry : RootMetadata → ℕ → Loaded → Loaded
add_entry m id l =
    if ltb l.sequence m.max_sequence
    then record l {
      free = l.free ++ id ∷ [];
      seen_entries = id ∷ l.seen_entries;
      sequence = (l.sequence + 1) % 2 ^ 64;
    }
    else record l {
      retired = l.retired ++ id ∷ [];
      seen_entries = id ∷ l.seen_entries;
      sequence = (l.sequence + 1) % 2 ^ 64;
    }

-- the loop over the entries of a node
unfoldable pub load_entries : RootMetadata → List ℕ → Loaded → Result PageError Loaded
load_entries m [] l = ok l
load_entries m (id ∷ ids) l =
    refuse (ltb m.page_count id || id == m.root_page_id) invalid_page_data
    >> (refuse (contains_page_id l.list_pages id) invalid_page_data
        >> (refuse (contains_page_id l.seen_entries id) invalid_page_data
            >> load_entries m ids (add_entry m id l)))

-- `err != nil` of `decodeFreeListNode`
abbrev pub as_invalid : Result PageError FreeListNode → Result PageError FreeListNode
as_invalid (ok node) = ok node
as_invalid (err e) = err invalid_page_data
as_invalid panic = panic

-- a page that has been read and decoded, of which the loop goes on to the next
abbrev pub load_node : RootMetadata → ℕ → FreeListNode → Loaded → Result PageError Loaded
load_node m id node l = do
  refuse (not (node.sequence == l.sequence)) invalid_page_data
  after ← load_entries m node.page_ids (record l { list_pages = l.list_pages ++ id ∷ [] })
  refuse (node.next_page_id == 0 && not (id == m.free_list_tail_page_id)) invalid_page_data
  ok after

-- the entries of one list that are on the other
unfoldable pub meet : List ℕ → List ℕ → Bool
meet [] ys = false
meet (x ∷ xs) ys = contains_page_id ys x || meet xs ys

module _ (disk : Disk) where
  abbrev pub read_node : disk.File → ℕ → Result PageError FreeListNode
  read_node f id = do
    page ← read_raw_data_page disk f id
    as_invalid (decode_free_list_node disk page)

  -- the loop over the nodes; the pages seen are `list_pages`
  unfoldable pub load_nodes : ℕ → disk.File → RootMetadata → ℕ → Loaded → Result PageError Loaded
  load_nodes zero f m id l = panic
  load_nodes (suc fuel) f m id l =
      if id == 0
      then ok l
      else (refuse (ltb m.page_count id || id == m.root_page_id) invalid_page_data
          >> (refuse (contains_page_id l.list_pages id) invalid_page_data >> (do
            node ← read_node f id
            after ← load_node m id node l
            load_nodes fuel f m node.next_page_id after)))

  abbrev pub nothing_loaded : RootMetadata → Loaded
  nothing_loaded m = record {
    free = [];
    retired = [];
    list_pages = [];
    seen_entries = [];
    sequence = m.head_sequence;
  }

  abbrev pub with_lists : RootMetadata → Loaded → RootMetadata
  with_lists m l = record m {
    free_page_ids = l.free;
    retired_page_ids = l.retired;
    free_list_page_ids = l.list_pages;
  }

  unfoldable pub load_free_list_metadata : disk.File → RootMetadata → Result PageError RootMetadata
  load_free_list_metadata f m =
      if m.free_list_head_page_id == 0
      then (refuse
            (not (m.free_list_tail_page_id == 0)
              || not (m.head_sequence == 0)
              || not (m.tail_sequence == 0)
              || not (m.max_sequence == 0))
            invalid_page_data
          >> ok m)
      else (do
        refuse
            (m.free_list_tail_page_id == 0
              || ltb m.max_sequence m.head_sequence
              || ltb m.tail_sequence m.max_sequence)
            invalid_page_data
        l ← load_nodes (suc m.page_count) f m m.free_list_head_page_id (nothing_loaded m)
        refuse (not (l.sequence == m.tail_sequence)) invalid_page_data
        refuse (meet l.list_pages l.seen_entries) invalid_page_data
        ok (with_lists m l))

  -- the sum of a page whose four bytes at `at` are zero, against those four bytes
  abbrev pub sum_matches : ℕ → Bytes → Bytes → Result PageError Bool
  sum_matches at rest page = do
    sum ← uint 4 at page
    ok (disk.checksum (take at page ++ (le 4 0 ++ rest)) == sum)

  -- version 1 sums up 36 bytes only
  abbrev pub checksum_matches : ℕ → Bytes → Result PageError Bool
  checksum_matches version page =
      if version == 1
      then sum_matches 32 [] page
      else if version == 2
      then sum_matches 36 (drop 40 page) page
      else sum_matches 72 (drop 76 page) page

  abbrev pub bare : ℕ → ℕ → ℕ → RootMetadata
  bare generation root_page_id page_count = record {
    generation = generation;
    root_page_id = root_page_id;
    page_count = page_count;
    free_list_head_page_id = 0;
    free_list_tail_page_id = 0;
    head_sequence = 0;
    tail_sequence = 0;
    max_sequence = 0;
    free_page_ids = [];
    retired_page_ids = [];
    free_list_page_ids = [];
  }

  abbrev pub bare_metadata : Bytes → Result PageError RootMetadata
  bare_metadata page = do
    generation ← uint 8 8 page
    root_page_id ← uint 8 16 page
    page_count ← uint 8 24 page
    ok (bare generation root_page_id page_count)

  -- the loop of version 2: the first `free` ids are free, the others retired
  unfoldable pub load_legacy :
      ℕ → ℕ → ℕ → Bytes → List ℕ → RootMetadata → Result PageError RootMetadata
  load_legacy zero free pos page seen m = ok m
  load_legacy (suc n) free pos page seen m = do
    id ← uint 8 pos page
    refuse (id == 0 || ltb m.page_count id || id == m.root_page_id) invalid_page_data
    refuse (contains_page_id seen id) invalid_page_data
    load_legacy n (free - 1) (pos + 8) page (id ∷ seen) (
        if free == 0
        then record m { retired_page_ids = m.retired_page_ids ++ id ∷ [] }
        else record m { free_page_ids = m.free_page_ids ++ id ∷ [] })

  abbrev pub legacy_metadata : Bytes → RootMetadata → Result PageError RootMetadata
  legacy_metadata page m = do
    free ← uint 2 32 page
    retired ← uint 2 34 page
    refuse (ltb 507 (free + retired)) invalid_page_data
    load_legacy (free + retired) free 40 page [] m

  abbrev pub current_metadata : disk.File → Bytes → RootMetadata → Result PageError RootMetadata
  current_metadata f page m = do
    head ← uint 8 32 page
    tail ← uint 8 40 page
    head_sequence ← uint 8 48 page
    tail_sequence ← uint 8 56 page
    max_sequence ← uint 8 64 page
    load_free_list_metadata f (record m {
      free_list_head_page_id = head;
      free_list_tail_page_id = tail;
      head_sequence = head_sequence;
      tail_sequence = tail_sequence;
      max_sequence = max_sequence;
    })

  abbrev pub versioned : ℕ → disk.File → Bytes → RootMetadata → Result PageError RootMetadata
  versioned version f page m =
      if version == 2
      then legacy_metadata page m
      else if version == 3
      then current_metadata f page m
      else ok m

  unfoldable pub read_root_metadata_slot : disk.File → ℕ → Result PageError RootMetadata
  read_root_metadata_slot f slot = do
    page ← disk.read_at f (slot * page_size)
    refuse (not (length page == page_size)) unexpected_eof
    name ← slice 4 0 page
    refuse (not (beq name (codes "GDBM"))) invalid_page_data
    version ← uint 2 4 page
    refuse (not (version == 1) && not (version == 2) && not (version == 3)) invalid_page_data
    intact ← checksum_matches version page
    refuse (not intact) invalid_page_data
    m ← bare_metadata page
    refuse (ltb m.page_count m.root_page_id) invalid_page_data
    size ← disk.stat f
    refuse (ltb size metadata_size || ltb ((size - metadata_size) / page_size) m.page_count)
        invalid_page_data
    versioned version f page m

  abbrev pub newer : Option RootMetadata → RootMetadata → Option RootMetadata
  newer none m = some m
  newer (some best) m = if ltb best.generation m.generation then some m else some best

  -- the loop over the slots: a damaged one is passed over
  abbrev pub with_slot :
      Option RootMetadata → Result PageError RootMetadata → Result PageError (Option RootMetadata)
  with_slot best (ok m) = ok (newer best m)
  with_slot best (err invalid_page_data) = ok best
  with_slot best (err e) = err e
  with_slot best panic = panic

  abbrev pub best_or_none : Option RootMetadata → Result PageError RootMetadata
  best_or_none none = err invalid_page_data
  best_or_none (some m) = ok m

  unfoldable pub read_root_metadata : disk.File → Result PageError RootMetadata
  read_root_metadata f = do
    first ← with_slot none (read_root_metadata_slot f 0)
    best ← with_slot first (read_root_metadata_slot f 1)
    best_or_none best

  -- the loop over the free pages of `openPageManager`
  unfoldable pub bad_free_page : RootMetadata → ℕ → List ℕ → Bool
  bad_free_page m next [] = false
  bad_free_page m next (id ∷ ids) = id == m.root_page_id || leb next id || bad_free_page m next ids

  abbrev pub opened : RootMetadata → ℕ → Pages
  opened m next = record {
    next_page_id = next;
    committed_page_count = m.page_count;
    root_page_id = m.root_page_id;
    generation = m.generation;
    free_page_ids = m.free_page_ids;
    retired_page_ids = m.retired_page_ids;
    pending_free_page_ids = [];
    free_page_set = m.free_page_ids;
    free_list_page_ids = m.free_list_page_ids;
  }

  -- `openPageManager` from the check of the file's size on
  unfoldable pub open_pages : disk.File → Result PageError Pages
  open_pages f = do
    size ← disk.stat f
    refuse (ltb size metadata_size || not ((size - metadata_size) % page_size == 0))
        invalid_page_data
    m ← read_root_metadata f
    let next = (size - metadata_size) / page_size + 1
    refuse (not (m.root_page_id == 0) && leb next m.root_page_id) invalid_page_id
    refuse (bad_free_page m next m.free_page_ids) invalid_page_data
    ok (opened m next)
