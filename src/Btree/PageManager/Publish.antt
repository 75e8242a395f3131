-- ===== src/Btree/PageManager/Publish.antt =====
-- `writePage`, `writeFreeListSnapshot`, `writeRootMetadataSlot` and `publishRoot` of
-- internal/btree/page_manager.go. The hooks that only tests set are nil.
use go_database.Base.{
  ℕ, zero, suc, ◌+◌, ◌-◌, ◌*◌, ◌%◌, ◌^◌, Bool, true, false, not, ◌&&◌, ◌||◌, Option, none, some,
  List, [], ◌∷◌, ◌++◌, ltb, ◌==◌, if◌then◌else◌, length, take, drop, replicate, Bytes, codes, le,
}
use go_database.Base.Action.{Action, ◌>>=◌, lift}
use go_database.Base.Result.{Result, ok, err, panic, refuse}
use go_database.Base.Result
use go_database.Btree.Disk.{
  PageError, invalid_page_id, invalid_page_data, short_write, Disk, page_size, data_page_offset,
}
use go_database.Btree.FreeList.{
  capacity, FreeListNode, encode_free_list_node, decode_free_list_node, read_raw_data_page,
}
use go_database.Btree.PageManager.{
  Pages, contains_page_id, remove_page_id, remove_from_set, split_last, validate_existing_page_id,
  new_page, plan_nodes,
}

-- `rootMetadata`
pub record RootMetadata : Type 0 where
  pub generation : ℕ
  pub root_page_id : ℕ
  pub page_count : ℕ
  pub free_list_head_page_id : ℕ
  pub free_list_tail_page_id : ℕ
  pub head_sequence : ℕ
  pub tail_sequence : ℕ
  pub max_sequence : ℕ
  pub free_page_ids : List ℕ
  pub retired_page_ids : List ℕ
  pub free_list_page_ids : List ℕ

-- the page of a metadata slot with a checksum
unfoldable pub metadata_page : ℕ → RootMetadata → Bytes
metadata_page sum m =
    codes "GDBM"
    ++ (le 2 3
        ++ (le 2 0
            ++ (le 8 m.generation
                ++ (le 8 m.root_page_id
                    ++ (le 8 m.page_count
                        ++ (le 8 m.free_list_head_page_id
                            ++ (le 8 m.free_list_tail_page_id
                                ++ (le 8 m.head_sequence
                                    ++ (le 8 m.tail_sequence
                                        ++ (le 8 m.max_sequence
                                            ++ (le 4 sum ++ replicate (page_size - 76) 0)))))))))))

-- `recyclable[last]`
abbrev pub last_or_panic : Option (List ℕ × ℕ) → Result PageError (List ℕ × ℕ)
last_or_panic none = panic
last_or_panic (some r) = ok r

-- the pages of the next nodes, and what is left of the pages that may be used again: `count` pages,
-- of which the first `reused` come from `recyclable`
unfoldable pub assign_nodes : ℕ → ℕ → List ℕ → List ℕ → Action Pages PageError (List ℕ × List ℕ)
assign_nodes zero reused recyclable eligible p = (p, ok ([], eligible))
assign_nodes (suc count) zero recyclable eligible p =
    (do
      id ← (λ q. new_page q (data_page_offset q.next_page_id))
      (ids, left) ← assign_nodes count zero recyclable eligible
      lift (ok (id ∷ ids, left)))
      p
assign_nodes (suc count) (suc reused) recyclable eligible p =
    (do
      (others, id) ← lift (last_or_panic (split_last recyclable))
      unset ← (λ q. (record q { free_page_set = remove_from_set q.free_page_set id }, ok (tt {0})))
      (ids, left) ← assign_nodes count reused others (remove_page_id eligible id)
      lift (ok (id ∷ ids, left)))
      p

module _ (disk : Disk) where
  -- the file and the page manager
  abbrev pub State : Type 0
  State = disk.File × Pages

  abbrev pub on_pages {ℓ} : {A : Type ℓ} → Action Pages PageError A → Action State PageError A
  on_pages act (f, p) = let r = act p in ((f, r.0), r.1)

  abbrev pub on_file {ℓ} : {A : Type ℓ} → Action disk.File PageError A → Action State PageError A
  on_file act (f, p) = let r = act f in ((r.0, p), r.1)

  abbrev pub pages_of : Action State PageError Pages
  pages_of (f, p) = ((f, p), ok p)

  abbrev pub full : ℕ → Result PageError (Unit {0})
  full n = if n == page_size then ok tt else err short_write

  unfoldable pub write_page : ℕ → Bytes → Action State PageError (Unit {0})
  write_page id page = do
    p ← pages_of
    checked ← lift (validate_existing_page_id p id)
    sized ← lift (refuse (not (length page == page_size)) invalid_page_data)
    offset ← lift (data_page_offset id)
    n ← on_file (λ f. disk.write_at f page offset)
    lift (full n)

  unfoldable pub write_root_metadata_slot : ℕ → RootMetadata → Action State PageError (Unit {0})
  write_root_metadata_slot slot m = do
    let page = metadata_page (disk.checksum (metadata_page 0 m)) m
    n ← on_file (λ f. disk.write_at f page (slot * page_size))
    lift (full n)

  -- `decodeFreeListNode` accepts what the file holds at the page
  abbrev pub is_node : Result PageError FreeListNode → Result PageError Bool
  is_node (ok node) = ok true
  is_node (err e) = ok false
  is_node panic = panic

  unfoldable pub recyclable_of : disk.File → List ℕ → Result PageError (List ℕ)
  recyclable_of f [] = ok []
  recyclable_of f (id ∷ ids) =
      Result.◌>>=◌
        (is_node (Result.◌>>=◌ (read_raw_data_page disk f id) (decode_free_list_node disk)))
        (λ node. Result.◌>>=◌ (recyclable_of f ids) (λ rest. ok (if node then id ∷ rest else rest)))

  abbrev pub head_or_zero : List ℕ → ℕ
  head_or_zero [] = 0
  head_or_zero (id ∷ ids) = id

  abbrev pub last_or_zero : List ℕ → ℕ
  last_or_zero ids = elim (split_last ids) [ none ↦ 0 | some (init, id) ↦ id ]

  -- the entries of each node, from `start` on
  unfoldable pub write_nodes : List ℕ → ℕ → List ℕ → Action State PageError (Unit {0})
  write_nodes entries start [] s = (s, ok tt)
  write_nodes entries start (id ∷ ids) s =
      (do
        ranged ← lift (if ltb (length entries) start then panic else ok (tt {0}))
        page ← lift (
            encode_free_list_node disk (record {
              next_page_id = head_or_zero ids;
              sequence = start;
              page_ids = take capacity (drop start entries);
            }))
        written ← write_page id page
        write_nodes entries (start + capacity) ids)
        s

  -- `writeFreeListSnapshot` once `recyclable` is known
  unfoldable pub write_plan : ℕ → ℕ → List ℕ → Action State PageError RootMetadata
  write_plan generation root recyclable s =
      let p = s.1 in
      let eligible = p.free_page_ids ++ p.retired_page_ids in
      let protected = p.pending_free_page_ids ++ p.free_list_page_ids in
      let plan = plan_nodes (length eligible + length protected) (length recyclable) in
      (do
        (ids, left) ← on_pages (assign_nodes plan.0 plan.1 recyclable eligible)
        written ← write_nodes (left ++ protected) 0 ids
        (λ (f, q). (
          (
            f,
            record q {
              free_page_ids = left;
              retired_page_ids = protected;
              free_list_page_ids = ids;
            },
          ),
          ok (record {
            generation = generation;
            root_page_id = root;
            page_count = q.next_page_id - 1;
            free_list_head_page_id = head_or_zero ids;
            free_list_tail_page_id = last_or_zero ids;
            head_sequence = 0;
            tail_sequence = length (left ++ protected);
            max_sequence = length left;
            free_page_ids = left;
            retired_page_ids = protected;
            free_list_page_ids = ids;
          }),
        )))
        s

  unfoldable pub write_free_list_snapshot : ℕ → ℕ → Action State PageError RootMetadata
  write_free_list_snapshot generation root s =
      (do
        recyclable ← lift (recyclable_of s.0 (s.1.free_page_ids ++ s.1.retired_page_ids))
        write_plan generation root recyclable)
        s

  -- the checks of `publishRoot`
  unfoldable pub may_publish : Pages → ℕ → Result PageError (Unit {0})
  may_publish p root = Result.◌>>◌ (if root == 0 then ok tt else validate_existing_page_id p root) (
      Result.◌>>◌
        (refuse
          (not (root == 0)
            && (contains_page_id p.retired_page_ids root
                || contains_page_id p.pending_free_page_ids root))
          invalid_page_id)
        (refuse (contains_page_id p.free_list_page_ids root) invalid_page_id))

  -- `publishRoot` after the metadata is on the file
  abbrev pub published : ℕ → ℕ → RootMetadata → Pages → Pages
  published root generation m p = record p {
    root_page_id = root;
    generation = generation;
    committed_page_count = m.page_count;
    pending_free_page_ids = [];
    free_page_set = p.free_page_ids;
  }

  unfoldable pub publish_root :
      ℕ
      → Action disk.File PageError (Unit {0})
      → Action disk.File PageError (Unit {0})
      → Action State PageError (Unit {0})
  publish_root root before_write sync_metadata = do
    p ← pages_of
    allowed ← lift (may_publish p root)
    let next_generation = (p.generation + 1) % 2 ^ 64
    m ← write_free_list_snapshot next_generation root
    prepared ← on_file before_write
    synced ← on_file disk.sync
    stored ← write_root_metadata_slot (next_generation % 2) m
    visible ← on_file sync_metadata
    (λ (f, q). ((f, published root next_generation m q), ok tt))

  -- `commitRoot`: `beforeWrite` is nil
  unfoldable pub commit_root : ℕ → Action State PageError (Unit {0})
  commit_root root = do synced ← on_file disk.sync; publish_root root (λ f. (f, ok tt)) disk.sync
