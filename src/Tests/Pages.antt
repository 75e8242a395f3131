-- ===== src/Tests/Pages.antt =====
-- A page manager with six pages, on files that cannot be read, or only, or to which no whole page is
-- written.
use go_database.Base.{
  ℕ, ◌+◌, ◌^◌, ◌≤◌, ◌≡◌, refl, List, [], ◌∷◌, length, Bytes, replicate, ◌==◌, if◌then◌else◌, arith,
  le, le_value, beq,
}
use go_database.Base.Result.{ok, err, Safe}
use go_database.Btree.Disk.{
  Disk, file_error, short_write, data_page_offset, page_size, metadata_size,
}
use go_database.Btree.Disk.Offset.{data_page_offset-bounds}
use go_database.Btree.FreeList.{
  FreeListNode, encode_free_list_node, decode_free_list_node, encode_ids, node_page, has_zero,
  read_raw_data_page,
}
use go_database.Btree.FreeList.RoundTrip.{decode-encode_free_list_node}
use go_database.Btree.PageManager.{
  Pages, contains_page_id, remove_from_set, split_last, validate_existing_page_id, reserve_page,
  free_page, may_free, snapshot, restore, plan_nodes, try_candidates,
}
use go_database.Btree.PageManager.Plan.{IsPlan, plan_nodes-IsPlan}
use go_database.Btree.PageManager.Publish.{
  RootMetadata, publish_root, may_publish, write_free_list_snapshot, write_plan, recyclable_of,
  assign_nodes, write_nodes, write_page, write_root_metadata_slot, metadata_page,
}
use go_database.Btree.PageManager.Counts.{occurrences}
use go_database.Btree.PageManager.Free.{
  held, IsManager, IsReserved, IsFreed, reserve_page-IsReserved, free_page-IsFreed,
}
use go_database.Btree.PageManager.Allocate.{allocate_page, allocate_page-IsUndone}
use go_database.Btree.PageManager.Recover.{
  open_pages, read_root_metadata, read_root_metadata_slot, load_free_list_metadata, load_nodes,
  load_entries, meet, bad_free_page,
}
use go_database.Btree.FreeList.{decode_ids, read, slice, uint}
use go_database.Btree.PageManager.Recover.Opened.{open_pages-Safe}
use go_database.Btree.PageManager.Commit.{IsPublished, publish_root-IsPublished}

abbrev disk : Disk
disk = record {
  File = List ℕ;
  read_at = λ f at. err file_error;
  write_at = λ f bytes at. (at ∷ f, ok (length bytes));
  stat = λ f. ok 28672;
  truncate = λ f n. (f, ok tt);
  sync = λ f. (f, ok tt);
  checksum = λ bytes. 7;
}

-- a file to which half of each page is written
abbrev full_disk : Disk
full_disk = record {
  File = List ℕ;
  read_at = λ f at. err file_error;
  write_at = λ f bytes at. (at ∷ f, ok 2048);
  stat = λ f. ok 28672;
  truncate = λ f n. (f, ok tt);
  sync = λ f. (f, ok tt);
  checksum = λ bytes. 7;
}

-- a file that can be read
abbrev file_disk : Disk
file_disk = record {
  File = ℕ → Bytes;
  read_at = λ f at. ok (f at);
  write_at = λ f bytes at. (f, ok (length bytes));
  stat = λ f. ok 28672;
  truncate = λ f n. (f, ok tt);
  sync = λ f. (f, ok tt);
  checksum = λ bytes. 7;
}

abbrev metadata : RootMetadata
metadata = record {
  generation = 3;
  root_page_id = 2;
  page_count = 5;
  free_list_head_page_id = 4;
  free_list_tail_page_id = 4;
  head_sequence = 0;
  tail_sequence = 2;
  max_sequence = 1;
  free_page_ids = [];
  retired_page_ids = [];
  free_list_page_ids = [];
}

-- its second slot is damaged; page 4 is the only node of the free list
abbrev metadata_file : ℕ → Bytes
metadata_file at =
    if at == 0
    then metadata_page 7 metadata
    else if at == 20480
    then node_page 7 (record { next_page_id = 0; sequence = 0; page_ids = 1 ∷ 3 ∷ [] })
    else replicate 4096 0

abbrev pages : Pages
pages = record {
  next_page_id = 6;
  committed_page_count = 5;
  root_page_id = 4;
  generation = 7;
  free_page_ids = 1 ∷ [];
  retired_page_ids = [];
  pending_free_page_ids = 2 ∷ [];
  free_page_set = 1 ∷ [];
  free_list_page_ids = 3 ∷ [];
}

pages-IsManager : IsManager pages
unfolding occurrences
pages-IsManager = record {
  positive = ground arith;
  once = λ j. ground arith;
  allocated = λ j h. ground arith;
  set_of_free = λ j. refl;
}

data_page_offset-bounds_example :
    (metadata_size ≤ 8192) × (8192 + page_size ≤ 16384) × (16384 + page_size ≤ 2 ^ 63)
unfolding data_page_offset
data_page_offset-bounds_example = data_page_offset-bounds 1 3 8192 16384 refl refl (ground arith)

plan_nodes-IsPlan_example : IsPlan 510 2 (plan_nodes 510 2)
plan_nodes-IsPlan_example = plan_nodes-IsPlan 510 2

abbrev node : FreeListNode
node = record { next_page_id = 9; sequence = 508; page_ids = 5 ∷ 7 ∷ [] }

decode-encode_free_list_node_example : decode_free_list_node disk (node_page 7 node) ≡ ok node
unfolding encode_free_list_node node_page encode_ids le has_zero
decode-encode_free_list_node_example =
    decode-encode_free_list_node disk (λ bytes. ground arith) node (node_page 7 node) (ground arith)
      (ground arith) (ground arith, (ground arith, tt)) refl

reserve_page-IsReserved_example :
    IsReserved pages (record pages { free_page_ids = []; free_page_set = [] }) 1
unfolding reserve_page split_last remove_from_set
reserve_page-IsReserved_example =
    reserve_page-IsReserved pages (record pages { free_page_ids = []; free_page_set = [] }) 1
      pages-IsManager refl

free_page-IsFreed_example : IsFreed 5 pages (record pages { pending_free_page_ids = 2 ∷ 5 ∷ [] }) tt
unfolding free_page may_free validate_existing_page_id contains_page_id
free_page-IsFreed_example =
    free_page-IsFreed pages (record pages { pending_free_page_ids = 2 ∷ 5 ∷ [] }) 5 pages-IsManager
      refl

abbrev published_pages : Pages
published_pages = record {
  next_page_id = 7;
  committed_page_count = 6;
  root_page_id = 5;
  generation = 8;
  free_page_ids = 1 ∷ [];
  retired_page_ids = 2 ∷ 3 ∷ [];
  pending_free_page_ids = [];
  free_page_set = 1 ∷ [];
  free_list_page_ids = 6 ∷ [];
}

publish_root-IsPublished_example : IsPublished disk 5 pages published_pages
unfolding publish_root may_publish validate_existing_page_id contains_page_id
    write_free_list_snapshot write_plan recyclable_of assign_nodes write_nodes write_page
    write_root_metadata_slot metadata_page data_page_offset plan_nodes try_candidates split_last
    encode_free_list_node node_page encode_ids has_zero le read_raw_data_page
publish_root-IsPublished_example =
    publish_root-IsPublished disk 5 (λ f. (f, ok tt)) (λ f. (f, ok tt)) ([], pages)
      (0 ∷ 28672 ∷ [], published_pages) pages-IsManager refl

open_pages-Safe_example : Safe IsManager (open_pages file_disk metadata_file)
open_pages-Safe_example = open_pages-Safe file_disk (λ f at. tt) (λ f. tt) metadata_file

-- page 1 is taken from the list, its write is short, and it is put back
allocate_page-IsUndone_example :
    IsManager (restore (snapshot pages))
    × (6 ≡ pages.next_page_id)
    × ((j : ℕ) → held (restore (snapshot pages)) j ≡ held pages j)
unfolding allocate_page reserve_page split_last data_page_offset snapshot restore
allocate_page-IsUndone_example = allocate_page-IsUndone full_disk [] pages pages-IsManager

-- the error of that run
allocate_page_run : (allocate_page full_disk ([], pages)).1 ≡ err short_write
unfolding allocate_page reserve_page split_last data_page_offset
allocate_page_run = refl

-- the damaged slot is passed over, and the free list is read
open_pages_run :
    open_pages file_disk metadata_file
    ≡ ok (record {
      next_page_id = 6;
      committed_page_count = 5;
      root_page_id = 2;
      generation = 3;
      free_page_ids = 1 ∷ [];
      retired_page_ids = 3 ∷ [];
      pending_free_page_ids = [];
      free_page_set = 1 ∷ [];
      free_list_page_ids = 4 ∷ [];
    })
unfolding open_pages read_root_metadata read_root_metadata_slot load_free_list_metadata load_nodes
    load_entries meet bad_free_page contains_page_id data_page_offset read_raw_data_page
    decode_free_list_node decode_ids slice uint read le le_value beq metadata_page node_page
    encode_ids
open_pages_run = refl
