-- ===== src/Btree/FreeList.antt =====
-- The pages that hold the list of free pages: internal/btree/free_list.go.
pub mod Slices
pub mod RoundTrip
use go_database.Base.{
  ℕ, zero, suc, ◌+◌, ◌-◌, ◌*◌, Bool, true, false, not, ◌&&◌, ◌||◌, List, [], ◌∷◌, ◌++◌, ltb, ◌==◌,
  if◌then◌else◌, length, take, drop, replicate, Bytes, codes, beq, le, le_value,
}
use go_database.Base.Result.{Result, ok, err, panic, ◌>>=◌, ◌>>◌, refuse}
use go_database.Btree.Disk.{
  PageError, invalid_page_data, invalid_page_size, unexpected_eof, Disk, page_size,
  data_page_offset,
}

abbrev pub magic : Bytes
magic = codes "GDFL"

-- `(pageSize - freeListHeaderSize) / 8`
abbrev pub capacity : ℕ
capacity = 508

pub record FreeListNode : Type 0 where
  pub next_page_id : ℕ
  pub sequence : ℕ
  pub page_ids : List ℕ

unfoldable pub encode_ids : List ℕ → Bytes
encode_ids [] = []
encode_ids (id ∷ ids) = le 8 id ++ encode_ids ids

-- a page with a checksum; bytes that are not written stay zero
unfoldable pub node_page : ℕ → FreeListNode → Bytes
node_page sum node =
    magic
    ++ (le 2 1
        ++ (le 2 (length node.page_ids)
            ++ (le 8 node.next_page_id
                ++ (le 8 node.sequence
                    ++ (le 4 sum
                        ++ (le 4 0
                            ++ (encode_ids node.page_ids
                                ++ replicate (page_size - 32 - 8 * length node.page_ids) 0)))))))

unfoldable pub has_zero : List ℕ → Bool
has_zero [] = false
has_zero (id ∷ ids) = id == 0 || has_zero ids

-- the `n` bytes from `at` on, where the page has them
unfoldable pub read : ℕ → ℕ → Bytes → Bytes
read n at page = take n (drop at page)

-- `page[at:at+n]`, which panics where the page ends before
unfoldable pub slice : ℕ → ℕ → Bytes → Result PageError Bytes
slice n at page = if ltb (length page) (at + n) then panic else ok (read n at page)

-- `binary.LittleEndian.Uint16(page[at:])`, `Uint32` and `Uint64`
unfoldable pub uint : ℕ → ℕ → Bytes → Result PageError ℕ
uint n at page = do bytes ← slice n at page; ok (le_value bytes)

-- the loop over the ids, of which the first stands at `at`
unfoldable pub decode_ids : ℕ → ℕ → Bytes → Result PageError (List ℕ)
decode_ids zero at page = ok []
decode_ids (suc n) at page = do
  id ← uint 8 at page
  refuse (id == 0) invalid_page_data
  ids ← decode_ids n (at + 8) page
  ok (id ∷ ids)

module _ (disk : Disk) where
  unfoldable pub encode_free_list_node : FreeListNode → Result PageError Bytes
  encode_free_list_node node =
      refuse (length node.page_ids == 0 || ltb capacity (length node.page_ids)) invalid_page_data
      >> (refuse (has_zero node.page_ids) invalid_page_data
          >> ok (node_page (disk.checksum (node_page 0 node)) node))

  unfoldable pub decode_free_list_node : Bytes → Result PageError FreeListNode
  decode_free_list_node page = do
    refuse (not (length page == page_size)) invalid_page_size
    name ← slice 4 0 page
    version ← uint 2 4 page
    refuse (not (beq name magic && version == 1)) invalid_page_data
    sum ← uint 4 24 page
    refuse (not (disk.checksum (take 24 page ++ (le 4 0 ++ drop 28 page)) == sum)) invalid_page_data
    count ← uint 2 6 page
    refuse (count == 0 || ltb capacity count) invalid_page_data
    next_page_id ← uint 8 8 page
    sequence ← uint 8 16 page
    ids ← decode_ids count 32 page
    ok (record { next_page_id = next_page_id; sequence = sequence; page_ids = ids })

  unfoldable pub read_raw_data_page : disk.File → ℕ → Result PageError Bytes
  read_raw_data_page file id = do
    offset ← data_page_offset id
    page ← disk.read_at file offset
    (if length page == page_size then ok page else err unexpected_eof)
