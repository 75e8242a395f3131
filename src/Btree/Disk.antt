-- ===== src/Btree/Disk.antt =====
-- The file that the B+tree's pages are in: what internal/btree/page_manager.go calls of `os.File`,
-- of `hash/crc32`, and its errors. The file is a parameter.
pub mod Offset
use go_database.Base.{
  ℕ, ◌+◌, ◌-◌, ◌*◌, ◌/◌, ◌^◌, Bool, true, false, List, Bytes, ltb, ◌==◌, if◌then◌else◌,
}
use go_database.Base.Result.{Result, ok, err}

-- `errInvalidPageID`, `errInvalidPageData`, `errInvalidPageSize`, an error of the file, and the short
-- reads and writes of `io`
pub data PageError : Type 0 where
  invalid_page_id invalid_page_data invalid_page_size file_error unexpected_eof short_write :
      PageError

-- `ReadAt` of a page's length, with the bytes read; `WriteAt`, with their number; the size
-- that `Stat` tells; `Truncate`; `Sync`; and `crc32.ChecksumIEEE`
pub record Disk : Type 1 where
  pub File : Type 0
  pub read_at : File → ℕ → Result PageError Bytes
  pub write_at : File → Bytes → ℕ → File × Result PageError ℕ
  pub stat : File → Result PageError ℕ
  pub truncate : File → ℕ → File × Result PageError (Unit {0})
  pub sync : File → File × Result PageError (Unit {0})
  pub checksum : Bytes → ℕ

abbrev pub page_size : ℕ
page_size = 4096

-- two pages of metadata stand in front of the others
abbrev pub metadata_size : ℕ
metadata_size = 8192

-- `(math.MaxInt64-metadataSize)/pageSize + 1`
abbrev pub last_page_id : ℕ
last_page_id = (2 ^ 63 - 1 - metadata_size) / page_size + 1

unfoldable pub data_page_offset : ℕ → Result PageError ℕ
data_page_offset id =
    if id == 0
    then err invalid_page_id
    else if ltb last_page_id id
    then err invalid_page_id
    else ok (metadata_size + (id - 1) * page_size)
