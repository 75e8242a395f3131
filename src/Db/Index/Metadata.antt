-- ===== src/Db/Index/Metadata.antt =====
-- Index metadata decodes to the index that was encoded.
use go_database.Base.{◌≡◌, ◌≤◌, ◌<◌, length, beq, le, le_value, arith}
use go_database.Base.Result.{ok}
use go_database.Db.Index.{Index, encode_index_metadata, decode_index_metadata, decode_metadata_body}

-- The metadata of an index, its name and its column's name of 1 to 128 bytes, decodes under the
-- index's name to the index.
pub decode-encode_index_metadata :
    (index : Index)
    → 0 < length index.name
    → length index.name ≤ 128
    → 0 < length index.column
    → length index.column ≤ 128
    → decode_index_metadata index.name (encode_index_metadata index) ≡ ok index
unfolding decode_index_metadata encode_index_metadata decode_metadata_body le le_value beq
decode-encode_index_metadata index a b c d = ground arith
