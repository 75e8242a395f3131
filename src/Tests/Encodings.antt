-- ===== src/Tests/Encodings.antt =====
-- Values, rows and components encoded and decoded.
use go_database.Base.{
  ℕ, ◌≡◌, ◌≢◌, ◌≤◌, ◌<◌, refl, Bool, true, false, ◌&&◌, Option, none, some, List, [], ◌∷◌, ◌++◌,
  inl, if◌then◌else◌, Bytes, codes, beq, blt, ble, length, arith, IsBytes, ℤ, be, be_value, le,
  le_value, flip_sign, to_uint64, of_uint64,
}
use go_database.Base
use go_database.Base.Assoc
use go_database.Base.Result.{ok}
use go_database.Db.Escape.{
  escape, unescape, terminated, decode_escaped_component, has_prefix, prefix_end,
}
use go_database.Db.Escape.RoundTrip.{decode-escape, escape-decode}
use go_database.Db.Escape.Order.{blt-escape}
use go_database.Db.Escape.PrefixEnd.{prefix_end_exact}
use go_database.Db.Schema.{
  Column, TableSchema, validate_schema, validate_columns, bad_column, seen_name, find_primary_in,
  find_column_in, find_column, column_int64, column_string, column_bool,
}
use go_database.Db.Value.{
  null, int64, string, bool, encode_value, decode_value, encode_typed, decode_typed, decode_tagged,
  decode_bool, int64_bytes,
}
use go_database.Db.Value.RoundTrip.{decode-encode, encode-decode}
use go_database.Db.Value.Order.{value_eq, value_lt, blt-encode}
use go_database.Db.Index.{
  Index, decode_index_metadata, encode_index_metadata, encode_index_value, index_entry_key,
}
use go_database.Db.Index.Keys.{blt-index_entry_key}
use go_database.Db.Index.Metadata.{decode-encode_index_metadata}
use go_database.Db.Row.{
  Row, encode_row, decode_row, row_prefix, known_columns, primary_value, encode_fields,
}
use go_database.Db.Row.RoundTrip.{stored, decode-encode_row}

decode-escape_example : decode_escaped_component (escape (0 ∷ 1 ∷ 2 ∷ [])) ≡ some (0 ∷ 1 ∷ 2 ∷ [])
decode-escape_example = decode-escape (0 ∷ 1 ∷ 2 ∷ [])

escape-decode_example : escape (0 ∷ 7 ∷ []) ≡ 0 ∷ 255 ∷ 7 ∷ 0 ∷ 0 ∷ []
unfolding decode_escaped_component terminated unescape
escape-decode_example = escape-decode (0 ∷ 255 ∷ 7 ∷ 0 ∷ 0 ∷ []) (0 ∷ 7 ∷ []) refl

blt-escape_example :
    blt (escape (0 ∷ []) ++ 9 ∷ []) (escape (0 ∷ 0 ∷ []) ++ [])
    ≡ (if beq (0 ∷ []) (0 ∷ 0 ∷ []) then blt (9 ∷ []) [] else blt (0 ∷ []) (0 ∷ 0 ∷ []))
blt-escape_example = blt-escape (0 ∷ []) (0 ∷ 0 ∷ []) (9 ∷ []) []

prefix_end_exact_example :
    (ble (0x20 ∷ 0xff ∷ []) (0x20 ∷ 0xff ∷ 3 ∷ [])
      && blt (0x20 ∷ 0xff ∷ 3 ∷ []) (prefix_end (0x20 ∷ 0xff ∷ [])))
    ≡ has_prefix (0x20 ∷ 0xff ∷ 3 ∷ []) (0x20 ∷ 0xff ∷ [])
prefix_end_exact_example =
    prefix_end_exact (0x20 ∷ 0xff ∷ []) (0x20 ∷ 0xff ∷ 3 ∷ []) (inl (λ p. ground arith))
      (ground arith, (ground arith, (ground arith, tt)))

abbrev id : Column
id = record { name = codes "id"; type = column_int64; primary_key = true; nullable = false }

abbrev name : Column
name = record { name = codes "name"; type = column_string; primary_key = false; nullable = true }

abbrev done : Column
done = record { name = codes "done"; type = column_bool; primary_key = false; nullable = true }

abbrev tasks : TableSchema
tasks = record { name = codes "tasks"; columns = id ∷ name ∷ done ∷ [] }

abbrev hi : Bytes
hi = 2 ∷ 104 ∷ 105 ∷ 0 ∷ 0 ∷ []

decode-encode_example : decode_value name hi ≡ ok (string (codes "hi"))
unfolding encode_value encode_typed escape
decode-encode_example = decode-encode name (string (codes "hi")) hi (λ p. cc) tt refl

encode-decode_example : encode_value done (bool true) ≡ ok (4 ∷ 1 ∷ [])
unfolding decode_value decode_tagged decode_typed decode_bool
encode-decode_example =
    encode-decode done (4 ∷ 1 ∷ []) (bool true) (ground arith, (ground arith, tt)) refl

blt-encode_example : blt (hi ++ 1 ∷ []) ((2 ∷ 104 ∷ 0 ∷ 0 ∷ []) ++ []) ≡ (
    if value_eq (string (codes "hi")) (string (codes "h"))
    then blt (1 ∷ []) []
    else value_lt (string (codes "hi")) (string (codes "h")))
unfolding encode_value encode_typed escape
blt-encode_example =
    blt-encode name (string (codes "hi")) (string (codes "h")) hi (2 ∷ 104 ∷ 0 ∷ 0 ∷ []) (1 ∷ []) []
      refl tt tt refl refl

abbrev task : Row
task =
    (codes "id", int64 (Base.pos 7))
    ∷ (codes "name", string (codes "hi"))
    ∷ (codes "done", null)
    ∷ []

abbrev task_key : Bytes
task_key = 0x20 ∷ codes "tasks" ++ 0 ∷ 0 ∷ 128 ∷ 0 ∷ 0 ∷ 0 ∷ 0 ∷ 0 ∷ 0 ∷ 7 ∷ []

abbrev task_row : Bytes
task_row =
    codes "GDRW"
    ++ 2 ∷ 0 ∷ 1 ∷ 0 ∷ 0 ∷ 0 ∷ 2 ∷ 0 ∷ 2 ∷ 0 ∷ 0 ∷ 0 ∷ 5 ∷ 0 ∷ 0 ∷ 0 ∷ 2 ∷ 104 ∷ 105 ∷ 0 ∷ 0 ∷ 3 ∷ 0
      ∷ 0 ∷ 0 ∷ 1 ∷ 0 ∷ 0 ∷ 0 ∷ 0 ∷ []

encoded : encode_row tasks task ≡ ok (task_key, task_row)
unfolding encode_row validate_schema validate_columns bad_column seen_name known_columns
    primary_value encode_value encode_typed encode_fields find_primary_in find_column_in row_prefix
    escape int64_bytes be le flip_sign to_uint64 Assoc.get beq
encoded = refl

decode-encode_row_example :
    (decoded : Row) × (decode_row tasks task_row ≡ ok decoded)
    × ((column : Bytes)
        → Assoc.get column decoded ≡ stored task none column (find_column tasks column))
decode-encode_row_example =
    decode-encode_row tasks task task_key task_row (ground arith, (tt, (tt, tt))) encoded

abbrev by_name : Index
by_name = record { name = codes "by_name"; column = codes "name"; unique = false }

decode-encode_index_metadata_example :
    decode_index_metadata (codes "by_name") (encode_index_metadata by_name) ≡ ok by_name
decode-encode_index_metadata_example =
    decode-encode_index_metadata by_name (ground arith) (ground arith) (ground arith) (ground arith)

blt-index_entry_key_example :
    blt
      (index_entry_key (codes "tasks") by_name hi (1 ∷ []))
      (index_entry_key (codes "tasks") by_name (2 ∷ 104 ∷ 0 ∷ 0 ∷ []) [])
    ≡ (if value_eq (string (codes "hi")) (string (codes "h"))
        then blt (1 ∷ []) []
        else value_lt (string (codes "hi")) (string (codes "h")))
unfolding encode_index_value encode_value encode_typed escape
blt-index_entry_key_example =
    blt-index_entry_key (codes "tasks") by_name name (string (codes "hi")) (string (codes "h")) hi
      (2 ∷ 104 ∷ 0 ∷ 0 ∷ []) (1 ∷ []) [] refl tt tt refl refl
