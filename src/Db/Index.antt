-- ===== src/Db/Index.antt =====
-- Secondary indexes of db/index.go: their metadata and the keys of their entries.
pub mod Keys
pub mod Metadata
use go_database.Base.{
  ℕ, ◌-◌, ◌+◌, Bool, true, false, not, ◌&&◌, ◌||◌, Option, none, some, List, [], ◌∷◌, ◌++◌, ltb,
  ◌==◌, if◌then◌else◌, length, Bytes, beq, codes, le, le_value,
}
use go_database.Base.Result.{Result, ok, err}
use go_database.Db.Error.{Error, invalid_schema, unsupported_schema}
use go_database.Db.Escape.{escape}
use go_database.Db.Schema.{Column, TableSchema, find_column}
use go_database.Db.Value.{Value, encode_value}

pub record Index : Type 0 where
  pub name : Bytes
  pub column : Bytes
  pub unique : Bool

unfoldable pub validate_index : Index → TableSchema → Result Error (Unit {0})
validate_index index schema =
    if length index.name == 0 || ltb 128 (length index.name) || length index.column == 0
    then err invalid_schema
    else (elim (find_column schema index.column) [
      | none ↦ err invalid_schema
      | some c ↦ if c.primary_key then err invalid_schema else ok tt
    ])

unfoldable pub index_metadata_key : Bytes → Bytes → Bytes
index_metadata_key table_name index_name = 0x11 ∷ escape table_name ++ escape index_name

unfoldable pub index_entry_prefix : Bytes → Bytes → Bytes
index_entry_prefix table_name index_name = 0x30 ∷ escape table_name ++ escape index_name

unfoldable pub encode_index_value : Column → Value → Result Error Bytes
encode_index_value c v = encode_value (record c { primary_key = false }) v

unfoldable pub index_value_prefix : Bytes → Index → Bytes → Bytes
unfolding index_entry_prefix
index_value_prefix table_name index encoded = index_entry_prefix table_name index.name ++ encoded

unfoldable pub index_entry_key : Bytes → Index → Bytes → Bytes → Bytes
index_entry_key table_name index indexed_value primary_key =
    index_value_prefix table_name index indexed_value ++ (if index.unique then [] else primary_key)

-- `GDXI`, version 2, the flag, a zero byte, the length of the column's name as a 16-bit word, the name
unfoldable pub encode_index_metadata : Index → Bytes
encode_index_metadata index =
    codes "GDXI"
    ++ (le 2 2
        ++ ((if index.unique then 1 else 0) ∷ 0 ∷ le 2 (length index.column) ++ index.column))

-- behind the version
unfoldable pub decode_metadata_body : Bytes → Bytes → Result Error Index
decode_metadata_body index_name (flag ∷ zero_byte ∷ l0 ∷ l1 ∷ column) =
    if not (zero_byte == 0) || length index_name == 0 || ltb 128 (length index_name)
    then err invalid_schema
    else if not (le_value (l0 ∷ l1 ∷ []) == length column)
        || ltb 1 flag
        || le_value (l0 ∷ l1 ∷ []) == 0
        || ltb 128 (le_value (l0 ∷ l1 ∷ []))
    then err invalid_schema
    else ok (record { name = index_name; column = column; unique = flag == 1 })
decode_metadata_body index_name _ = err invalid_schema

unfoldable pub decode_index_metadata : Bytes → Bytes → Result Error Index
decode_index_metadata index_name (m0 ∷ m1 ∷ m2 ∷ m3 ∷ v0 ∷ v1 ∷ rest) =
    if not (beq (m0 ∷ m1 ∷ m2 ∷ m3 ∷ []) (codes "GDXI"))
    then err invalid_schema
    else if not (le_value (v0 ∷ v1 ∷ []) == 2)
    then err unsupported_schema
    else decode_metadata_body index_name rest
decode_index_metadata index_name _ = err invalid_schema
