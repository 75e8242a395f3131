-- ===== src/Db/Row.antt =====
-- The row format: `encodeRow`, `decodeRow` and `rowPrefix` of db/table.go. A row is a Go map from
-- column names to values. `decodeRow` works on what it has not read yet, `data[pos:]`, and its
-- tests on `len(data)` are the patterns.
pub mod RoundTrip
use go_database.Base.{
  ℕ, zero, suc, ◌+◌, ◌-◌, ◌≤◌, ◌≡◌, Bool, true, false, not, ◌&&◌, ◌||◌, Option, none, some, List,
  [], ◌∷◌, ◌++◌, ltb, leb, ◌==◌, if◌then◌else◌, length, take, drop, get_elem?, Bytes, codes, beq,
  le, le_value,
}
use go_database.Base.Assoc.{get, put}
use go_database.Base.Result.{Result, ok, err, panic, refuse, ◌>>=◌, ◌>>◌}
use go_database.Db.Error.{Error, invalid_row, invalid_schema, unsupported_row}
use go_database.Db.Escape.{escape}
use go_database.Db.Schema.{Column, TableSchema, validate_schema, find_primary, find_column_in}
use go_database.Db.Value.{Value, null, encode_value, decode_value}

abbrev pub Row : Type 0
Row = List (Bytes × Value)

unfoldable pub row_prefix : Bytes → Bytes
row_prefix name = 0x20 ∷ escape name

-- `row[name]`, nil where the name is missing
abbrev pub or_null : Option Value → Value
or_null none = null
or_null (some v) = v

abbrev pub value_at : Row → Bytes → Value
value_at row name = or_null (get name row)

-- the loop over the names of the row
unfoldable pub known_columns : List Column → Row → Bool
known_columns columns [] = true
known_columns columns ((name, v) ∷ row) =
    (elim (find_column_in columns name) [ none ↦ false | some c ↦ true ])
    && known_columns columns row

-- the loop that looks for missing columns; the result is the value of the primary key
unfoldable pub primary_value : Value → List Column → Row → Result Error Value
primary_value pk [] row = ok pk
primary_value pk (c ∷ cs) row =
    let rest = primary_value (if c.primary_key then value_at row c.name else pk) cs row in
    elim (get c.name row) [ none ↦ if c.nullable then rest else err invalid_row | some v ↦ rest ]

-- one field: the column's id, two zero bytes, the length of the value, the value
abbrev pub field : ℕ → Bytes → Bytes
field id ev = le 2 id ++ (0 ∷ 0 ∷ (le 4 (length ev) ++ ev))

-- the loop that writes the fields, from the column with the id on
unfoldable pub encode_fields : ℕ → List Column → Row → Result Error Bytes
encode_fields id [] row = ok []
encode_fields id (c ∷ cs) row =
    let rest = encode_fields (suc id) cs row in
    if c.primary_key
    then rest
    else (do ev ← encode_value c (value_at row c.name); out ← rest; ok (field id ev ++ out))

-- `GDRW`, version 2, schema version 1, the count of fields
abbrev pub row_header : ℕ → Bytes
row_header count = codes "GDRW" ++ (le 2 2 ++ (le 4 1 ++ le 2 count))

unfoldable pub encode_row : TableSchema → Row → Result Error (Bytes × Bytes)
encode_row s row = do
  refuse (ltb 65535 (length s.columns)) invalid_schema
  validate_schema s
  refuse (not (known_columns s.columns row)) invalid_row
  pk ← primary_value null s.columns row
  enc ← encode_value (find_primary s) pk
  refuse (ltb 1000 (length (row_prefix s.name ++ enc))) invalid_row
  fields ← encode_fields 1 s.columns row
  refuse (ltb 3000 (length (row_header (length s.columns - 1) ++ fields))) invalid_row
  ok (row_prefix s.name ++ enc, row_header (length s.columns - 1) ++ fields)

-- what a field is stored as, behind the tests on its head; `s.Columns[id-1]` is a panic where the
-- index is out of range
unfoldable pub decode_field : List Column → ℕ → ℕ → ℕ → Bytes → Result Error (Bytes × Value)
decode_field columns last id size rest =
    if leb id last || ltb (length rest) size || ltb (length columns) id
    then err invalid_row
    else (elim (get_elem? columns (id - 1)) [
      | none ↦ panic
      | some c ↦
          if c.primary_key
          then err invalid_row
          else (do v ← decode_value c (take size rest); ok (c.name, v))
    ])

-- the loop over the fields, with the fields left, the last id, the row so far and `data[pos:]`
unfoldable pub decode_fields : List Column → ℕ → ℕ → Row → Bytes → Result Error Row
decode_fields columns zero last row [] = ok row
decode_fields columns zero last row (x ∷ rest) = err invalid_row
decode_fields columns (suc n) last row (i0 ∷ i1 ∷ flags ∷ reserved ∷ l0 ∷ l1 ∷ l2 ∷ l3 ∷ rest) =
    let id = le_value (i0 ∷ i1 ∷ []) in
    let size = le_value (l0 ∷ l1 ∷ l2 ∷ l3 ∷ []) in
    if not (flags == 0) || not (reserved == 0) then err invalid_row else (do
      (name, v) ← decode_field columns last id size rest
      decode_fields columns n id (put name v row) (drop size rest))
decode_fields columns (suc n) last row _ = err invalid_row

-- behind the version
unfoldable pub decode_body : TableSchema → Bytes → Result Error Row
decode_body s (a0 ∷ a1 ∷ a2 ∷ a3 ∷ n0 ∷ n1 ∷ rest) =
    if ltb 2988 (length rest) || ltb 65535 (length s.columns)
    then err invalid_row
    else (elim (validate_schema s) [
      | ok _ ↦
          if not (le_value (a0 ∷ a1 ∷ a2 ∷ a3 ∷ []) == 1)
            || not (le_value (n0 ∷ n1 ∷ []) == length s.columns - 1)
          then err invalid_row
          else decode_fields s.columns (le_value (n0 ∷ n1 ∷ [])) 0 [] rest
      | err _ ↦ err invalid_row
      | panic ↦ panic
    ])
decode_body s _ = err invalid_row

unfoldable pub decode_row : TableSchema → Bytes → Result Error Row
decode_row s (m0 ∷ m1 ∷ m2 ∷ m3 ∷ v0 ∷ v1 ∷ rest) =
    if not (beq (m0 ∷ m1 ∷ m2 ∷ m3 ∷ []) (codes "GDRW"))
    then err invalid_row
    else if not (le_value (v0 ∷ v1 ∷ []) == 2)
    then err unsupported_row
    else decode_body s rest
decode_row s _ = err invalid_row
