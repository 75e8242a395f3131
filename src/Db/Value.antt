-- ===== src/Db/Value.antt =====
-- Column values and their encodings: `encodeValue`, `decodeValue`, `decodePrimaryKey` of db/table.go.
pub mod RoundTrip
pub mod Order
use go_database.Base.{
  ℕ, suc, ◌+◌, ◌≤◌, ◌^◌, ◌≡◌, Bool, true, false, not, ◌&&◌, ◌||◌, Option, none, some, List, [], ◌∷◌,
  ltb, ◌==◌, if◌then◌else◌, length, Bytes, be, be_value, ℤ, to_uint64, of_uint64, flip_sign,
}
use go_database.Base.Result.{Result, ok, err}
use go_database.Db.Error.{Error, invalid_row}
use go_database.Db.Escape.{escape, decode_escaped_component}
use go_database.Db.Schema.{Column, bad_type, column_int64, column_string, column_bytes, column_bool}

-- a Go `any`, as the relational layer tells them apart
pub data Value : Type 0 where
  -- nil
  null : Value
  int64 : ℤ → Value
  string : Bytes → Value
  bytes : Bytes → Value
  bool : Bool → Value
  -- a value of any other dynamic type
  other : Value

abbrev pub is_null : Value → Bool
is_null null = true
is_null _ = false

-- the type assertions `v.(T)`
abbrev pub as_int64 : Value → Option ℤ
as_int64 (int64 x) = some x
as_int64 _ = none

abbrev pub as_string : Value → Option Bytes
as_string (string x) = some x
as_string _ = none

abbrev pub as_bytes : Value → Option Bytes
as_bytes (bytes x) = some x
as_bytes _ = none

abbrev pub as_bool : Value → Option Bool
as_bool (bool x) = some x
as_bool _ = none

-- the eight bytes of `uint64(x) ^ (1 << 63)`
unfoldable pub int64_bytes : ℤ → Bytes
int64_bytes x = be 8 (flip_sign (to_uint64 x))

-- the switch of `encodeValue`
unfoldable pub encode_typed : Column → Value → Result Error Bytes
unfolding int64_bytes
encode_typed c v =
    if c.type == column_int64
    then (elim (as_int64 v) [
      | none ↦ err invalid_row
      | some x ↦ ok (if c.primary_key then int64_bytes x else c.type ∷ int64_bytes x)
    ])
    else if c.type == column_string
    then (elim (as_string v) [
      | none ↦ err invalid_row
      | some x ↦ ok (if c.primary_key then x else c.type ∷ escape x)
    ])
    else if c.type == column_bytes
    then (elim (as_bytes v) [ none ↦ err invalid_row | some x ↦ ok (c.type ∷ escape x) ])
    else if c.type == column_bool
    then (elim (as_bool v) [
      | none ↦ err invalid_row
      | some x ↦ ok (if x then c.type ∷ 1 ∷ [] else c.type ∷ 0 ∷ [])
    ])
    else err invalid_row

unfoldable pub encode_value : Column → Value → Result Error Bytes
encode_value c v =
    if bad_type c
    then err invalid_row
    else if is_null v
    then (if c.nullable && not c.primary_key then ok (0 ∷ []) else err invalid_row)
    else encode_typed c v

unfoldable pub decode_primary_key : Column → Bytes → Result Error Value
decode_primary_key c input =
    if c.type == column_int64 && length input == 8
    then ok (int64 (of_uint64 (flip_sign (be_value 0 input))))
    else if c.type == column_string
    then ok (string input)
    else err invalid_row

unfoldable pub decode_bool : Bytes → Result Error Value
decode_bool (x ∷ []) = if ltb 1 x then err invalid_row else ok (bool (x == 1))
decode_bool _ = err invalid_row

-- the switch of `decodeValue`, on what follows the tag
unfoldable pub decode_typed : Column → Bytes → Result Error Value
unfolding decode_bool
decode_typed c input =
    if c.type == column_int64
    then (if length input == 8
        then ok (int64 (of_uint64 (flip_sign (be_value 0 input))))
        else err invalid_row)
    else if c.type == column_string
    then (elim (decode_escaped_component input) [ none ↦ err invalid_row | some x ↦ ok (string x) ])
    else if c.type == column_bytes
    then (elim (decode_escaped_component input) [ none ↦ err invalid_row | some x ↦ ok (bytes x) ])
    else if c.type == column_bool
    then decode_bool input
    else err invalid_row

-- the part of `decodeValue` for a column that is no primary key
unfoldable pub decode_tagged : Column → Bytes → Result Error Value
decode_tagged c [] = err invalid_row
decode_tagged c (tag ∷ input) =
    if bad_type c
    then err invalid_row
    else if tag == 0
    then (if not (length input == 0) || not c.nullable || c.primary_key
        then err invalid_row
        else ok null)
    else if not (tag == c.type)
    then err invalid_row
    else decode_typed c input

unfoldable pub decode_value : Column → Bytes → Result Error Value
decode_value c input = if c.primary_key then decode_primary_key c input else decode_tagged c input
