-- ===== src/Db/Row/RoundTrip.antt =====
-- A row that is encoded is decoded with every column's value, or nil for a column that it lacks.
use go_database.Base.{
  ℕ, suc, ◌+◌, ◌-◌, ◌≤◌, ◌<◌, ◌^◌, ◌≡◌, refl, ap, sym, ◌∙◌, subst, false, not, Option, none, some,
  List, [], ◌∷◌, ◌++◌, arith, ltb, ltb→le, leb, if◌then◌else◌, Bool-cases, inl, inr, length,
  get_elem?, length-append, take-append_length, drop-append_length, le_value-le, Bytes, beq_iff, le,
  le_value, beq, append_assoc,
}
use go_database.Base.Assoc.{get, put, get-put}
use go_database.Base.Result.{ok, bind-eq-ok, refuse-then, ok-injective}
use go_database.Db.Schema.{
  Column, TableSchema, validate_columns, validate_schema, seen_name, find_primary, find_column,
  find_column_in,
}
use go_database.Db.Schema.Valid.{
  others, primaries-others, validate_schema-ok, validate_schema-columns, validate_columns-fresh,
  validate_columns-cons,
}
use go_database.Db.Value.{Value, null, encode_value}
use go_database.Db.Value.RoundTrip.{IsValue, decode-encode}
use go_database.Db.Row.{
  Row, row_prefix, primary_value, value_at, known_columns, or_null, field, row_header,
  encode_fields, encode_row, decode_field, decode_fields, decode_body, decode_row,
}

abbrev pub AreValues : Row → Type 0
AreValues [] = Unit
AreValues ((name, v) ∷ row) = IsValue v × AreValues row

get-IsValue :
    (row : Row) (name : Bytes) (v : Value) → AreValues row → get name row ≡ some v → IsValue v
unfolding get
get-IsValue [] name v h e = cc
get-IsValue ((k, w) ∷ row) name v h e = elim (Bool-cases (beq k name)) [
  | inl y ↦ let p : w ≡ v = ground arith in subst IsValue p h.0
  | inr n ↦ get-IsValue row name v h.1 (ground arith)
]

or_null-IsValue : (o : Option Value) → ((v : Value) → o ≡ some v → IsValue v) → IsValue (or_null o)
or_null-IsValue none h = tt
or_null-IsValue (some v) h = h v refl

value_at-IsValue : (row : Row) (name : Bytes) → AreValues row → IsValue (value_at row name)
value_at-IsValue row name h = or_null-IsValue (get name row) (λ v. get-IsValue row name v h)

-- the row that the loop over the fields builds
fields_of : Row → List Column → Row → Row
fields_of acc [] row = acc
fields_of acc (c ∷ cs) row =
    if c.primary_key
    then fields_of acc cs row
    else fields_of (put c.name (value_at row c.name) acc) cs row

get_elem-append :
    (pre cs : List Column) (c : Column) → get_elem? (pre ++ c ∷ cs) (length pre) ≡ some c
get_elem-append [] cs c = refl
get_elem-append (x ∷ pre) cs c = get_elem-append pre cs c

-- one field, with anything behind it
decode_field-field :
    (columns pre cs : List Column) (c : Column) (v : Value) (last : ℕ) (ev rest : Bytes)
    → columns ≡ pre ++ c ∷ cs
    → length columns ≤ 65535
    → last ≤ length pre
    → c.primary_key ≡ false
    → IsValue v
    → encode_value c v ≡ ok ev
    → decode_field columns last (suc (length pre)) (length ev) (ev ++ rest) ≡ ok (c.name, v)
unfolding decode_field
decode_field-field columns pre cs c v last ev rest h n l k w e =
    let a : leb (suc (length pre)) last ≡ false = ground arith in
    let b : ltb (length (ev ++ rest)) (length ev) ≡ false = ground (arith, length-append ev rest) in
    let m : ltb (length columns) (suc (length pre)) ≡ false =
      rw h (ground (arith, length-append pre (c ∷ cs))) in
    let i : suc (length pre) - 1 ≡ length pre = omega arith in
    rw (a, b, m, i)
      (rw h (
        rw (get_elem-append pre cs c)
          (rw (take-append_length ev rest) (ground (arith, decode-encode c v ev (λ p. cc) w e)))))

decode_fields-field :
    (columns pre cs : List Column) (c : Column) (v : Value) (i last n : ℕ) (acc : Row)
    (ev rest : Bytes)
    → columns ≡ pre ++ c ∷ cs
    → i ≡ length pre
    → length columns ≤ 65535
    → last ≤ i
    → c.primary_key ≡ false
    → IsValue v
    → length ev ≤ 3000
    → encode_value c v ≡ ok ev
    → decode_fields columns (suc n) last acc (field (suc i) ev ++ rest)
      ≡ decode_fields columns n (suc i) (put c.name v acc) rest
unfolding decode_fields le
decode_fields-field columns pre cs c v i last n acc ev rest h p m l k w q e =
    let r : length columns ≡ length pre + suc (length cs) =
      ap length h ∙ length-append pre (c ∷ cs) in
    let b : suc i < 256 ^ 2 = omega arith in
    let d : length ev < 256 ^ 4 = omega arith in
    let f = decode_field-field columns pre cs c v last ev rest h m (omega arith) k w e in
    rw (le_value-le 2 (suc i) b, le_value-le 4 (length ev) d)
      (rw p (rw f (rw (drop-append_length ev rest))))

-- the fields are a field of the first column, and those of the others
encode_fields-cons :
    (i : ℕ) (c : Column) (cs : List Column) (row : Row) (out : Bytes)
    → c.primary_key ≡ false
    → encode_fields i (c ∷ cs) row ≡ ok out
    → (ev : Bytes) × (rest : Bytes) × (encode_value c (value_at row c.name) ≡ ok ev)
      × (encode_fields (suc i) cs row ≡ ok rest)
      × (out ≡ field i ev ++ rest)
unfolding encode_fields
encode_fields-cons i c cs row out k e =
    let (ev, a, e') = bind-eq-ok (encode_value c (value_at row c.name)) _ (simp k at e) in
    let (rest, b, o) = bind-eq-ok (encode_fields (suc i) cs row) _ e' in
    (ev, rest, a, b, ok-injective (sym o))

size_of :
    (i : ℕ) (ev rest out : Bytes)
    → out ≡ field i ev ++ rest
    → length out ≡ 8 + length ev + length rest
unfolding le
size_of i ev rest out o = ap length o ∙ omega (arith, length-append ev rest)

-- the fields of some columns, behind the fields of the columns before them
decode_fields-encode :
    (columns pre cs : List Column) (row acc : Row) (i last : ℕ) (out : Bytes)
    → columns ≡ pre ++ cs
    → i ≡ length pre
    → length columns ≤ 65535
    → last ≤ i
    → AreValues row
    → length out ≤ 3000
    → encode_fields (suc i) cs row ≡ ok out
    → decode_fields columns (others cs) last acc out ≡ ok (fields_of acc cs row)
unfolding encode_fields fields_of
decode_fields-encode columns pre [] row acc i last out h p n l w m e =
    let o : out ≡ [] = ground arith in rw o (unfold decode_fields in refl)
decode_fields-encode columns pre (c ∷ cs) row acc i last out h p n l w m e =
    let h' : columns ≡ (pre ++ c ∷ []) ++ cs = h ∙ sym (append_assoc pre (c ∷ []) cs) in
    let p' : suc i ≡ length (pre ++ c ∷ []) = omega (arith, length-append pre (c ∷ [])) in
    elim (Bool-cases c.primary_key) [
      | inl y ↦
          let ih =
            decode_fields-encode columns (pre ++ c ∷ []) cs row acc (suc i) last out h' p' n
              (omega arith) w m (ground arith) in
          ground (arith, ih)
      | inr y ↦
          let (ev, rest, a, b, o) = encode_fields-cons (suc i) c cs row out y e in
          let size : length out ≡ 8 + length ev + length rest = size_of (suc i) ev rest out o in
          let v = value_at row c.name in
          let ih =
            decode_fields-encode columns (pre ++ c ∷ []) cs row (put c.name v acc) (suc i) (suc i)
              rest h' p' n (omega arith) w (omega arith) b in
          let step =
            decode_fields-field columns pre cs c v i last (others cs) acc ev rest h p n l y
              (value_at-IsValue row c.name w) (omega arith) a in
          simp y (rw o (step ∙ ih))
    ]

-- what a decoded row holds under a name, by the column of that name
abbrev pub stored : Row → Option Value → Bytes → Option Column → Option Value
stored row before name none = before
stored row before name (some c) = if c.primary_key then before else some (value_at row name)

get-fields_of :
    (seen : List Bytes) (p q : ℕ) (cs : List Column) (row acc : Row) (name : Bytes)
    → validate_columns seen p cs ≡ ok q
    → get name (fields_of acc cs row) ≡ stored row (get name acc) name (find_column_in cs name)
unfolding fields_of find_column_in
get-fields_of seen p q [] row acc name h = refl
get-fields_of seen p q (c ∷ cs) row acc name h =
    let (b, h') = validate_columns-cons seen p q c cs h in
    let p' = if c.primary_key then p + 1 else p in
    let v = value_at row c.name in
    let same = get-fields_of (c.name ∷ seen) p' q cs row acc name h' in
    let more = get-fields_of (c.name ∷ seen) p' q cs row (put c.name v acc) name h' in
    elim (Bool-cases (beq c.name name)) [
      | inl y ↦
          let fresh =
            validate_columns-fresh (c.name ∷ seen) p' q cs name h'
              (unfold seen_name in ground arith) in
          let same' : get name (fields_of acc cs row) ≡ get name acc = same ∙ rw fresh in
          let more' : get name (fields_of (put c.name v acc) cs row) ≡ get name (put c.name v acc) =
            more ∙ rw fresh in
          ground (arith, same', more', get-put c.name name v acc, beq_iff c.name name)
      | inr n ↦
          let more' : get name (fields_of (put c.name v acc) cs row)
              ≡ stored row (get name acc) name (find_column_in cs name) =
            more ∙ rw (get-put c.name name v acc, n) in
          ground (arith, same, more')
    ]

-- what `encodeRow` has checked where it returns a key and a row
encode_row-ok :
    (s : TableSchema) (row : Row) (key out : Bytes)
    → encode_row s row ≡ ok (key, out)
    → (fields : Bytes) × (validate_schema s ≡ ok tt)
      × (encode_fields 1 s.columns row ≡ ok fields)
      × (out ≡ row_header (length s.columns - 1) ++ fields)
      × (length out ≤ 3000)
unfolding encode_row
encode_row-ok s row key out h =
    let (_, a) = refuse-then (ltb 65535 (length s.columns)) _ _ h in
    let (u, v, b) = bind-eq-ok (validate_schema s) _ a in
    let (_, c) = refuse-then (not (known_columns s.columns row)) _ _ b in
    let (pk, _, d) = bind-eq-ok (primary_value null s.columns row) _ c in
    let (enc, _, f) = bind-eq-ok (encode_value (find_primary s) pk) _ d in
    let (_, g) = refuse-then (ltb 1000 (length (row_prefix s.name ++ enc))) _ _ f in
    let (fields, e, k) = bind-eq-ok (encode_fields 1 s.columns row) _ g in
    let (small, o) =
      refuse-then (ltb 3000 (length (row_header (length s.columns - 1) ++ fields))) _ _ k in
    let pair : (row_prefix s.name ++ enc, row_header (length s.columns - 1) ++ fields)
        ≡ (key, out) =
      ok-injective o in
    let made : row_header (length s.columns - 1) ++ fields ≡ out =
      ap (λ (t : Bytes × Bytes). t.1) pair in
    let short : length (row_header (length s.columns - 1) ++ fields) ≤ 3000 = ltb→le 3000 _ small in
    (fields, v, e, sym made, subst (λ (t : Bytes). length t ≤ 3000) made short)

header_size :
    (count : ℕ) (fields out : Bytes)
    → out ≡ row_header count ++ fields
    → length out ≡ 12 + length fields
unfolding le
header_size count fields out o = ap length o ∙ omega arith

decode_row-header :
    (s : TableSchema) (count : ℕ) (fields : Bytes)
    → count ≡ length s.columns - 1
    → length s.columns ≤ 65535
    → length fields ≤ 2988
    → validate_schema s ≡ ok tt
    → decode_row s (row_header count ++ fields) ≡ decode_fields s.columns count 0 [] fields
unfolding decode_row decode_body le beq le_value
decode_row-header s count fields e n f v =
    let c : le_value (le 2 count) ≡ count = le_value-le 2 count (omega arith) in ground (arith, c)

-- A row, its integers in the range of int64, that `encodeRow` accepts decodes: every column that
-- is no primary key, and no other name, then has the value that the row had under its name, nil
-- where the row had none.
pub decode-encode_row :
    (s : TableSchema) (row : Row) (key out : Bytes)
    → AreValues row
    → encode_row s row ≡ ok (key, out)
    → (decoded : Row) × (decode_row s out ≡ ok decoded)
      × ((name : Bytes) → get name decoded ≡ stored row none name (find_column s name))
unfolding get
decode-encode_row s row key out w h =
    let (fields, v, e, o, m) = encode_row-ok s row key out h in
    let (one, many, _) = validate_schema-ok s v in
    let (q, d) = validate_schema-columns s v in
    let n : others s.columns ≡ length s.columns - 1 = omega (arith, primaries-others s.columns) in
    let long : length fields ≤ 2988 =
      omega (arith, header_size (length s.columns - 1) fields out o) in
    let count = length s.columns - 1 in
    let decoded =
      decode_fields-encode s.columns [] s.columns row [] 0 0 fields refl refl many (omega arith) w
        (omega arith) e in
    let n' : decode_fields s.columns (length s.columns - 1) 0 [] fields
        ≡ ok (fields_of [] s.columns row) =
      rw n at decoded in
    (
      fields_of [] s.columns row,
      rw o (decode_row-header s count fields refl many long v ∙ n'),
      λ name. get-fields_of [] 0 q s.columns row [] name d,
    )
