-- ===== src/Db/Value/RoundTrip.antt =====
-- Encoded values: decoding inverts encoding, and no value has two encodings.
use go_database.Base.{
  ℕ, ◌≡◌, Bool, true, false, [], ◌∷◌, arith, ◌==◌, if◌then◌else◌, ◌⊎◌, length, length-be, Bytes,
  IsBytes, be_value, be_value-be, be-be_value, be_value-lt, ℤ, IsInt64, to_uint64, of_uint64,
  flip_sign, word-lt, of_word, to_word,
}
use go_database.Base.Result.{ok}
use go_database.Db.Escape.RoundTrip.{decode-escape, escape-decode}
use go_database.Db.Schema.{Column}
use go_database.Db.Value.{
  Value, null, int64, string, bytes, bool, other, int64_bytes, encode_typed, encode_value,
  decode_primary_key, decode_bool, is_null, decode_typed, decode_tagged, decode_value,
}

-- the integers of a value are in range
abbrev pub IsValue : Value → Type 0
IsValue (int64 x) = IsInt64 x
IsValue _ = Unit

-- `validateSchema` lets only integers and strings be keys
abbrev pub IsKeyed : Column → Type 0
IsKeyed c = c.primary_key ≡ true → (c.nullable ≡ false) × ((c.type ≡ 1) ⊎ (c.type ≡ 2))

int64_word : (x : ℤ) → IsInt64 x → of_uint64 (flip_sign (be_value 0 (int64_bytes x))) ≡ x
unfolding int64_bytes
int64_word x h = rw (be_value-be 8 (flip_sign (to_uint64 x)) (word-lt x h)) (of_word x h)

length-int64_bytes : (x : ℤ) → length (int64_bytes x) ≡ 8
unfolding int64_bytes
length-int64_bytes x = length-be 8 (flip_sign (to_uint64 x))

-- A value, its integer in the range of int64, that is encoded for a column decodes to itself,
-- where the column, if it is the primary key, is not nullable and of type int64 or string.
pub decode-encode :
    (c : Column) (v : Value) (b : Bytes)
    → IsKeyed c
    → IsValue v
    → encode_value c v ≡ ok b
    → decode_value c b ≡ ok v
unfolding encode_value encode_typed decode_value decode_tagged decode_typed decode_primary_key
decode-encode c null b k h e = ground (arith, k)
decode-encode c (int64 x) b k h e = ground (arith, k, int64_word x h, length-int64_bytes x)
decode-encode c (string x) b k h e = ground (arith, k, decode-escape x)
decode-encode c (bytes x) b k h e = ground (arith, k, decode-escape x)
decode-encode c (bool x) b k h e = ground (arith, k)
decode-encode c other b k h e = ground (arith, k)

int64_back :
    (b : Bytes) → length b ≡ 8 → IsBytes b → int64_bytes (of_uint64 (flip_sign (be_value 0 b))) ≡ b
unfolding int64_bytes
int64_back b n h = rw (to_word (be_value 0 b) (be_value-lt 8 b n h)) (be-be_value 8 b n h)

decode_bool-eq-ok :
    (tag : ℕ) (b : Bytes) (x : Bool)
    → decode_bool b ≡ ok (bool x)
    → (if x then tag ∷ 1 ∷ [] else tag ∷ 0 ∷ []) ≡ tag ∷ b
unfolding decode_bool
decode_bool-eq-ok tag [] x h = ground arith
decode_bool-eq-ok tag (y ∷ []) x h = ground arith
decode_bool-eq-ok tag (y ∷ z ∷ b) x h = ground arith

decode_bool-bool : (b : Bytes) (v : Value) → decode_bool b ≡ ok v → (x : Bool) × (v ≡ bool x)
unfolding decode_bool
decode_bool-bool [] v h = ground arith
decode_bool-bool (y ∷ []) v h = (y == 1, ground arith)
decode_bool-bool (y ∷ z ∷ b) v h = ground arith

encode_typed-decode :
    (c : Column) (b : Bytes) (v : Value)
    → c.primary_key ≡ false
    → IsBytes b
    → decode_typed c b ≡ ok v
    → (is_null v ≡ false) × (encode_typed c v ≡ ok (c.type ∷ b))
unfolding encode_typed decode_typed
encode_typed-decode c b null k h e = ground (arith, decode_bool-bool b null)
encode_typed-decode c b (int64 x) k h e = ground (arith, int64_back b, decode_bool-bool b (int64 x))
encode_typed-decode c b (string x) k h e =
    ground (arith, escape-decode b x, decode_bool-bool b (string x))
encode_typed-decode c b (bytes x) k h e =
    ground (arith, escape-decode b x, decode_bool-bool b (bytes x))
encode_typed-decode c b (bool x) k h e = ground (arith, decode_bool-eq-ok c.type b x)
encode_typed-decode c b other k h e = ground (arith, decode_bool-bool b other)

encode-decode_tagged :
    (c : Column) (b : Bytes) (v : Value)
    → c.primary_key ≡ false
    → IsBytes b
    → decode_tagged c b ≡ ok v
    → encode_value c v ≡ ok b
unfolding encode_value decode_tagged
encode-decode_tagged c [] v k h e = ground arith
encode-decode_tagged c (x ∷ []) v k h e = ground (arith, encode_typed-decode c [] v)
encode-decode_tagged c (x ∷ y ∷ b) v k h e = ground (arith, encode_typed-decode c (y ∷ b) v)

encode-decode_primary :
    (c : Column) (b : Bytes) (v : Value)
    → c.primary_key ≡ true
    → IsBytes b
    → decode_primary_key c b ≡ ok v
    → encode_value c v ≡ ok b
unfolding encode_value encode_typed decode_primary_key
encode-decode_primary c b v k h e = ground (arith, int64_back b)

-- A string of bytes that decodes for a column is the encoding of the value that it decodes to.
pub encode-decode :
    (c : Column) (b : Bytes) (v : Value)
    → IsBytes b
    → decode_value c b ≡ ok v
    → encode_value c v ≡ ok b
unfolding decode_value
encode-decode c b v h e = ground (arith, encode-decode_primary c b v, encode-decode_tagged c b v)
