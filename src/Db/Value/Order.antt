-- ===== src/Db/Value/Order.antt =====
-- Encoded values sort as byte strings the way the values do, which keeps rows and index entries in
-- the order of their keys.
use go_database.Base.{
  ℕ, ◌<◌, ◌≡◌, refl, Bool, true, false, ◌&&◌, ◌||◌, [], ◌∷◌, ◌++◌, arith, ltb, ◌==◌, if◌then◌else◌,
  ◌⊎◌, length, length-be, Bytes, be, beq, blt, blt-be, beq-be, ℤ, IsInt64, eqb_ℤ, ltb_ℤ, ltb-word,
  eqb-word, to_uint64, flip_sign, word-lt,
}
use go_database.Base.Result.{ok}
use go_database.Db.Escape.{escape}
use go_database.Db.Escape.Order.{blt-escape}
use go_database.Db.Schema.{Column}
use go_database.Db.Value.{
  Value, null, int64, string, bytes, bool, other, int64_bytes, encode_typed, encode_value,
}
use go_database.Db.Value.RoundTrip.{IsValue}

-- equality and order of the values of one column; null comes first
abbrev pub value_eq : Value → Value → Bool
value_eq null null = true
value_eq (int64 x) (int64 y) = eqb_ℤ x y
value_eq (string x) (string y) = beq x y
value_eq (bytes x) (bytes y) = beq x y
value_eq (bool true) (bool true) = true
value_eq (bool false) (bool false) = true
value_eq _ _ = false

abbrev pub value_lt : Value → Value → Bool
value_lt null null = false
value_lt null _ = true
value_lt (int64 x) (int64 y) = ltb_ℤ x y
value_lt (string x) (string y) = blt x y
value_lt (bytes x) (bytes y) = blt x y
value_lt (bool false) (bool true) = true
value_lt _ _ = false

blt-same_length :
    (a b s t : Bytes)
    → length a ≡ length b
    → blt (a ++ s) (b ++ t) ≡ (if beq a b then blt s t else blt a b)
unfolding blt beq
blt-same_length [] [] s t h = refl
blt-same_length [] (y ∷ b) s t h = absurd (omega arith)
blt-same_length (x ∷ a) [] s t h = absurd (omega arith)
blt-same_length (x ∷ a) (y ∷ b) s t h = ground (arith, blt-same_length a b s t (omega arith))

blt-int64 :
    (x y : ℤ) (s t : Bytes)
    → IsInt64 x
    → IsInt64 y
    → blt (int64_bytes x ++ s) (int64_bytes y ++ t) ≡ (if eqb_ℤ x y then blt s t else ltb_ℤ x y)
unfolding int64_bytes
blt-int64 x y s t h k =
    let v = flip_sign (to_uint64 x) in
    let w = flip_sign (to_uint64 y) in
    rw (blt-same_length (be 8 v) (be 8 w) s t (omega (arith, length-be 8 v, length-be 8 w))) (
      rw (beq-be 8 v w (word-lt x h) (word-lt y k), blt-be 8 v w (word-lt x h) (word-lt y k))
        (rw (eqb-word x y h k, ltb-word x y h k)))

abbrev tag_of : Value → ℕ
tag_of null = 0
tag_of (int64 x) = 1
tag_of (string x) = 2
tag_of (bytes x) = 3
tag_of (bool x) = 4
tag_of other = 5

abbrev form : Value → Bytes
form null = 0 ∷ []
form (int64 x) = 1 ∷ int64_bytes x
form (string x) = 2 ∷ escape x
form (bytes x) = 3 ∷ escape x
form (bool true) = 4 ∷ 1 ∷ []
form (bool false) = 4 ∷ 0 ∷ []
form other = []

encode-form :
    (c : Column) (v : Value) (a : Bytes)
    → c.primary_key ≡ false
    → encode_value c v ≡ ok a
    → (a ≡ form v) × ((tag_of v ≡ 0) ⊎ (tag_of v ≡ c.type)) × (tag_of v < 5)
unfolding encode_value encode_typed
encode-form c null a k e = ground arith
encode-form c (int64 x) a k e = ground arith
encode-form c (string x) a k e = ground arith
encode-form c (bytes x) a k e = ground arith
encode-form c (bool true) a k e = ground arith
encode-form c (bool false) a k e = ground arith
encode-form c other a k e = ground arith

blt-tag :
    (x y : ℕ) (a b s t : Bytes)
    → blt ((x ∷ a) ++ s) ((y ∷ b) ++ t) ≡ (ltb x y || (x == y && blt (a ++ s) (b ++ t)))
unfolding blt
blt-tag x y a b s t = refl

blt-form :
    (v w : Value) (s t : Bytes)
    → IsValue v
    → IsValue w
    → (tag_of v < 5) × (tag_of w < 5)
    → (tag_of v ≡ 0) ⊎ (tag_of w ≡ 0) ⊎ (tag_of v ≡ tag_of w)
    → blt (form v ++ s) (form w ++ t) ≡ (if value_eq v w then blt s t else value_lt v w)
unfolding blt
blt-form null null s t hv hw n e = refl
blt-form (int64 x) (int64 y) s t hv hw n e = blt-int64 x y s t hv hw
blt-form (string x) (string y) s t hv hw n e = blt-escape x y s t
blt-form (bytes x) (bytes y) s t hv hw n e = blt-escape x y s t
blt-form (bool true) (bool true) s t hv hw n e = refl
blt-form (bool true) (bool false) s t hv hw n e = refl
blt-form (bool false) (bool true) s t hv hw n e = refl
blt-form (bool false) (bool false) s t hv hw n e = refl
blt-form (bool true) _ s t hv hw n e = ground arith
blt-form (bool false) _ s t hv hw n e = ground arith
blt-form null (bool true) s t hv hw n e = ground arith
blt-form null (bool false) s t hv hw n e = ground arith
blt-form (int64 x) (bool true) s t hv hw n e = ground arith
blt-form (int64 x) (bool false) s t hv hw n e = ground arith
blt-form (string x) (bool true) s t hv hw n e = ground arith
blt-form (string x) (bool false) s t hv hw n e = ground arith
blt-form (bytes x) (bool true) s t hv hw n e = ground arith
blt-form (bytes x) (bool false) s t hv hw n e = ground arith
blt-form other _ s t hv hw n e = absurd (omega arith)
blt-form _ _ s t hv hw n e = ground arith

-- For a column that is no primary key, the encodings of two values, their integers in the range
-- of int64, with anything behind them, compare as the values do, and as what is behind them
-- where the values are equal.
pub blt-encode :
    (c : Column) (v w : Value) (a b s t : Bytes)
    → c.primary_key ≡ false
    → IsValue v
    → IsValue w
    → encode_value c v ≡ ok a
    → encode_value c w ≡ ok b
    → blt (a ++ s) (b ++ t) ≡ (if value_eq v w then blt s t else value_lt v w)
blt-encode c v w a b s t k hv hw p q =
    let (ea, ta, na) = encode-form c v a k p in
    let (eb, tb, nb) = encode-form c w b k q in
    rw (ea, eb) (blt-form v w s t hv hw (na, nb) (omega arith))
