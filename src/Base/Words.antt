-- ===== src/Base/Words.antt =====
-- `encoding/binary`: fixed-width words in little-endian and big-endian byte order.
use mathlib.Core.Path.{◌≡◌, refl, ap, ◌∙◌}
use mathlib.Core.Bool.{◌&&◌, ◌||◌}
use mathlib.Core.List.{[], ◌∷◌, ◌++◌}
use Prim.Native.Nat.{ℕ, zero, suc, ◌+◌, ◌*◌, ◌/◌, ◌%◌, ◌^◌, ◌<◌}
use native.Mathlib.Omega.{arith}
use native.Mathlib.Nat.{pow-suc}
use go_database.Base.Tests.{ltb, ◌==◌}
use go_database.Base.Lists.{length, length-append}
use go_database.Base.ByteString.{Bytes, blt, beq}

-- every element is a byte
abbrev pub IsBytes : Bytes → Type 0
IsBytes [] = Unit
IsBytes (x ∷ xs) = (x < 256) × IsBytes xs

pub IsBytes-append : (xs ys : Bytes) → IsBytes xs → IsBytes ys → IsBytes (xs ++ ys)
IsBytes-append [] ys hx hy = hy
IsBytes-append (x ∷ xs) ys hx hy = (hx.0, IsBytes-append xs ys hx.1 hy)

-- `LittleEndian.PutUint`, `n` bytes
unfoldable pub le : ℕ → ℕ → Bytes
le zero w = []
le (suc n) w = (w % 256) ∷ le n (w / 256)

-- `LittleEndian.Uint`
unfoldable pub le_value : Bytes → ℕ
le_value [] = 0
le_value (b ∷ bs) = b + 256 * le_value bs

-- `BigEndian.PutUint`, `n` bytes
unfoldable pub be : ℕ → ℕ → Bytes
be zero w = []
be (suc n) w = be n (w / 256) ++ (w % 256) ∷ []

-- `BigEndian.Uint`, on top of the bytes already read
unfoldable pub be_value : ℕ → Bytes → ℕ
be_value acc [] = acc
be_value acc (b ∷ bs) = be_value (acc * 256 + b) bs

pub div_bound : (n w : ℕ) → w < 256 ^ suc n → w / 256 < 256 ^ n
div_bound n w h = omega (arith, pow-suc 256 n)

pub le_value-le : (n w : ℕ) → w < 256 ^ n → le_value (le n w) ≡ w
unfolding le le_value
le_value-le zero w h = omega arith
le_value-le (suc n) w h = omega (arith, le_value-le n (w / 256) (div_bound n w h))

pub length-le : (n w : ℕ) → length (le n w) ≡ n
unfolding le
length-le zero w = refl
length-le (suc n) w = ap suc (length-le n (w / 256))

pub length-be : (n w : ℕ) → length (be n w) ≡ n
unfolding be
length-be zero w = refl
length-be (suc n) w =
    omega (arith, length-append (be n (w / 256)) ((w % 256) ∷ []), length-be n (w / 256))

pub be_value-append :
    (acc : ℕ) (xs ys : Bytes) → be_value acc (xs ++ ys) ≡ be_value (be_value acc xs) ys
unfolding be_value
be_value-append acc [] ys = refl
be_value-append acc (x ∷ xs) ys = be_value-append (acc * 256 + x) xs ys

pub be_value-be : (n w : ℕ) → w < 256 ^ n → be_value 0 (be n w) ≡ w
unfolding be be_value
be_value-be zero w h = omega arith
be_value-be (suc n) w h =
    be_value-append 0 (be n (w / 256)) ((w % 256) ∷ [])
    ∙ omega (arith, be_value-be n (w / 256) (div_bound n w h))

-- the last byte decides where the bytes before it are equal
blt-concat :
    (xs ys : Bytes) (x y : ℕ)
    → length xs ≡ length ys
    → blt (xs ++ x ∷ []) (ys ++ y ∷ []) ≡ (blt xs ys || (beq xs ys && ltb x y))
unfolding blt beq
blt-concat [] [] x y h = ground arith
blt-concat [] (b ∷ ys) x y h = absurd (omega arith)
blt-concat (a ∷ xs) [] x y h = absurd (omega arith)
blt-concat (a ∷ xs) (b ∷ ys) x y h = ground (arith, blt-concat xs ys x y (omega arith))

beq-concat :
    (xs ys : Bytes) (x y : ℕ)
    → length xs ≡ length ys
    → beq (xs ++ x ∷ []) (ys ++ y ∷ []) ≡ (beq xs ys && x == y)
unfolding beq
beq-concat [] [] x y h = ground arith
beq-concat [] (b ∷ ys) x y h = absurd (omega arith)
beq-concat (a ∷ xs) [] x y h = absurd (omega arith)
beq-concat (a ∷ xs) (b ∷ ys) x y h = ground (arith, beq-concat xs ys x y (omega arith))

pub beq-be : (n v w : ℕ) → v < 256 ^ n → w < 256 ^ n → beq (be n v) (be n w) ≡ (v == w)
unfolding be beq
beq-be zero v w hv hw = ground arith
beq-be (suc n) v w hv hw = ground (
  arith,
  beq-concat (be n (v / 256)) (be n (w / 256)) (v % 256) (w % 256)
      (omega (arith, length-be n (v / 256), length-be n (w / 256))),
  beq-be n (v / 256) (w / 256) (div_bound n v hv) (div_bound n w hw),
)

-- Big-endian words are ordered as byte strings the way they are as numbers.
pub blt-be : (n v w : ℕ) → v < 256 ^ n → w < 256 ^ n → blt (be n v) (be n w) ≡ ltb v w
unfolding be blt
blt-be zero v w hv hw = ground arith
blt-be (suc n) v w hv hw = ground (
  arith,
  blt-concat (be n (v / 256)) (be n (w / 256)) (v % 256) (w % 256)
      (omega (arith, length-be n (v / 256), length-be n (w / 256))),
  beq-be n (v / 256) (w / 256) (div_bound n v hv) (div_bound n w hw),
  blt-be n (v / 256) (w / 256) (div_bound n v hv) (div_bound n w hw),
)

pub le-IsBytes : (n w : ℕ) → IsBytes (le n w)
unfolding le
le-IsBytes zero w = tt
le-IsBytes (suc n) w = (omega arith, le-IsBytes n (w / 256))

pub be-IsBytes : (n w : ℕ) → IsBytes (be n w)
unfolding be
be-IsBytes zero w = tt
be-IsBytes (suc n) w = IsBytes-append (be n (w / 256)) _ (be-IsBytes n (w / 256)) (omega arith)

-- the last element of a list that is not empty
data LastSplit : Bytes → Type 0 where
  snoc : (xs : Bytes) (x : ℕ) → LastSplit (xs ++ x ∷ [])

grow_snoc : (y : ℕ) {ys : Bytes} → LastSplit ys → LastSplit (y ∷ ys)
grow_snoc y (snoc xs x) = snoc (y ∷ xs) x

to_snoc : (y : ℕ) (ys : Bytes) → LastSplit (y ∷ ys)
to_snoc y [] = snoc [] y
to_snoc y (z ∷ ys) = grow_snoc y (to_snoc z ys)

IsBytes-init : (xs : Bytes) (x : ℕ) → IsBytes (xs ++ x ∷ []) → IsBytes xs × (x < 256)
IsBytes-init [] x h = (tt, h.0)
IsBytes-init (y ∷ xs) x h = let (a, b) = IsBytes-init xs x h.1 in ((h.0, a), b)

-- Reading bytes as a big-endian word and writing the word gives the bytes back.
pub be-be_value :
    (n : ℕ) (bytes : Bytes) → length bytes ≡ n → IsBytes bytes → be n (be_value 0 bytes) ≡ bytes
unfolding be be_value
be-be_value zero [] h b = refl
be-be_value zero (x ∷ xs) h b = absurd (omega arith)
be-be_value (suc n) [] h b = absurd (omega arith)
be-be_value (suc n) (y ∷ ys) h b = go (to_snoc y ys) h b (be-be_value n)
  where
    go :
        {bytes : Bytes}
        → LastSplit bytes
        → length bytes ≡ suc n
        → IsBytes bytes
        → ((xs : Bytes) → length xs ≡ n → IsBytes xs → be n (be_value 0 xs) ≡ xs)
        → be n (be_value 0 bytes / 256) ++ (be_value 0 bytes % 256) ∷ [] ≡ bytes
    go (snoc xs x) h b ih =
        let (i, l) = IsBytes-init xs x b in
        let e : be_value 0 (xs ++ x ∷ []) ≡ be_value 0 xs * 256 + x =
          be_value-append 0 xs (x ∷ []) in
        let q : (be_value 0 xs * 256 + x) / 256 ≡ be_value 0 xs = omega arith in
        let r : (be_value 0 xs * 256 + x) % 256 ≡ x = omega arith in
        rw (e, q, r, ih xs (omega (arith, length-append xs (x ∷ []))) i)

be_value_from-lt :
    (bytes : Bytes) (acc k : ℕ)
    → IsBytes bytes
    → acc < 256 ^ k
    → be_value acc bytes < 256 ^ (k + length bytes)
unfolding be_value
be_value_from-lt [] acc k b h = let e : k + 0 ≡ k = omega arith in rw e h
be_value_from-lt (x ∷ xs) acc k b h =
    let e : k + suc (length xs) ≡ suc k + length xs = omega arith in
    rw e (be_value_from-lt xs (acc * 256 + x) (suc k) b.1 (omega (arith, pow-suc 256 k)))

pub be_value-lt :
    (n : ℕ) (bytes : Bytes) → length bytes ≡ n → IsBytes bytes → be_value 0 bytes < 256 ^ n
be_value-lt n bytes e b =
    let f : n ≡ 0 + length bytes = omega arith in rw f (be_value_from-lt bytes 0 0 b (omega arith))
