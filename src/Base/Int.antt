-- ===== src/Base/Int.antt =====
-- Go's int64: the integer, its two's complement word, and the range.
use Prim.Native.Nat.{ℕ, ◌+◌, ◌-◌, ◌^◌, ◌<◌}
use mathlib.Core.Path.{◌≡◌}
use mathlib.Core.Bool.{Bool, true, false}
use native.Mathlib.Omega.{arith}
use go_database.Base.Tests.{ltb, ◌==◌, if◌then◌else◌}

-- `negsuc n` is -(n + 1).
pub data ℤ : Type 0 where
  pos : ℕ → ℤ
  negsuc : ℕ → ℤ

abbrev pub IsInt64 : ℤ → Type 0
IsInt64 (pos n) = n < 2 ^ 63
IsInt64 (negsuc n) = n < 2 ^ 63

unfoldable pub eqb_ℤ : ℤ → ℤ → Bool
eqb_ℤ (pos a) (pos b) = a == b
eqb_ℤ (pos a) (negsuc b) = false
eqb_ℤ (negsuc a) (pos b) = false
eqb_ℤ (negsuc a) (negsuc b) = a == b

unfoldable pub ltb_ℤ : ℤ → ℤ → Bool
ltb_ℤ (pos a) (pos b) = ltb a b
ltb_ℤ (pos a) (negsuc b) = false
ltb_ℤ (negsuc a) (pos b) = true
ltb_ℤ (negsuc a) (negsuc b) = ltb b a

-- `uint64(x)`
unfoldable pub to_uint64 : ℤ → ℕ
to_uint64 (pos n) = n
to_uint64 (negsuc n) = 2 ^ 64 - 1 - n

-- `int64(w)`
unfoldable pub of_uint64 : ℕ → ℤ
of_uint64 w = if ltb w (2 ^ 63) then pos w else negsuc (2 ^ 64 - 1 - w)

-- `w ^ (1 << 63)` on a 64-bit word
unfoldable pub flip_sign : ℕ → ℕ
flip_sign w = if ltb w (2 ^ 63) then w + 2 ^ 63 else w - 2 ^ 63

pub word-lt : (x : ℤ) → IsInt64 x → flip_sign (to_uint64 x) < 2 ^ 64
unfolding flip_sign to_uint64
word-lt (pos n) h = ground arith
word-lt (negsuc n) h = ground arith

pub of_word : (x : ℤ) → IsInt64 x → of_uint64 (flip_sign (flip_sign (to_uint64 x))) ≡ x
unfolding flip_sign to_uint64 of_uint64
of_word (pos n) h = ground arith
of_word (negsuc n) h = ground arith

pub to_word : (w : ℕ) → w < 2 ^ 64 → flip_sign (to_uint64 (of_uint64 (flip_sign w))) ≡ w
unfolding flip_sign to_uint64 of_uint64
to_word w h = ground arith

pub of_uint64-IsInt64 : (w : ℕ) → w < 2 ^ 64 → IsInt64 (of_uint64 (flip_sign w))
unfolding flip_sign of_uint64
of_uint64-IsInt64 w h = ground arith

-- With the sign bit flipped, words are ordered as the integers are.
pub ltb-word :
    (x y : ℤ)
    → IsInt64 x
    → IsInt64 y
    → ltb (flip_sign (to_uint64 x)) (flip_sign (to_uint64 y)) ≡ ltb_ℤ x y
unfolding flip_sign to_uint64 ltb_ℤ
ltb-word (pos a) (pos b) h k = ground arith
ltb-word (pos a) (negsuc b) h k = ground arith
ltb-word (negsuc a) (pos b) h k = ground arith
ltb-word (negsuc a) (negsuc b) h k = ground arith

pub eqb-word :
    (x y : ℤ)
    → IsInt64 x
    → IsInt64 y
    → (flip_sign (to_uint64 x) == flip_sign (to_uint64 y)) ≡ eqb_ℤ x y
unfolding flip_sign to_uint64 eqb_ℤ
eqb-word (pos a) (pos b) h k = ground arith
eqb-word (pos a) (negsuc b) h k = ground arith
eqb-word (negsuc a) (pos b) h k = ground arith
eqb-word (negsuc a) (negsuc b) h k = ground arith
