-- ===== src/Base/ByteString.antt =====
-- Byte strings as lists of numbers, with the order of `bytes.Compare` and of Go's `<` on strings.
use Prim.Native.Nat.{ℕ}
use Prim.Native.Char.{code}
use Prim.Native.String.{String}
use mathlib.Core.Path.{◌≡◌, refl}
use mathlib.Core.Logic.{◌↔◌}
use mathlib.Core.Bool.{Bool, true, false, not, ◌&&◌, ◌||◌}
use mathlib.Core.List.{List, [], ◌∷◌, ◌++◌}
use native.Mathlib.Omega.{arith}
use go_database.Base.Tests.{ltb, ◌==◌}

abbrev pub Bytes : Type 0
Bytes = List ℕ

-- The code points of a text: its bytes, if it is ASCII.
abbrev pub codes : String → Bytes
codes String.[] = []
codes (String.◌∷◌ c s) = code c ∷ codes s

-- `a == b` on strings, `bytes.Equal`
unfoldable pub beq : Bytes → Bytes → Bool
beq [] [] = true
beq [] (y ∷ ys) = false
beq (x ∷ xs) [] = false
beq (x ∷ xs) (y ∷ ys) = x == y && beq xs ys

-- `a < b` on strings, `bytes.Compare(a, b) < 0`
unfoldable pub blt : Bytes → Bytes → Bool
blt [] [] = false
blt [] (y ∷ ys) = true
blt (x ∷ xs) [] = false
blt (x ∷ xs) (y ∷ ys) = ltb x y || (x == y && blt xs ys)

-- `a <= b` on strings
abbrev pub ble : Bytes → Bytes → Bool
ble a b = not (blt b a)

beq→eq : (a b : Bytes) → beq a b ≡ true → a ≡ b
unfolding beq
beq→eq [] [] h = refl
beq→eq [] (y ∷ ys) h = ground arith
beq→eq (x ∷ xs) [] h = ground arith
beq→eq (x ∷ xs) (y ∷ ys) h = ground (arith, beq→eq xs ys)

pub beq_refl : (a : Bytes) → beq a a ≡ true
unfolding beq
beq_refl [] = refl
beq_refl (x ∷ xs) = ground (arith, beq_refl xs)

eq→beq : (a b : Bytes) → a ≡ b → beq a b ≡ true
eq→beq a b h = rw h (beq_refl b)

pub beq_iff : (a b : Bytes) → (beq a b ≡ true) ↔ (a ≡ b)
beq_iff a b = (beq→eq a b, eq→beq a b)

pub blt_irrefl : (a : Bytes) → blt a a ≡ false
unfolding blt
blt_irrefl [] = refl
blt_irrefl (x ∷ xs) = ground (arith, blt_irrefl xs)

pub blt_trans : (a b c : Bytes) → blt a b ≡ true → blt b c ≡ true → blt a c ≡ true
unfolding blt
blt_trans [] [] c p q = ground arith
blt_trans [] (y ∷ ys) [] p q = ground arith
blt_trans [] (y ∷ ys) (z ∷ zs) p q = refl
blt_trans (x ∷ xs) [] c p q = ground arith
blt_trans (x ∷ xs) (y ∷ ys) [] p q = ground arith
blt_trans (x ∷ xs) (y ∷ ys) (z ∷ zs) p q = ground (arith, blt_trans xs ys zs)

pub blt_total : (a b : Bytes) → blt a b ≡ false → blt b a ≡ false → a ≡ b
unfolding blt
blt_total [] [] p q = refl
blt_total [] (y ∷ ys) p q = ground arith
blt_total (x ∷ xs) [] p q = ground arith
blt_total (x ∷ xs) (y ∷ ys) p q = ground (arith, blt_total xs ys)

pub blt→beq : (a b : Bytes) → blt a b ≡ true → beq a b ≡ false
unfolding blt beq
blt→beq [] [] h = ground arith
blt→beq [] (y ∷ ys) h = refl
blt→beq (x ∷ xs) [] h = refl
blt→beq (x ∷ xs) (y ∷ ys) h = ground (arith, blt→beq xs ys)

pub blt_asymm : (a b : Bytes) → blt a b ≡ true → blt b a ≡ false
unfolding blt
blt_asymm [] [] h = ground arith
blt_asymm [] (y ∷ ys) h = refl
blt_asymm (x ∷ xs) [] h = ground arith
blt_asymm (x ∷ xs) (y ∷ ys) h = ground (arith, blt_asymm xs ys)

-- A common prefix does not matter to the order.
pub blt-append_left : (p a b : Bytes) → blt (p ++ a) (p ++ b) ≡ blt a b
unfolding blt
blt-append_left [] a b = refl
blt-append_left (x ∷ p) a b = ground (arith, blt-append_left p a b)

pub beq-append_left : (p a b : Bytes) → beq (p ++ a) (p ++ b) ≡ beq a b
unfolding beq
beq-append_left [] a b = refl
beq-append_left (x ∷ p) a b = ground (arith, beq-append_left p a b)
