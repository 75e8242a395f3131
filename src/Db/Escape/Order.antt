-- ===== src/Db/Escape/Order.antt =====
-- Escaped components keep the order and the identity of what they encode, so that keys built from
-- them sort by component and no component's key is the prefix of another's.
use go_database.Base.{◌≡◌, [], ◌∷◌, ◌++◌, arith, if◌then◌else◌, Bytes, beq, blt}
use go_database.Db.Escape.{escape, has_prefix}

-- Where two components differ, their escaped forms compare as they do, whatever follows; where
-- they are equal, what follows decides.
pub blt-escape :
    (a b s t : Bytes) → blt (escape a ++ s) (escape b ++ t) ≡ (if beq a b then blt s t else blt a b)
unfolding blt beq escape
blt-escape [] [] s t = ground arith
blt-escape [] (y ∷ b) s t = ground arith
blt-escape (x ∷ a) [] s t = ground arith
blt-escape (x ∷ a) (y ∷ b) s t = ground (arith, blt-escape a b s t)

-- A key that starts with an escaped component has an escaped component as its prefix exactly
-- when the two components are equal.
pub has_prefix-escape : (a b s : Bytes) → has_prefix (escape a ++ s) (escape b) ≡ beq a b
unfolding has_prefix beq escape
has_prefix-escape [] [] s = ground arith
has_prefix-escape [] (y ∷ b) s = ground arith
has_prefix-escape (x ∷ a) [] s = ground arith
has_prefix-escape (x ∷ a) (y ∷ b) s = ground (arith, has_prefix-escape a b s)
