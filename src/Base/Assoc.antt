-- ===== src/Base/Assoc.antt =====
-- Go maps with string keys, as association lists. `put` keeps one entry for a key.
use mathlib.Core.Path.{◌≡◌, refl}
use mathlib.Core.List.{List, [], ◌∷◌}
use mathlib.Core.Option.{Option, none, some}
use native.Mathlib.Omega.{arith}
use go_database.Base.Tests.{if◌then◌else◌}
use go_database.Base.ByteString.{Bytes, beq, beq_iff}

module _ {ℓ} {V : Type ℓ} where
  -- `m[key]`, with whether the key is there
  unfoldable pub get : Bytes → List (Bytes × V) → Option V
  get key [] = none
  get key ((k, v) ∷ m) = if beq k key then some v else get key m

  -- `m[key] = value`
  unfoldable pub put : Bytes → V → List (Bytes × V) → List (Bytes × V)
  put key value [] = (key, value) ∷ []
  put key value ((k, v) ∷ m) = if beq k key then (key, value) ∷ m else (k, v) ∷ put key value m

  -- `delete(m, key)`
  unfoldable pub remove : Bytes → List (Bytes × V) → List (Bytes × V)
  remove key [] = []
  remove key ((k, v) ∷ m) = if beq k key then remove key m else (k, v) ∷ remove key m

  pub get-put :
      (key j : Bytes) (value : V) (m : List (Bytes × V))
      → get j (put key value m) ≡ (if beq key j then some value else get j m)
  unfolding get put
  get-put key j value [] = refl
  get-put key j value ((k, v) ∷ m) =
      ground (arith, beq_iff key j, beq_iff k key, beq_iff k j, get-put key j value m)

  pub get-remove :
      (key j : Bytes) (m : List (Bytes × V))
      → get j (remove key m) ≡ (if beq key j then none else get j m)
  unfolding get remove
  get-remove key j [] = ground arith
  get-remove key j ((k, v) ∷ m) =
      ground (arith, beq_iff key j, beq_iff k key, beq_iff k j, get-remove key j m)
