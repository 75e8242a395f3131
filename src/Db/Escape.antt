-- ===== src/Db/Escape.antt =====
-- Byte-string components of keys: `escape` and `hasPrefix` of db/table.go, `prefixEnd` and
-- `decodeEscapedComponent` of db/index.go.
pub mod RoundTrip
pub mod Order
pub mod PrefixEnd
use go_database.Base.{
  ℕ, zero, suc, ◌+◌, ◌-◌, ◌≤◌, ◌<◌, ◌≡◌, ◌≢◌, refl, ap, Bool, true, false, not, ◌&&◌, ◌||◌, Option,
  none, some, List, [], ◌∷◌, ◌++◌, arith, ltb, leb, ◌==◌, if◌then◌else◌, length, take, drop, set,
  get_elem?, Bytes, beq, blt, ble, beq_iff, beq_refl, length-append, take-append_length,
  drop-append_length,
}
use mathlib.Core.Option

-- `escape`: a zero byte becomes 00 ff, and 00 00 ends the component
unfoldable pub escape : Bytes → Bytes
escape [] = 0 ∷ 0 ∷ []
escape (b ∷ bs) = if b == 0 then 0 ∷ 0xff ∷ escape bs else b ∷ escape bs

-- the loop of `decodeEscapedComponent` over `data[:len(data)-2]`
unfoldable pub unescape : Bytes → Option Bytes
unescape [] = some []
unescape (x ∷ []) = if x == 0 then none else some (x ∷ [])
unescape (x ∷ y ∷ rest) =
    let skip = Option.map (◌∷◌ 0) (unescape rest) in
    let keep = Option.map (◌∷◌ x) (unescape (y ∷ rest)) in
    if x == 0 then (if y == 0xff then skip else none) else keep

-- the test on the last two bytes
unfoldable pub terminated : Bytes → Bytes → Option Bytes
terminated body (a ∷ b ∷ _) = if a == 0 && b == 0 then unescape body else none
terminated body _ = none

unfoldable pub decode_escaped_component : Bytes → Option Bytes
unfolding terminated
decode_escaped_component input =
    if ltb (length input) 2
    then none
    else terminated (take (length input - 2) input) (drop (length input - 2) input)

unfoldable pub has_prefix : Bytes → Bytes → Bool
has_prefix value prefix =
    leb (length prefix) (length value) && beq (take (length prefix) value) prefix

-- the loop of `prefixEnd`, over the first `i` positions of `end` from the last one down
unfoldable pub prefix_end_from : ℕ → Bytes → Bytes
prefix_end_from zero bytes = bytes ++ 0 ∷ []
prefix_end_from (suc i) bytes = elim (get_elem? bytes i) [
  | none ↦ bytes ++ 0 ∷ []
  | some x ↦
      let next = prefix_end_from i bytes in
      if x == 0xff then next else take (suc i) (set bytes i (x + 1))
]

unfoldable pub prefix_end : Bytes → Bytes
prefix_end prefix = prefix_end_from (length prefix) prefix
