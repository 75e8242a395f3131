-- ===== src/Db/Escape/RoundTrip.antt =====
-- Escaped components: decoding inverts `escape`, both ways.
use go_database.Base.{
  ℕ, ◌-◌, ◌≡◌, ◌≢◌, refl, false, Option, none, some, [], ◌∷◌, ◌++◌, arith, ltb, ◌==◌, if◌then◌else◌,
  Bool-cases, ==_iff, inl, inr, length, take, drop, Bytes, length-append, tests, length-drop,
  take-append-drop, take-append_length, drop-append_length,
}
use mathlib.Core.Option
use go_database.Db.Escape.{escape, unescape, terminated, decode_escaped_component}

-- what `escape` writes before the two bytes that end a component
pub escape_body : Bytes → Bytes
escape_body [] = []
escape_body (b ∷ bs) = if b == 0 then 0 ∷ 0xff ∷ escape_body bs else b ∷ escape_body bs

pub escape-eq-body : (v : Bytes) → escape v ≡ escape_body v ++ 0 ∷ 0 ∷ []
unfolding escape escape_body
escape-eq-body [] = refl
escape-eq-body (b ∷ bs) = ground (arith, escape-eq-body bs)

unescape_cons :
    (x : ℕ) (xs ys : Bytes) → x ≢ 0 → unescape xs ≡ some ys → unescape (x ∷ xs) ≡ some (x ∷ ys)
unfolding unescape
unescape_cons x [] ys h e = ground arith
unescape_cons x (y ∷ rest) ys h e = ground arith

pub unescape-body : (v : Bytes) → unescape (escape_body v) ≡ some v
unfolding unescape escape_body
unescape-body [] = refl
unescape-body (b ∷ bs) = elim (Bool-cases (b == 0)) [
  | inl z ↦ rw (z, unescape-body bs) (cc ((==_iff b 0).0 z))
  | inr nz ↦ rw nz (unescape_cons b (escape_body bs) bs (ground arith) (unescape-body bs))
]

decode_terminated : (body : Bytes) → decode_escaped_component (body ++ 0 ∷ 0 ∷ []) ≡ unescape body
unfolding decode_escaped_component
decode_terminated body =
    let n : length (body ++ 0 ∷ 0 ∷ []) - 2 ≡ length body =
      omega (arith, length-append body (0 ∷ 0 ∷ [])) in
    let long : ltb (length (body ++ 0 ∷ 0 ∷ [])) 2 ≡ false =
      ground (arith, length-append body (0 ∷ 0 ∷ [])) in
    rw (long, n, take-append_length body (0 ∷ 0 ∷ []), drop-append_length body (0 ∷ 0 ∷ []))

-- Decoding an escaped component gives the component back, whatever bytes it holds.
pub decode-escape : (v : Bytes) → decode_escaped_component (escape v) ≡ some v
decode-escape v = rw (escape-eq-body v, decode_terminated (escape_body v)) (unescape-body v)

map-eq-some :
    (x : ℕ) (o : Option Bytes) (v : Bytes)
    → Option.map (◌∷◌ x) o ≡ some v
    → (a : Bytes) × (o ≡ some a) × (v ≡ x ∷ a)
map-eq-some x none v h = cc
map-eq-some x (some a) v h = (a, refl, cc)

body-unescape : (xs v : Bytes) → unescape xs ≡ some v → escape_body v ≡ xs
unfolding unescape escape_body
body-unescape [] v h = ground arith
body-unescape (x ∷ []) v h = ground arith
body-unescape (x ∷ y ∷ rest) v h = elim (Bool-cases (x == 0)) [
  | inl z ↦ elim (Bool-cases (y == 0xff)) [
    | inl f ↦
        let (a, e, p) = map-eq-some 0 (unescape rest) v (rw (z, f) at h) in
        rw (p, body-unescape rest a e) (cc ((==_iff x 0).0 z, (==_iff y 0xff).0 f))
    | inr nf ↦ cc (rw (z, nf) at h)
  ]
  | inr nz ↦
      let (a, e, p) = map-eq-some x (unescape (y ∷ rest)) v (rw nz at h) in
      rw (p, nz, body-unescape (y ∷ rest) a e)
]

terminated-eq-some :
    (body tail v : Bytes)
    → length tail ≡ 2
    → terminated body tail ≡ some v
    → (unescape body ≡ some v) × (tail ≡ 0 ∷ 0 ∷ [])
unfolding terminated
terminated-eq-some body [] v n h = absurd (omega arith)
terminated-eq-some body (a ∷ []) v n h = absurd (omega arith)
terminated-eq-some body (a ∷ b ∷ []) v n h = ground arith
terminated-eq-some body (a ∷ b ∷ c ∷ r) v n h = absurd (omega arith)

-- A byte string that decodes as a component is the escaped form of what it decodes to.
pub escape-decode : (input v : Bytes) → decode_escaped_component input ≡ some v → escape v ≡ input
unfolding decode_escaped_component
escape-decode input v h = elim (Bool-cases (ltb (length input) 2)) [
  | inl short ↦ cc (rw short at h)
  | inr long ↦
      let n = length input - 2 in
      let (u, t) =
        terminated-eq-some (take n input) (drop n input) v (omega (tests, length-drop n input))
          (rw long at h) in
      rw (escape-eq-body v, body-unescape (take n input) v u, ← t) (take-append-drop n input)
]
