-- ===== src/Sql/Parser/Steps.antt =====
-- The parser's small steps keep a stream a stream, and read no token past its end.
use go_database.Base.{
  ℕ, suc, ◌≡◌, ◌<◌, ◌≤◌, refl, true, false, ◌||◌, Option, none, some, List, [], ◌∷◌, length, arith,
  if-each, ℤ,
}
use go_database.Base.Result.{ok, err, panic, ◌>>=◌}
use go_database.Sql.Token.{
  TokenType, Token, Complaint, eof_token, code, is, semicolon, identifier_token, string_token,
  integer_token, true_token, false_token, null_token, expected_column_type, expected_comparison,
}
use go_database.Sql.Lexer.{parse_int}
use go_database.Sql.Lexer.Stream.{IsStream}
use go_database.Sql.Parser.{
  Parsed, Literal, errorf, at_kind, expect, identifier, optional_semicolon, take_kind, integer_or,
  literal, column_type, is_column_type, is_comparison, comparison,
}

-- a result that leaves a stream of fewer than `n` tokens, or an error, and no panic
abbrev pub IsSafe {ℓ} : {A : Type ℓ} → ℕ → Parsed A → Type 0
IsSafe n (ok (a, ts)) = IsStream ts × (length ts < n)
IsSafe n (err e) = Unit
IsSafe n panic = ⊥

pub bind-IsSafe {ℓ κ} :
    {A : Type ℓ} {B : Type κ} (m n : ℕ) (r : Parsed A) (k : A × List Token → Parsed B)
    → IsSafe m r
    → ((a : A) (ts : List Token) → IsStream ts → length ts < m → IsSafe n (k (a, ts)))
    → IsSafe n (r >>= k)
bind-IsSafe m n (ok (a, ts)) k h g = g a ts h.0 h.1
bind-IsSafe m n (err e) k h g = tt
bind-IsSafe m n panic k h g = absurd h

pub errorf-IsSafe :
    (A : Type 0) (n : ℕ) (ts : List Token) (what : Complaint)
    → IsStream ts
    → IsSafe {A = A} n (errorf ts what)
unfolding errorf
errorf-IsSafe A n [] what s = absurd s
errorf-IsSafe A n (t ∷ ts) what s = tt

-- the tokens behind a token that is not EOF
pub tail-IsStream :
    (t : Token) (ts : List Token) → IsStream (t ∷ ts) → is t.kind eof_token ≡ false → IsStream ts
tail-IsStream t [] s h = ground arith
tail-IsStream t (u ∷ ts) s h = s.1

not-eof :
    (t : Token) (kind : TokenType)
    → is kind eof_token ≡ false
    → at_kind kind t ≡ true
    → is t.kind eof_token ≡ false
unfolding code
not-eof t kind h e = ground arith

pub expect-IsSafe :
    (kind : TokenType) (ts : List Token)
    → is kind eof_token ≡ false
    → IsStream ts
    → IsSafe (length ts) (expect kind ts)
unfolding expect
expect-IsSafe kind [] h s = absurd s
expect-IsSafe kind (t ∷ ts) h s =
    if-each (IsSafe (suc (length ts))) (at_kind kind t)
      (λ e. (tail-IsStream t ts s (not-eof t kind h e), ground arith))
      (λ e. errorf-IsSafe _ (suc (length ts)) (t ∷ ts) _ s)

pub identifier-IsSafe : (ts : List Token) → IsStream ts → IsSafe (length ts) (identifier ts)
unfolding identifier code
identifier-IsSafe [] s = absurd s
identifier-IsSafe (t ∷ ts) s =
    if-each (IsSafe (suc (length ts))) (at_kind identifier_token t)
      (λ e. (tail-IsStream t ts s (not-eof t identifier_token refl e), ground arith))
      (λ e. errorf-IsSafe _ (suc (length ts)) (t ∷ ts) _ s)

pub optional_semicolon-IsSafe :
    (ts : List Token) → IsStream ts → IsSafe (suc (length ts)) (optional_semicolon ts)
unfolding optional_semicolon code
optional_semicolon-IsSafe [] s = absurd s
optional_semicolon-IsSafe (t ∷ ts) s =
    if-each (λ us. IsStream us × (length us < suc (suc (length ts)))) (at_kind semicolon t)
      (λ e. (tail-IsStream t ts s (not-eof t semicolon refl e), ground arith))
      (λ e. (s, ground arith))

pub take_kind-IsSafe :
    (kind : TokenType) (ts : List Token)
    → is kind eof_token ≡ false
    → IsStream ts
    → IsSafe (suc (length ts)) (take_kind kind ts)
unfolding take_kind
take_kind-IsSafe kind [] h s = absurd s
take_kind-IsSafe kind (t ∷ ts) h s =
    if-each (IsSafe (suc (suc (length ts)))) (at_kind kind t)
      (λ e. (tail-IsStream t ts s (not-eof t kind h e), ground arith)) (λ e. (s, ground arith))

integer_or-IsSafe :
    (t : Token) (ts : List Token) (o : Option ℤ)
    → IsStream (t ∷ ts)
    → IsStream ts
    → IsSafe (suc (length ts)) (integer_or t ts o)
integer_or-IsSafe t ts none s r = errorf-IsSafe _ _ (t ∷ ts) _ s
integer_or-IsSafe t ts (some n) s r = (r, ground arith)

pub literal-IsSafe : (ts : List Token) → IsStream ts → IsSafe (length ts) (literal ts)
unfolding literal code
literal-IsSafe [] s = absurd s
literal-IsSafe (t ∷ ts) s =
    let S = IsSafe {A = Literal} (suc (length ts)) in
    let rest = λ (h : is t.kind eof_token ≡ false). tail-IsStream t ts s h in
    if-each S (at_kind string_token t) (λ e. (rest (ground arith), ground arith))
      (λ a.
        if-each S (at_kind integer_token t)
          (λ e. integer_or-IsSafe t ts (parse_int t.text) s (rest (ground arith)))
          (λ b.
            if-each S (at_kind true_token t || at_kind false_token t)
              (λ e. (rest (ground arith), ground arith))
              (λ c.
                if-each S (at_kind null_token t) (λ e. (rest (ground arith), ground arith))
                  (λ d. errorf-IsSafe _ (suc (length ts)) (t ∷ ts) _ s))))

pub column_type-IsSafe : (ts : List Token) → IsStream ts → IsSafe (length ts) (column_type ts)
unfolding column_type code
column_type-IsSafe [] s = absurd s
column_type-IsSafe (t ∷ ts) s =
    if-each (IsSafe {A = TokenType} (suc (length ts))) (is_column_type t.kind) {x = ok (t.kind, ts)}
      {y = errorf (t ∷ ts) (expected_column_type t.kind)}
      (λ e. (tail-IsStream t ts s (ground arith), ground arith))
      (λ e. errorf-IsSafe _ (suc (length ts)) (t ∷ ts) _ s)

pub comparison-IsSafe : (ts : List Token) → IsStream ts → IsSafe (length ts) (comparison ts)
unfolding comparison code
comparison-IsSafe [] s = absurd s
comparison-IsSafe (t ∷ ts) s =
    if-each (IsSafe {A = TokenType} (suc (length ts))) (is_comparison t.kind) {x = ok (t.kind, ts)}
      {y = errorf (t ∷ ts) (expected_comparison t.kind)}
      (λ e. (tail-IsStream t ts s (ground arith), ground arith))
      (λ e. errorf-IsSafe _ (suc (length ts)) (t ∷ ts) _ s)

pub weaken-IsSafe {ℓ} : {A : Type ℓ} (m n : ℕ) (r : Parsed A) → m ≤ n → IsSafe m r → IsSafe n r
weaken-IsSafe m n (ok (a, ts)) le h = (h.0, ground arith)
weaken-IsSafe m n (err e) le h = tt
weaken-IsSafe m n panic le h = h
