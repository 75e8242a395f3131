-- ===== src/Sql/Parser/Loops.antt =====
-- The parser's loops keep a stream a stream, and the fuel given to them is enough.
use go_database.Base.{
  ℕ, zero, suc, ◌≡◌, ◌<◌, ◌≤◌, refl, Bool, true, false, List, [], ◌∷◌, length, arith, if-both,
  if-each,
}
use go_database.Base.Result.{◌>>=◌}
use go_database.Sql.Token.{
  TokenType, Token, eof_token, code, is, comma, null_token, key_token, primary_token, not_token,
  and_token, duplicate_primary_key, duplicate_not_null,
}
use go_database.Sql.Lexer.Stream.{IsStream}
use go_database.Sql.Parser.{
  Parsed, at_kind, expect, take_kind, more_of, identifier_sequence, constraints, column, columns,
  literals, predicates,
}
use go_database.Sql.Parser.Steps.{
  IsSafe, bind-IsSafe, errorf-IsSafe, tail-IsStream, expect-IsSafe, identifier-IsSafe,
  take_kind-IsSafe, literal-IsSafe, column_type-IsSafe, comparison-IsSafe, weaken-IsSafe,
}

more_of-IsSafe :
    {A : Type 0} (n : ℕ) (more : Bool) (a : A) (ts : List Token) (rest : Parsed (List A))
    → IsStream ts
    → length ts < n
    → IsSafe n rest
    → IsSafe n (more_of more a ts rest)
more_of-IsSafe n false a ts rest s lt h = (s, lt)
more_of-IsSafe n true a ts rest s lt h = bind-IsSafe n n rest _ h (λ others us t l. (t, l))

-- a loop's round, behind an item: the separator, and the other items if it stands there
round-IsSafe :
    {A : Type 0} (fuel n : ℕ) (separator : TokenType) (a : A) (ts : List Token)
    (loop : ℕ → List Token → Parsed (List A))
    → is separator eof_token ≡ false
    → IsStream ts
    → length ts < n
    → length ts ≤ fuel
    → ((us : List Token) → IsStream us → length us ≤ fuel → IsSafe (length us) (loop fuel us))
    → IsSafe n (do (more, us) ← take_kind separator ts; more_of more a us (loop fuel us))
round-IsSafe fuel n separator a ts loop e s lt le h =
    bind-IsSafe (suc (length ts)) n (take_kind separator ts) _ (take_kind-IsSafe separator ts e s)
      (λ more us t l.
        more_of-IsSafe n more a us (loop fuel us) t (ground arith)
          (weaken-IsSafe (length us) n _ (ground arith) (h us t (ground arith))))

pub identifier_sequence-IsSafe :
    (fuel : ℕ) (ts : List Token)
    → IsStream ts
    → length ts ≤ fuel
    → IsSafe (length ts) (identifier_sequence fuel ts)
unfolding identifier_sequence code
identifier_sequence-IsSafe zero [] s le = absurd s
identifier_sequence-IsSafe zero (t ∷ ts) s le = ground arith
identifier_sequence-IsSafe (suc fuel) ts s le =
    bind-IsSafe (length ts) (length ts) _ _ (identifier-IsSafe ts s) (λ name us t l.
      round-IsSafe fuel (length ts) comma name us identifier_sequence refl t l (ground arith)
        (λ vs r m. identifier_sequence-IsSafe fuel vs r m))

pub literals-IsSafe :
    (fuel : ℕ) (ts : List Token)
    → IsStream ts
    → length ts ≤ fuel
    → IsSafe (length ts) (literals fuel ts)
unfolding literals code
literals-IsSafe zero [] s le = absurd s
literals-IsSafe zero (t ∷ ts) s le = ground arith
literals-IsSafe (suc fuel) ts s le =
    bind-IsSafe (length ts) (length ts) _ _ (literal-IsSafe ts s) (λ v us t l.
      round-IsSafe fuel (length ts) comma v us literals refl t l (ground arith)
        (λ vs r m. literals-IsSafe fuel vs r m))

constraints-IsSafe :
    (fuel : ℕ) (primary not_null : Bool) (ts : List Token)
    → IsStream ts
    → length ts < fuel
    → IsSafe (suc (length ts)) (constraints fuel primary not_null ts)
unfolding constraints code
constraints-IsSafe zero primary not_null ts s le = ground arith
constraints-IsSafe (suc fuel) primary not_null [] s le = absurd s
constraints-IsSafe (suc fuel) primary not_null (t ∷ ts) s le =
    let n = suc (length (t ∷ ts)) in
    let S = IsSafe {A = Bool × Bool} n in
    let next =
      λ (kind : TokenType) (e : is kind eof_token ≡ false) (p q : Bool)
          (h : is t.kind eof_token ≡ false).
        bind-IsSafe (length ts) n (expect kind ts) (λ r. constraints fuel p q r.1)
          (expect-IsSafe kind ts e (tail-IsStream t ts s h))
          (λ u us r l.
            weaken-IsSafe (suc (length us)) n _ (ground arith)
              (constraints-IsSafe fuel p q us r (ground arith))) in
    if-each S (at_kind primary_token t)
      (λ a.
        if-both S primary (errorf-IsSafe _ n (t ∷ ts) duplicate_primary_key s)
          (next key_token refl true not_null (ground arith)))
      (λ a.
        if-each S (at_kind not_token t)
          (λ b.
            if-both S not_null (errorf-IsSafe _ n (t ∷ ts) duplicate_not_null s)
              (next null_token refl primary true (ground arith)))
          (λ b. (s, ground arith)))

column-IsSafe : (ts : List Token) → IsStream ts → IsSafe (length ts) (column ts)
unfolding column
column-IsSafe ts s =
    let n = length ts in
    bind-IsSafe n n _ _ (identifier-IsSafe ts s) (λ name us r l.
      bind-IsSafe (length us) n _ _ (column_type-IsSafe us r) (λ kind vs t m.
        bind-IsSafe (suc (length vs)) n _ _
          (constraints-IsSafe (suc (length vs)) false false vs t (ground arith))
          (λ flags ws u k. (u, ground arith))))

pub columns-IsSafe :
    (fuel : ℕ) (ts : List Token)
    → IsStream ts
    → length ts ≤ fuel
    → IsSafe (length ts) (columns fuel ts)
unfolding columns code
columns-IsSafe zero [] s le = absurd s
columns-IsSafe zero (t ∷ ts) s le = ground arith
columns-IsSafe (suc fuel) ts s le =
    bind-IsSafe (length ts) (length ts) _ _ (column-IsSafe ts s) (λ c us t l.
      round-IsSafe fuel (length ts) comma c us columns refl t l (ground arith)
        (λ vs r m. columns-IsSafe fuel vs r m))

pub predicates-IsSafe :
    (fuel : ℕ) (ts : List Token)
    → IsStream ts
    → length ts ≤ fuel
    → IsSafe (length ts) (predicates fuel ts)
unfolding predicates code
predicates-IsSafe zero [] s le = absurd s
predicates-IsSafe zero (t ∷ ts) s le = ground arith
predicates-IsSafe (suc fuel) ts s le =
    let n = length ts in
    bind-IsSafe n n _ _ (identifier-IsSafe ts s) (λ name us r l.
      bind-IsSafe (length us) n _ _ (comparison-IsSafe us r) (λ op vs t m.
        bind-IsSafe (length vs) n _ _ (literal-IsSafe vs t) (λ v ws u k.
          round-IsSafe fuel n and_token (record { column = name; op = op; value = v }) ws predicates
            refl u (ground arith) (ground arith) (λ xs z j. predicates-IsSafe fuel xs z j))))
