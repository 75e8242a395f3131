-- ===== src/Sql/Parser/Total.antt =====
-- `Parse` returns a statement or an error on every input: the parser reads no token past EOF.
use go_database.Base.{
  ℕ, suc, ◌≡◌, ◌≢◌, ◌≤◌, refl, Bool, true, false, not, List, [], ◌∷◌, ◌==◌, length, Bytes, arith,
  if-both, Bool-cases, inl, inr,
}
use go_database.Base.Result.{Result, ok, err, panic, ◌>>=◌}
use go_database.Sql.Token.{
  TokenType, Token, SqlError, eof_token, code, is, expected_statement, create_token, insert_token,
  select_token, table_token, into_token, values_token, l_paren, r_paren, star, from_token,
  where_token, count_mismatch,
}
use go_database.Sql.Lexer.{lex}
use go_database.Sql.Lexer.Stream.{IsStream, IsLexed, lex-IsLexed}
use go_database.Sql.Parser.{
  Parsed, Statement, errorf, at_kind, expect, identifier, optional_semicolon, take_kind,
  identifier_sequence, identifier_list, columns, create_table, literals, insert, insert_values,
  select_table, select_list, where_clause, select, statement, parse,
}
use go_database.Sql.Parser.Steps.{
  IsSafe, bind-IsSafe, errorf-IsSafe, expect-IsSafe, identifier-IsSafe, optional_semicolon-IsSafe,
  take_kind-IsSafe, weaken-IsSafe,
}
use go_database.Sql.Parser.Loops.{
  identifier_sequence-IsSafe, literals-IsSafe, columns-IsSafe, predicates-IsSafe,
}

-- behind any step that leaves a stream no longer than `n`
step-IsSafe {ℓ κ} :
    {A : Type ℓ} {B : Type κ} (n : ℕ) (r : Parsed A) (k : A × List Token → Parsed B)
    → IsSafe (suc n) r
    → ((a : A) (us : List Token) → IsStream us → length us ≤ n → IsSafe (suc n) (k (a, us)))
    → IsSafe (suc n) (r >>= k)
step-IsSafe n r k h g = bind-IsSafe (suc n) (suc n) r k h (λ a us t l. g a us t (ground arith))

-- a step that shortens a stream no longer than `n`
within {ℓ} :
    {A : Type ℓ} (n : ℕ) (us : List Token) (r : Parsed A)
    → length us ≤ n
    → IsSafe (length us) r
    → IsSafe (suc n) r
within n us r l h = weaken-IsSafe (length us) (suc n) _ (ground arith) h

-- a step that keeps the length of a stream no longer than `n`, or shortens it
upto {ℓ} :
    {A : Type ℓ} (n : ℕ) (us : List Token) (r : Parsed A)
    → length us ≤ n
    → IsSafe (suc (length us)) r
    → IsSafe (suc n) r
upto n us r l h = weaken-IsSafe (suc (length us)) (suc n) _ (ground arith) h

-- behind a fixed token
token :
    {B : Type 0} (n : ℕ) (kind : TokenType) (ts : List Token) (k : Unit {0} × List Token → Parsed B)
    → is kind eof_token ≡ false
    → IsStream ts
    → length ts ≤ n
    → ((us : List Token) → IsStream us → length us ≤ n → IsSafe (suc n) (k (tt, us)))
    → IsSafe (suc n) (expect kind ts >>= k)
token n kind ts k e s le h =
    step-IsSafe n (expect kind ts) k (within n ts _ le (expect-IsSafe kind ts e s))
      (λ u us t l. h us t l)

create_table-IsSafe : (ts : List Token) → IsStream ts → IsSafe (suc (length ts)) (create_table ts)
unfolding create_table code
create_table-IsSafe ts s =
    let n = length ts in
    token n create_token ts _ refl s (ground arith) (λ us a l.
      token n table_token us _ refl a l (λ us a l.
        step-IsSafe n (identifier us) _ (within n us _ l (identifier-IsSafe us a)) (λ name us a l.
          token n l_paren us _ refl a l (λ us a l.
            step-IsSafe n (columns (length us) us) _
              (within n us _ l (columns-IsSafe (length us) us a (ground arith)))
              (λ cs us a l. token n r_paren us _ refl a l (λ us a l.
                step-IsSafe n (optional_semicolon us) _
                  (upto n us _ l (optional_semicolon-IsSafe us a))
                  (λ u us a l. (a, ground arith))))))))

identifier_list-IsSafe :
    (ts : List Token) → IsStream ts → IsSafe (suc (length ts)) (identifier_list (length ts) ts)
unfolding identifier_list code
identifier_list-IsSafe ts s =
    let n = length ts in
    token n l_paren ts _ refl s (ground arith) (λ us a l.
      step-IsSafe n (identifier_sequence n us) _
        (within n us _ l (identifier_sequence-IsSafe n us a l))
        (λ names us a l. token n r_paren us _ refl a l (λ us a l. (a, ground arith))))

-- the part of `insert` behind the column list
insert_values-IsSafe :
    (n : ℕ) (table : Bytes) (names : List Bytes) (ts : List Token)
    → IsStream ts
    → length ts ≤ n
    → IsSafe (suc n) (insert_values table names ts)
unfolding insert_values code
insert_values-IsSafe n table names ts s le = token n values_token ts _ refl s le (λ us a l.
    token n l_paren us _ refl a l (λ us a l.
      step-IsSafe n (literals (length us) us) _
        (within n us _ l (literals-IsSafe (length us) us a (ground arith)))
        (λ vs us a l. token n r_paren us _ refl a l (λ us a l.
          step-IsSafe n (optional_semicolon us) _ (upto n us _ l (optional_semicolon-IsSafe us a))
            (λ u us a l.
              if-both (IsSafe {A = Statement} (suc n)) (not (length names == length vs))
                (errorf-IsSafe _ (suc n) us count_mismatch a) (a, ground arith))))))

insert-IsSafe : (ts : List Token) → IsStream ts → IsSafe (suc (length ts)) (insert ts)
unfolding insert code
insert-IsSafe ts s =
    let n = length ts in
    token n insert_token ts _ refl s (ground arith) (λ us a l.
      token n into_token us _ refl a l (λ us a l.
        step-IsSafe n (identifier us) _ (within n us _ l (identifier-IsSafe us a)) (λ table us a l.
          step-IsSafe n (identifier_list (length us) us) _
            (upto n us _ l (identifier_list-IsSafe us a))
            (λ names us a l. insert_values-IsSafe n table names us a l))))

select_list-IsSafe :
    (all : Bool) (ts : List Token) → IsStream ts → IsSafe (suc (length ts)) (select_list all ts)
select_list-IsSafe true ts s = (s, ground arith)
select_list-IsSafe false ts s =
    within (length ts) ts _ (ground arith)
      (identifier_sequence-IsSafe (length ts) ts s (ground arith))

where_clause-IsSafe :
    (more : Bool) (ts : List Token) → IsStream ts → IsSafe (suc (length ts)) (where_clause more ts)
where_clause-IsSafe true ts s =
    within (length ts) ts _ (ground arith) (predicates-IsSafe (length ts) ts s (ground arith))
where_clause-IsSafe false ts s = (s, ground arith)

-- the part of `selectStatement` behind FROM
select_table-IsSafe :
    (n : ℕ) (all : Bool) (names : List Bytes) (ts : List Token)
    → IsStream ts
    → length ts ≤ n
    → IsSafe (suc n) (select_table all names ts)
unfolding select_table code
select_table-IsSafe n all names ts s le =
    step-IsSafe n (identifier ts) _ (within n ts _ le (identifier-IsSafe ts s)) (λ table us a l.
      step-IsSafe n (take_kind where_token us) _
        (upto n us _ l (take_kind-IsSafe where_token us refl a))
        (λ more us a l.
          step-IsSafe n (where_clause more us) _ (upto n us _ l (where_clause-IsSafe more us a))
            (λ ps us a l.
              step-IsSafe n (optional_semicolon us) _
                (upto n us _ l (optional_semicolon-IsSafe us a)) (λ u us a l. (a, ground arith)))))

select-IsSafe : (ts : List Token) → IsStream ts → IsSafe (suc (length ts)) (select ts)
unfolding select code
select-IsSafe ts s =
    let n = length ts in
    token n select_token ts _ refl s (ground arith) (λ us a l.
      step-IsSafe n (take_kind star us) _ (upto n us _ l (take_kind-IsSafe star us refl a))
        (λ all us a l.
          step-IsSafe n (select_list all us) _ (upto n us _ l (select_list-IsSafe all us a))
            (λ names us a l.
              token n from_token us _ refl a l (λ us a l. select_table-IsSafe n all names us a l))))

statement-IsSafe : (ts : List Token) → IsStream ts → IsSafe (suc (length ts)) (statement ts)
unfolding statement
statement-IsSafe [] s = absurd s
statement-IsSafe (t ∷ ts) s =
    let S = IsSafe {A = Statement} (suc (length (t ∷ ts))) in
    if-both S (at_kind create_token t) (create_table-IsSafe (t ∷ ts) s) (
      if-both S (at_kind insert_token t) (insert-IsSafe (t ∷ ts) s) (
        if-both S (at_kind select_token t) (select-IsSafe (t ∷ ts) s)
          (errorf-IsSafe _ _ (t ∷ ts) expected_statement s)))

parsed-ne-panic :
    (r : Parsed Statement) (n : ℕ)
    → IsSafe n r
    → (do (s, ts) ← r; (_, ts) ← expect eof_token ts; ok s) ≢ panic
unfolding expect errorf
parsed-ne-panic (ok (st, [])) n h = absurd h.0
parsed-ne-panic (ok (st, t ∷ ts)) n h = elim (Bool-cases (at_kind eof_token t)) [
  | inl y ↦ λ p. ground arith
  | inr y ↦ λ p. ground arith
]
parsed-ne-panic (err e) n h = λ p. cc
parsed-ne-panic panic n h = absurd h

tokens-ne-panic :
    (r : Result SqlError (List Token))
    → IsLexed r
    → (do tokens ← r; (s, ts) ← statement tokens; (_, ts) ← expect eof_token ts; ok s) ≢ panic
tokens-ne-panic (ok ts) h = parsed-ne-panic (statement ts) _ (statement-IsSafe ts h)
tokens-ne-panic (err e) h = λ p. cc
tokens-ne-panic panic h = absurd h

-- `Parse` returns a statement or an error on every input: it never panics, so no token is read
-- past the last, and every loop ends within the fuel that it is given.
pub parse-ne-panic : (input : Bytes) → parse input ≢ panic
unfolding parse
parse-ne-panic input = tokens-ne-panic (lex input) (lex-IsLexed input)
