-- ===== src/Sql/Parser/Shape.antt =====
-- What every parsed statement satisfies.
use go_database.Base.{
  ◌≡◌, Bool, true, false, not, ℕ, zero, suc, List, [], ◌∷◌, ◌==◌, length, Bytes, arith, if-both,
  if-each, subst,
}
use go_database.Base.Result.{ok, err, panic, ◌>>=◌, bind-eq-ok, ok-injective}
use go_database.Sql.Lexer.{lex}
use go_database.Sql.Parser.{
  Parsed, ColumnDefinition, Predicate, Statement, create_table_statement, insert_statement,
  select_statement, is_comparison, is_column_type, at_kind, errorf, expect, identifier, take_kind,
  literal, optional_semicolon, more_of, column_type, constraints, column, columns, create_table,
  identifier_list, literals, insert_values, insert, comparison, predicates, select_list,
  where_clause, select_table, select, statement, parse,
}
use go_database.Sql.Token.{
  Token, Complaint, eof_token, comma, and_token, create_token, table_token, insert_token,
  into_token, select_token, from_token, values_token, l_paren, r_paren, star, where_token,
  count_mismatch, expected_statement, expected_comparison, expected_column_type,
}

-- a column has a type, and a primary key is not null
abbrev pub IsColumn : ColumnDefinition → Type 0
IsColumn c = (is_column_type c.column_type ≡ true) × (c.primary_key ≡ true → c.not_null ≡ true)

abbrev pub AreColumns : List ColumnDefinition → Type 0
AreColumns [] = Unit
AreColumns (c ∷ cs) = IsColumn c × AreColumns cs

abbrev pub AreComparisons : List Predicate → Type 0
AreComparisons [] = Unit
AreComparisons (p ∷ ps) = (is_comparison p.op ≡ true) × AreComparisons ps

abbrev pub IsStatement : Statement → Type 0
IsStatement (create_table_statement name cs) = AreColumns cs
IsStatement (insert_statement table names vs) = length names ≡ length vs
IsStatement (select_statement table names all ps) = AreComparisons ps

-- what holds of a parsed value, if there is one
abbrev Post {ℓ} : {A : Type ℓ} → (A → Type 0) → Parsed A → Type 0
Post P (ok (a, ts)) = P a
Post P (err e) = Unit
Post P panic = Unit

skip {ℓ κ} :
    {A : Type ℓ} {B : Type κ} (P : B → Type 0) (r : Parsed A) (k : A × List Token → Parsed B)
    → ((a : A) (ts : List Token) → Post P (k (a, ts)))
    → Post P (r >>= k)
skip P (ok (a, ts)) k h = h a ts
skip P (err e) k h = tt
skip P panic k h = tt

bring {ℓ κ} :
    {A : Type ℓ} {B : Type κ} (Q : A → Type 0) (P : B → Type 0) (r : Parsed A)
    (k : A × List Token → Parsed B)
    → Post Q r
    → ((a : A) (ts : List Token) → Q a → Post P (k (a, ts)))
    → Post P (r >>= k)
bring Q P (ok (a, ts)) k q h = h a ts q
bring Q P (err e) k q h = tt
bring Q P panic k q h = tt

errorf-Post : (A : Type 0) (P : A → Type 0) (ts : List Token) (c : Complaint) → Post P (errorf ts c)
unfolding errorf
errorf-Post A P [] c = tt
errorf-Post A P (t ∷ ts) c = tt

-- the end of a loop's round
more_of-Post :
    (A : Type 0) (P : A → Type 0) (Ps : List A → Type 0) (more : Bool) (a : A) (ts : List Token)
    (rest : Parsed (List A))
    → Ps (a ∷ [])
    → ((others : List A) → Ps others → Ps (a ∷ others))
    → Post Ps rest
    → Post Ps (more_of more a ts rest)
more_of-Post A P Ps false a ts rest one cons h = one
more_of-Post A P Ps true a ts rest one cons h = bring Ps Ps rest _ h (λ others us q. cons others q)

column_type-Post : (ts : List Token) → Post (λ kind. is_column_type kind ≡ true) (column_type ts)
unfolding column_type errorf
column_type-Post [] = tt
column_type-Post (t ∷ ts) =
    if-each (Post (λ kind. is_column_type kind ≡ true)) (is_column_type t.kind)
      {x = ok (t.kind, ts)} {y = errorf (t ∷ ts) (expected_column_type t.kind)} (λ e. e) (λ e. tt)

comparison-Post : (ts : List Token) → Post (λ kind. is_comparison kind ≡ true) (comparison ts)
unfolding comparison errorf
comparison-Post [] = tt
comparison-Post (t ∷ ts) =
    if-each (Post (λ kind. is_comparison kind ≡ true)) (is_comparison t.kind) {x = ok (t.kind, ts)}
      {y = errorf (t ∷ ts) (expected_comparison t.kind)} (λ e. e) (λ e. tt)

column-Post : (ts : List Token) → Post IsColumn (column ts)
unfolding column
column-Post ts = skip IsColumn (identifier ts) _ (λ name us.
    bring (λ kind. is_column_type kind ≡ true) IsColumn (column_type us) _ (column_type-Post us)
      (λ kind vs e.
        skip IsColumn (constraints (suc (length vs)) false false vs) _
          (λ flags ws. (e, λ (p : flags.0 ≡ true). ground arith))))

columns-Post : (fuel : ℕ) (ts : List Token) → Post AreColumns (columns fuel ts)
unfolding columns
columns-Post zero ts = tt
columns-Post (suc fuel) ts = bring IsColumn AreColumns (column ts) _ (column-Post ts) (λ c us q.
    skip AreColumns (take_kind comma us) _ (λ more vs.
      more_of-Post ColumnDefinition IsColumn AreColumns more c vs (columns fuel vs) (q, tt)
        (λ cs r. (q, r)) (columns-Post fuel vs)))

predicates-Post : (fuel : ℕ) (ts : List Token) → Post AreComparisons (predicates fuel ts)
unfolding predicates
predicates-Post zero ts = tt
predicates-Post (suc fuel) ts = skip AreComparisons (identifier ts) _ (λ name us.
    bring (λ kind. is_comparison kind ≡ true) AreComparisons (comparison us) _ (comparison-Post us)
      (λ op vs e. skip AreComparisons (literal vs) _ (λ v ws.
        skip AreComparisons (take_kind and_token ws) _ (λ more xs.
          more_of-Post Predicate (λ p. is_comparison p.op ≡ true) AreComparisons more _ xs
            (predicates fuel xs) (e, tt) (λ ps r. (e, r)) (predicates-Post fuel xs)))))

where_clause-Post : (more : Bool) (ts : List Token) → Post AreComparisons (where_clause more ts)
where_clause-Post true ts = predicates-Post (length ts) ts
where_clause-Post false ts = tt

create_table-Post : (ts : List Token) → Post IsStatement (create_table ts)
unfolding create_table
create_table-Post ts =
    let P = IsStatement in
    skip P (expect create_token ts) _ (λ _ ts. skip P (expect table_token ts) _ (λ _ ts.
      skip P (identifier ts) _ (λ name ts. skip P (expect l_paren ts) _ (λ _ ts.
        bring AreColumns P (columns (length ts) ts) _ (columns-Post (length ts) ts) (λ cs ts q.
          skip P (expect r_paren ts) _ (λ _ ts. skip P (optional_semicolon ts) _ (λ _ ts. q)))))))

insert-Post : (ts : List Token) → Post IsStatement (insert ts)
unfolding insert insert_values
insert-Post ts =
    let P = IsStatement in
    skip P (expect insert_token ts) _ (λ _ ts. skip P (expect into_token ts) _ (λ _ ts.
      skip P (identifier ts) _ (λ table ts. skip P (identifier_list (length ts) ts) _ (λ names ts.
        skip P (expect values_token ts) _ (λ _ ts. skip P (expect l_paren ts) _ (λ _ ts.
          skip P (literals (length ts) ts) _ (λ vs ts. skip P (expect r_paren ts) _ (λ _ ts.
            skip P (optional_semicolon ts) _ (λ _ ts.
              if-each (Post P) (not (length names == length vs)) {x = errorf ts count_mismatch}
                {y = ok (insert_statement table names vs, ts)}
                (λ e. errorf-Post Statement P ts count_mismatch) (λ e. ground arith))))))))))

select-Post : (ts : List Token) → Post IsStatement (select ts)
unfolding select select_table
select-Post ts =
    let P = IsStatement in
    skip P (expect select_token ts) _ (λ _ ts. skip P (take_kind star ts) _ (λ all ts.
      skip P (select_list all ts) _ (λ names ts. skip P (expect from_token ts) _ (λ _ ts.
        skip P (identifier ts) _ (λ table ts. skip P (take_kind where_token ts) _ (λ more ts.
          bring AreComparisons P (where_clause more ts) _ (where_clause-Post more ts)
            (λ ps ts q. skip P (optional_semicolon ts) _ (λ _ ts. q))))))))

statement-Post : (ts : List Token) → Post IsStatement (statement ts)
unfolding statement
statement-Post [] = tt
statement-Post (t ∷ ts) =
    let P = Post IsStatement in
    if-both P (at_kind create_token t) (create_table-Post (t ∷ ts)) (
      if-both P (at_kind insert_token t) (insert-Post (t ∷ ts)) (
        if-both P (at_kind select_token t) (select-Post (t ∷ ts))
          (errorf-Post Statement IsStatement (t ∷ ts) expected_statement)))

parsed-IsStatement :
    (r : Parsed Statement) (s : Statement)
    → Post IsStatement r
    → (do (st, ts) ← r; (_, ts) ← expect eof_token ts; ok st) ≡ ok s
    → IsStatement s
parsed-IsStatement (ok (st, ts)) s q h =
    let (u, e, o) = bind-eq-ok (expect eof_token ts) _ h in subst IsStatement (ok-injective o) q
parsed-IsStatement (err e) s q h = cc
parsed-IsStatement panic s q h = cc

-- Every statement that `Parse` returns is well formed: a column that is created has one of the four
-- types, and is not null where it is the primary key; an insert has as many values as columns; and
-- every predicate of a select has a comparison operator.
pub parse-IsStatement : (input : Bytes) (s : Statement) → parse input ≡ ok s → IsStatement s
unfolding parse
parse-IsStatement input s h =
    let (ts, e, k) = bind-eq-ok (lex input) _ h in
    parsed-IsStatement (statement ts) s (statement-Post ts) k
