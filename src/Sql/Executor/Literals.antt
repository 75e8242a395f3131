-- ===== src/Sql/Executor/Literals.antt =====
-- What `literalValue` returns for a column, the column can store.
use go_database.Base.{
  ℕ, ◌≡◌, ◌≢◌, refl, List, [], ◌∷◌, Bool, true, false, Option, none, some, arith,
}
use go_database.Base.Result.{Result, ok, err, panic}
use go_database.Db.Schema.{Column, TableSchema, find_column}
use go_database.Db.Row.{Row, value_at}
use go_database.Db.Value.{
  Value, null, int64, string, bytes, bool, other, encode_value, encode_typed,
}
use go_database.Sql.Executor.{
  ExecError, bad_literal, convert, literal_value, matches, satisfies, and_then,
}
use go_database.Sql.Parser.{Literal, Predicate}
use go_database.Sql.Token.{TokenType, code}

abbrev pub is_ok {ℓ κ} : {E : Type ℓ} {A : Type κ} → Result E A → Bool
is_ok (ok a) = true
is_ok (err e) = false
is_ok panic = false

encodes :
    (kind : TokenType) (value v : Value) (c : Column)
    → literal_value (record { kind = kind; value = value }) c.type ≡ ok v
    → is_ok (encode_value c v) ≡ true
unfolding literal_value bad_literal convert encode_value encode_typed code
encodes kind null v c h = ground arith
encodes kind (int64 x) v c h = ground arith
encodes kind (string x) v c h = ground arith
encodes kind (bytes x) v c h = ground arith
encodes kind (bool x) v c h = ground arith
encodes kind other v c h = ground arith

-- A literal that `literalValue` converts for the type of a column is a value that `encodeValue`
-- encodes for that column.
pub literal_value-encode :
    (l : Literal) (c : Column) (v : Value)
    → literal_value l c.type ≡ ok v
    → is_ok (encode_value c v) ≡ true
literal_value-encode l c v h = encodes l.kind l.value v c h

converts :
    (kind : TokenType) (value : Value) (t : ℕ)
    → literal_value (record { kind = kind; value = value }) t ≢ panic
unfolding literal_value bad_literal convert code
converts kind null t = λ p. ground arith
converts kind (int64 x) t = λ p. ground arith
converts kind (string x) t = λ p. ground arith
converts kind (bytes x) t = λ p. ground arith
converts kind (bool x) t = λ p. ground arith
converts kind other t = λ p. ground arith

satisfies-ne-panic :
    (left : Value) (op : TokenType) (r : Result ExecError Value)
    → r ≢ panic
    → satisfies left op r ≢ panic
satisfies-ne-panic left op (ok right) h = λ p. cc
satisfies-ne-panic left op (err e) h = λ p. cc
satisfies-ne-panic left op panic h = λ p. h refl

and_then-ne-panic :
    (r others : Result ExecError Bool) → r ≢ panic → others ≢ panic → and_then r others ≢ panic
and_then-ne-panic (ok true) others h k = k
and_then-ne-panic (ok false) others h k = λ p. cc
and_then-ne-panic (err e) others h k = λ p. cc
and_then-ne-panic panic others h k = h

-- `matches` answers for every row, predicates and schema: the type assertion of `literalValue` on a
-- literal never panics, as a check of the literal stands before it.
pub matches-ne-panic :
    (row : Row) (ps : List Predicate) (schema : TableSchema) → matches row ps schema ≢ panic
unfolding matches
matches-ne-panic row [] schema = λ p. cc
matches-ne-panic row (p ∷ ps) schema =
    let rest = matches-ne-panic row ps schema in
    at (find_column schema p.column) (λ (c : Column).
      and_then-ne-panic (satisfies (value_at row p.column) p.op (literal_value p.value c.type))
        (matches row ps schema)
        (satisfies-ne-panic _ p.op (literal_value p.value c.type)
          (converts p.value.kind p.value.value c.type))
        rest)
  where
    at :
        (o : Option Column)
        → ((c : Column)
            → and_then
                (satisfies (value_at row p.column) p.op (literal_value p.value c.type))
                (matches row ps schema)
              ≢ panic)
        → (elim o [
          | none ↦ ok false
          | some c ↦
              and_then
                (satisfies (value_at row p.column) p.op (literal_value p.value c.type))
                (matches row ps schema)
        ])
          ≢ panic
    at none h = λ q. cc
    at (some c) h = h c
