-- ===== src/Sql/Executor.antt =====
-- The parts of internal/sql/executor.go that compare, convert and select values.
pub mod Compare
pub mod Literals
use go_database.Base.{
  ℕ, Bool, true, false, not, ◌&&◌, ◌||◌, Option, none, some, List, [], ◌∷◌, ◌==◌, if◌then◌else◌,
  Bytes, beq, blt, ℤ, pos, negsuc, eqb_ℤ, ltb_ℤ,
}
use go_database.Base.Assoc.{put}
use go_database.Base.Result.{Result, ok, err, panic}
use go_database.Db.Row.{Row, value_at}
use go_database.Db.Schema.{
  TableSchema, find_column, column_int64, column_string, column_bytes, column_bool,
}
use go_database.Db.Value.{
  Value, null, int64, string, bytes, bool, other, as_int64, as_string, as_bool,
}
use go_database.Sql.Parser.{Literal, Predicate}
use go_database.Sql.Token.{
  TokenType, is, null_token, integer_token, string_token, true_token, false_token, int64_type,
  string_type, bytes_type, bool_type, equal, not_equal, less, less_equal, greater, greater_equal,
}

-- what the errors of the executor say
pub data ExecError : Type 0 where
  null_literal mismatched_literal unsupported_literal incompatible_literal : ExecError
  unsupported_type : ExecError

-- `order`: -1, 0 or 1
abbrev pub order_of : Bool → Bool → ℤ
order_of lt eq = if lt then negsuc 0 else if eq then pos 0 else pos 1

-- the first `switch` of `compare`; none where it returns false
unfoldable pub order : Value → Value → Option ℤ
order (int64 x) (int64 y) = some (order_of (ltb_ℤ x y) (not (ltb_ℤ y x)))
order (string x) (string y) = some (order_of (blt x y) (beq x y))
order (bytes x) (bytes y) = some (order_of (blt x y) (beq x y))
order (bool x) (bool y) =
    some (if x then (if y then pos 0 else pos 1) else if y then negsuc 0 else pos 0)
order left right = none

-- the `switch` on the operator
unfoldable pub decide : TokenType → ℤ → Bool
decide operator n =
    if is operator equal
    then eqb_ℤ n (pos 0)
    else if is operator not_equal
    then not (eqb_ℤ n (pos 0))
    else if is operator less
    then ltb_ℤ n (pos 0)
    else if is operator less_equal
    then not (ltb_ℤ (pos 0) n)
    else if is operator greater
    then ltb_ℤ (pos 0) n
    else if is operator greater_equal
    then not (ltb_ℤ n (pos 0))
    else false

unfoldable pub compare : Value → Value → TokenType → Bool
compare left right operator = elim (order left right) [ none ↦ false | some n ↦ decide operator n ]

abbrev is_some_bool : Option Bool → Bool → Bool
is_some_bool none b = false
is_some_bool (some true) b = b
is_some_bool (some false) b = not b

-- the `switch` of `literalValue` on the kind of the literal, which checks the value's own type
unfoldable pub bad_literal : Literal → Option ExecError
bad_literal l =
    if is l.kind null_token
    then some null_literal
    else if is l.kind integer_token
    then (elim (as_int64 l.value) [ none ↦ some mismatched_literal | some x ↦ none ])
    else if is l.kind string_token
    then (elim (as_string l.value) [ none ↦ some mismatched_literal | some x ↦ none ])
    else if is l.kind true_token || is l.kind false_token
    then if is_some_bool (as_bool l.value) (is l.kind true_token)
      then none
      else some mismatched_literal
    else some unsupported_literal

-- `[]byte(literal.Value.(string))`, which panics on a value of another type
abbrev pub to_bytes : Option Bytes → Result ExecError Value
to_bytes none = panic
to_bytes (some x) = ok (bytes x)

-- the `switch` on the type of the column
unfoldable pub convert : Literal → ℕ → Result ExecError Value
convert l column_type =
    if column_type == column_int64 && is l.kind integer_token
    then ok l.value
    else if column_type == column_string && is l.kind string_token
    then ok l.value
    else if column_type == column_bytes && is l.kind string_token
    then to_bytes (as_string l.value)
    else if column_type == column_bool && (is l.kind true_token || is l.kind false_token)
    then ok l.value
    else err incompatible_literal

unfoldable pub literal_value : Literal → ℕ → Result ExecError Value
literal_value l column_type = elim (bad_literal l) [ some e ↦ err e | none ↦ convert l column_type ]

-- whether a value satisfies a predicate, whose literal is converted for the column
abbrev pub satisfies : Value → TokenType → Result ExecError Value → Result ExecError Bool
satisfies left op (ok right) = ok (compare left right op)
satisfies left op (err e) = ok false
satisfies left op panic = panic

-- the loop of `matches`, on the test of one predicate and on the others
abbrev pub and_then : Result ExecError Bool → Result ExecError Bool → Result ExecError Bool
and_then (ok true) others = others
and_then (ok false) others = ok false
and_then (err e) others = err e
and_then panic others = panic

unfoldable pub matches : Row → List Predicate → TableSchema → Result ExecError Bool
matches row [] schema = ok true
matches row (p ∷ ps) schema =
    let others = matches row ps schema in
    elim (find_column schema p.column) [
      | none ↦ ok false
      | some c ↦
          and_then (satisfies (value_at row p.column) p.op (literal_value p.value c.type)) others
    ]

-- `project`; the pairs are put in the order of the columns
unfoldable pub project : Row → List Bytes → Row → Row
project row [] projected = projected
project row (c ∷ cs) projected = project row cs (put c (value_at row c) projected)

-- `databaseColumnType`
unfoldable pub database_column_type : TokenType → Result ExecError ℕ
database_column_type kind =
    if is kind int64_type
    then ok column_int64
    else if is kind string_type
    then ok column_string
    else if is kind bytes_type
    then ok column_bytes
    else if is kind bool_type
    then ok column_bool
    else err unsupported_type
