-- ===== src/Sql/Parser.antt =====
-- internal/sql/parser.go. The parser's state, `tokens` and `pos`, is the list of the tokens from
-- `pos` on; reading past the last token panics, as `p.tokens[p.pos]` does.
pub mod Steps
pub mod Loops
pub mod Shape
pub mod Total
use go_database.Base.{
  ℕ, zero, suc, Bool, true, false, not, ◌&&◌, ◌||◌, Option, none, some, List, [], ◌∷◌, ◌++◌, ◌==◌,
  if◌then◌else◌, length, Bytes, ℤ,
}
use go_database.Base.Result.{Result, ok, err, panic, ◌>>=◌}
use go_database.Db.Value.{Value, null, int64, string, bool}
use go_database.Sql.Lexer.{lex, parse_int}
use go_database.Sql.Token.{
  TokenType, illegal_token, eof_token, identifier_token, string_token, integer_token, true_token,
  false_token, create_token, table_token, primary_token, key_token, not_token, null_token,
  insert_token, into_token, values_token, select_token, from_token, where_token, and_token,
  int64_type, string_type, bytes_type, bool_type, l_paren, r_paren, comma, semicolon, star, equal,
  not_equal, less, less_equal, greater, greater_equal, code, is, Token, Complaint,
  expected_statement, duplicate_primary_key, duplicate_not_null, count_mismatch,
  expected_column_type, expected_comparison, expected_literal, expected_identifier, expected,
  invalid_integer, SqlError, invalid_character, unterminated_string, invalid_int64, parse_error,
}

pub record ColumnDefinition : Type 0 where
  pub name : Bytes
  pub column_type : TokenType
  pub primary_key : Bool
  pub not_null : Bool

-- `Literal`
pub record Literal : Type 0 where
  pub kind : TokenType
  pub value : Value

pub record Predicate : Type 0 where
  pub column : Bytes
  pub op : TokenType
  pub value : Literal

pub data Statement : Type 0 where
  create_table_statement : Bytes → List ColumnDefinition → Statement
  insert_statement : Bytes → List Bytes → List Literal → Statement
  select_statement : Bytes → List Bytes → Bool → List Predicate → Statement

-- a method of the parser: it reads tokens, and returns a result and the tokens left
abbrev pub Parsed {ℓ} : Type ℓ → Type ℓ
Parsed A = Result SqlError (A × List Token)

-- `p.current()`
unfoldable pub current : List Token → Result SqlError Token
current [] = panic
current (t ∷ ts) = ok t

-- `p.advance()`
unfoldable pub advance : List Token → List Token
advance [] = []
advance (t ∷ ts) = ts

-- `p.errorf(…)`, at the current token
unfoldable pub errorf : {A : Type 0} → List Token → Complaint → Parsed A
errorf [] what = panic
errorf (t ∷ ts) what = err (parse_error t.offset what)

-- `p.current().Type == kind`
abbrev pub at_kind : TokenType → Token → Bool
at_kind kind t = is t.kind kind

unfoldable pub expect : TokenType → List Token → Parsed (Unit {0})
expect kind [] = panic
expect kind (t ∷ ts) =
    if at_kind kind t then ok (tt, ts) else errorf (t ∷ ts) (expected kind t.kind)

unfoldable pub identifier : List Token → Parsed Bytes
identifier [] = panic
identifier (t ∷ ts) =
    if at_kind identifier_token t
    then ok (t.text, ts)
    else errorf (t ∷ ts) (expected_identifier t.kind)

unfoldable pub optional_semicolon : List Token → Parsed (Unit {0})
optional_semicolon [] = panic
optional_semicolon (t ∷ ts) = ok (tt, (if at_kind semicolon t then ts else t ∷ ts))

-- whether the current token is of a kind, which is then passed over
unfoldable pub take_kind : TokenType → List Token → Parsed Bool
take_kind kind [] = panic
take_kind kind (t ∷ ts) = if at_kind kind t then ok (true, ts) else ok (false, t ∷ ts)

abbrev pub integer_or : Token → List Token → Option ℤ → Parsed Literal
integer_or t ts none = errorf (t ∷ ts) (invalid_integer t.text)
integer_or t ts (some n) = ok (record { kind = integer_token; value = int64 n }, ts)

unfoldable pub literal : List Token → Parsed Literal
literal [] = panic
literal (t ∷ ts) =
    if at_kind string_token t
    then ok (record { kind = string_token; value = string t.text }, ts)
    else if at_kind integer_token t
    then integer_or t ts (parse_int t.text)
    else if at_kind true_token t || at_kind false_token t
    then ok (record { kind = t.kind; value = bool (at_kind true_token t) }, ts)
    else if at_kind null_token t
    then ok (record { kind = null_token; value = null }, ts)
    else errorf (t ∷ ts) (expected_literal t.kind)

abbrev pub is_comparison : TokenType → Bool
is_comparison kind =
    is kind equal
    || is kind not_equal
    || is kind less
    || is kind less_equal
    || is kind greater
    || is kind greater_equal

abbrev pub is_column_type : TokenType → Bool
is_column_type kind =
    is kind int64_type || is kind string_type || is kind bytes_type || is kind bool_type

-- the end of a loop's round: one item, and the others if a separator follows
abbrev pub more_of : {A : Type 0} → Bool → A → List Token → Parsed (List A) → Parsed (List A)
more_of false a ts rest = ok (a ∷ [], ts)
more_of true a ts rest = do (others, ts) ← rest; ok (a ∷ others, ts)

-- `identifierSequence`; like the other loops it panics without fuel
unfoldable pub identifier_sequence : ℕ → List Token → Parsed (List Bytes)
identifier_sequence zero ts = panic
identifier_sequence (suc fuel) ts = do
  (name, ts) ← identifier ts
  (more, ts) ← take_kind comma ts
  more_of more name ts (identifier_sequence fuel ts)

unfoldable pub identifier_list : ℕ → List Token → Parsed (List Bytes)
identifier_list fuel ts = do
  (_, ts) ← expect l_paren ts
  (names, ts) ← identifier_sequence fuel ts
  (_, ts) ← expect r_paren ts
  ok (names, ts)

-- the loop over the constraints of a column, on whether it has had each of them
unfoldable pub constraints : ℕ → Bool → Bool → List Token → Parsed (Bool × Bool)
constraints zero primary not_null ts = panic
constraints (suc fuel) primary not_null [] = panic
constraints (suc fuel) primary not_null (t ∷ ts) =
    if at_kind primary_token t
    then if primary
      then errorf (t ∷ ts) duplicate_primary_key
      else (do (_, ts) ← expect key_token ts; constraints fuel true not_null ts)
    else if at_kind not_token t
    then if not_null
      then errorf (t ∷ ts) duplicate_not_null
      else (do (_, ts) ← expect null_token ts; constraints fuel primary true ts)
    else ok ((primary, not_null), t ∷ ts)

-- the type of a column
unfoldable pub column_type : List Token → Parsed TokenType
column_type [] = panic
column_type (t ∷ ts) =
    if is_column_type t.kind then ok (t.kind, ts) else errorf (t ∷ ts) (expected_column_type t.kind)

-- one column of `createTable`
unfoldable pub column : List Token → Parsed ColumnDefinition
column ts = do
  (name, ts) ← identifier ts
  (kind, ts) ← column_type ts
  (flags, ts) ← constraints (suc (length ts)) false false ts
  ok (
    record {
      name = name;
      column_type = kind;
      primary_key = flags.0;
      not_null = flags.0 || flags.1;
    },
    ts,
  )

unfoldable pub columns : ℕ → List Token → Parsed (List ColumnDefinition)
columns zero ts = panic
columns (suc fuel) ts = do
  (c, ts) ← column ts
  (more, ts) ← take_kind comma ts
  more_of more c ts (columns fuel ts)

unfoldable pub create_table : List Token → Parsed Statement
create_table ts = do
  (_, ts) ← expect create_token ts
  (_, ts) ← expect table_token ts
  (name, ts) ← identifier ts
  (_, ts) ← expect l_paren ts
  (cs, ts) ← columns (length ts) ts
  (_, ts) ← expect r_paren ts
  (_, ts) ← optional_semicolon ts
  ok (create_table_statement name cs, ts)

-- the loop over the values of `insert`
unfoldable pub literals : ℕ → List Token → Parsed (List Literal)
literals zero ts = panic
literals (suc fuel) ts = do
  (v, ts) ← literal ts
  (more, ts) ← take_kind comma ts
  more_of more v ts (literals fuel ts)

-- `insert` behind the column list
unfoldable pub insert_values : Bytes → List Bytes → List Token → Parsed Statement
insert_values table names ts = do
  (_, ts) ← expect values_token ts
  (_, ts) ← expect l_paren ts
  (vs, ts) ← literals (length ts) ts
  (_, ts) ← expect r_paren ts
  (_, ts) ← optional_semicolon ts
  if not (length names == length vs)
      then errorf ts count_mismatch
      else ok (insert_statement table names vs, ts)

unfoldable pub insert : List Token → Parsed Statement
insert ts = do
  (_, ts) ← expect insert_token ts
  (_, ts) ← expect into_token ts
  (table, ts) ← identifier ts
  (names, ts) ← identifier_list (length ts) ts
  insert_values table names ts

unfoldable pub comparison : List Token → Parsed TokenType
comparison [] = panic
comparison (t ∷ ts) =
    if is_comparison t.kind then ok (t.kind, ts) else errorf (t ∷ ts) (expected_comparison t.kind)

-- the loop over the predicates of `selectStatement`
unfoldable pub predicates : ℕ → List Token → Parsed (List Predicate)
predicates zero ts = panic
predicates (suc fuel) ts = do
  (name, ts) ← identifier ts
  (op, ts) ← comparison ts
  (value, ts) ← literal ts
  (more, ts) ← take_kind and_token ts
  more_of more (record { column = name; op = op; value = value }) ts (predicates fuel ts)

abbrev pub select_list : Bool → List Token → Parsed (List Bytes)
select_list true ts = ok ([], ts)
select_list false ts = identifier_sequence (length ts) ts

abbrev pub where_clause : Bool → List Token → Parsed (List Predicate)
where_clause true ts = predicates (length ts) ts
where_clause false ts = ok ([], ts)

-- `selectStatement` behind FROM
unfoldable pub select_table : Bool → List Bytes → List Token → Parsed Statement
select_table all names ts = do
  (table, ts) ← identifier ts
  (more, ts) ← take_kind where_token ts
  (ps, ts) ← where_clause more ts
  (_, ts) ← optional_semicolon ts
  ok (select_statement table names all ps, ts)

-- `selectStatement`
unfoldable pub select : List Token → Parsed Statement
select ts = do
  (_, ts) ← expect select_token ts
  (all, ts) ← take_kind star ts
  (names, ts) ← select_list all ts
  (_, ts) ← expect from_token ts
  select_table all names ts

-- `statement`
unfoldable pub statement : List Token → Parsed Statement
statement [] = panic
statement (t ∷ ts) =
    if at_kind create_token t
    then create_table (t ∷ ts)
    else if at_kind insert_token t
    then insert (t ∷ ts)
    else if at_kind select_token t
    then select (t ∷ ts)
    else errorf (t ∷ ts) expected_statement

-- `Parse`
unfoldable pub parse : Bytes → Result SqlError Statement
parse input = do tokens ← lex input; (s, ts) ← statement tokens; (_, ts) ← expect eof_token ts; ok s
