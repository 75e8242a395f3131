-- ===== src/Sql/Lexer.antt =====
-- internal/sql/lexer.go. The lexer's state, `input` and `pos`, is a cursor: `pos` and the bytes of
-- the input from `pos` on.
pub mod Stream
pub mod Quote
use go_database.Base.{
  ℕ, zero, suc, ◌+◌, ◌-◌, ◌*◌, ◌^◌, Bool, true, false, not, ◌&&◌, ◌||◌, Option, none, some, List,
  [], ◌∷◌, ◌++◌, map, ltb, leb, ◌==◌, if◌then◌else◌, length, Bytes, codes, ℤ,
}
use go_database.Base
use go_database.Base.Assoc
use go_database.Base.Result.{Result, ok, err, panic, ◌>>=◌}
use go_database.Sql.Token.{
  TokenType, illegal_token, eof_token, identifier_token, string_token, integer_token, true_token,
  false_token, create_token, table_token, primary_token, key_token, not_token, null_token,
  insert_token, into_token, values_token, select_token, from_token, where_token, and_token,
  int64_type, string_type, bytes_type, bool_type, l_paren, r_paren, comma, semicolon, star, equal,
  not_equal, less, less_equal, greater, greater_equal, code, is, Token, Complaint,
  expected_statement, duplicate_primary_key, duplicate_not_null, count_mismatch,
  expected_column_type, expected_comparison, expected_literal, expected_identifier, expected,
  invalid_integer, SqlError, invalid_character, unterminated_string, invalid_int64, parse_error,
}

pub record Cursor : Type 0 where
  pub pos : ℕ
  pub rest : Bytes

-- a byte before what a scan has found
abbrev pub prepend : ℕ → Option (Bytes × Cursor) → Option (Bytes × Cursor)
prepend c none = none
prepend c (some (v, l)) = some (c ∷ v, l)

abbrev pub quote : ℕ
quote = 39

unfoldable pub is_digit : ℕ → Bool
is_digit ch = leb 48 ch && leb ch 57

unfoldable pub is_identifier_start : ℕ → Bool
is_identifier_start ch = ch == 95 || leb 97 ch && leb ch 122 || leb 65 ch && leb ch 90

unfoldable pub is_identifier_part : ℕ → Bool
is_identifier_part ch = is_identifier_start ch || is_digit ch

-- `unicode.IsSpace` below U+0100
unfoldable pub is_space : ℕ → Bool
is_space r = leb 9 r && leb r 13 || r == 32 || r == 133 || r == 160

-- `strings.ToUpper` on ASCII text
unfoldable pub to_upper : Bytes → Bytes
to_upper = map (λ c. if leb 97 c && leb c 122 then c - 32 else c)

unfoldable pub digits_value : ℕ → Bytes → Option ℕ
digits_value n [] = some n
digits_value n (c ∷ cs) =
    let rest = digits_value (n * 10 + (c - 48)) cs in if is_digit c then rest else none

abbrev pub in_range : Bool → Option ℕ → Option ℤ
in_range negative none = none
in_range true (some zero) = some (Base.pos 0)
in_range true (some (suc n)) = if ltb n (2 ^ 63) then some (Base.negsuc n) else none
in_range false (some n) = if ltb n (2 ^ 63) then some (Base.pos n) else none

abbrev pub parse_digits : Bool → Bytes → Option ℤ
parse_digits negative [] = none
parse_digits negative (c ∷ cs) = in_range negative (digits_value 0 (c ∷ cs))

-- `strconv.ParseInt(text, 10, 64)`
unfoldable pub parse_int : Bytes → Option ℤ
parse_int [] = none
parse_int (c ∷ cs) =
    if c == 43
    then parse_digits false cs
    else if c == 45
    then parse_digits true cs
    else parse_digits false (c ∷ cs)

abbrev pub keywords : List (Bytes × TokenType)
keywords =
    (codes "CREATE", create_token)
    ∷ (codes "TABLE", table_token)
    ∷ (codes "PRIMARY", primary_token)
    ∷ (codes "KEY", key_token)
    ∷ (codes "NOT", not_token)
    ∷ (codes "NULL", null_token)
    ∷ (codes "INSERT", insert_token)
    ∷ (codes "INTO", into_token)
    ∷ (codes "VALUES", values_token)
    ∷ (codes "SELECT", select_token)
    ∷ (codes "FROM", from_token)
    ∷ (codes "WHERE", where_token)
    ∷ (codes "AND", and_token)
    ∷ (codes "INT64", int64_type)
    ∷ (codes "STRING", string_type)
    ∷ (codes "BYTES", bytes_type)
    ∷ (codes "BOOL", bool_type)
    ∷ (codes "TRUE", true_token)
    ∷ (codes "FALSE", false_token)
    ∷ []

-- the type of a word, looked up as `keywords[strings.ToUpper(text)]`
abbrev pub word_type : Bytes → TokenType
word_type text = elim (Assoc.get (to_upper text) keywords) [
  | some kind ↦ kind
  | none ↦ identifier_token
]

-- the loops `for l.pos < len(l.input) && test(l.input[l.pos]) { l.pos++ }`: the bytes passed over
-- and the cursor behind them
unfoldable pub scan : (ℕ → Bool) → ℕ → Bytes → Bytes × Cursor
scan test pos [] = ([], record { pos = pos; rest = [] })
scan test pos (c ∷ cs) =
    let r = scan test (suc pos) cs in
    if test c then (c ∷ r.0, r.1) else ([], record { pos = pos; rest = c ∷ cs })

unfoldable pub skip_whitespace : Cursor → Cursor
skip_whitespace l = (scan is_space l.pos l.rest).1

-- `identifier`, at a first byte `ch` of an identifier
unfoldable pub identifier : ℕ → ℕ → Bytes → Token × Cursor
identifier pos ch cs =
    let r = scan is_identifier_part (suc pos) cs in
    (record { kind = word_type (ch ∷ r.0); text = ch ∷ r.0; offset = pos }, r.1)

-- the loop of `stringLiteral`: the value, and the cursor behind the closing quote, if there is one
unfoldable pub string_body : ℕ → Bytes → Option (Bytes × Cursor)
string_body pos [] = none
string_body pos (c ∷ []) =
    if c == quote then some ([], record { pos = suc pos; rest = [] }) else none
string_body pos (c ∷ d ∷ cs) =
    let next = string_body (suc pos) (d ∷ cs) in
    let doubled = string_body (suc (suc pos)) cs in
    if not (c == quote)
    then prepend c next
    else if d == quote
    then prepend quote doubled
    else some ([], record { pos = suc pos; rest = d ∷ cs })

-- `stringLiteral`, behind the opening quote at `pos`
unfoldable pub string_literal : ℕ → Bytes → Result SqlError (Token × Cursor)
string_literal pos cs = elim (string_body (suc pos) cs) [
  | none ↦ err (unterminated_string pos)
  | some (v, l) ↦ ok (record { kind = string_token; text = v; offset = pos }, l)
]

abbrev pub is_sign : ℕ → Bool
is_sign ch = ch == 43 || ch == 45

-- `integer`, at a first byte that is a sign or a digit
unfoldable pub integer : ℕ → ℕ → Bytes → Result SqlError (Token × Cursor)
integer pos ch cs =
    let r = scan is_digit (suc pos) cs in
    elim (parse_int (ch ∷ r.0)) [
      | none ↦ err (invalid_int64 (ch ∷ r.0) pos)
      | some n ↦ ok (record { kind = integer_token; text = ch ∷ r.0; offset = pos }, r.1)
    ]

abbrev pub starts_with_equal : Bytes → Bool
starts_with_equal [] = false
starts_with_equal (c ∷ cs) = c == 61

abbrev pub one_byte : ℕ → ℕ → Bytes → TokenType → Option (Token × Cursor)
one_byte pos ch cs kind =
    some (record { kind = kind; text = ch ∷ []; offset = pos }, record { pos = suc pos; rest = cs })

-- a byte and the `=` behind it
abbrev pub two_bytes : ℕ → ℕ → Bytes → TokenType → Option (Token × Cursor)
two_bytes pos ch cs kind = some (
  record { kind = kind; text = ch ∷ 61 ∷ []; offset = pos },
  record { pos = suc (suc pos); rest = Base.drop 1 cs },
)

-- `punctuation`: a token of one byte, or of two where `=` follows
unfoldable pub punctuation : ℕ → ℕ → Bytes → Option (Token × Cursor)
punctuation pos ch cs =
    if ch == 40
    then one_byte pos ch cs l_paren
    else if ch == 41
    then one_byte pos ch cs r_paren
    else if ch == 44
    then one_byte pos ch cs comma
    else if ch == 59
    then one_byte pos ch cs semicolon
    else if ch == 42
    then one_byte pos ch cs star
    else if ch == 61
    then one_byte pos ch cs equal
    else if ch == 60
    then if starts_with_equal cs then two_bytes pos ch cs less_equal else one_byte pos ch cs less
    else if ch == 62
    then if starts_with_equal cs
      then two_bytes pos ch cs greater_equal
      else one_byte pos ch cs greater
    else if ch == 33 && starts_with_equal cs
    then two_bytes pos ch cs not_equal
    else none

abbrev pub digit_follows : Bytes → Bool
digit_follows [] = false
digit_follows (c ∷ cs) = is_digit c

abbrev pub token_or : ℕ → ℕ → Option (Token × Cursor) → Result SqlError (Token × Cursor)
token_or pos ch none = err (invalid_character ch pos)
token_or pos ch (some t) = ok t

-- the `switch` of `lex`, at a byte that is no white space
unfoldable pub next_token : ℕ → ℕ → Bytes → Result SqlError (Token × Cursor)
next_token pos ch cs =
    if is_identifier_start ch
    then ok (identifier pos ch cs)
    else if ch == quote
    then string_literal pos cs
    else if is_digit ch || (is_sign ch && digit_follows cs)
    then integer pos ch cs
    else token_or pos ch (punctuation pos ch cs)

abbrev pub eof_at : ℕ → Token
eof_at pos = record { kind = eof_token; text = []; offset = pos }

-- the loop of `lex`, which takes at most as many rounds as there are bytes; it panics without fuel
unfoldable pub lex_from : ℕ → Cursor → Result SqlError (List Token)
lex_from zero l = panic
lex_from (suc fuel) l =
    let m = skip_whitespace l in
    elim m.rest [
      | [] ↦ ok (eof_at m.pos ∷ [])
      | c ∷ cs ↦ do
        (token, next) ← next_token m.pos c cs
        tokens ← lex_from fuel next
        ok (token ∷ tokens)
    ]

-- `Lex`
unfoldable pub lex : Bytes → Result SqlError (List Token)
lex input = lex_from (suc (length input)) (record { pos = 0; rest = input })
