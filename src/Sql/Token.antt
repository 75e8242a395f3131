-- ===== src/Sql/Token.antt =====
-- Tokens and errors of internal/sql/lexer.go and internal/sql/parser.go.
use go_database.Base.{ℕ, Bool, ◌==◌, Bytes}

-- `TokenType`, in the order of its constants
pub data TokenType : Type 0 where
  illegal_token eof_token identifier_token string_token integer_token : TokenType
  true_token false_token create_token table_token primary_token key_token : TokenType
  not_token null_token insert_token into_token values_token select_token : TokenType
  from_token where_token and_token int64_type string_type bytes_type bool_type : TokenType
  l_paren r_paren comma semicolon star equal not_equal less less_equal : TokenType
  greater greater_equal : TokenType

-- the constant's number (`iota`)
unfoldable pub code : TokenType → ℕ
code illegal_token = 0
code eof_token = 1
code identifier_token = 2
code string_token = 3
code integer_token = 4
code true_token = 5
code false_token = 6
code create_token = 7
code table_token = 8
code primary_token = 9
code key_token = 10
code not_token = 11
code null_token = 12
code insert_token = 13
code into_token = 14
code values_token = 15
code select_token = 16
code from_token = 17
code where_token = 18
code and_token = 19
code int64_type = 20
code string_type = 21
code bytes_type = 22
code bool_type = 23
code l_paren = 24
code r_paren = 25
code comma = 26
code semicolon = 27
code star = 28
code equal = 29
code not_equal = 30
code less = 31
code less_equal = 32
code greater = 33
code greater_equal = 34

-- `a == b` on token types
abbrev pub is : TokenType → TokenType → Bool
is a b = code a == code b

-- `Token`: its type, its text and its byte offset
pub record Token : Type 0 where
  pub kind : TokenType
  pub text : Bytes
  pub offset : ℕ

-- what a parse error says
pub data Complaint : Type 0 where
  expected_statement duplicate_primary_key duplicate_not_null count_mismatch : Complaint
  expected_column_type expected_comparison expected_literal expected_identifier :
      TokenType → Complaint
  expected : TokenType → TokenType → Complaint
  invalid_integer : Bytes → Complaint

-- the errors of `Lex` and `Parse`, with their byte offset
pub data SqlError : Type 0 where
  invalid_character : ℕ → ℕ → SqlError
  unterminated_string : ℕ → SqlError
  invalid_int64 : Bytes → ℕ → SqlError
  parse_error : ℕ → Complaint → SqlError
