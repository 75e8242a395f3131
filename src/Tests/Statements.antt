-- ===== src/Tests/Statements.antt =====
-- SQL texts lexed and parsed.
use go_database.Base.{refl, true, false, ◌≡◌, ◌≢◌, [], ◌∷◌, Bytes, codes, beq, negsuc}
use go_database.Base.Result.{ok, panic}
use go_database.Sql.Token.{string_token, integer_token, less_equal, code}
use go_database.Db.Schema.{Column, TableSchema}
use go_database.Db.Value.{int64, string, bytes, encode_value}
use go_database.Db.Value.Order.{value_eq, value_lt}
use go_database.Sql.Executor.{compare, literal_value, bad_literal, convert, matches}
use go_database.Sql.Executor.Compare.{holds, compare-order}
use go_database.Sql.Executor.Literals.{is_ok, literal_value-encode, matches-ne-panic}
use go_database.Sql.Lexer.{
  lex, eof_at, lex_from, skip_whitespace, scan, is_space, next_token, is_identifier_start,
  identifier, is_identifier_part, is_digit, to_upper, integer, parse_int, digits_value, punctuation,
}
use go_database.Sql.Lexer.Stream.{IsLexed, lex-IsLexed}
use go_database.Sql.Lexer.Quote.{doubled, quoted, lex-quoted}
use go_database.Base.Assoc
use go_database.Sql.Parser
use go_database.Sql.Parser.{
  Literal, Statement, select_statement, parse, statement, select, take_kind, expect, select_table,
  predicates, comparison, literal, optional_semicolon,
}
use go_database.Sql.Parser.Shape.{IsStatement, parse-IsStatement}
use go_database.Sql.Parser.Total.{parse-ne-panic}

abbrev query : Bytes
query = codes "SELECT * FROM tasks WHERE id <= -7;"

lex-IsLexed_example : IsLexed (lex query)
lex-IsLexed_example = lex-IsLexed query

parse-ne-panic_example : parse query ≢ panic
parse-ne-panic_example = parse-ne-panic query

lex-quoted_example :
    lex (quoted (codes "it's"))
    ≡ ok (record { kind = string_token; text = codes "it's"; offset = 0 } ∷ eof_at 7 ∷ [])
unfolding doubled
lex-quoted_example = lex-quoted (codes "it's")

compare-order_example :
    compare (string (codes "b")) (string (codes "a")) less_equal
    ≡ holds less_equal
        (value_lt (string (codes "b")) (string (codes "a")))
        (value_eq (string (codes "b")) (string (codes "a")))
compare-order_example = compare-order (string (codes "b")) (string (codes "a")) less_equal refl

abbrev blob : Column
blob = record { name = codes "blob"; type = 3; primary_key = false; nullable = false }

abbrev text : Literal
text = record { kind = string_token; value = string (codes "it's") }

literal_value-encode_example : is_ok (encode_value blob (bytes (codes "it's"))) ≡ true
unfolding literal_value bad_literal convert code
literal_value-encode_example = literal_value-encode text blob (bytes (codes "it's")) refl

abbrev files : TableSchema
files = record { name = codes "files"; columns = blob ∷ [] }

matches-ne-panic_example :
    matches
      ((codes "blob", bytes (codes "x")) ∷ [])
      (record { column = codes "blob"; op = less_equal; value = text } ∷ [])
      files
    ≢ panic
matches-ne-panic_example =
    matches-ne-panic ((codes "blob", bytes (codes "x")) ∷ [])
      (record { column = codes "blob"; op = less_equal; value = text } ∷ []) files

abbrev parsed : Statement
parsed = select_statement (codes "tasks") [] true (
    record {
      column = codes "id";
      op = less_equal;
      value = record { kind = integer_token; value = int64 (negsuc 6) };
    }
    ∷ [])

parse-IsStatement_example : IsStatement parsed
unfolding parse lex lex_from skip_whitespace scan is_space next_token is_identifier_start identifier
    is_identifier_part is_digit to_upper Assoc.get beq integer parse_int digits_value punctuation
    statement select take_kind expect select_table Parser.identifier predicates comparison literal
    optional_semicolon code
parse-IsStatement_example = parse-IsStatement query parsed refl
