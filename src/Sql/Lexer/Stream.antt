-- ===== src/Sql/Lexer/Stream.antt =====
-- `Lex` returns on every input, and what it returns is a stream: one EOF token, the last.
use go_database.Base.{
  ℕ, zero, suc, ◌≡◌, ◌<◌, ◌≤◌, refl, Bool, true, false, not, ◌&&◌, ◌||◌, Option, none, some, List,
  [], ◌∷◌, ◌==◌, length, Bytes, arith, Option-cases, inl, inr, ℤ, if-both,
}
use go_database.Base.Assoc
use go_database.Base.Result.{Result, ok, err, panic, ◌>>=◌}
use go_database.Sql.Token.{
  TokenType, eof_token, identifier_token, code, is, Token, SqlError, string_token, integer_token,
  invalid_int64, unterminated_string, comma, equal, greater, greater_equal, l_paren, less,
  less_equal, not_equal, r_paren, semicolon, star,
}
use go_database.Sql.Lexer.{
  Cursor, keywords, word_type, to_upper, scan, skip_whitespace, identifier, string_body,
  string_literal, integer, punctuation, prepend, one_byte, two_bytes, starts_with_equal, is_sign,
  is_space, digit_follows, is_identifier_start, is_identifier_part, next_token, token_or, parse_int,
  lex_from, lex, quote, is_digit, eof_at,
}

-- the last token is EOF, and no other token is
abbrev pub IsStream : List Token → Type 0
IsStream [] = ⊥
IsStream (t ∷ []) = is t.kind eof_token ≡ true
IsStream (t ∷ u ∷ ts) = (is t.kind eof_token ≡ false) × IsStream (u ∷ ts)

-- a result that is a stream, or an error, and no panic
abbrev pub IsLexed : Result SqlError (List Token) → Type 0
IsLexed (ok ts) = IsStream ts
IsLexed (err e) = Unit
IsLexed panic = ⊥

-- a result that is a token other than EOF with fewer than `n` bytes behind it, or an error
abbrev IsTaken : ℕ → Result SqlError (Token × Cursor) → Type 0
IsTaken n (ok (t, l)) = (is t.kind eof_token ≡ false) × (length l.rest < n)
IsTaken n (err e) = Unit
IsTaken n panic = ⊥

abbrev no_eof : List (Bytes × TokenType) → Bool
no_eof [] = true
no_eof ((k, t) ∷ m) = not (is t eof_token) && no_eof m

abbrev found_type : Option TokenType → TokenType
found_type none = identifier_token
found_type (some t) = t

found-no_eof :
    (key : Bytes) (m : List (Bytes × TokenType))
    → no_eof m ≡ true
    → is (found_type (Assoc.get key m)) eof_token ≡ false
unfolding Assoc.get code
found-no_eof key [] h = refl
found-no_eof key ((k, t) ∷ m) h = ground (arith, found-no_eof key m)

word_type-no_eof : (text : Bytes) → is (word_type text) eof_token ≡ false
unfolding code
word_type-no_eof text = elim (Option-cases (Assoc.get (to_upper text) keywords)) [
  | inl n ↦ ground arith
  | inr (t, e) ↦ let h = found-no_eof (to_upper text) keywords refl in ground (arith, h)
]

scan-length :
    (test : ℕ → Bool) (pos : ℕ) (cs : Bytes) → length (scan test pos cs).1.rest ≤ length cs
unfolding scan
scan-length test pos [] = ground arith
scan-length test pos (c ∷ cs) = ground (arith, scan-length test (suc pos) cs)

abbrev IsShorter : ℕ → Option (Bytes × Cursor) → Type 0
IsShorter n none = Unit
IsShorter n (some (v, l)) = length l.rest < n

prepend-IsShorter :
    (m n c : ℕ) (o : Option (Bytes × Cursor)) → IsShorter m o → m ≤ n → IsShorter n (prepend c o)
prepend-IsShorter m n c none h le = tt
prepend-IsShorter m n c (some (v, l)) h le = ground arith

string_body-length : (pos : ℕ) (cs : Bytes) → IsShorter (length cs) (string_body pos cs)
unfolding string_body
string_body-length pos [] = tt
string_body-length pos (c ∷ []) = if-both (IsShorter 1) (c == quote) (ground arith) tt
string_body-length pos (c ∷ d ∷ cs) =
    let n = length (c ∷ d ∷ cs) in
    let a = string_body-length (suc pos) (d ∷ cs) in
    let b = string_body-length (suc (suc pos)) cs in
    if-both (IsShorter n) (not (c == quote))
      (prepend-IsShorter (suc (length cs)) n c _ a (ground arith))
      (if-both (IsShorter n) (d == quote) (prepend-IsShorter (length cs) n quote _ b (ground arith))
        (ground arith))

string_literal-IsTaken : (pos : ℕ) (cs : Bytes) → IsTaken (suc (length cs)) (string_literal pos cs)
unfolding string_literal code
string_literal-IsTaken pos cs = go (string_body (suc pos) cs) (string_body-length (suc pos) cs)
  where
    go :
        (o : Option (Bytes × Cursor))
        → IsShorter (length cs) o
        → IsTaken (suc (length cs)) (elim o [
          | none ↦ err (unterminated_string pos)
          | some (v, l) ↦ ok (record { kind = string_token; text = v; offset = pos }, l)
        ])
    go none h = tt
    go (some (v, l)) h = (refl, ground arith)

integer-IsTaken : (pos ch : ℕ) (cs : Bytes) → IsTaken (suc (length cs)) (integer pos ch cs)
unfolding integer code
integer-IsTaken pos ch cs = go (parse_int (ch ∷ (scan is_digit (suc pos) cs).0))
  where
    go :
        (o : Option ℤ)
        → IsTaken (suc (length cs)) (elim o [
          | none ↦ err (invalid_int64 (ch ∷ (scan is_digit (suc pos) cs).0) pos)
          | some n ↦ ok (
            record {
              kind = integer_token;
              text = ch ∷ (scan is_digit (suc pos) cs).0;
              offset = pos;
            },
            (scan is_digit (suc pos) cs).1,
          )
        ])
    go none = tt
    go (some n) = (refl, ground (arith, scan-length is_digit (suc pos) cs))

-- a token of punctuation, if there is one
abbrev IsMark : ℕ → Option (Token × Cursor) → Type 0
IsMark n none = Unit
IsMark n (some (t, l)) = (is t.kind eof_token ≡ false) × (length l.rest < n)

one_byte-IsMark :
    (pos ch : ℕ) (cs : Bytes) (kind : TokenType)
    → is kind eof_token ≡ false
    → IsMark (suc (length cs)) (one_byte pos ch cs kind)
one_byte-IsMark pos ch cs kind h = (h, ground arith)

two_bytes-IsMark :
    (pos ch : ℕ) (cs : Bytes) (kind : TokenType)
    → is kind eof_token ≡ false
    → IsMark (suc (length cs)) (two_bytes pos ch cs kind)
two_bytes-IsMark pos ch [] kind h = (h, ground arith)
two_bytes-IsMark pos ch (c ∷ cs) kind h = (h, ground arith)

punctuation-IsMark : (pos ch : ℕ) (cs : Bytes) → IsMark (suc (length cs)) (punctuation pos ch cs)
unfolding punctuation code
punctuation-IsMark pos ch cs =
    let M = IsMark (suc (length cs)) in
    let one = λ (k : TokenType). one_byte-IsMark pos ch cs k in
    let two = λ (k : TokenType). two_bytes-IsMark pos ch cs k in
    if-both M (ch == 40) (one l_paren refl) (
      if-both M (ch == 41) (one r_paren refl) (
        if-both M (ch == 44) (one comma refl) (
          if-both M (ch == 59) (one semicolon refl) (
            if-both M (ch == 42) (one star refl) (
              if-both M (ch == 61) (one equal refl) (
                if-both M (ch == 60)
                  (if-both M (starts_with_equal cs) (two less_equal refl) (one less refl))
                  (if-both M (ch == 62)
                    (if-both M (starts_with_equal cs) (two greater_equal refl) (one greater refl))
                    (if-both M (ch == 33 && starts_with_equal cs) (two not_equal refl) tt))))))))

token_or-IsTaken :
    (n pos ch : ℕ) (o : Option (Token × Cursor)) → IsMark n o → IsTaken n (token_or pos ch o)
token_or-IsTaken n pos ch none h = tt
token_or-IsTaken n pos ch (some t) h = h

next_token-IsTaken : (pos ch : ℕ) (cs : Bytes) → IsTaken (suc (length cs)) (next_token pos ch cs)
unfolding next_token identifier
next_token-IsTaken pos ch cs =
    let T = IsTaken (suc (length cs)) in
    if-both T (is_identifier_start ch)
      (word_type-no_eof _, ground (arith, scan-length is_identifier_part (suc pos) cs))
      (if-both T (ch == quote) (string_literal-IsTaken pos cs) (
        if-both T (is_digit ch || (is_sign ch && digit_follows cs)) (integer-IsTaken pos ch cs)
          (token_or-IsTaken _ pos ch _ (punctuation-IsMark pos ch cs))))

IsStream-cons :
    (t : Token) (ts : List Token) → is t.kind eof_token ≡ false → IsStream ts → IsStream (t ∷ ts)
IsStream-cons t [] h s = absurd s
IsStream-cons t (u ∷ ts) h s = (h, s)

-- the rest of `lex` behind a token
then-IsLexed :
    (n : ℕ) (k : Cursor → Result SqlError (List Token)) (r : Result SqlError (Token × Cursor))
    → IsTaken n r
    → ((l : Cursor) → length l.rest < n → IsLexed (k l))
    → IsLexed (do (token, next) ← r; tokens ← k next; ok (token ∷ tokens))
then-IsLexed n k (ok (t, l)) h g = both (k l) (g l h.1)
  where
    both : (r : Result SqlError (List Token)) → IsLexed r → IsLexed (r >>= λ ts. ok (t ∷ ts))
    both (ok ts) s = IsStream-cons t ts h.0 s
    both (err e) s = tt
    both panic s = s
then-IsLexed n k (err e) h g = tt
then-IsLexed n k panic h g = h

skip_whitespace-length : (l : Cursor) → length (skip_whitespace l).rest ≤ length l.rest
unfolding skip_whitespace
skip_whitespace-length l = scan-length is_space l.pos l.rest

lex_from-IsLexed : (fuel : ℕ) (l : Cursor) → length l.rest < fuel → IsLexed (lex_from fuel l)
unfolding lex_from code
lex_from-IsLexed zero l h = ground arith
lex_from-IsLexed (suc fuel) l h =
    at (skip_whitespace l).pos (skip_whitespace l).rest
      (let le = skip_whitespace-length l in ground arith) (λ next g. lex_from-IsLexed fuel next g)
  where
    at :
        (pos : ℕ) (rest : Bytes)
        → length rest ≤ fuel
        → ((next : Cursor) → length next.rest < fuel → IsLexed (lex_from fuel next))
        → IsLexed (elim rest [
          | [] ↦ ok (eof_at pos ∷ [])
          | c ∷ cs ↦ do
            (token, next) ← next_token pos c cs
            tokens ← lex_from fuel next
            ok (token ∷ tokens)
        ])
    at pos [] b ih = refl
    at pos (c ∷ cs) b ih =
        then-IsLexed (suc (length cs)) (lex_from fuel) _ (next_token-IsTaken pos c cs)
          (λ next g. ih next (ground arith))

-- On every input `Lex` returns an error, or a list of tokens whose last is EOF and no other is;
-- it never panics, and one round more than the input has bytes is fuel enough.
pub lex-IsLexed : (input : Bytes) → IsLexed (lex input)
unfolding lex
lex-IsLexed input = lex_from-IsLexed (suc (length input)) _ (ground arith)
