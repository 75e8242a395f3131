-- ===== src/Sql/Lexer/Quote.antt =====
-- String literals of internal/sql/lexer.go: a text between quotes, its quotes doubled.
use go_database.Base.{
  ℕ, suc, ◌+◌, ◌≡◌, refl, ap, ◌∙◌, false, Option, some, [], ◌∷◌, ◌++◌, ◌==◌, if◌then◌else◌, length,
  Bytes, arith, Bool-cases, inl, inr, ==_iff,
}
use go_database.Base.Result.{ok, ◌>>=◌}
use go_database.Sql.Token.{Token, string_token}
use go_database.Sql.Lexer.{
  Cursor, prepend, quote, string_body, string_literal, next_token, lex_from, skip_whitespace, lex,
  eof_at, scan, is_space, is_identifier_start,
}

-- a text with every quote doubled
unfoldable pub doubled : Bytes → Bytes
doubled [] = []
doubled (c ∷ cs) = if c == quote then quote ∷ quote ∷ doubled cs else c ∷ doubled cs

-- the literal of a text
abbrev pub quoted : Bytes → Bytes
quoted s = quote ∷ doubled s ++ quote ∷ []

string_body-other :
    (pos c : ℕ) (cs : Bytes)
    → (c == quote) ≡ false
    → string_body pos (c ∷ cs) ≡ prepend c (string_body (suc pos) cs)
unfolding string_body
string_body-other pos c [] h = ground arith
string_body-other pos c (d ∷ cs) h = rw h

string_body-last :
    (pos : ℕ) → string_body pos (quote ∷ []) ≡ some ([], record { pos = suc pos; rest = [] })
unfolding string_body
string_body-last pos = refl

string_body-quotes :
    (pos : ℕ) (cs : Bytes)
    → string_body pos (quote ∷ quote ∷ cs) ≡ prepend quote (string_body (suc (suc pos)) cs)
unfolding string_body
string_body-quotes pos cs = refl

at_end :
    {s : Bytes} (m n : ℕ)
    → m ≡ n
    → ◌≡◌ {A = Option (Bytes × Cursor)}
        (some (s, record { pos = m; rest = [] }))
        (some (s, record { pos = n; rest = [] }))
at_end {s} m n h = ap (λ (k : ℕ). some (s, record { pos = k; rest = [] })) h

string_body-doubled :
    (pos : ℕ) (s : Bytes)
    → string_body pos (doubled s ++ quote ∷ [])
      ≡ some (s, record { pos = suc (pos + length (doubled s)); rest = [] })
unfolding doubled
string_body-doubled pos [] = string_body-last pos ∙ at_end (suc pos) (suc (pos + 0)) (ground arith)
string_body-doubled pos (c ∷ cs) = elim (Bool-cases (c == quote)) [
  | inl y ↦
      let e = (==_iff c quote).0 y in
      let ih = string_body-doubled (suc (suc pos)) cs in
      rw (y, e)
        (string_body-quotes pos (doubled cs ++ quote ∷ [])
          ∙ ap (prepend quote) ih
          ∙ at_end _ _ (ground arith))
  | inr n ↦
      let ih = string_body-doubled (suc pos) cs in
      rw n (
        string_body-other pos c (doubled cs ++ quote ∷ []) n
        ∙ ap (prepend c) ih
        ∙ at_end _ _ (ground arith))
]

skip-quote :
    (pos : ℕ) (cs : Bytes)
    → skip_whitespace (record { pos = pos; rest = quote ∷ cs })
      ≡ record { pos = pos; rest = quote ∷ cs }
unfolding skip_whitespace scan is_space
skip-quote pos cs = refl

next_token-quote : (pos : ℕ) (cs : Bytes) → next_token pos quote cs ≡ string_literal pos cs
unfolding next_token is_identifier_start
next_token-quote pos cs = refl

string_literal-doubled :
    (pos : ℕ) (s : Bytes)
    → string_literal pos (doubled s ++ quote ∷ [])
      ≡ ok (
        record { kind = string_token; text = s; offset = pos },
        record { pos = suc (suc pos + length (doubled s)); rest = [] },
      )
unfolding string_literal
string_literal-doubled pos s = rw (string_body-doubled (suc pos) s, string_literal) refl

lex_from-end :
    (fuel pos : ℕ) → lex_from (suc fuel) (record { pos = pos; rest = [] }) ≡ ok (eof_at pos ∷ [])
unfolding lex_from skip_whitespace scan
lex_from-end fuel pos = refl

length-append-one : (s : Bytes) (c : ℕ) → length (s ++ c ∷ []) ≡ suc (length s)
length-append-one [] c = refl
length-append-one (x ∷ s) c = ap suc (length-append-one s c)

-- one round of the lexer's loop, at a byte that is no white space
lex_from-next :
    (fuel pos c : ℕ) (cs : Bytes) (t : Token) (l : Cursor)
    → skip_whitespace (record { pos = pos; rest = c ∷ cs }) ≡ record { pos = pos; rest = c ∷ cs }
    → next_token pos c cs ≡ ok (t, l)
    → lex_from (suc fuel) (record { pos = pos; rest = c ∷ cs })
      ≡ (do tokens ← lex_from fuel l; ok (t ∷ tokens))
unfolding lex_from
lex_from-next fuel pos c cs t l h k = rw (h, lex_from) (rw (h, k) refl)

lex_from-quoted :
    (fuel : ℕ) (s : Bytes)
    → lex_from (suc (suc fuel)) (record { pos = 0; rest = quoted s })
      ≡ ok (
          record { kind = string_token; text = s; offset = 0 }
          ∷ eof_at (suc (1 + length (doubled s)))
          ∷ [])
lex_from-quoted fuel s =
    let cs = doubled s ++ quote ∷ [] in
    let end : Cursor = record { pos = suc (1 + length (doubled s)); rest = [] } in
    let token : Token = record { kind = string_token; text = s; offset = 0 } in
    lex_from-next (suc fuel) 0 quote cs token end (skip-quote 0 cs)
      (next_token-quote 0 cs ∙ string_literal-doubled 0 s)
    ∙ rw (lex_from-end fuel (suc (1 + length (doubled s)))) refl

-- The literal of a text, its quotes doubled, lexes to one string token that holds the text, and EOF.
pub lex-quoted :
    (s : Bytes)
    → lex (quoted s)
      ≡ ok (record { kind = string_token; text = s; offset = 0 } ∷ eof_at (length (quoted s)) ∷ [])
unfolding lex
lex-quoted s =
    let n = length-append-one (doubled s) quote in
    lex_from-quoted (length (doubled s ++ quote ∷ [])) s
    ∙ ap (λ (k : ℕ). ok (record { kind = string_token; text = s; offset = 0 } ∷ eof_at k ∷ []))
        (ground arith)
