-- ===== src/Db/Schema/Valid.antt =====
-- What `validateSchema` accepts.
use go_database.Base.{
  ℕ, suc, ◌+◌, ◌≤◌, ◌≡◌, refl, true, false, none, List, [], ◌∷◌, arith, if◌then◌else◌, length,
  Bytes, beq_iff, inl, inr,
}
use go_database.Base.Result.{Result-cases, refuse-then, bind-eq-ok, ok}
use go_database.Db.Schema.{
  Column, TableSchema, bad_column, seen_name, find_column_in, validate_columns, validate_schema,
}

-- how many columns are, and are not, primary keys
abbrev pub primaries : List Column → ℕ
primaries [] = 0
primaries (c ∷ cs) = if c.primary_key then suc (primaries cs) else primaries cs

abbrev pub others : List Column → ℕ
others [] = 0
others (c ∷ cs) = if c.primary_key then others cs else suc (others cs)

pub primaries-others : (cs : List Column) → primaries cs + others cs ≡ length cs
primaries-others [] = omega arith
primaries-others (c ∷ cs) = ground (arith, primaries-others cs)

validate_columns-count :
    (seen : List Bytes) (p q : ℕ) (cs : List Column)
    → validate_columns seen p cs ≡ ok q
    → q ≡ p + primaries cs
unfolding validate_columns
validate_columns-count seen p q [] h = ground arith
validate_columns-count seen p q (c ∷ cs) h =
    ground (arith, validate_columns-count (c.name ∷ seen) (if c.primary_key then p + 1 else p) q cs)

-- A schema that `validateSchema` accepts has exactly one primary key, at most 65535 columns, and
-- a name of at most 128 bytes.
pub validate_schema-ok :
    (s : TableSchema)
    → validate_schema s ≡ ok tt
    → (primaries s.columns ≡ 1) × (length s.columns ≤ 65535) × (length s.name ≤ 128)
unfolding validate_schema
validate_schema-ok s h = elim (Result-cases (validate_columns [] 0 s.columns)) [
  | inl (q, e) ↦ ground (arith, validate_columns-count [] 0 q s.columns e)
  | inr o ↦ ground arith
]

-- A name that was seen names no further column.
pub validate_columns-fresh :
    (seen : List Bytes) (p q : ℕ) (cs : List Column) (name : Bytes)
    → validate_columns seen p cs ≡ ok q
    → seen_name name seen ≡ true
    → find_column_in cs name ≡ none
unfolding validate_columns find_column_in seen_name
validate_columns-fresh seen p q [] name h e = refl
validate_columns-fresh seen p q (c ∷ cs) name h e = ground (
  arith,
  beq_iff c.name name,
  validate_columns-fresh (c.name ∷ seen) (if c.primary_key then p + 1 else p) q cs name,
)

pub validate_columns-cons :
    (seen : List Bytes) (p q : ℕ) (c : Column) (cs : List Column)
    → validate_columns seen p (c ∷ cs) ≡ ok q
    → (bad_column seen c ≡ false)
      × (validate_columns (c.name ∷ seen) (if c.primary_key then p + 1 else p) cs ≡ ok q)
unfolding validate_columns
validate_columns-cons seen p q c cs h = ground arith

pub validate_schema-columns :
    (s : TableSchema)
    → validate_schema s ≡ ok tt
    → (q : ℕ) × (validate_columns [] 0 s.columns ≡ ok q)
unfolding validate_schema
validate_schema-columns s h =
    let (_, a) = refuse-then _ _ _ h in
    let (q, e, _) = bind-eq-ok (validate_columns [] 0 s.columns) _ a in (q, e)
