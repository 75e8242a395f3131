-- ===== src/Db/Schema.antt =====
-- Table schemas: `Column`, `TableSchema`, `validateSchema`, `findPrimary` and the look-ups by name
-- of db/table.go and db/index.go.
pub mod Valid
use go_database.Base.{
  ℕ, suc, ◌+◌, ◌≤◌, ◌≡◌, Bool, true, false, not, ◌&&◌, ◌||◌, Option, none, some, List, [], ◌∷◌, ltb,
  ◌==◌, if◌then◌else◌, length, Bytes, beq,
}
use go_database.Base.Result.{Result, ok, err, refuse, ◌>>=◌, ◌>>◌}
use go_database.Db.Error.{Error, invalid_schema}

abbrev pub column_int64 : ℕ
column_int64 = 1

abbrev pub column_string : ℕ
column_string = 2

abbrev pub column_bytes : ℕ
column_bytes = 3

abbrev pub column_bool : ℕ
column_bool = 4

pub record Column : Type 0 where
  pub name : Bytes
  pub type : ℕ
  pub primary_key : Bool
  pub nullable : Bool

pub record TableSchema : Type 0 where
  pub name : Bytes
  pub columns : List Column

-- `Column{}`
abbrev pub zero_column : Column
zero_column = record { name = []; type = 0; primary_key = false; nullable = false }

abbrev pub bad_type : Column → Bool
bad_type c = ltb c.type column_int64 || ltb column_bool c.type

-- `seen[name]`
unfoldable pub seen_name : Bytes → List Bytes → Bool
seen_name name [] = false
seen_name name (x ∷ seen) = beq x name || seen_name name seen

-- the tests on one column
unfoldable pub bad_column : List Bytes → Column → Bool
unfolding seen_name
bad_column seen c =
    length c.name == 0
    || ltb 128 (length c.name)
    || seen_name c.name seen
    || bad_type c
    || (c.primary_key
        && (c.nullable || (not (c.type == column_int64) && not (c.type == column_string))))

-- the loop over the columns; the result is the count of primary keys
unfoldable pub validate_columns : List Bytes → ℕ → List Column → Result Error ℕ
unfolding bad_column
validate_columns seen primary [] = ok primary
validate_columns seen primary (c ∷ cs) =
    let rest =
      validate_columns (c.name ∷ seen) (if c.primary_key then primary + 1 else primary) cs in
    if bad_column seen c then err invalid_schema else rest

unfoldable pub validate_schema : TableSchema → Result Error (Unit {0})
unfolding validate_columns
validate_schema s = do
  refuse
      (length s.name == 0
        || ltb 128 (length s.name)
        || length s.columns == 0
        || ltb 65535 (length s.columns))
      invalid_schema
  primary ← validate_columns [] 0 s.columns
  refuse (not (primary == 1)) invalid_schema

-- `findPrimary`
unfoldable pub find_primary_in : List Column → Column
find_primary_in [] = zero_column
find_primary_in (c ∷ cs) = if c.primary_key then c else find_primary_in cs

abbrev pub find_primary : TableSchema → Column
find_primary s = find_primary_in s.columns

-- `findColumn` of index.go
unfoldable pub find_column_in : List Column → Bytes → Option Column
find_column_in [] name = none
find_column_in (c ∷ cs) name = if beq c.name name then some c else find_column_in cs name

abbrev pub find_column : TableSchema → Bytes → Option Column
find_column s = find_column_in s.columns
