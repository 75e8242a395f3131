-- ===== src/Sql/Executor/Compare.antt =====
-- `compare` of internal/sql/executor.go orders values as their encodings are ordered.
use go_database.Base.{
  ◌≡◌, refl, ap, ◌∙◌, Bool, true, false, not, ◌&&◌, ◌||◌, if◌then◌else◌, Bytes, beq, blt, beq_iff,
  blt_irrefl, ℤ, pos, negsuc, eqb_ℤ, ltb_ℤ, arith, Bool-cases, inl, inr,
}
use go_database.Db.Value.{Value, int64, string, bytes, bool}
use go_database.Db.Value.Order.{value_eq, value_lt}
use go_database.Sql.Executor.{order_of, order, decide, compare}
use go_database.Sql.Token.{
  TokenType, is, equal, not_equal, less, less_equal, greater, greater_equal,
}

-- two values of the same type that `compare` compares
abbrev pub comparable : Value → Value → Bool
comparable (int64 x) (int64 y) = true
comparable (string x) (string y) = true
comparable (bytes x) (bytes y) = true
comparable (bool x) (bool y) = true
comparable v w = false

-- what an operator asks of two values, one below the other or both equal
abbrev pub holds : TokenType → Bool → Bool → Bool
holds operator lt eq =
    if is operator equal
    then eq
    else if is operator not_equal
    then not eq
    else if is operator less
    then lt
    else if is operator less_equal
    then lt || eq
    else if is operator greater
    then not (lt || eq)
    else if is operator greater_equal
    then not lt
    else false

decide-order_of :
    (operator : TokenType) (lt eq : Bool)
    → (lt && eq) ≡ false
    → decide operator (order_of lt eq) ≡ holds operator lt eq
unfolding decide eqb_ℤ ltb_ℤ
decide-order_of operator true true h = cc
decide-order_of operator true false h = refl
decide-order_of operator false true h = refl
decide-order_of operator false false h = refl

not-ltb_ℤ : (x y : ℤ) → (ltb_ℤ x y && eqb_ℤ x y) ≡ false
unfolding ltb_ℤ eqb_ℤ
not-ltb_ℤ (pos a) (pos b) = ground arith
not-ltb_ℤ (pos a) (negsuc b) = refl
not-ltb_ℤ (negsuc a) (pos b) = refl
not-ltb_ℤ (negsuc a) (negsuc b) = ground arith

not-blt : (a b : Bytes) → (blt a b && beq a b) ≡ false
not-blt a b = elim (Bool-cases (beq a b)) [
  | inl y ↦ let e = (beq_iff a b).0 y in rw (e, blt_irrefl b) refl
  | inr n ↦ ground arith
]

order_of-int64 :
    (x y : ℤ) → order_of (ltb_ℤ x y) (not (ltb_ℤ y x)) ≡ order_of (ltb_ℤ x y) (eqb_ℤ x y)
unfolding ltb_ℤ eqb_ℤ
order_of-int64 (pos a) (pos b) = ground arith
order_of-int64 (pos a) (negsuc b) = refl
order_of-int64 (negsuc a) (pos b) = refl
order_of-int64 (negsuc a) (negsuc b) = ground arith

-- On two integers, strings, byte strings or Booleans, `compare` answers every operator as the order
-- does in which the encodings of the values are sorted.
pub compare-order :
    (v w : Value) (operator : TokenType)
    → comparable v w ≡ true
    → compare v w operator ≡ holds operator (value_lt v w) (value_eq v w)
unfolding compare order
compare-order (int64 x) (int64 y) operator h =
    ap (decide operator) (order_of-int64 x y)
    ∙ decide-order_of operator (ltb_ℤ x y) (eqb_ℤ x y) (not-ltb_ℤ x y)
compare-order (string x) (string y) operator h =
    decide-order_of operator (blt x y) (beq x y) (not-blt x y)
compare-order (bytes x) (bytes y) operator h =
    decide-order_of operator (blt x y) (beq x y) (not-blt x y)
compare-order (bool true) (bool true) operator h = decide-order_of operator false true refl
compare-order (bool true) (bool false) operator h = decide-order_of operator false false refl
compare-order (bool false) (bool true) operator h = decide-order_of operator true false refl
compare-order (bool false) (bool false) operator h = decide-order_of operator false true refl
compare-order v w operator h = cc
