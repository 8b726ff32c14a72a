-- ===== src/Flow/Values/Operators.antt =====
-- The operators of src/libs/flow/src/engine/types: those that integer.cpp defines, `in` of the dictionaries, and the
-- error of every other (core/function.cpp, core/type.hpp).
use Prim.Native.String.{◌++◌ as ◌+++◌}
use ez_cpp.Prelude.{ℕ, String, not}
use ez_cpp.Prelude.Int.{ℤ, pos, ◌+ℤ◌, ◌-ℤ◌, ◌*ℤ◌, ltb_ℤ, eq_ℤ, fits_ℤ}
use ez_cpp.Flow.Ast.{
  UnaryOperator, MultiplicativeOperator, AdditiveOperator, RelationalOperator, LogicalOperator,
}
use ez_cpp.Flow.Entity.{Entity, type, integer, real, dictionary}
use ez_cpp.Flow.Machine.{cond, Eval, pure, stop, overflow, ◌>>=◌}
use ez_cpp.Flow.Values.Host.{Platform, EvalResult, ok, fail}
use ez_cpp.Flow.Values.Payloads.{integer_value, real_value, new_integer, new_real, new_boolean}
use ez_cpp.Flow.Values.Dictionaries.{contains}

-- `error::op_not_found`, of one and of two types.
abbrev pub unary_not_found : String → Entity → EvalResult
unary_not_found symbol e =
    fail ("No matching for operator '" +++ symbol +++ "' for type '" +++ (type e).name +++ "'")

abbrev pub op_not_found : String → Entity → Entity → EvalResult
op_not_found symbol lhs rhs = fail (
    "No matching for operator '"
    +++ symbol
    +++ "' for types '"
    +++ (type lhs).name
    +++ "' and '"
    +++ (type rhs).name
    +++ "' ")

-- A new Integer, where the sum, difference or product is one of 64 bits.
unfoldable pub checked_integer : ℤ → Eval Entity
checked_integer z = cond (fits_ℤ 64 z) (new_integer z) (stop overflow)

-- An operator of Integer that has an overload for an integer and one for a double.
unfoldable pub integer_operator :
    Platform
    → String
    → (ℤ → ℤ → Eval Entity)
    → (ℕ → ℕ → Eval Entity)
    → Entity
    → Entity
    → Eval EvalResult
integer_operator P symbol on_integers on_reals (integer p) (integer q) = do
  a ← integer_value p
  b ← integer_value q
  e ← on_integers a b
  pure (ok e)
integer_operator P symbol on_integers on_reals (integer p) (real q) = do
  a ← integer_value p
  b ← real_value q
  e ← on_reals (P.real_of_int a) b
  pure (ok e)
integer_operator P symbol on_integers on_reals lhs rhs = pure (op_not_found symbol lhs rhs)

unfoldable pub unary_op : UnaryOperator → Entity → Eval EvalResult
unary_op UnaryOperator.plus (integer p) = pure (ok (integer p))
unary_op UnaryOperator.plus other = pure (unary_not_found "+" other)
unary_op UnaryOperator.minus (integer p) = do
  a ← integer_value p
  z ← checked_integer (pos 0 -ℤ a)
  pure (ok z)
unary_op UnaryOperator.minus other = pure (unary_not_found "-" other)
unary_op UnaryOperator.not e = pure (unary_not_found "!" e)

-- `*` compares and `/` multiplies, as the source has it.
unfoldable pub multiplicative_op :
    Platform → MultiplicativeOperator → Entity → Entity → Eval EvalResult
multiplicative_op P MultiplicativeOperator.mult =
    integer_operator P "*" (λ a b. new_boolean (eq_ℤ a b)) (λ a b. new_boolean (P.real_eq a b))
multiplicative_op P MultiplicativeOperator.div =
    integer_operator P "/" (λ a b. checked_integer (a *ℤ b)) (λ a b. new_real (P.real_mult a b))

unfoldable pub additive_op : Platform → AdditiveOperator → Entity → Entity → Eval EvalResult
additive_op P AdditiveOperator.plus =
    integer_operator P "+" (λ a b. checked_integer (a +ℤ b)) (λ a b. new_real (P.real_add a b))
additive_op P AdditiveOperator.minus =
    integer_operator P "-" (λ a b. checked_integer (a -ℤ b)) (λ a b. new_real (P.real_sub a b))

unfoldable pub relational_op : Platform → RelationalOperator → Entity → Entity → Eval EvalResult
relational_op P RelationalOperator.less =
    integer_operator P "<" (λ a b. new_boolean (ltb_ℤ a b)) (λ a b. new_boolean (P.real_less a b))
relational_op P RelationalOperator.less_eq =
    integer_operator P "<=" (λ a b. new_boolean (not (ltb_ℤ b a)))
      (λ a b. new_boolean (P.real_less_eq a b))
relational_op P RelationalOperator.greater =
    integer_operator P ">" (λ a b. new_boolean (ltb_ℤ b a)) (λ a b. new_boolean (P.real_less b a))
relational_op P RelationalOperator.greater_eq =
    integer_operator P ">=" (λ a b. new_boolean (not (ltb_ℤ a b)))
      (λ a b. new_boolean (P.real_less_eq b a))

-- The operator `in` asks the type of its right operand.
unfoldable pub contains_op : Entity → Entity → Eval EvalResult
contains_op (dictionary k p) lhs = contains p lhs
contains_op other lhs = pure (op_not_found "in" other lhs)

unfoldable pub eq_op : Platform → Entity → Entity → Eval EvalResult
eq_op P =
    integer_operator P "==" (λ a b. new_boolean (eq_ℤ a b)) (λ a b. new_boolean (P.real_eq a b))

unfoldable pub not_eq_op : Platform → Entity → Entity → Eval EvalResult
not_eq_op P =
    integer_operator P "!=" (λ a b. new_boolean (not (eq_ℤ a b)))
      (λ a b. new_boolean (not (P.real_eq a b)))

-- No type defines `and` or `or`.
unfoldable pub logical_op : LogicalOperator → Entity → Entity → EvalResult
logical_op LogicalOperator.and lhs rhs = op_not_found "and" lhs rhs
logical_op LogicalOperator.or lhs rhs = op_not_found "or" lhs rhs
