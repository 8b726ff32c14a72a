-- ===== src/Flow/Interpreter/Terms.antt =====
-- The parts of interpreter_expression.cpp and literals.hpp, under src/libs/flow/src/engine/eval, that evaluate no
-- expression themselves.
use Prim.Native.String.{◌++◌ as ◌+++◌}
use ez_cpp.Prelude.{String, Option, none, some, List, [], ◌∷◌}
use ez_cpp.Flow.Ast.{
  Located, Identifier, IdentifierPath, Literal, UnaryExpression, MultiplicativeExpression,
  AdditiveExpression, RelationalExpression, EqualityExpression, PrimaryExpression, unary,
  multiplicative_expression, additive_expression, relational_expression, equality_expression,
  identifier_path,
}
use ez_cpp.Flow.Entity.{Entity, type}
use ez_cpp.Flow.Machine.{
  from_option, Eval, pure, throw, stop, ◌>>=◌, lookup_entity, missing, evaluation_error,
}
use ez_cpp.Flow.Values.{ensure_value, get_property}
use ez_cpp.Flow.Values.Payloads.{new_boolean, new_integer, new_real, new_string, new_duration}

-- `to_value`.
unfoldable pub eval_literal : Literal → Eval Entity
eval_literal (Literal.boolean b) = new_boolean b
eval_literal (Literal.integer l z) = new_integer z
eval_literal (Literal.real l d) = new_real d
eval_literal (Literal.string l s) = new_string s
eval_literal (Literal.duration l n u) = new_duration (record { count = n; unit = u })

-- The chain of `get_property`.
unfoldable pub properties : Entity → List Identifier → Eval Entity
properties e [] = pure e
properties e (name ∷ names) = do
  f ← ensure_value (get_property e name.text) name.position
  properties f names

unfoldable pub eval_names : List Identifier → Located → Eval Entity
eval_names [] location = stop missing
eval_names (name ∷ names) location = do
  entry ← lookup_entity name.text
  from_option entry
      (throw (evaluation_error ("Use of undeclared identifier '" +++ name.text +++ "'") location))
      (λ found. properties found.value names)

unfoldable pub eval_path : IdentifierPath → Eval Entity
eval_path path = eval_names path.identifiers path.position

-- `path.pop_back()` and `path.back()`.
unfoldable pub without_last : List Identifier → List Identifier
without_last [] = []
without_last (x ∷ []) = []
without_last (x ∷ y ∷ ys) = x ∷ without_last (y ∷ ys)

unfoldable pub last_name : List Identifier → Option Identifier
last_name [] = none
last_name (x ∷ []) = some x
last_name (x ∷ y ∷ ys) = last_name (y ∷ ys)

-- `to_type_name`.
unfoldable pub primary_type_name : PrimaryExpression → String
primary_type_name e = elim e [
  | identifier_path path ↦ elim path.identifiers [ [] ↦ "" | name ∷ names ↦ name.text ]
  | _ ↦ "<unknow type>"
]

unfoldable pub to_type_name : RelationalExpression → String
unfolding primary_type_name
to_type_name
      (relational_expression l
        (additive_expression m (multiplicative_expression n (unary o op e) n' ns) m' ms)
        l'
        ls) =
    primary_type_name e

-- The positions of the terms of a chain.
abbrev pub unary_position : UnaryExpression → Located
unary_position (unary l op e) = l

abbrev pub multiplicative_position : MultiplicativeExpression → Located
multiplicative_position (multiplicative_expression l e k ts) = l

abbrev pub additive_position : AdditiveExpression → Located
additive_position (additive_expression l e k ts) = l

abbrev pub relational_position : RelationalExpression → Located
relational_position (relational_expression l e k ts) = l

abbrev pub equality_position : EqualityExpression → Located
equality_position (equality_expression l e k ts) = l

abbrev pub expected_duration : {A : Type 0} → Entity → Located → Eval A
expected_duration e location =
    throw (evaluation_error ("Expected a 'duration' got a '" +++ (type e).name +++ "' ") location)
