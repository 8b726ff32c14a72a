-- ===== src/Flow/Ast.antt =====
-- The syntax tree of the flow language, src/libs/flow/headers/ez/flow/ast.hpp.
-- A vector is a data type of its own, with the vector's position beside it; a recursive_wrapper is
-- what it wraps; a double is its 64 bit pattern.
pub mod Statements
use ez_cpp.Prelude.{ℕ, String, Bool, Option, List}
use ez_cpp.Prelude.Int.{ℤ}

pub record Located : Type 0 where
  pub start_position : ℕ
  pub end_position : ℕ

pub record Identifier : Type 0 where
  pub position : Located
  pub text : String

pub record IdentifierPath : Type 0 where
  pub position : Located
  pub identifiers : List Identifier

pub data DurationUnit : Type 0 where
  ms sec min day week : DurationUnit

pub data Literal : Type 0 where
  boolean : Bool → Literal
  integer : Located → ℤ → Literal
  real : Located → ℕ → Literal
  string : Located → String → Literal
  duration : Located → ℕ → DurationUnit → Literal

pub record Declaration : Type 0 where
  pub position : Located
  pub name : Identifier
  pub type : Identifier

pub record Signature : Type 0 where
  pub position : Located
  pub inputs_position : Located
  pub inputs : List Declaration
  pub return_type : Option Identifier

pub data UnaryOperator : Type 0 where
  plus minus not : UnaryOperator

pub data MultiplicativeOperator : Type 0 where
  mult div : MultiplicativeOperator

pub data AdditiveOperator : Type 0 where
  plus minus : AdditiveOperator

pub data RelationalOperator : Type 0 where
  less less_eq greater greater_eq : RelationalOperator

pub data EqualityOperator : Type 0 where
  eq not_eq in_ is : EqualityOperator

pub data LogicalOperator : Type 0 where
  and or : LogicalOperator

-- The second position of a binary expression is that of its vector of terms.
mutual
  pub data Expression : Type 0 where
    expression : Located → EqualityExpression → Located → LogicalTerms → Expression

  pub data LogicalTerms : Type 0 where
    no_logical : LogicalTerms
    logical : Located → LogicalOperator → EqualityExpression → LogicalTerms → LogicalTerms

  pub data EqualityExpression : Type 0 where
    equality_expression :
        Located → RelationalExpression → Located → EqualityTerms → EqualityExpression

  pub data EqualityTerms : Type 0 where
    no_equality : EqualityTerms
    equality : Located → EqualityOperator → RelationalExpression → EqualityTerms → EqualityTerms

  pub data RelationalExpression : Type 0 where
    relational_expression :
        Located → AdditiveExpression → Located → RelationalTerms → RelationalExpression

  pub data RelationalTerms : Type 0 where
    no_relational : RelationalTerms
    relational :
        Located → RelationalOperator → AdditiveExpression → RelationalTerms → RelationalTerms

  pub data AdditiveExpression : Type 0 where
    additive_expression :
        Located → MultiplicativeExpression → Located → AdditiveTerms → AdditiveExpression

  pub data AdditiveTerms : Type 0 where
    no_additive : AdditiveTerms
    additive : Located → AdditiveOperator → MultiplicativeExpression → AdditiveTerms → AdditiveTerms

  pub data MultiplicativeExpression : Type 0 where
    multiplicative_expression :
        Located → UnaryExpression → Located → MultiplicativeTerms → MultiplicativeExpression

  pub data MultiplicativeTerms : Type 0 where
    no_multiplicative : MultiplicativeTerms
    multiplicative :
        Located
        → MultiplicativeOperator
        → UnaryExpression
        → MultiplicativeTerms
        → MultiplicativeTerms

  pub data UnaryExpression : Type 0 where
    unary : Located → Option UnaryOperator → PrimaryExpression → UnaryExpression

  pub data PrimaryExpression : Type 0 where
    identifier_path : IdentifierPath → PrimaryExpression
    literal : Literal → PrimaryExpression
    function_call : FunctionCall → PrimaryExpression
    array : Array → PrimaryExpression
    dictionary : Dictionary → PrimaryExpression
    nested_expression : Expression → PrimaryExpression
    await_expression : AwaitExpression → PrimaryExpression
    try_expression : TryExpression → PrimaryExpression

  pub data FunctionCall : Type 0 where
    call : Located → IdentifierPath → Located → FunctionArguments → FunctionCall

  pub data FunctionArguments : Type 0 where
    no_argument : FunctionArguments
    argument : Located → Option Identifier → Expression → FunctionArguments → FunctionArguments

  pub data Array : Type 0 where
    array_of : Located → Expressions → Array

  pub data Expressions : Type 0 where
    no_expression : Expressions
    element : Expression → Expressions → Expressions

  pub data Dictionary : Type 0 where
    dictionary_of : Located → Assignments → Dictionary

  pub data Assignments : Type 0 where
    no_assignment : Assignments
    assignment : Located → Identifier → Expression → Assignments → Assignments

  pub data AwaitExpression : Type 0 where
    await : Located → Expression → Expression → AwaitExpression

  pub data TryExpression : Type 0 where
    try : Located → Expression → TryExpression

-- The slice of an expression: the base that it shares with its `LogicalExpression`.
abbrev pub expression_position : Expression → Located
expression_position (expression l e k ts) = l
