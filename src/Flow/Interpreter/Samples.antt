-- ===== src/Flow/Interpreter/Samples.antt =====
-- A platform whose doubles are numbers, syntax with one position and a machine, on which the programs of the
-- tests run.
use ez_cpp.Prelude.{none, some, [], ◌∷◌, String, ◌+◌, ◌-◌, ◌*◌, ◌==◌, ltb, leb}
use ez_cpp.Prelude.Int.{pos, pos_part}
use ez_cpp.Flow.Ast.{
  Located, Identifier, IdentifierPath, PrimaryExpression, Expression, expression, no_logical,
  equality_expression, no_equality, relational_expression, no_relational, additive_expression,
  no_additive, multiplicative_expression, no_multiplicative, unary,
}
use ez_cpp.Flow.Scope.{ScopeType, new_scope}
use ez_cpp.Flow.Machine.{Machine}
use ez_cpp.Flow.Values.{defaults}
use ez_cpp.Flow.Values.Host.{Platform}

abbrev pub platform : Platform
platform = record {
  real_of_int = pos_part;
  int_of_real = pos;
  real_add = λ a b. a + b;
  real_sub = λ a b. a - b;
  real_mult = λ a b. a * b;
  real_less = ltb;
  real_less_eq = leb;
  real_eq = λ a b. a == b;
  real_text = λ d. "real";
  moved_from = λ s. "";
  start_time = 0;
  address_text = λ e. "entity";
  replace_all = λ text from to. text;
  boost_format = λ base texts. some base;
  code = λ l. "code";
  file_path = "file";
  answer = λ k m es. none;
  interrupts = λ es. none;
}

abbrev pub here : Located
here = record { start_position = 0; end_position = 1 }

abbrev pub name : String → Identifier
name s = record { position = here; text = s }

abbrev pub path : String → IdentifierPath
path s = record { position = here; identifiers = name s ∷ [] }

abbrev pub simple : PrimaryExpression → Expression
simple e =
    expression here
      (equality_expression here
        (relational_expression here
          (additive_expression here
            (multiplicative_expression here (unary here none e) here no_multiplicative) here
            no_additive)
          here no_relational)
        here no_equality)
      here no_logical

abbrev pub machine : Machine
machine = record {
  evaluation_scope = record { scopes = new_scope 0 ScopeType.function ∷ []; cells = none ∷ [] };
  heap = defaults;
  events = [];
}
