-- ===== src/Flow/Interpreter/TypedTests.antt =====
-- A workflow with a return type, and a declaration of a name that its scope has.
use ez_cpp.Prelude.{◌++◌, ◌≡◌, refl, Option, none, some, [], ◌∷◌}
use ez_cpp.Prelude.Int.{pos}
use ez_cpp.Flow.Ast.{Signature, Literal, literal, identifier_path}
use ez_cpp.Flow.Ast.Statements.{
  VariableDeclaration, return_statement, WorkflowScope, statement, no_statement, workflow_scope,
  workflow_definition,
}
use ez_cpp.Flow.Types.{TypeInfo, static_type}
use ez_cpp.Flow.Scope.{
  FlowControlPolicy, return_value, find_type_in, ScopeType, current, push, pop, find_entry,
  find_type, edit_current, add,
}
use ez_cpp.Flow.Machine.{
  Eval, evaluation_error, pure, ◌>>=◌, cond, from_option, lookup_type, current_scope,
  returned_value, change_scopes, return_, new_payload, Machine, done, thrown, Outcome, interrupted,
  stopped, declare,
}
use ez_cpp.Flow.Values.{
  defaults, ensure_value, construct, kind_in, construct_kind, make_constructor, value_at,
}
use ez_cpp.Flow.Interpreter.Invocations.{
  bind_inputs, named_type, return_type, bind_arguments, check_result, eval_invocation, invoke,
}
use ez_cpp.Flow.Interpreter.Results.{IsResult, eval_invocation-IsResult}
use ez_cpp.Flow.Interpreter.Declarations.{eval_declaration-declared}
use ez_cpp.Flow.Entity.{Entity, integer, integer_payload, Instanciation, no_call_argument}
use ez_cpp.Flow.Machine.Scoped.{leave, in_scope, in_function}
use ez_cpp.Flow.Values.Payloads.{new_integer, copy}
use ez_cpp.Flow.Interpreter.Terms.{eval_literal}
use ez_cpp.Flow.Interpreter.Expressions.{eval_expression}
use ez_cpp.Flow.Interpreter.Statements.{
  eval_declaration, eval_return, stays, eval_statement, undeclared, eval_initializer,
}
use ez_cpp.Flow.Interpreter.Samples.{platform, here, name, path, simple}

-- A workflow with a return type that returns a number.
abbrev real_signature : Option Signature
real_signature = some (record {
  position = here;
  inputs_position = here;
  inputs = [];
  return_type = some (name "integer");
})

abbrev return_scope : WorkflowScope
return_scope = workflow_scope here (
    statement
      (return_statement
        (record { position = here; expression = simple (literal (Literal.integer here (pos 3))) }))
      no_statement)

abbrev typed_machine : Machine
typed_machine = record {
  evaluation_scope = record {
    scopes =
        record {
          return_value = 0;
          type = ScopeType.function;
          flow_control_policy = FlowControlPolicy.stay;
          entries = record { name = "x"; value = integer 1 } ∷ [];
          types = record { id = "integer"; name = "integer" } ∷ [];
        }
        ∷ [];
    cells = none ∷ [];
  };
  heap = defaults;
  events = [];
}

abbrev returning : Eval Entity
returning =
    eval_invocation platform 5 (invoke platform 5 0)
      (workflow_definition here (name "w") real_signature return_scope)
      (Instanciation.expression (simple (identifier_path (path "w")))) no_call_argument

abbrev returned_machine : Machine
returned_machine = record typed_machine {
  evaluation_scope = record {
    scopes = typed_machine.evaluation_scope.scopes;
    cells = none ∷ some (integer 6) ∷ [];
  };
  heap = defaults ++ integer_payload (pos 3) ∷ [];
}

returning_runs : returning typed_machine ≡ done (integer 6) returned_machine
unfolding bind_inputs new_integer return_value find_type_in eval_return static_type push pop
    find_type pure ◌>>=◌ cond from_option lookup_type current_scope returned_value change_scopes
    return_ new_payload leave in_scope in_function eval_literal eval_expression named_type
    return_type bind_arguments check_result eval_invocation stays eval_statement
returning_runs = refl

eval_invocation-IsResult_example :
    (t : TypeInfo) × (k : Machine) × (return_type real_signature typed_machine ≡ done t k)
    × IsResult t (integer 6)
eval_invocation-IsResult_example =
    eval_invocation-IsResult platform 5 (invoke platform 5 0) here (name "w") real_signature
      return_scope (Instanciation.expression (simple (identifier_path (path "w")))) no_call_argument
      typed_machine returned_machine (integer 6) returning_runs

abbrev declaration : VariableDeclaration
declaration = record { position = here; name = name "y"; type = name "integer"; expression = none }

-- The machine where a run ended with a value.
abbrev machine_of : {A : Type 0} → Machine → Outcome A → Machine
machine_of m (done a m') = m'
machine_of m (thrown x m') = m
machine_of m (interrupted k m') = m
machine_of m (stopped w) = m

abbrev declared_machine : Machine
declared_machine =
    machine_of typed_machine
      (eval_declaration platform 5 (invoke platform 5 0) declaration typed_machine)

declaration_runs :
    eval_declaration platform 5 (invoke platform 5 0) declaration typed_machine
    ≡ done tt declared_machine
unfolding eval_declaration ◌>>=◌ undeclared current_scope current from_option find_entry pure
    lookup_type find_type find_type_in eval_initializer copy ensure_value construct kind_in
    static_type construct_kind declare change_scopes edit_current add make_constructor value_at
declaration_runs = refl

eval_declaration-declared_example :
    eval_declaration platform 5 (invoke platform 5 0) declaration declared_machine
    ≡ thrown (evaluation_error "'y' already declaraed in the current scope " here) declared_machine
eval_declaration-declared_example =
    eval_declaration-declared platform 5 (invoke platform 5 0) declaration declaration typed_machine
      declared_machine tt refl declaration_runs
