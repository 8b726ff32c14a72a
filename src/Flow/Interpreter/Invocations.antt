-- ===== src/Flow/Interpreter/Invocations.antt =====
-- `eval(WorkflowInvocation)` of src/libs/flow/src/engine/eval/interpreter_workflow.cpp, and the program of
-- interpreter_program.cpp.
-- A round is spent on each invocation that is awaited within another.
use Prim.Native.String.{◌++◌ as ◌+++◌}
use ez_cpp.Prelude.{ℕ, zero, suc, ◌+◌, String, Option, none, some, List, [], ◌∷◌, ◌==◌, length}
use ez_cpp.Prelude.Int.{pos}
use ez_cpp.Flow.Ast.{
  Located, Identifier, Declaration, Signature, FunctionCall, FunctionArguments, call, no_argument,
  argument, expression_position,
}
use ez_cpp.Flow.Ast.Statements.{WorkflowDefinition, workflow_definition, ProgramAst}
use ez_cpp.Flow.Types.{TypeInfo, EntityKind, static_type, same_type}
use ez_cpp.Flow.Entity as Entity
use ez_cpp.Flow.Entity.{Instanciation, CallArguments, type, size}
use ez_cpp.Flow.Scope.{ScopeType}
use ez_cpp.Flow.Machine.{
  cond, from_option, Eval, pure, throw, stop, ◌>>=◌, ◌>>◌, current_scope, lookup_type, declare,
  returned_value, evaluation_error, out_of_range, bad_variant_access, out_of_rounds,
}
use ez_cpp.Flow.Machine.Scoped.{in_function}
use ez_cpp.Flow.Values.Host.{Platform}
use ez_cpp.Flow.Values.Payloads.{new_integer}
use ez_cpp.Flow.Values.Dictionaries.{find, at}
use ez_cpp.Flow.Values.Printing.{to_string}
use ez_cpp.Flow.Interpreter.Statements.{eval_scope, eval_statements}

unfoldable pub named_type : Identifier → Eval TypeInfo
named_type name = do
  found ← lookup_type name.text
  from_option found
      (throw
        (evaluation_error ("Unknown return type " +++ name.text +++ " not found") name.position))
      pure

-- The type of the value that an invocation gives.
unfoldable pub return_type : Option Signature → Eval TypeInfo
return_type none = pure (static_type EntityKind.void)
return_type (some signature) =
    from_option signature.return_type (pure (static_type EntityKind.void)) named_type

-- `instanciation.as<Statement<FunctionCall>>()`.
unfoldable pub call_site : Instanciation → Eval FunctionCall
call_site (Instanciation.function_call c) = pure c
call_site (Instanciation.expression e) = throw bad_variant_access

abbrev path_position : FunctionCall → Located
path_position (call l path k arguments) = path.position

abbrev arguments_position : FunctionCall → Located
arguments_position (call l path k arguments) = k

-- `arguments.at(index)`.
unfoldable pub argument_position : FunctionArguments → ℕ → Eval Located
argument_position no_argument i = throw out_of_range
argument_position (argument l name e rest) zero = pure l
argument_position (argument l name e rest) (suc i) = argument_position rest i

unfoldable pub call_argument_position : FunctionCall → ℕ → Eval Located
call_argument_position (call l path k arguments) i = argument_position arguments i

-- `arguments.find(input.name)`, else `arguments.at(index)`.
unfoldable pub argument_for : String → ℕ → CallArguments → Eval Entity.Entity
argument_for name index args = from_option (find name args) (at args index) pure

-- The loop over the inputs. The message on a type that is not found names the type of the first.
unfoldable pub bind_inputs :
    List Declaration → ℕ → String → Instanciation → CallArguments → Eval (Unit {0})
bind_inputs [] index first instanciation args = pure tt
bind_inputs (input ∷ inputs) index first instanciation args = do
  value ← argument_for input.name.text index args
  expected ← lookup_type input.type.text
  from_option expected
      (do
        site ← call_site instanciation
        throw (evaluation_error ("Type " +++ first +++ " not found") (arguments_position site)))
      (λ t.
        cond (same_type t (type value))
          (do
            declare input.name.text value
            bind_inputs inputs (index + 1) first instanciation args)
          (do
            site ← call_site instanciation
            location ← call_argument_position site index
            throw (
                evaluation_error
                  ("Type mismatch for argument '"
                    +++ input.name.text
                    +++ "': expected a '"
                    +++ input.type.text
                    +++ "' while got a '"
                    +++ (type value).name
                    +++ "'")
                  location)))

abbrev first_type : List Declaration → String
first_type [] = ""
first_type (input ∷ inputs) = input.type.text

-- The arguments, counted and bound. The message on another count says how many were given.
unfoldable pub bind_arguments : Option Signature → Instanciation → CallArguments → Eval (Unit {0})
bind_arguments none instanciation args = pure tt
bind_arguments (some signature) instanciation args =
    cond (size args == length signature.inputs)
      (bind_inputs signature.inputs 0 (first_type signature.inputs) instanciation args)
      (do
        site ← call_site instanciation
        throw (
            evaluation_error
              ("Invalid argument count: expected " +++ to_string (pos (size args)) +++ " arguments")
              (arguments_position site)))

abbrev result_position : Instanciation → Located
result_position (Instanciation.function_call c) = path_position c
result_position (Instanciation.expression x) = expression_position x

-- The checks of the value that the body returned, if it did.
unfoldable pub check_result : TypeInfo → Instanciation → Option Entity.Entity → Eval Entity.Entity
check_result expected instanciation none =
    cond (same_type expected (static_type EntityKind.void)) (pure Entity.void) (do
      site ← call_site instanciation
      throw (evaluation_error "Workflow did not return any value" (path_position site)))
check_result expected instanciation (some e) = cond (same_type (type e) expected) (pure e) (
    cond (same_type (type e) (static_type EntityKind.error)) (pure e) (
      throw (
        evaluation_error
          ("Invalid return type: expected a " +++ expected.name +++ ", got a " +++ (type e).name)
          (result_position instanciation))))

module _ (P : Platform) (rounds : ℕ) where
  -- `s` is the scope that was pushed, whose cell the source reads at the end, also where the timeouts of
  -- invocations within have left scopes above it.
  unfoldable pub eval_invocation :
      (WorkflowDefinition → Instanciation → CallArguments → Eval Entity.Entity)
      → WorkflowDefinition
      → Instanciation
      → CallArguments
      → Eval Entity.Entity
  eval_invocation invoke (workflow_definition l name signature scope) instanciation args = do
    expected ← return_type signature
    in_function (do
      s ← current_scope
      bind_arguments signature instanciation args
      eval_scope P rounds invoke scope ScopeType.local
      value ← returned_value s.return_value
      check_result expected instanciation value)

  unfoldable pub invoke :
      ℕ → WorkflowDefinition → Instanciation → CallArguments → Eval Entity.Entity
  invoke zero definition instanciation args = stop out_of_rounds
  invoke (suc n) definition instanciation args =
      eval_invocation (invoke n) definition instanciation args

  -- `Interpreter::eval` of a program, with n rounds for its invocations.
  unfoldable pub eval_program : ℕ → ProgramAst → Eval (Unit {0})
  eval_program n program = eval_statements P rounds (invoke n) program.statements

-- `set_instance_id`.
unfoldable pub set_instance_id : ℕ → Eval (Unit {0})
set_instance_id id = do e ← new_integer (pos id); declare "instance_id" e
