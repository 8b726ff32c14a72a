-- ===== src/Flow/Interpreter/Tests.antt =====
-- Programs, loops and scopes run by the interpreter.
use ez_cpp.Flow.Interpreter.Conditionals.{Decides, decides, taken, passed, eval_if-Selects}
use ez_cpp.Flow.Entity.{boolean_payload}
use ez_cpp.Flow.Values.Host.{Platform, suspend}
use ez_cpp.Flow.Duration.{to_std_duration, ticks}
use ez_cpp.Prelude.{
  subst, ℕ, ◌≡◌, refl, sym, true, Option, none, some, List, [], ◌∷◌, length, Bool, false, ◌++◌,
}
use ez_cpp.Flow.Ast.{DurationUnit, Literal, literal, identifier_path, await_expression, await}
use ez_cpp.Flow.Ast.Statements.{
  repeat_block, WorkflowScope, ProgramAst, import_statement, expression_statement,
  definition_statement, statement, no_statement, workflow_scope, workflow_definition,
  delay_statement, ConditionBlock, condition_block, if_block, block, no_block,
}
use ez_cpp.Flow.Types.{static_type}
use ez_cpp.Flow.Scope.{ScopeType, push, pop, find_entry, find_entity, add, new_scope, current}
use ez_cpp.Flow.Machine.{
  Event, trace, pure, ◌>>=◌, cond, from_option, lookup_entity, current_scope, returned_value,
  change_scopes, declare, new_payload, payload, emit, past, Machine, Outcome, done, thrown, stopped,
  interrupted, interrupt,
}
use ez_cpp.Flow.Interpreter.Invocations.{
  return_type, bind_arguments, check_result, eval_invocation, invoke, eval_program,
}
use ez_cpp.Flow.Interpreter.Loops.{iterate, eval_repeat-iterates}
use ez_cpp.Flow.Machine.Scoped.{leave, in_scope, in_function, or_timeout, after_timeout}
use ez_cpp.Flow.Values.Payloads.{
  as_duration, duration_value, new_duration, boolean_value, new_boolean, as_boolean,
}
use ez_cpp.Flow.Interpreter.Terms.{eval_literal, properties, eval_names, eval_path}
use ez_cpp.Flow.Interpreter.Expressions.{
  timeout_of, eval_invocation_within, await_entity, eval_expression, std_duration,
}
use ez_cpp.Flow.Interpreter.Statements.{
  eval_scope, eval_repeat, stays, undeclared, eval_definition, eval_statement, delay_for,
  eval_delay, truth, eval_if,
}
use ez_cpp.Flow.Interpreter.Samples.{platform, here, name, path, simple, machine}

-- A workflow that imports, and an await of it.
abbrev program : ProgramAst
program = record {
  position = here;
  statements =
      statement
        (definition_statement (
          workflow_definition here (name "w") none (
            workflow_scope here (
              statement (import_statement (record { position = here; path = path "m" }))
                no_statement))))
        (statement
          (expression_statement (
            simple (
              await_expression (
                await here (simple (identifier_path (path "w")))
                  (simple (literal (Literal.duration here 1 DurationUnit.sec)))))))
          no_statement);
}

-- Whether a run ended without an exception, after how many events.
abbrev events_of : {A : Type 0} → Outcome A → Option ℕ
events_of (done a m) = some (length m.events)
events_of (thrown x m) = none
events_of (interrupted k m) = none
events_of (stopped w) = none

program_runs : events_of (eval_program platform 5 1 program machine) ≡ some 2
unfolding static_type push pop find_entry find_entity add pure ◌>>=◌ cond from_option lookup_entity
    current_scope returned_value change_scopes declare new_payload payload emit past leave in_scope
    in_function as_duration duration_value new_duration eval_literal properties eval_names eval_path
    timeout_of eval_invocation_within await_entity eval_expression return_type bind_arguments
    check_result eval_invocation invoke eval_program stays undeclared eval_definition eval_statement
    or_timeout after_timeout std_duration to_std_duration ticks
program_runs = refl

-- A workflow that waits for a second, and an await of it for a millisecond.
abbrev waiting_program : ProgramAst
waiting_program = record {
  position = here;
  statements =
      statement
        (definition_statement (
          workflow_definition here (name "w") none (
            workflow_scope here (
              statement
                (delay_statement (record {
                  position = here;
                  expression = simple (literal (Literal.duration here 1 DurationUnit.sec));
                }))
                no_statement))))
        (statement
          (expression_statement (
            simple (
              await_expression (
                await here (simple (identifier_path (path "w")))
                  (simple (literal (Literal.duration here 1 DurationUnit.ms)))))))
          no_statement);
}

-- Every wait is longer than the timeout of the invocation that it is in.
abbrev impatient : Platform
impatient = record platform { interrupts = λ es. some 0 }

-- How many scopes are left where a run ended with a value.
abbrev scopes_of : {A : Type 0} → Outcome A → Option ℕ
scopes_of (done a m) = some (length m.evaluation_scope.scopes)
scopes_of (thrown x m) = none
scopes_of (interrupted k m) = none
scopes_of (stopped w) = none

-- The scope of the invocation is left where its timeout comes first.
timeout_leaves_scope : scopes_of (eval_program impatient 5 1 waiting_program machine) ≡ some 2
unfolding static_type push pop find_entry find_entity add pure ◌>>=◌ cond from_option lookup_entity
    current_scope returned_value change_scopes declare new_payload payload emit past leave in_scope
    in_function as_duration duration_value new_duration eval_literal properties eval_names eval_path
    timeout_of eval_invocation_within await_entity eval_expression return_type bind_arguments
    check_result eval_invocation invoke eval_program stays undeclared eval_definition eval_statement
    or_timeout after_timeout interrupt suspend std_duration to_std_duration ticks delay_for
    eval_delay
timeout_leaves_scope = refl

no_timeout_no_scope : scopes_of (eval_program platform 5 1 waiting_program machine) ≡ some 1
unfolding static_type push pop find_entry find_entity add pure ◌>>=◌ cond from_option lookup_entity
    current_scope returned_value change_scopes declare new_payload payload emit past leave in_scope
    in_function as_duration duration_value new_duration eval_literal properties eval_names eval_path
    timeout_of eval_invocation_within await_entity eval_expression return_type bind_arguments
    check_result eval_invocation invoke eval_program stays undeclared eval_definition eval_statement
    or_timeout after_timeout suspend std_duration to_std_duration ticks delay_for eval_delay
no_timeout_no_scope = refl

-- The machine in a workflow with other events.
abbrev machine_after : List Event → Machine
machine_after es = record machine { events = es }

abbrev traced : Machine → Machine
traced m = record m { events = trace "Imports are not supported yet" ∷ m.events }

abbrev import_scope : WorkflowScope
import_scope =
    workflow_scope here
      (statement (import_statement (record { position = here; path = path "m" })) no_statement)

abbrev Goes : Machine → Type 0
Goes m = (es : List Event) × (m ≡ machine_after es)

import_runs :
    (es : List Event)
    → eval_scope platform 5 (invoke platform 5 0) import_scope ScopeType.loop (machine_after es)
      ≡ done tt (traced (machine_after es))
unfolding push pop pure ◌>>=◌ cond current_scope change_scopes emit leave in_scope stays
    eval_statement
import_runs es = refl

stays_runs : (es : List Event) → stays (machine_after es) ≡ done true (machine_after es)
unfolding push pure ◌>>=◌ current_scope stays
stays_runs es = refl

import_step :
    (k : Machine)
    → Goes k
    → (eval_scope platform 5 (invoke platform 5 0) import_scope ScopeType.loop k
        ≡ done tt (traced k))
      × Goes (traced k)
      × (stays (traced k) ≡ done true (traced k))
import_step k (es, e) =
    subst
      (λ k.
        (eval_scope platform 5 (invoke platform 5 0) import_scope ScopeType.loop k
          ≡ done tt (traced k))
        × Goes (traced k)
        × (stays (traced k) ≡ done true (traced k)))
      (sym e) (import_runs es, (_, refl), stays_runs _)

eval_repeat-iterates_example :
    eval_repeat platform 5 (invoke platform 5 0) (repeat_block here import_scope) machine
    ≡ done tt (iterate 1000 traced machine)
eval_repeat-iterates_example =
    eval_repeat-iterates platform 5 (invoke platform 5 0) here import_scope traced Goes machine
      import_step ([], refl)

-- `if false`, `elif true` and no `else`, each with an import.
abbrev when : Bool → ConditionBlock
when b = condition_block here (simple (literal (Literal.boolean b))) import_scope

abbrev with_boolean : Bool → Machine → Machine
with_boolean b m = record m { heap = m.heap ++ boolean_payload b ∷ [] }

if-Decides :
    Decides platform 5
      (invoke platform 5 0)
      (simple (literal (Literal.boolean false)))
      machine
      false
      (with_boolean false machine)
unfolding eval_expression eval_literal truth boolean_value new_boolean as_boolean new_payload
    payload pure ◌>>=◌
if-Decides = decides _ _ refl refl

elif-Decides :
    Decides platform 5
      (invoke platform 5 0)
      (simple (literal (Literal.boolean true)))
      (with_boolean false machine)
      true
      (with_boolean true (with_boolean false machine))
unfolding eval_expression eval_literal truth boolean_value new_boolean as_boolean new_payload
    payload pure ◌>>=◌
elif-Decides = decides _ _ refl refl

if_stays : stays (with_boolean false machine) ≡ done true (with_boolean false machine)
unfolding push pure ◌>>=◌ current_scope stays
if_stays = refl

elif_runs :
    eval_scope platform 5
      (invoke platform 5 0)
      import_scope
      ScopeType.local
      (with_boolean true (with_boolean false machine))
    ≡ done tt (traced (with_boolean true (with_boolean false machine)))
unfolding push pop pure ◌>>=◌ cond current_scope change_scopes emit leave in_scope stays
    eval_statement
elif_runs = refl

now_current :
    current (traced (with_boolean true (with_boolean false machine))).evaluation_scope
    ≡ some (new_scope 0 ScopeType.function)
unfolding current
now_current = refl

eval_if-Selects_example :
    eval_if platform 5
      (invoke platform 5 0)
      (if_block here (when false) (block (when true) no_block) (workflow_scope here no_statement))
      machine
    ≡ done tt (traced (with_boolean true (with_boolean false machine)))
eval_if-Selects_example =
    eval_if-Selects platform 5 (invoke platform 5 0) here (when false) (block (when true) no_block)
      (workflow_scope here no_statement) machine
      (traced (with_boolean true (with_boolean false machine))) (new_scope 0 ScopeType.function)
      now_current (passed if-Decides if_stays (taken elif-Decides elif_runs))
