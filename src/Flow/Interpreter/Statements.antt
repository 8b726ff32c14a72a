-- ===== src/Flow/Interpreter/Statements.antt =====
-- The statements of interpreter_workflow.cpp, src/libs/flow/src/engine/eval. `invoke` evaluates an awaited
-- invocation.
use Prim.Native.String.{◌++◌ as ◌+++◌}
use ez_cpp.Prelude.{ℕ, zero, suc, String, Bool, true, false, Option, none, some}
use ez_cpp.Flow.Ast.{Located, Expression, expression_position}
use ez_cpp.Flow.Ast.Statements.{
  VariableDeclaration, AssignmentStatement, DelayStatement, ReturnStatement, RaiseStatement,
  WorkflowStatement, WorkflowStatements, WorkflowScope, ConditionBlock, ConditionBlocks, IfBlock,
  RepeatBlock, WorkflowDefinition, import_statement, variable_declaration, assignment_statement,
  delay_statement, return_statement, raise_statement, break_statement, expression_statement,
  if_statement, repeat_statement, definition_statement, no_statement, statement, workflow_scope,
  condition_block, no_block, block, if_block, repeat_block, workflow_definition,
}
use ez_cpp.Flow.Types.{EntityKind, static_type}
use ez_cpp.Flow.Entity as Entity
use ez_cpp.Flow.Entity.{Instanciation, CallArguments}
use ez_cpp.Flow.Scope.{ScopeType, FlowControlPolicy, find_entry}
use ez_cpp.Flow.Machine.{
  cond, from_option, Eval, pure, throw, ◌>>=◌, ◌>>◌, current_scope, lookup_type, declare, return_,
  break_, emit, trace, delay, evaluation_error, bad_variant_access,
}
use ez_cpp.Flow.Machine.Scoped.{in_scope}
use ez_cpp.Flow.Values.{ensure_value, construct, assign, convert}
use ez_cpp.Flow.Values.Host.{Platform, suspend}
use ez_cpp.Flow.Values.Payloads.{copy, boolean_value, string_value, duration_value}
use ez_cpp.Flow.Interpreter.Terms.{eval_path, expected_duration}
use ez_cpp.Flow.Interpreter.Expressions.{eval_expression, std_duration}

-- `options.max_loop_count`.
abbrev pub max_loop_count : ℕ
max_loop_count = 1000

-- Whether the flow control of the current scope is still `Stay`.
unfoldable pub stays : Eval Bool
stays = do
  s ← current_scope
  pure (elim s.flow_control_policy [ FlowControlPolicy.stay ↦ true | _ ↦ false ])

-- The guard of a declaration: a name is declared once in a scope.
unfoldable pub undeclared : String → Located → Eval (Unit {0})
undeclared name location = do
  s ← current_scope
  from_option (find_entry name s.entries) (pure tt) (λ entry.
      throw
        (evaluation_error ("'" +++ name +++ "' already declaraed in the current scope ") location))

unfoldable pub truth_of : Entity.Entity → Eval Bool
truth_of (Entity.boolean p) = boolean_value p
truth_of other = throw bad_variant_access

-- The value of a condition as a Boolean.
unfoldable pub truth : Entity.Entity → Located → Eval Bool
truth (Entity.boolean p) location = boolean_value p
truth other location =
    ensure_value (pure (convert other (static_type EntityKind.boolean))) location >>= truth_of

unfoldable pub delay_for : Platform → Entity.Entity → Located → Eval (Unit {0})
delay_for P (Entity.duration p) location = do
  d ← duration_value p
  ticks ← std_duration d
  emit (delay ticks)
  suspend P
delay_for P other location = expected_duration other location

-- The loop of RepeatBlock over an iteration.
unfoldable pub repeat : ℕ → Eval (Unit {0}) → Eval (Unit {0})
repeat zero iteration = pure tt
repeat (suc count) iteration = do
  iteration
  go_on ← stays
  cond go_on (repeat count iteration) (pure tt)

-- The error of a RaiseStatement.
unfoldable pub raised : Entity.Entity → Located → Eval Entity.Entity
raised (Entity.string p) location = do s ← string_value p; pure (Entity.error s none)
raised (Entity.error what where_) location = pure (Entity.error what where_)
raised _ location = throw (evaluation_error "Expecting a string or error expression" location)

module _ (P : Platform) (rounds : ℕ)
    (invoke : WorkflowDefinition → Instanciation → CallArguments → Eval Entity.Entity) where
  abbrev eval : Expression → Eval Entity.Entity
  eval = eval_expression P rounds invoke

  unfoldable pub eval_initializer : Option Expression → Eval Entity.Entity
  eval_initializer none = pure Entity.void
  eval_initializer (some e) = eval e

  unfoldable pub eval_declaration : VariableDeclaration → Eval (Unit {0})
  eval_declaration d = do
    undeclared d.name.text d.position
    found ← lookup_type d.type.text
    from_option found
        (throw (evaluation_error ("Unknown type '" +++ d.type.text +++ "'") d.type.position))
        (λ t. do
          arguments ← eval_initializer d.expression
          own ← copy arguments
          value ← ensure_value (construct P t own) d.position
          declare d.name.text value)

  -- What the assignment answers is dropped, and so is the variable that it may rebind.
  unfoldable pub eval_assignment : AssignmentStatement → Eval (Unit {0})
  eval_assignment s = do
    lhs ← eval_path s.path
    value ← eval s.expression
    result ← assign P lhs value
    pure tt

  unfoldable pub eval_delay : DelayStatement → Eval (Unit {0})
  eval_delay s = do
    timeout ← eval s.expression
    delay_for P timeout (expression_position s.expression)

  unfoldable pub eval_return : ReturnStatement → Eval (Unit {0})
  eval_return s = do value ← eval s.expression; return_ value

  unfoldable pub eval_raise : RaiseStatement → Eval (Unit {0})
  eval_raise s = do
    value ← eval s.expression
    e ← raised value (expression_position s.expression)
    return_ e

  unfoldable pub eval_definition : WorkflowDefinition → Eval (Unit {0})
  eval_definition (workflow_definition l name signature scope) = do
    undeclared name.text l
    declare name.text (Entity.workflow_definition (workflow_definition l name signature scope))

  unfoldable mutual
    pub eval_statement : WorkflowStatement → Eval (Unit {0})
    eval_statement (import_statement s) = emit (trace "Imports are not supported yet")
    eval_statement (variable_declaration d) = eval_declaration d
    eval_statement (assignment_statement s) = eval_assignment s
    eval_statement (delay_statement s) = eval_delay s
    eval_statement (return_statement s) = eval_return s
    eval_statement (raise_statement s) = eval_raise s
    eval_statement (break_statement s) = break_
    eval_statement (expression_statement e) = do value ← eval e; pure tt
    eval_statement (if_statement b) = eval_if b
    eval_statement (repeat_statement b) = eval_repeat b
    eval_statement (definition_statement d) = eval_definition d

    -- The loop over the statements of a scope or of the program.
    pub eval_statements : WorkflowStatements → Eval (Unit {0})
    eval_statements no_statement = pure tt
    eval_statements (statement s rest) = do
      eval_statement s
      go_on ← stays
      cond go_on (eval_statements rest) (pure tt)

    pub eval_scope : WorkflowScope → ScopeType → Eval (Unit {0})
    eval_scope (workflow_scope l ss) t = in_scope t (eval_statements ss)

    -- What it leaves in `evaluated`.
    pub eval_condition : ConditionBlock → Eval Bool
    eval_condition (condition_block l e scope) = do
      condition ← eval e
      holds ← truth condition (expression_position e)
      cond holds (do eval_scope scope ScopeType.local; pure true) (pure false)

    pub eval_if : IfBlock → Eval (Unit {0})
    eval_if (if_block l if_ elif_blocks else_) = do
      evaluated ← eval_condition if_
      go_on ← stays
      cond go_on
          (cond evaluated (pure tt)
            (do more ← eval_elif elif_blocks; cond more (eval_else else_) (pure tt)))
          (pure tt)

    -- Whether the block goes on after the loop over the `elif` blocks.
    pub eval_elif : ConditionBlocks → Eval Bool
    eval_elif no_block = pure true
    eval_elif (block b bs) = do
      evaluated ← eval_condition b
      cond evaluated (pure false) (do go_on ← stays; cond go_on (eval_elif bs) (pure false))

    pub eval_else : WorkflowScope → Eval (Unit {0})
    eval_else (workflow_scope l no_statement) = pure tt
    eval_else (workflow_scope l (statement s ss)) =
        in_scope ScopeType.local (eval_statements (statement s ss))

    pub eval_repeat : RepeatBlock → Eval (Unit {0})
    eval_repeat (repeat_block l scope) = repeat max_loop_count (eval_scope scope ScopeType.loop)
