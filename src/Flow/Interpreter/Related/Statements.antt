-- ===== src/Flow/Interpreter/Related/Statements.antt =====
-- The evaluation of statements keeps a relation between computations.
use ez_cpp.Prelude.{ℕ, zero, suc, String, Option, none, some}
use ez_cpp.Flow.Ast.{Located, Expression}
use ez_cpp.Flow.Ast.Statements.{
  VariableDeclaration, AssignmentStatement, DelayStatement, ReturnStatement, RaiseStatement,
  WorkflowStatement, WorkflowStatements, WorkflowScope, ConditionBlock, ConditionBlocks, IfBlock,
  RepeatBlock, WorkflowDefinition, import_statement, variable_declaration, assignment_statement,
  delay_statement, return_statement, raise_statement, break_statement, expression_statement,
  if_statement, repeat_statement, definition_statement, no_statement, statement, workflow_scope,
  condition_block, no_block, block, if_block, repeat_block, workflow_definition,
}
use ez_cpp.Flow.Entity as Entity
use ez_cpp.Flow.Entity.{CallArguments, Instanciation}
use ez_cpp.Flow.Scope.{ScopeType}
use ez_cpp.Flow.Machine.{Eval}
use ez_cpp.Flow.Machine.Quiet.{lookup_type-IsQuiet, emit-IsQuiet, throw-IsQuiet}
use ez_cpp.Flow.Machine.Relation.{
  Congruence, quiet-Related, >>=-Related, pure-Related, cond-Related, from_option-Related,
}
use ez_cpp.Flow.Values.Host.{Platform}
use ez_cpp.Flow.Values.Quiet.{copy-IsQuiet}
use ez_cpp.Flow.Values.Effects.{ensure_value-IsQuiet, construct-IsQuiet, assign-IsQuiet}
use ez_cpp.Flow.Interpreter.Statements.{
  max_loop_count, stays, undeclared, repeat, eval_initializer, eval_declaration, eval_assignment,
  eval_delay, eval_return, eval_raise, eval_definition, eval_statement, eval_statements, eval_scope,
  eval_condition, eval_if, eval_elif, eval_else, eval_repeat,
}
use ez_cpp.Flow.Interpreter.Related.Terms.{
  eval_path-IsQuiet, truth-IsQuiet, delay_for-IsQuiet, raised-IsQuiet,
}
use ez_cpp.Flow.Interpreter.Related.Expressions.{Invoke, eval_expression-Related}

module _ {R : (A : Type 0) → Eval A → Eval A → Type 0} (K : Congruence R) where
  pub stays-Related : R _ stays stays
  unfolding stays
  stays-Related = >>=-Related K K.scope_now (λ s. pure-Related K _)

  undeclared-Related : (name : String) (l : Located) → R _ (undeclared name l) (undeclared name l)
  unfolding undeclared
  undeclared-Related name l =
      >>=-Related K K.scope_now
        (λ s. from_option-Related K _ (pure-Related K tt) (λ e. quiet-Related K (throw-IsQuiet _)))

  pub repeat-Related :
      (count : ℕ) (c d : Eval (Unit {0})) → R _ c d → R _ (repeat count c) (repeat count d)
  unfolding repeat
  repeat-Related zero c d r = pure-Related K tt
  repeat-Related (suc count) c d r = >>=-Related K r (λ u.
      >>=-Related K stays-Related
        (λ go_on. cond-Related K go_on (repeat-Related count c d r) (pure-Related K tt)))

module _ {R : (A : Type 0) → Eval A → Eval A → Type 0} (K : Congruence R) (P : Platform) (n : ℕ)
    (i j : Invoke)
    (h : (d : WorkflowDefinition) (s : Instanciation) (args : CallArguments)
      → R Entity.Entity (i d s args) (j d s args)) where
  eval_initializer-Related :
      (e : Option Expression) → R _ (eval_initializer P n i e) (eval_initializer P n j e)
  unfolding eval_initializer
  eval_initializer-Related none = pure-Related K _
  eval_initializer-Related (some e) = eval_expression-Related K P n i j h e

  eval_declaration-Related :
      (d : VariableDeclaration) → R _ (eval_declaration P n i d) (eval_declaration P n j d)
  unfolding eval_declaration
  eval_declaration-Related d = >>=-Related K (undeclared-Related K _ _) (λ u.
      >>=-Related K (quiet-Related K (lookup_type-IsQuiet _)) (λ found.
        from_option-Related K found (quiet-Related K (throw-IsQuiet _)) (λ t.
          >>=-Related K (eval_initializer-Related d.expression) (λ args.
            >>=-Related K (quiet-Related K (copy-IsQuiet args)) (λ own.
              >>=-Related K (quiet-Related K (ensure_value-IsQuiet _ (construct-IsQuiet P t own)))
                (λ v. K.declares _ v))))))

  eval_assignment-Related :
      (s : AssignmentStatement) → R _ (eval_assignment P n i s) (eval_assignment P n j s)
  unfolding eval_assignment
  eval_assignment-Related s = >>=-Related K (quiet-Related K (eval_path-IsQuiet s.path)) (λ lhs.
      >>=-Related K (eval_expression-Related K P n i j h s.expression)
        (λ v. >>=-Related K (quiet-Related K (assign-IsQuiet P lhs v)) (λ r. pure-Related K tt)))

  eval_delay-Related : (s : DelayStatement) → R _ (eval_delay P n i s) (eval_delay P n j s)
  unfolding eval_delay
  eval_delay-Related s =
      >>=-Related K (eval_expression-Related K P n i j h s.expression)
        (λ t. quiet-Related K (delay_for-IsQuiet P t _))

  eval_return-Related : (s : ReturnStatement) → R _ (eval_return P n i s) (eval_return P n j s)
  unfolding eval_return
  eval_return-Related s = >>=-Related K (eval_expression-Related K P n i j h s.expression) K.returns

  eval_raise-Related : (s : RaiseStatement) → R _ (eval_raise P n i s) (eval_raise P n j s)
  unfolding eval_raise
  eval_raise-Related s =
      >>=-Related K (eval_expression-Related K P n i j h s.expression)
        (λ v. >>=-Related K (quiet-Related K (raised-IsQuiet v _)) K.returns)

  eval_definition-Related :
      (d : WorkflowDefinition) → R _ (eval_definition P n i d) (eval_definition P n j d)
  unfolding eval_definition
  eval_definition-Related (workflow_definition l name s scope) =
      >>=-Related K (undeclared-Related K _ _) (λ u. K.declares _ _)

  mutual
    unfolding eval_statement

    statement-Related :
        (s : WorkflowStatement) → R _ (eval_statement P n i s) (eval_statement P n j s)
    statement-Related (import_statement s) = quiet-Related K (emit-IsQuiet _)
    statement-Related (variable_declaration d) = eval_declaration-Related d
    statement-Related (assignment_statement s) = eval_assignment-Related s
    statement-Related (delay_statement s) = eval_delay-Related s
    statement-Related (return_statement s) = eval_return-Related s
    statement-Related (raise_statement s) = eval_raise-Related s
    statement-Related (break_statement s) = K.breaks
    statement-Related (expression_statement e) =
        >>=-Related K (eval_expression-Related K P n i j h e) (λ v. pure-Related K tt)
    statement-Related (if_statement b) = if-Related b
    statement-Related (repeat_statement b) = repeat_block-Related b
    statement-Related (definition_statement d) = eval_definition-Related d

    pub eval_statements-Related :
        (ss : WorkflowStatements) → R _ (eval_statements P n i ss) (eval_statements P n j ss)
    eval_statements-Related no_statement = pure-Related K tt
    eval_statements-Related (statement s rest) = >>=-Related K (statement-Related s) (λ u.
        >>=-Related K (stays-Related K)
          (λ go_on. cond-Related K go_on (eval_statements-Related rest) (pure-Related K tt)))

    pub eval_scope-Related :
        (s : WorkflowScope) (t : ScopeType) → R _ (eval_scope P n i s t) (eval_scope P n j s t)
    eval_scope-Related (workflow_scope l ss) t = K.scoped _ t _ _ (eval_statements-Related ss)

    condition-Related : (c : ConditionBlock) → R _ (eval_condition P n i c) (eval_condition P n j c)
    condition-Related (condition_block l e scope) =
        >>=-Related K (eval_expression-Related K P n i j h e) (λ c.
          >>=-Related K (quiet-Related K (truth-IsQuiet c _)) (λ holds.
            cond-Related K holds
              (>>=-Related K (eval_scope-Related scope ScopeType.local) (λ u. pure-Related K _))
              (pure-Related K _)))

    if-Related : (b : IfBlock) → R _ (eval_if P n i b) (eval_if P n j b)
    if-Related (if_block l if_ elif_blocks else_) =
        >>=-Related K (condition-Related if_) (λ evaluated.
          >>=-Related K (stays-Related K) (λ go_on.
            cond-Related K go_on
              (cond-Related K evaluated (pure-Related K tt) (
                >>=-Related K (elif-Related elif_blocks)
                  (λ more. cond-Related K more (else-Related else_) (pure-Related K tt))))
              (pure-Related K tt)))

    elif-Related : (bs : ConditionBlocks) → R _ (eval_elif P n i bs) (eval_elif P n j bs)
    elif-Related no_block = pure-Related K _
    elif-Related (block b bs) = >>=-Related K (condition-Related b) (λ evaluated.
        cond-Related K evaluated (pure-Related K _) (
          >>=-Related K (stays-Related K)
            (λ go_on. cond-Related K go_on (elif-Related bs) (pure-Related K _))))

    else-Related : (s : WorkflowScope) → R _ (eval_else P n i s) (eval_else P n j s)
    else-Related (workflow_scope l no_statement) = pure-Related K tt
    else-Related (workflow_scope l (statement s ss)) =
        K.scoped _ ScopeType.local _ _ (eval_statements-Related (statement s ss))

    repeat_block-Related : (b : RepeatBlock) → R _ (eval_repeat P n i b) (eval_repeat P n j b)
    repeat_block-Related (repeat_block l scope) =
        repeat-Related K max_loop_count _ _ (eval_scope-Related scope ScopeType.loop)
