-- ===== src/Flow/Interpreter/Related/Invocations.antt =====
-- The evaluation of invocations keeps a relation between computations.
use ez_cpp.Prelude.{ℕ, zero, suc, ◌+◌, ◌≤◌, arith, String, Option, none, some, List, [], ◌∷◌}
use ez_cpp.Flow.Ast.{Signature, Declaration}
use ez_cpp.Flow.Ast.Statements.{WorkflowDefinition, workflow_definition, ProgramAst}
use ez_cpp.Flow.Entity as Entity
use ez_cpp.Flow.Entity.{CallArguments, Instanciation}
use ez_cpp.Flow.Scope.{ScopeType}
use ez_cpp.Flow.Machine.{Eval, stop, out_of_rounds}
use ez_cpp.Flow.Machine.Quiet.{quiet, >>=-IsQuiet, lookup_type-IsQuiet, returned_value-IsQuiet}
use ez_cpp.Flow.Machine.Relation.{
  Congruence, quiet-Related, >>=-Related, pure-Related, cond-Related, from_option-Related,
}
use ez_cpp.Flow.Values.Host.{Platform}
use ez_cpp.Flow.Interpreter.Invocations.{
  bind_inputs, bind_arguments, eval_invocation, invoke, eval_program,
}
use ez_cpp.Flow.Interpreter.Related.Terms.{
  return_type-IsQuiet, call_site-IsQuiet, call_argument_position-IsQuiet, argument_for-IsQuiet,
  check_result-IsQuiet,
}
use ez_cpp.Flow.Interpreter.Related.Expressions.{Invoke}
use ez_cpp.Flow.Interpreter.Related.Statements.{eval_scope-Related, eval_statements-Related}

module _ {R : (A : Type 0) → Eval A → Eval A → Type 0} (K : Congruence R) where
  bind_inputs-Related :
      (ds : List Declaration) (index : ℕ) (first : String) (s : Instanciation)
      (args : CallArguments)
      → R _ (bind_inputs ds index first s args) (bind_inputs ds index first s args)
  unfolding bind_inputs
  bind_inputs-Related [] index first s args = pure-Related K tt
  bind_inputs-Related (d ∷ ds) index first s args =
      >>=-Related K (quiet-Related K (argument_for-IsQuiet _ index args)) (λ v.
        >>=-Related K (quiet-Related K (lookup_type-IsQuiet _)) (λ expected.
          from_option-Related K expected (quiet-Related K (search (quiet, call_site-IsQuiet))) (λ t.
            cond-Related K _
              (>>=-Related K (K.declares _ v)
                (λ u. bind_inputs-Related ds (index + 1) first s args))
              (quiet-Related K
                (search (quiet, call_site-IsQuiet, call_argument_position-IsQuiet))))))

  bind_arguments-Related :
      (g : Option Signature) (s : Instanciation) (args : CallArguments)
      → R _ (bind_arguments g s args) (bind_arguments g s args)
  unfolding bind_arguments
  bind_arguments-Related none s args = pure-Related K tt
  bind_arguments-Related (some g) s args =
      cond-Related K _ (bind_inputs-Related g.inputs 0 _ s args)
        (quiet-Related K (search (quiet, call_site-IsQuiet)))

  pub eval_invocation-Related :
      (P : Platform) (n : ℕ) (i j : Invoke)
      → ((d : WorkflowDefinition) (s : Instanciation) (args : CallArguments)
          → R Entity.Entity (i d s args) (j d s args))
      → (d : WorkflowDefinition) (s : Instanciation) (args : CallArguments)
      → R _ (eval_invocation P n i d s args) (eval_invocation P n j d s args)
  unfolding eval_invocation
  eval_invocation-Related P n i j h (workflow_definition l name g scope) s args =
      >>=-Related K (quiet-Related K (return_type-IsQuiet g)) (λ expected. K.invoked _ _ _ (
        >>=-Related K K.scope_now (λ t. >>=-Related K (bind_arguments-Related g s args) (λ u.
          >>=-Related K (eval_scope-Related K P n i j h scope ScopeType.local) (λ u.
            quiet-Related K (
              >>=-IsQuiet (returned_value-IsQuiet t.return_value)
                (λ o. check_result-IsQuiet expected s o)))))))

  -- With more rounds, where running out of rounds is related to everything.
  pub invoke-Related :
      ((d : WorkflowDefinition) (s : Instanciation) (args : CallArguments) (c : Eval Entity.Entity)
        → R Entity.Entity (stop out_of_rounds) c)
      → (P : Platform) (n rounds more : ℕ) → rounds ≤ more
      → (d : WorkflowDefinition) (s : Instanciation) (args : CallArguments)
      → R _ (invoke P n rounds d s args) (invoke P n more d s args)
  unfolding invoke
  invoke-Related none_left P n zero more le d s args = none_left d s args _
  invoke-Related none_left P n (suc rounds) zero le d s args = absurd (omega (arith, le))
  invoke-Related none_left P n (suc rounds) (suc more) le d s args =
      eval_invocation-Related P n _ _ (invoke-Related none_left P n rounds more (omega (arith, le)))
        d s args

  pub eval_program-Related :
      ((d : WorkflowDefinition) (s : Instanciation) (args : CallArguments) (c : Eval Entity.Entity)
        → R Entity.Entity (stop out_of_rounds) c)
      → (P : Platform) (n rounds more : ℕ) → rounds ≤ more
      → (program : ProgramAst)
      → R _ (eval_program P n rounds program) (eval_program P n more program)
  unfolding eval_program
  eval_program-Related none_left P n rounds more le program =
      eval_statements-Related K P n _ _ (invoke-Related none_left P n rounds more le)
        program.statements
