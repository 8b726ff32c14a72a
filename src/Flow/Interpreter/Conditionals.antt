-- ===== src/Flow/Interpreter/Conditionals.antt =====
-- `eval` of an IfBlock in interpreter_workflow.cpp against a description of which of its blocks runs.
use ez_cpp.Prelude.{ℕ, ◌≡◌, refl, ◌∙◌, Bool, true, false, some, ap, sym, ◌⊎◌, inl, inr}
use ez_cpp.Flow.Ast.{Located, Expression, expression_position}
use ez_cpp.Flow.Ast.Statements.{
  WorkflowStatement, WorkflowStatements, WorkflowScope, ConditionBlocks, no_statement, statement,
  workflow_scope, condition_block, no_block, block, if_block, ConditionBlock,
}
use ez_cpp.Flow.Entity.{Entity}
use ez_cpp.Flow.Scope.{Scope, ScopeType, current}
use ez_cpp.Flow.Machine.{Machine, Eval, done, ◌>>=◌, pure, cond, current_scope}
use ez_cpp.Flow.Machine.Runs.{>>=-done, current_scope-done}
use ez_cpp.Flow.Values.Host.{Platform}
use ez_cpp.Flow.Interpreter.Expressions.{eval_expression}
use ez_cpp.Flow.Interpreter.Statements.{
  stays, truth, eval_condition, eval_elif, eval_else, eval_if, eval_scope,
}
use ez_cpp.Flow.Interpreter.Related.Expressions.{Invoke}

module _ (P : Platform) (n : ℕ) (invoke : Invoke) where
  -- The value of the condition `e` as a Boolean, and the machine after it.
  pub data Decides (e : Expression) (m : Machine) (b : Bool) (m' : Machine) : Type 0 where
    decides :
        (v : Entity) (k : Machine)
        → eval_expression P n invoke e m ≡ done v k
        → truth v (expression_position e) k ≡ done b m'
        → Decides e m b m'

  -- Which block of a conditional runs: the first one whose condition is true, else the `else` block, if
  -- it has a statement; and the machine where it has ended. The conditions before it are evaluated, each
  -- once, and leave no return or break pending.
  pub data Selects (else_ : WorkflowScope) : ConditionBlocks → Machine → Machine → Type 0 where
    taken :
        {l : Located} {e : Expression} {scope : WorkflowScope} {bs : ConditionBlocks}
        {m k m' : Machine}
        → Decides e m true k
        → eval_scope P n invoke scope ScopeType.local k ≡ done tt m'
        → Selects else_ (block (condition_block l e scope) bs) m m'
    passed :
        {l : Located} {e : Expression} {scope : WorkflowScope} {bs : ConditionBlocks}
        {m k m' : Machine}
        → Decides e m false k
        → stays k ≡ done true k
        → Selects else_ bs k m'
        → Selects else_ (block (condition_block l e scope) bs) m m'
    none_taken :
        {m m' : Machine}
        → (l : Located) (s : WorkflowStatement) (ss : WorkflowStatements)
        → else_ ≡ workflow_scope l (statement s ss)
        → eval_scope P n invoke else_ ScopeType.local m ≡ done tt m'
        → Selects else_ no_block m m'
    no_else :
        {m : Machine}
        → (l : Located) → else_ ≡ workflow_scope l no_statement
        → Selects else_ no_block m m

  condition_taken :
      (l : Located) (e : Expression) (scope : WorkflowScope) (m k m' : Machine)
      → Decides e m true k
      → eval_scope P n invoke scope ScopeType.local k ≡ done tt m'
      → eval_condition P n invoke (condition_block l e scope) m ≡ done true m'
  unfolding eval_condition cond pure
  condition_taken l e scope m k m' (decides v j value holds) runs =
      >>=-done (eval_expression P n invoke e) _ m j v value
      ∙ >>=-done (truth v (expression_position e)) _ j k true holds
      ∙ >>=-done (eval_scope P n invoke scope ScopeType.local) _ k m' tt runs

  condition_passed :
      (l : Located) (e : Expression) (scope : WorkflowScope) (m k : Machine)
      → Decides e m false k
      → eval_condition P n invoke (condition_block l e scope) m ≡ done false k
  unfolding eval_condition cond pure
  condition_passed l e scope m k (decides v j value holds) =
      >>=-done (eval_expression P n invoke e) _ m j v value
      ∙ >>=-done (truth v (expression_position e)) _ j k false holds

  else_runs :
      (l : Located) (s : WorkflowStatement) (ss : WorkflowStatements) (else_ : WorkflowScope)
      (m m' : Machine)
      → else_ ≡ workflow_scope l (statement s ss)
      → eval_scope P n invoke else_ ScopeType.local m ≡ done tt m'
      → eval_else P n invoke else_ m ≡ done tt m'
  unfolding eval_else
  else_runs l s ss else_ m m' e runs =
      ap (λ x. eval_else P n invoke x m) e
      ∙ ap (λ x. eval_scope P n invoke x ScopeType.local m) (sym e)
      ∙ runs

  no_else_runs :
      (l : Located) (else_ : WorkflowScope) (m : Machine)
      → else_ ≡ workflow_scope l no_statement
      → eval_else P n invoke else_ m ≡ done tt m
  unfolding eval_else pure
  no_else_runs l else_ m e = ap (λ x. eval_else P n invoke x m) e

  -- The loop over the `elif` blocks has run one of them, or leaves it to the `else` block.
  eval_elif-Selects :
      (bs : ConditionBlocks) (else_ : WorkflowScope) (m m' : Machine)
      → Selects else_ bs m m'
      → (eval_elif P n invoke bs m ≡ done false m')
        ⊎ ((k : Machine) × (eval_elif P n invoke bs m ≡ done true k)
            × (eval_else P n invoke else_ k ≡ done tt m'))
  unfolding eval_elif cond pure
  eval_elif-Selects (block (condition_block l e scope) bs) else_ m m' (taken {k = k} d runs) = inl (
      >>=-done (eval_condition P n invoke (condition_block l e scope)) _ m m' true
        (condition_taken l e scope m k m' d runs))
  eval_elif-Selects (block (condition_block l e scope) bs) else_ m m' (passed {k = k} d stay rest) =
      let first = condition_passed l e scope m k d in
      let go_on =
        >>=-done (eval_condition P n invoke (condition_block l e scope))
          (λ evaluated.
            cond evaluated (pure false)
              (stays >>= λ go_on. cond go_on (eval_elif P n invoke bs) (pure false)))
          m k false first
        ∙ >>=-done stays (λ go_on. cond go_on (eval_elif P n invoke bs) (pure false)) k k true
            stay in
      elim (eval_elif-Selects bs else_ k m' rest) [
        | inl ran ↦ inl (go_on ∙ ran)
        | inr (j, left, runs) ↦ inr (j, go_on ∙ left, runs)
      ]
  eval_elif-Selects no_block else_ m m' (none_taken l s ss e runs) =
      inr (m, refl, else_runs l s ss else_ m m' e runs)
  eval_elif-Selects no_block else_ m m' (no_else l e) = inr (m, refl, no_else_runs l else_ m e)

  stays-done :
      (m : Machine) (s : Scope Entity)
      → current m.evaluation_scope ≡ some s
      → (b : Bool) × (stays m ≡ done b m)
  unfolding stays pure
  stays-done m s now = (_, >>=-done current_scope _ m m s (current_scope-done m s now))

  cond-same : (b : Bool) (c : Eval (Unit {0})) → cond b c c ≡ c
  unfolding cond
  cond-same true c = refl
  cond-same false c = refl

  -- A conditional does what the block does that its conditions select: the first one whose condition is
  -- true, else the else block, if it has a statement. It ends, without an error, on the machine where
  -- that block has ended, with no later condition evaluated and no other block run; provided that the
  -- conditions passed over leave no return or break pending, and that the block ends with a current scope.
  pub eval_if-Selects :
      (l : Located) (c : ConditionBlock) (bs : ConditionBlocks) (else_ : WorkflowScope)
      (m m' : Machine) (s : Scope Entity)
      → current m'.evaluation_scope ≡ some s
      → Selects else_ (block c bs) m m'
      → eval_if P n invoke (if_block l c bs else_) m ≡ done tt m'
  unfolding eval_if cond pure
  eval_if-Selects l (condition_block k e scope) bs else_ m m' s now (taken {k = j} d runs) =
      let (b, stay) = stays-done m' s now in
      >>=-done (eval_condition P n invoke (condition_block k e scope)) _ m m' true
        (condition_taken k e scope m j m' d runs)
      ∙ >>=-done stays _ m' m' b stay
      ∙ ap (λ (x : Eval (Unit {0})). x m') (cond-same b (pure tt))
  eval_if-Selects l (condition_block k e scope) bs else_ m m' s now (passed {k = j} d stay rest) =
      let start =
        >>=-done (eval_condition P n invoke (condition_block k e scope))
          (λ evaluated. stays >>= λ go_on.
            cond go_on
              (cond evaluated (pure tt) (
                eval_elif P n invoke bs >>= λ more.
                cond more (eval_else P n invoke else_) (pure tt)))
              (pure tt))
          m j false (condition_passed k e scope m j d)
        ∙ >>=-done stays _ j j true stay in
      elim (eval_elif-Selects bs else_ j m' rest) [
        | inl ran ↦ start ∙ >>=-done (eval_elif P n invoke bs) _ j m' false ran
        | inr (i, left, runs) ↦ start ∙ >>=-done (eval_elif P n invoke bs) _ j i true left ∙ runs
      ]
