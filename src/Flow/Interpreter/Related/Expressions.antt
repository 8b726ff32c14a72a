-- ===== src/Flow/Interpreter/Related/Expressions.antt =====
-- The evaluation of expressions keeps a relation between computations.
use ez_cpp.Prelude.{ℕ, String, none, some, List, []}
use ez_cpp.Flow.Ast.{
  Located, EqualityOperator, Expression, LogicalTerms, EqualityExpression, EqualityTerms,
  RelationalExpression, RelationalTerms, AdditiveExpression, AdditiveTerms,
  MultiplicativeExpression, MultiplicativeTerms, UnaryExpression, PrimaryExpression, FunctionCall,
  FunctionArguments, Array, Expressions, Dictionary, Assignments, AwaitExpression, TryExpression,
  expression, no_logical, logical, equality_expression, no_equality, equality,
  relational_expression, no_relational, relational, additive_expression, no_additive, additive,
  multiplicative_expression, no_multiplicative, multiplicative, unary, identifier_path, literal,
  function_call, array, dictionary, nested_expression, await_expression, try_expression, call,
  no_argument, argument, array_of, no_expression, element, dictionary_of, no_assignment, assignment,
  await, try,
}
use ez_cpp.Flow.Ast.Statements.{WorkflowDefinition}
use ez_cpp.Flow.Duration.{DurationStorage}
use ez_cpp.Flow.Entity as Entity
use ez_cpp.Flow.Entity.{CallArguments, Instanciation}
use ez_cpp.Flow.Machine.{Eval, ◌>>=◌}
use ez_cpp.Flow.Machine.Quiet.{IsQuiet, quiet, pure-IsQuiet, emit-IsQuiet}
use ez_cpp.Flow.Machine.Relation.{
  Congruence, quiet-Related, >>=-Related, pure-Related, from_option-Related,
}
use ez_cpp.Flow.Values.Host.{Platform}
use ez_cpp.Flow.Values.Quiet.{payloads}
use ez_cpp.Flow.Values.Effects.{
  ensure_value-IsQuiet, call_mem_function-IsQuiet, unary_op-IsQuiet, multiplicative_op-IsQuiet,
  additive_op-IsQuiet, relational_op-IsQuiet, contains_op-IsQuiet, eq_op-IsQuiet, not_eq_op-IsQuiet,
}
use ez_cpp.Flow.Values.Outputs.{call_free_function-IsQuiet}
use ez_cpp.Flow.Interpreter.Expressions.{
  eval_invocation_within, call_member, is_a, call_entity, await_entity, try_entity, eval_expression,
  eval_logical_terms, eval_equality, eval_equality_terms, eval_relational, eval_relational_terms,
  eval_additive, eval_additive_terms, eval_multiplicative, eval_multiplicative_terms, eval_unary,
  eval_primary, eval_function_call, eval_call_arguments, eval_array, eval_elements, eval_dictionary,
  eval_assignments, eval_await, eval_try,
}
use ez_cpp.Flow.Interpreter.Related.Terms.{
  eval_literal-IsQuiet, eval_path-IsQuiet, timeout_of-IsQuiet, std_duration-IsQuiet,
  eval_request-IsQuiet,
}

abbrev pub Invoke : Type 0
Invoke = WorkflowDefinition → Instanciation → CallArguments → Eval Entity.Entity

module _ {R : (A : Type 0) → Eval A → Eval A → Type 0} (K : Congruence R) (P : Platform) (n : ℕ)
    (i j : Invoke)
    (h : (d : WorkflowDefinition) (s : Instanciation) (args : CallArguments)
      → R Entity.Entity (i d s args) (j d s args)) where
  call_member-IsQuiet :
      (path : _) (args : CallArguments) (l : Located) (self : Entity.Entity)
      → IsQuiet (call_member P n path args l self)
  unfolding call_member
  call_member-IsQuiet path args l self =
      search (quiet, ensure_value-IsQuiet, call_mem_function-IsQuiet)

  is_a-IsQuiet : (e : Entity.Entity) (t : RelationalExpression) → IsQuiet (is_a e t)
  unfolding is_a
  is_a-IsQuiet e t = search payloads

  eval_invocation_within-Related :
      (l : Located) (t : DurationStorage) (d : WorkflowDefinition) (s : Instanciation)
      (args : CallArguments)
      → R _ (eval_invocation_within P n i l t d s args) (eval_invocation_within P n j l t d s args)
  unfolding eval_invocation_within
  eval_invocation_within-Related l t d s args =
      >>=-Related K (quiet-Related K (std_duration-IsQuiet t)) (λ ticks.
        >>=-Related K (quiet-Related K (emit-IsQuiet _)) (λ u. K.awaited _ _ _ _ (h d s args)))

  call_entity-Related :
      (e : Entity.Entity) (c : FunctionCall) (a b : Eval CallArguments)
      → R _ a b
      → R _ (call_entity P n i e c a) (call_entity P n j e c b)
  unfolding call_entity
  call_entity-Related (Entity.free_function name) (call l path k arguments) a b r =
      >>=-Related K r (λ args.
        quiet-Related K (ensure_value-IsQuiet l (call_free_function-IsQuiet P n name args)))
  call_entity-Related (Entity.workflow_definition d) c a b r =
      >>=-Related K r (λ args. pure-Related K _)
  call_entity-Related (Entity.member_function t name) (call l path k arguments) a b r =
      >>=-Related K (quiet-Related K (eval_path-IsQuiet _))
        (λ self. >>=-Related K r (λ args. quiet-Related K (call_member-IsQuiet path args l self)))
  call_entity-Related other (call l path k arguments) a b r = quiet-Related K (search quiet)

  await_entity-Related :
      (e : Entity.Entity) (l : Located) (x : Expression) (a b : Eval DurationStorage)
      → R _ a b
      → R _ (await_entity P n i e l x a) (await_entity P n j e l x b)
  unfolding await_entity
  await_entity-Related (Entity.workflow_invocation d s args) l x a b r =
      >>=-Related K r (λ t. eval_invocation_within-Related l t d s args)
  await_entity-Related (Entity.workflow_definition d) l x a b r =
      >>=-Related K r (λ t. eval_invocation_within-Related l t d _ _)
  await_entity-Related (Entity.dictionary k p) l x a b r =
      from_option-Related K _ (quiet-Related K (search quiet))
        (λ reply. >>=-Related K r (λ t. quiet-Related K (eval_request-IsQuiet P n l k reply p t)))
  await_entity-Related other l x a b r = quiet-Related K (search quiet)

  try_entity-Related : (e : Entity.Entity) → R _ (try_entity P n e) (try_entity P n e)
  unfolding try_entity
  try_entity-Related (Entity.error what where_) =
      >>=-Related K (K.returns _) (λ u. pure-Related K _)
  try_entity-Related other = pure-Related K _

  -- The step of a chain of operators: a term, the operator, and the rest of the chain.
  term-Related :
      {c d : Eval Entity.Entity} {o f g : Entity.Entity → Eval Entity.Entity}
      → R _ c d
      → ((e : Entity.Entity) → IsQuiet (o e))
      → ((e : Entity.Entity) → R Entity.Entity (f e) (g e))
      → R _ (c >>= λ e. o e >>= f) (d >>= λ e. o e >>= g)
  term-Related r q k = >>=-Related K r (λ e. >>=-Related K (quiet-Related K (q e)) k)

  mutual
    unfolding eval_expression

    pub eval_expression-Related :
        (e : Expression) → R _ (eval_expression P n i e) (eval_expression P n j e)
    eval_expression-Related (expression l first k terms) =
        >>=-Related K (equality-Related first) (logical_terms-Related terms)

    logical_terms-Related :
        (ts : LogicalTerms) (e : Entity.Entity)
        → R _ (eval_logical_terms P n i ts e) (eval_logical_terms P n j ts e)
    logical_terms-Related no_logical e = pure-Related K e
    logical_terms-Related (logical l op term rest) e =
        term-Related (equality-Related term) (λ r. ensure_value-IsQuiet _ (pure-IsQuiet _))
          (logical_terms-Related rest)

    equality-Related :
        (e : EqualityExpression) → R _ (eval_equality P n i e) (eval_equality P n j e)
    equality-Related (equality_expression l first k terms) =
        >>=-Related K (relational-Related first) (equality_terms-Related terms)

    equality_terms-Related :
        (ts : EqualityTerms) (e : Entity.Entity)
        → R _ (eval_equality_terms P n i ts e) (eval_equality_terms P n j ts e)
    equality_terms-Related no_equality e = pure-Related K e
    equality_terms-Related (equality l EqualityOperator.is term rest) e =
        >>=-Related K (quiet-Related K (is_a-IsQuiet e term)) (equality_terms-Related rest)
    equality_terms-Related (equality l EqualityOperator.eq term rest) e =
        term-Related (relational-Related term) (λ r. ensure_value-IsQuiet _ (eq_op-IsQuiet P e r))
          (equality_terms-Related rest)
    equality_terms-Related (equality l EqualityOperator.not_eq term rest) e =
        term-Related (relational-Related term)
          (λ r. ensure_value-IsQuiet _ (not_eq_op-IsQuiet P e r)) (equality_terms-Related rest)
    equality_terms-Related (equality l EqualityOperator.in_ term rest) e =
        term-Related (relational-Related term)
          (λ r. ensure_value-IsQuiet _ (contains_op-IsQuiet r e)) (equality_terms-Related rest)

    relational-Related :
        (e : RelationalExpression) → R _ (eval_relational P n i e) (eval_relational P n j e)
    relational-Related (relational_expression l first k terms) =
        >>=-Related K (additive-Related first) (relational_terms-Related terms)

    relational_terms-Related :
        (ts : RelationalTerms) (e : Entity.Entity)
        → R _ (eval_relational_terms P n i ts e) (eval_relational_terms P n j ts e)
    relational_terms-Related no_relational e = pure-Related K e
    relational_terms-Related (relational l op term rest) e =
        term-Related (additive-Related term)
          (λ r. ensure_value-IsQuiet _ (relational_op-IsQuiet P op e r))
          (relational_terms-Related rest)

    additive-Related :
        (e : AdditiveExpression) → R _ (eval_additive P n i e) (eval_additive P n j e)
    additive-Related (additive_expression l first k terms) =
        >>=-Related K (multiplicative-Related first) (additive_terms-Related terms)

    additive_terms-Related :
        (ts : AdditiveTerms) (e : Entity.Entity)
        → R _ (eval_additive_terms P n i ts e) (eval_additive_terms P n j ts e)
    additive_terms-Related no_additive e = pure-Related K e
    additive_terms-Related (additive l op term rest) e =
        term-Related (multiplicative-Related term)
          (λ r. ensure_value-IsQuiet _ (additive_op-IsQuiet P op e r)) (additive_terms-Related rest)

    multiplicative-Related :
        (e : MultiplicativeExpression)
        → R _ (eval_multiplicative P n i e) (eval_multiplicative P n j e)
    multiplicative-Related (multiplicative_expression l first k terms) =
        >>=-Related K (unary-Related first) (multiplicative_terms-Related terms)

    multiplicative_terms-Related :
        (ts : MultiplicativeTerms) (e : Entity.Entity)
        → R _ (eval_multiplicative_terms P n i ts e) (eval_multiplicative_terms P n j ts e)
    multiplicative_terms-Related no_multiplicative e = pure-Related K e
    multiplicative_terms-Related (multiplicative l op term rest) e =
        term-Related (unary-Related term)
          (λ r. ensure_value-IsQuiet _ (multiplicative_op-IsQuiet P op e r))
          (multiplicative_terms-Related rest)

    unary-Related : (e : UnaryExpression) → R _ (eval_unary P n i e) (eval_unary P n j e)
    unary-Related (unary l none e) = primary-Related e
    unary-Related (unary l (some op) e) =
        >>=-Related K (primary-Related e)
          (λ v. quiet-Related K (ensure_value-IsQuiet l (unary_op-IsQuiet op v)))

    primary-Related : (e : PrimaryExpression) → R _ (eval_primary P n i e) (eval_primary P n j e)
    primary-Related (identifier_path path) = quiet-Related K (eval_path-IsQuiet path)
    primary-Related (literal l) = quiet-Related K (eval_literal-IsQuiet l)
    primary-Related (function_call c) = function_call-Related c
    primary-Related (array a) = array-Related a
    primary-Related (dictionary d) = dictionary-Related d
    primary-Related (nested_expression e) = eval_expression-Related e
    primary-Related (await_expression a) = await-Related a
    primary-Related (try_expression t) = try-Related t

    function_call-Related :
        (c : FunctionCall) → R _ (eval_function_call P n i c) (eval_function_call P n j c)
    function_call-Related (call l path k arguments) =
        >>=-Related K (quiet-Related K (eval_path-IsQuiet path)) (λ callable.
          call_entity-Related callable (call l path k arguments) _ _
            (call_arguments-Related arguments _))

    call_arguments-Related :
        (a : FunctionArguments) (args : CallArguments)
        → R _ (eval_call_arguments P n i a args) (eval_call_arguments P n j a args)
    call_arguments-Related no_argument args = pure-Related K args
    call_arguments-Related (argument l name e rest) args =
        >>=-Related K (eval_expression-Related e) (λ v. call_arguments-Related rest _)

    array-Related : (a : Array) → R _ (eval_array P n i a) (eval_array P n j a)
    array-Related (array_of l es) =
        >>=-Related K (elements-Related es) (λ vs. quiet-Related K (search payloads))

    elements-Related : (es : Expressions) → R _ (eval_elements P n i es) (eval_elements P n j es)
    elements-Related no_expression = pure-Related K []
    elements-Related (element e es) =
        >>=-Related K (eval_expression-Related e)
          (λ v. >>=-Related K (elements-Related es) (λ vs. pure-Related K _))

    dictionary-Related : (d : Dictionary) → R _ (eval_dictionary P n i d) (eval_dictionary P n j d)
    dictionary-Related (dictionary_of l as_) =
        >>=-Related K (assignments-Related as_ []) (λ es. quiet-Related K (search payloads))

    assignments-Related :
        (as_ : Assignments) (es : List (String × Entity.Entity))
        → R _ (eval_assignments P n i as_ es) (eval_assignments P n j as_ es)
    assignments-Related no_assignment es = pure-Related K es
    assignments-Related (assignment l name e rest) es =
        >>=-Related K (eval_expression-Related e) (λ v. assignments-Related rest _)

    await-Related : (a : AwaitExpression) → R _ (eval_await P n i a) (eval_await P n j a)
    await-Related (await l e duration) = >>=-Related K (eval_expression-Related e) (λ v.
        await_entity-Related v l e _ _ (
          >>=-Related K (eval_expression-Related duration)
            (λ t. quiet-Related K (timeout_of-IsQuiet t _))))

    try-Related : (t : TryExpression) → R _ (eval_try P n i t) (eval_try P n j t)
    try-Related (try l e) = >>=-Related K (eval_expression-Related e) try_entity-Related
