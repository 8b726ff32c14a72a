-- ===== src/Flow/Interpreter/Expressions.antt =====
-- interpreter_expression.cpp of src/libs/flow/src/engine/eval, and the await and try expressions of
-- interpreter_workflow.cpp. `invoke` evaluates an awaited invocation.
use ez_cpp.Flow.Machine.Scoped.{or_timeout}
use ez_cpp.Prelude.Int.{ℤ}
use Prim.Native.String.{◌++◌ as ◌+++◌}
use ez_cpp.Prelude.{ℕ, String, Option, none, some, List, [], ◌∷◌, ◌==◌, if◌then◌else◌}
use ez_cpp.Flow.Ast.{
  Located, Identifier, IdentifierPath, DurationUnit, EqualityOperator, Expression, LogicalTerms,
  EqualityExpression, EqualityTerms, RelationalExpression, RelationalTerms, AdditiveExpression,
  AdditiveTerms, MultiplicativeExpression, MultiplicativeTerms, UnaryExpression, PrimaryExpression,
  FunctionCall, FunctionArguments, Array, Expressions, Dictionary, Assignments, AwaitExpression,
  TryExpression, expression, no_logical, logical, equality_expression, no_equality, equality,
  relational_expression, no_relational, relational, additive_expression, no_additive, additive,
  multiplicative_expression, no_multiplicative, multiplicative, unary, identifier_path, literal,
  function_call, array, dictionary, nested_expression, await_expression, try_expression, call,
  no_argument, argument, array_of, no_expression, element, dictionary_of, no_assignment, assignment,
  await, try, expression_position,
}
use ez_cpp.Flow.Ast.Statements.{WorkflowDefinition}
use ez_cpp.Flow.Types.{same_type}
use ez_cpp.Flow.Duration.{DurationStorage, to_std_duration}
use ez_cpp.Flow.Entity as Entity
use ez_cpp.Flow.Entity.{DictionaryKind, Instanciation, CallArguments, no_call_argument, type}
use ez_cpp.Flow.Machine.{
  from_option, Eval, pure, throw, stop, ◌>>=◌, ◌>>◌, lookup_type, return_, emit, wait, missing,
  evaluation_error, overflow,
}
use ez_cpp.Flow.Values.{ensure_value, call_mem_function}
use ez_cpp.Flow.Values.Host.{Platform}
use ez_cpp.Flow.Values.Payloads.{new_boolean, new_array, new_dictionary, duration_value}
use ez_cpp.Flow.Values.Dictionaries.{push, insert_entry}
use ez_cpp.Flow.Values.Operators.{
  unary_op, multiplicative_op, additive_op, relational_op, contains_op, eq_op, not_eq_op,
  logical_op,
}
use ez_cpp.Flow.Values.Printing.{call_free_function}
use ez_cpp.Flow.Values.Requests.{perform}
use ez_cpp.Flow.Interpreter.Terms.{
  eval_literal, eval_path, without_last, last_name, to_type_name, unary_position,
  multiplicative_position, additive_position, relational_position, equality_position,
  expected_duration,
}

abbrev not_awaitable : Entity.Entity → Located → Eval Entity.Entity
not_awaitable e location = throw (
    evaluation_error ("Expression of type '" +++ (type e).name +++ "' in not an awaitable")
      location)

-- The name of an argument, if it has one.
abbrev identifier_text : Option Identifier → Option String
identifier_text none = none
identifier_text (some name) = some name.text

-- The alternatives that `AwaitExpression` tests for, with the type of the reply.
abbrev reply_kind : DictionaryKind → Option DictionaryKind
reply_kind DictionaryKind.campaign = some DictionaryKind.campaign_reply
reply_kind DictionaryKind.action = some DictionaryKind.action_reply
reply_kind DictionaryKind.device_info_request = some DictionaryKind.device_info_reply
reply_kind DictionaryKind.http_request = some DictionaryKind.http_reply
reply_kind other = none

-- The value of an `eval_await`, from what a delegate gave in time.
abbrev reply_or_timeout : Located → Option Entity.Entity → Entity.Entity
reply_or_timeout location none = Entity.error "Operation timeout" (some location)
reply_or_timeout location (some reply) = reply

-- `eval_timeout`, from the value of the expression at `location`.
unfoldable pub timeout_of : Entity.Entity → Located → Eval DurationStorage
timeout_of (Entity.duration p) location = do
  d ← duration_value p
  pure (if d.count == 0 then record { count = 1; unit = DurationUnit.ms } else d)
timeout_of other location = expected_duration other location

-- `to_std_duration`, whose overflow is undefined.
unfoldable pub std_duration : DurationStorage → Eval ℤ
std_duration d = from_option (to_std_duration d) (stop overflow) pure

unfoldable pub is_a : Entity.Entity → RelationalExpression → Eval Entity.Entity
is_a lhs term = do
  t ← lookup_type (to_type_name term)
  from_option t
      (throw (
        evaluation_error ("'" +++ to_type_name term +++ "' is not a type")
          (relational_position term)))
      (λ found. new_boolean (same_type (type lhs) found))

-- `rounds` bounds how deep the values nest that are printed or sent.
module _ (P : Platform) (rounds : ℕ) where
  -- `eval_await` of a request: the delegate for it races with the timeout.
  unfoldable pub eval_request :
      Located → DictionaryKind → DictionaryKind → ℕ → DurationStorage → Eval Entity.Entity
  eval_request l k reply p timeout = do
    ticks ← std_duration timeout
    r ← perform P rounds k reply p ticks
    pure (reply_or_timeout l r)

  -- A member function is called on the path without its last name.
  unfoldable pub call_member :
      IdentifierPath → CallArguments → Located → Entity.Entity → Eval Entity.Entity
  call_member path args l self =
      from_option (last_name path.identifiers) (stop missing)
        (λ name. ensure_value (call_mem_function P self name.text args) l)

  -- The error is moved into the return value, and what is left of it is the value.
  unfoldable pub try_entity : Entity.Entity → Eval Entity.Entity
  try_entity (Entity.error what where_) = do
    return_ (Entity.error what where_)
    pure (Entity.error (P.moved_from what) where_)
  try_entity other = pure other

module _ (P : Platform) (rounds : ℕ)
    (invoke : WorkflowDefinition → Instanciation → CallArguments → Eval Entity.Entity) where
  -- `eval_await` of an invocation, which races with the timeout. Where the timeout is first the task of the
  -- invocation is destroyed, and the value is an error.
  unfoldable pub eval_invocation_within :
      Located
      → DurationStorage
      → WorkflowDefinition
      → Instanciation
      → CallArguments
      → Eval Entity.Entity
  eval_invocation_within l timeout definition instanciation args = do
    ticks ← std_duration timeout
    emit (wait ticks)
    or_timeout (Entity.error "Operation timeout" (some l)) (invoke definition instanciation args)

  -- A call of what the path of a call names, which evaluates the arguments where it uses them.
  unfoldable pub call_entity :
      Entity.Entity → FunctionCall → Eval CallArguments → Eval Entity.Entity
  call_entity (Entity.free_function name) (call l path k arguments) eval_arguments = do
    args ← eval_arguments
    ensure_value (call_free_function P rounds name args) l
  call_entity (Entity.workflow_definition definition) c eval_arguments = do
    args ← eval_arguments
    pure (Entity.workflow_invocation definition (Instanciation.function_call c) args)
  call_entity (Entity.member_function type_name name) (call l path k arguments) eval_arguments = do
    self ← eval_path (record path { identifiers = without_last path.identifiers })
    args ← eval_arguments
    call_member P rounds path args l self
  call_entity other (call l path k arguments) eval_arguments =
      throw
        (evaluation_error ("'" +++ P.code path.position +++ "' is not a callable") path.position)

  -- What an await expression of the value of `e` waits for, with its timeout.
  unfoldable pub await_entity :
      Entity.Entity → Located → Expression → Eval DurationStorage → Eval Entity.Entity
  await_entity (Entity.workflow_invocation definition instanciation args) l e eval_timeout = do
    timeout ← eval_timeout
    eval_invocation_within l timeout definition instanciation args
  await_entity (Entity.workflow_definition definition) l e eval_timeout = do
    timeout ← eval_timeout
    eval_invocation_within l timeout definition (Instanciation.expression e) no_call_argument
  await_entity (Entity.dictionary k p) l e eval_timeout =
      from_option (reply_kind k) (not_awaitable (Entity.dictionary k p) l)
        (λ reply. do timeout ← eval_timeout; eval_request P rounds l k reply p timeout)
  await_entity other l e eval_timeout = not_awaitable other l

  unfoldable mutual
    pub eval_expression : Expression → Eval Entity.Entity
    eval_expression (expression l first k terms) = do
      lhs ← eval_equality first
      eval_logical_terms terms lhs

    pub eval_logical_terms : LogicalTerms → Entity.Entity → Eval Entity.Entity
    eval_logical_terms no_logical lhs = pure lhs
    eval_logical_terms (logical l op term rest) lhs = do
      rhs ← eval_equality term
      result ← ensure_value (pure (logical_op op lhs rhs)) (equality_position term)
      eval_logical_terms rest result

    pub eval_equality : EqualityExpression → Eval Entity.Entity
    eval_equality (equality_expression l first k terms) = do
      lhs ← eval_relational first
      eval_equality_terms terms lhs

    pub eval_equality_terms : EqualityTerms → Entity.Entity → Eval Entity.Entity
    eval_equality_terms no_equality lhs = pure lhs
    eval_equality_terms (equality l EqualityOperator.is term rest) lhs = do
      result ← is_a lhs term
      eval_equality_terms rest result
    eval_equality_terms (equality l EqualityOperator.eq term rest) lhs = do
      rhs ← eval_relational term
      result ← ensure_value (eq_op P lhs rhs) (relational_position term)
      eval_equality_terms rest result
    eval_equality_terms (equality l EqualityOperator.not_eq term rest) lhs = do
      rhs ← eval_relational term
      result ← ensure_value (not_eq_op P lhs rhs) (relational_position term)
      eval_equality_terms rest result
    eval_equality_terms (equality l EqualityOperator.in_ term rest) lhs = do
      rhs ← eval_relational term
      result ← ensure_value (contains_op rhs lhs) (relational_position term)
      eval_equality_terms rest result

    pub eval_relational : RelationalExpression → Eval Entity.Entity
    eval_relational (relational_expression l first k terms) = do
      lhs ← eval_additive first
      eval_relational_terms terms lhs

    pub eval_relational_terms : RelationalTerms → Entity.Entity → Eval Entity.Entity
    eval_relational_terms no_relational lhs = pure lhs
    eval_relational_terms (relational l op term rest) lhs = do
      rhs ← eval_additive term
      result ← ensure_value (relational_op P op lhs rhs) (additive_position term)
      eval_relational_terms rest result

    pub eval_additive : AdditiveExpression → Eval Entity.Entity
    eval_additive (additive_expression l first k terms) = do
      lhs ← eval_multiplicative first
      eval_additive_terms terms lhs

    pub eval_additive_terms : AdditiveTerms → Entity.Entity → Eval Entity.Entity
    eval_additive_terms no_additive lhs = pure lhs
    eval_additive_terms (additive l op term rest) lhs = do
      rhs ← eval_multiplicative term
      result ← ensure_value (additive_op P op lhs rhs) (multiplicative_position term)
      eval_additive_terms rest result

    pub eval_multiplicative : MultiplicativeExpression → Eval Entity.Entity
    eval_multiplicative (multiplicative_expression l first k terms) = do
      lhs ← eval_unary first
      eval_multiplicative_terms terms lhs

    pub eval_multiplicative_terms : MultiplicativeTerms → Entity.Entity → Eval Entity.Entity
    eval_multiplicative_terms no_multiplicative lhs = pure lhs
    eval_multiplicative_terms (multiplicative l op term rest) lhs = do
      rhs ← eval_unary term
      result ← ensure_value (multiplicative_op P op lhs rhs) (unary_position term)
      eval_multiplicative_terms rest result

    pub eval_unary : UnaryExpression → Eval Entity.Entity
    eval_unary (unary l none e) = eval_primary e
    eval_unary (unary l (some op) e) = do value ← eval_primary e; ensure_value (unary_op op value) l

    pub eval_primary : PrimaryExpression → Eval Entity.Entity
    eval_primary (identifier_path path) = eval_path path
    eval_primary (literal l) = eval_literal l
    eval_primary (function_call c) = eval_function_call c
    eval_primary (array a) = eval_array a
    eval_primary (dictionary d) = eval_dictionary d
    eval_primary (nested_expression e) = eval_expression e
    eval_primary (await_expression a) = eval_await a
    eval_primary (try_expression t) = eval_try t

    pub eval_function_call : FunctionCall → Eval Entity.Entity
    eval_function_call (call l path k arguments) = do
      callable ← eval_path path
      call_entity callable (call l path k arguments)
          (eval_call_arguments arguments no_call_argument)

    pub eval_call_arguments : FunctionArguments → CallArguments → Eval CallArguments
    eval_call_arguments no_argument args = pure args
    eval_call_arguments (argument l name e rest) args = do
      value ← eval_expression e
      eval_call_arguments rest (push args (identifier_text name) value)

    pub eval_array : Array → Eval Entity.Entity
    eval_array (array_of l es) = do values ← eval_elements es; new_array values

    pub eval_elements : Expressions → Eval (List Entity.Entity)
    eval_elements no_expression = pure []
    eval_elements (element e es) = do
      value ← eval_expression e
      values ← eval_elements es
      pure (value ∷ values)

    pub eval_dictionary : Dictionary → Eval Entity.Entity
    eval_dictionary (dictionary_of l as_) = do
      entries ← eval_assignments as_ []
      new_dictionary DictionaryKind.dictionary entries

    -- `insert` keeps the first value of a name.
    pub eval_assignments :
        Assignments → List (String × Entity.Entity) → Eval (List (String × Entity.Entity))
    eval_assignments no_assignment entries = pure entries
    eval_assignments (assignment l name e rest) entries = do
      value ← eval_expression e
      eval_assignments rest (insert_entry name.text value entries)

    pub eval_await : AwaitExpression → Eval Entity.Entity
    eval_await (await l e duration) = do
      awaitable ← eval_expression e
      await_entity awaitable l e
          (do timeout ← eval_expression duration; timeout_of timeout (expression_position duration))

    pub eval_try : TryExpression → Eval Entity.Entity
    eval_try (try l e) = eval_expression e >>= try_entity P rounds
