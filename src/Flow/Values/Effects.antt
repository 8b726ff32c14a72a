-- ===== src/Flow/Values/Effects.antt =====
-- Every operation on values leaves the evaluation scope alone: the operators and the types'
-- operations.
use ez_cpp.Prelude.{ℕ, String}
use ez_cpp.Prelude.Int.{ℤ}
use ez_cpp.Flow.Ast.{
  Located, UnaryOperator, MultiplicativeOperator, AdditiveOperator, RelationalOperator,
}
use ez_cpp.Flow.Types.{TypeInfo, EntityKind}
use ez_cpp.Flow.Entity.{Entity, CallArguments, integer, real, array, dictionary}
use ez_cpp.Flow.Machine.{Eval}
use ez_cpp.Flow.Machine.Quiet.{IsQuiet, quiet, >>=-IsQuiet}
use ez_cpp.Flow.Values.{
  value_at, ensure_value, construct_kind, construct, assign, get_property, call_mem_function,
}
use ez_cpp.Flow.Values.Host.{Platform, EvalResult, ok, fail}
use ez_cpp.Flow.Values.Operators.{
  checked_integer, integer_operator, unary_op, multiplicative_op, additive_op, relational_op,
  contains_op, eq_op, not_eq_op,
}
use ez_cpp.Flow.Values.Quiet.{
  payloads, contains-IsQuiet, construct_dictionary-IsQuiet, dictionary_property-IsQuiet,
  insert-IsQuiet,
}

value_at-IsQuiet : (l : Located) (r : EvalResult) → IsQuiet (value_at l r)
unfolding value_at
value_at-IsQuiet l (ok e) = search quiet
value_at-IsQuiet l (fail what) = search quiet

pub ensure_value-IsQuiet :
    {c : Eval EvalResult} (l : Located) → IsQuiet c → IsQuiet (ensure_value c l)
unfolding ensure_value
ensure_value-IsQuiet l h = >>=-IsQuiet h (value_at-IsQuiet l)

checked_integer-IsQuiet : (z : ℤ) → IsQuiet (checked_integer z)
unfolding checked_integer
checked_integer-IsQuiet z = search payloads

ruleset numbers = (payloads, checked_integer-IsQuiet)

integer_operator-IsQuiet :
    (P : Platform) (s : String) (f : ℤ → ℤ → Eval Entity) (g : ℕ → ℕ → Eval Entity) (l r : Entity)
    → ((a b : ℤ) → IsQuiet (f a b))
    → ((a b : ℕ) → IsQuiet (g a b))
    → IsQuiet (integer_operator P s f g l r)
unfolding integer_operator
integer_operator-IsQuiet P s f g (integer p) (integer q) h k = search (payloads, h)
integer_operator-IsQuiet P s f g (integer p) (real q) h k = search (payloads, k)
integer_operator-IsQuiet P s f g (integer p) other h k = search quiet
integer_operator-IsQuiet P s f g l other h k = search quiet

pub unary_op-IsQuiet : (o : UnaryOperator) (e : Entity) → IsQuiet (unary_op o e)
unfolding unary_op
unary_op-IsQuiet UnaryOperator.plus (integer p) = search quiet
unary_op-IsQuiet UnaryOperator.plus other = search quiet
unary_op-IsQuiet UnaryOperator.minus (integer p) = search numbers
unary_op-IsQuiet UnaryOperator.minus other = search quiet
unary_op-IsQuiet UnaryOperator.not e = search quiet

pub multiplicative_op-IsQuiet :
    (P : Platform) (o : MultiplicativeOperator) (l r : Entity) → IsQuiet (multiplicative_op P o l r)
unfolding multiplicative_op
multiplicative_op-IsQuiet P MultiplicativeOperator.mult l r =
    search (numbers, integer_operator-IsQuiet)
multiplicative_op-IsQuiet P MultiplicativeOperator.div l r =
    search (numbers, integer_operator-IsQuiet)

pub additive_op-IsQuiet :
    (P : Platform) (o : AdditiveOperator) (l r : Entity) → IsQuiet (additive_op P o l r)
unfolding additive_op
additive_op-IsQuiet P AdditiveOperator.plus l r = search (numbers, integer_operator-IsQuiet)
additive_op-IsQuiet P AdditiveOperator.minus l r = search (numbers, integer_operator-IsQuiet)

pub relational_op-IsQuiet :
    (P : Platform) (o : RelationalOperator) (l r : Entity) → IsQuiet (relational_op P o l r)
unfolding relational_op
relational_op-IsQuiet P RelationalOperator.less l r = search (numbers, integer_operator-IsQuiet)
relational_op-IsQuiet P RelationalOperator.less_eq l r = search (numbers, integer_operator-IsQuiet)
relational_op-IsQuiet P RelationalOperator.greater l r = search (numbers, integer_operator-IsQuiet)
relational_op-IsQuiet P RelationalOperator.greater_eq l r =
    search (numbers, integer_operator-IsQuiet)

pub contains_op-IsQuiet : (l r : Entity) → IsQuiet (contains_op l r)
unfolding contains_op
contains_op-IsQuiet (dictionary k p) r = contains-IsQuiet p r
contains_op-IsQuiet other r = search quiet

pub eq_op-IsQuiet : (P : Platform) (l r : Entity) → IsQuiet (eq_op P l r)
unfolding eq_op
eq_op-IsQuiet P l r = search (numbers, integer_operator-IsQuiet)

pub not_eq_op-IsQuiet : (P : Platform) (l r : Entity) → IsQuiet (not_eq_op P l r)
unfolding not_eq_op
not_eq_op-IsQuiet P l r = search (numbers, integer_operator-IsQuiet)

construct_kind-IsQuiet :
    (P : Platform) (k : EntityKind) (e : Entity) → IsQuiet (construct_kind P k e)
unfolding construct_kind
construct_kind-IsQuiet P EntityKind.void e = search quiet
construct_kind-IsQuiet P EntityKind.boolean e = search quiet
construct_kind-IsQuiet P EntityKind.integer e = search quiet
construct_kind-IsQuiet P EntityKind.real e = search quiet
construct_kind-IsQuiet P EntityKind.string e = search quiet
construct_kind-IsQuiet P EntityKind.duration e = search quiet
construct_kind-IsQuiet P EntityKind.time_point e = search quiet
construct_kind-IsQuiet P EntityKind.array e = search quiet
construct_kind-IsQuiet P EntityKind.dictionary e = search (quiet, construct_dictionary-IsQuiet)
construct_kind-IsQuiet P EntityKind.action e = search (quiet, construct_dictionary-IsQuiet)
construct_kind-IsQuiet P EntityKind.action_reply e = search (quiet, construct_dictionary-IsQuiet)
construct_kind-IsQuiet P EntityKind.campaign e = search (quiet, construct_dictionary-IsQuiet)
construct_kind-IsQuiet P EntityKind.campaign_reply e = search (quiet, construct_dictionary-IsQuiet)
construct_kind-IsQuiet P EntityKind.http_request e = search (quiet, construct_dictionary-IsQuiet)
construct_kind-IsQuiet P EntityKind.http_reply e = search (quiet, construct_dictionary-IsQuiet)
construct_kind-IsQuiet P EntityKind.device_info_request e =
    search (quiet, construct_dictionary-IsQuiet)
construct_kind-IsQuiet P EntityKind.device_info_reply e =
    search (quiet, construct_dictionary-IsQuiet)
construct_kind-IsQuiet P other e = search quiet

pub construct-IsQuiet : (P : Platform) (t : TypeInfo) (e : Entity) → IsQuiet (construct P t e)
unfolding construct
construct-IsQuiet P t e = search (quiet, construct_kind-IsQuiet)

pub assign-IsQuiet : (P : Platform) (l r : Entity) → IsQuiet (assign P l r)
unfolding assign
assign-IsQuiet P (integer p) (integer q) = search payloads
assign-IsQuiet P (integer p) (real q) = search payloads
assign-IsQuiet P (integer p) other = search quiet
assign-IsQuiet P (array p) (array q) = search payloads
assign-IsQuiet P (array p) other = search quiet
assign-IsQuiet P l other = search quiet

pub get_property-IsQuiet : (e : Entity) (name : String) → IsQuiet (get_property e name)
unfolding get_property
get_property-IsQuiet (array p) name = search payloads
get_property-IsQuiet (dictionary k p) name = dictionary_property-IsQuiet k p name
get_property-IsQuiet other name = search quiet

pub call_mem_function-IsQuiet :
    (P : Platform) (e : Entity) (name : String) (args : CallArguments)
    → IsQuiet (call_mem_function P e name args)
unfolding call_mem_function
call_mem_function-IsQuiet P (dictionary k p) name args = search (quiet, insert-IsQuiet)
call_mem_function-IsQuiet P other name args = search quiet
