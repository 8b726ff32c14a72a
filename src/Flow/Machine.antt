-- ===== src/Flow/Machine.antt =====
-- What the interpreter of src/libs/flow/src/engine/eval computes on: the evaluation scope, the payloads of the
-- Shared values and what has reached the outside; and computations on it, which end with a value, with
-- an exception, or where the model stops.
pub mod Scoped
pub mod Quiet
pub mod Relation
pub mod Runs
use ez_cpp.Prelude.{
  ℕ, String, Option, none, some, List, [], ◌∷◌, ◌++◌, length, get_elem?, set, Bool, true, false,
  if◌then◌else◌,
}
use ez_cpp.Prelude.Int.{ℤ}
use ez_cpp.Flow.Ast.{Located}
use ez_cpp.Flow.Types.{TypeInfo}
use ez_cpp.Flow.Entity.{Entity, Payload, DictionaryKind}
use ez_cpp.Flow.Conversion.{DictionaryMap}
use ez_cpp.Flow.Scope.{
  EvaluationScope, Scope, ScopeType, FlowControlPolicy, VariableEntry, current, edit_current, push,
  pop, find_entity, find_type, find_entry, add, return_value, break_loop,
}

-- A line on the standard output, a line of the trace, a delay in ticks of the clock, a wait for an
-- invocation and a request to a delegate, each with its timeout in ticks, and the firing of the timer
-- of an awaited invocation within which that many others are being awaited.
pub data Event : Type 0 where
  print : String → Event
  trace : String → Event
  delay : ℤ → Event
  wait : ℤ → Event
  request : DictionaryKind → DictionaryMap → ℤ → Event
  timed_out : ℕ → Event

pub record Machine : Type 0 where
  pub evaluation_scope : EvaluationScope Entity
  pub heap : List Payload
  pub events : List Event

-- EvaluationError with its location, Panic, std::out_of_range, std::bad_variant_access and
-- std::bad_function_call.
pub data Exception : Type 0 where
  evaluation_error : String → Located → Exception
  panic : String → Exception
  out_of_range : Exception
  bad_variant_access : Exception
  bad_function_call : Exception

-- Why a computation goes no further in the model: it ran out of rounds; it asked an empty deque for
-- its back; a signed sum or product overflowed; a payload or the first name of a path is missing; or a
-- nest of values that is printed or converted is too deep.
pub data Stop : Type 0 where
  out_of_rounds no_scope overflow missing too_deep : Stop

-- A computation is interrupted where its coroutine is destroyed while it waits; the number is that of the
-- awaited invocations to destroy around the innermost one.
pub data Outcome (A : Type 0) : Type 0 where
  done : A → Machine → Outcome A
  thrown : Exception → Machine → Outcome A
  interrupted : ℕ → Machine → Outcome A
  stopped : Stop → Outcome A

abbrev pub Eval : Type 0 → Type 0
Eval A = Machine → Outcome A

unfoldable pub pure : {A : Type 0} → A → Eval A
pure a m = done a m

infixl 5 ◌>>=◌ ◌>>◌
unfoldable pub ◌>>=◌ : {A B : Type 0} → Eval A → (A → Eval B) → Eval B
◌>>=◌ c f m = elim (c m) [
  | done a m' ↦ f a m'
  | thrown x m' ↦ thrown x m'
  | interrupted k m' ↦ interrupted k m'
  | stopped w ↦ stopped w
]

abbrev pub ◌>>◌ : {B : Type 0} → Eval (Unit {0}) → Eval B → Eval B
c >> d = c >>= λ _. d

unfoldable pub throw : {A : Type 0} → Exception → Eval A
throw x m = thrown x m

unfoldable pub stop : {A : Type 0} → Stop → Eval A
stop w m = stopped w

-- The timer of an awaited invocation fires.
unfoldable pub interrupt : {A : Type 0} → ℕ → Eval A
interrupt k m = interrupted k (record m { events = timed_out k ∷ m.events })

-- The branches of a test on a Boolean and on an option.
unfoldable pub cond : {A : Type 0} → Bool → Eval A → Eval A → Eval A
cond true c d = c
cond false c d = d

unfoldable pub from_option : {A B : Type 0} → Option A → Eval B → (A → Eval B) → Eval B
from_option none c f = c
from_option (some a) c f = f a

-- What a name means, `evaluation_scope.find_entity` and `find_type`.
unfoldable pub lookup_entity : String → Eval (Option (VariableEntry Entity))
lookup_entity name m = done (find_entity name m.evaluation_scope) m

unfoldable pub lookup_type : String → Eval (Option TypeInfo)
lookup_type name m = done (find_type name m.evaluation_scope) m

-- `evaluation_scope.current()`, read.
unfoldable pub current_scope : Eval (Scope Entity)
current_scope m = elim (current m.evaluation_scope) [ none ↦ stopped no_scope | some s ↦ done s m ]

-- `Shared::value()` of a return value.
unfoldable pub returned_value : ℕ → Eval (Option Entity)
returned_value cell m = elim (get_elem? m.evaluation_scope.cells cell) [
  | none ↦ stopped missing
  | some o ↦ done o m
]

-- An operation on the evaluation scope.
unfoldable pub change_scopes :
    (EvaluationScope Entity → Option (EvaluationScope Entity)) → Eval (Unit {0})
change_scopes f m = elim (f m.evaluation_scope) [
  | none ↦ stopped no_scope
  | some es ↦ done tt (record m { evaluation_scope = es })
]

-- `evaluation_scope.current().add(name, value)`.
unfoldable pub declare : String → Entity → Eval (Unit {0})
declare name value = change_scopes (edit_current (add name value))

unfoldable pub return_ : Entity → Eval (Unit {0})
return_ value = change_scopes (return_value value)

unfoldable pub break_ : Eval (Unit {0})
break_ = change_scopes break_loop

unfoldable pub new_payload : Payload → Eval ℕ
new_payload p m = done (length m.heap) (record m { heap = m.heap ++ p ∷ [] })

unfoldable pub payload : ℕ → Eval Payload
payload p m = elim (get_elem? m.heap p) [ none ↦ stopped missing | some v ↦ done v m ]

unfoldable pub set_payload : ℕ → Payload → Eval (Unit {0})
set_payload p v m = done tt (record m { heap = set m.heap p v })

-- The latest event stands first.
unfoldable pub emit : Event → Eval (Unit {0})
emit e m = done tt (record m { events = e ∷ m.events })

unfoldable pub past : Eval (List Event)
past m = done m.events m
