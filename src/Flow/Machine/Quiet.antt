-- ===== src/Flow/Machine/Quiet.antt =====
-- Computations that leave the evaluation scope alone and neither run out of rounds nor ask for a scope
-- that is not there: those on values only. No firing of a timer is forgotten, and one interrupts.
use ez_cpp.Prelude.{
  Bool, true, false, ℕ, suc, ◌≤◌, ◌<◌, ◌≡◌, refl, ◌∙◌, arith, String, Option, none, some, List, [],
  ◌∷◌, get_elem?,
}
use ez_cpp.Flow.Entity.{Payload}
use ez_cpp.Flow.Machine.{
  cond, from_option, Machine, Outcome, done, thrown, interrupted, stopped, Stop, interrupt, missing,
  Exception, Eval, pure, throw, stop, ◌>>=◌, lookup_entity, lookup_type, returned_value,
  new_payload, payload, set_payload, emit, Event, print, trace, delay, wait, request, timed_out,
  past,
}

unfoldable pub IsQuietStop : Stop → Type 0
IsQuietStop Stop.out_of_rounds = ⊥
IsQuietStop Stop.no_scope = ⊥
IsQuietStop Stop.overflow = Unit {0}
IsQuietStop Stop.missing = Unit {0}
IsQuietStop Stop.too_deep = Unit {0}

-- How many timers of awaited invocations have fired.
abbrev pub timeouts : List Event → ℕ
timeouts [] = 0
timeouts (timed_out k ∷ es) = suc (timeouts es)
timeouts (print s ∷ es) = timeouts es
timeouts (trace s ∷ es) = timeouts es
timeouts (delay t ∷ es) = timeouts es
timeouts (wait t ∷ es) = timeouts es
timeouts (request k d t ∷ es) = timeouts es

abbrev pub Rests : {A : Type 0} → Machine → Outcome A → Type 0
Rests n (done a m) =
    (m.evaluation_scope ≡ n.evaluation_scope) × (timeouts n.events ≤ timeouts m.events)
Rests n (thrown x m) = m.evaluation_scope ≡ n.evaluation_scope
Rests n (interrupted k m) =
    (m.evaluation_scope ≡ n.evaluation_scope) × (timeouts n.events < timeouts m.events)
Rests n (stopped w) = IsQuietStop w

pub record IsQuiet {A : Type 0} (c : Eval A) : Type 0 where
  pub rests : (m : Machine) → Rests m (c m)

pub pure-IsQuiet : {A : Type 0} (a : A) → IsQuiet (pure a)
unfolding pure
pure-IsQuiet a = record { rests = λ m. (refl, omega arith) }

pub throw-IsQuiet : {A : Type 0} (x : Exception) → IsQuiet (throw {A = A} x)
unfolding throw
throw-IsQuiet x = record { rests = λ m. refl }

pub missing-IsQuiet : {A : Type 0} → IsQuiet (stop {A = A} Stop.missing)
unfolding stop IsQuietStop
missing-IsQuiet = record { rests = λ m. tt }

pub overflow-IsQuiet : {A : Type 0} → IsQuiet (stop {A = A} Stop.overflow)
unfolding stop IsQuietStop
overflow-IsQuiet = record { rests = λ m. tt }

pub too_deep-IsQuiet : {A : Type 0} → IsQuiet (stop {A = A} Stop.too_deep)
unfolding stop IsQuietStop
too_deep-IsQuiet = record { rests = λ m. tt }

pub interrupt-IsQuiet : {A : Type 0} (k : ℕ) → IsQuiet (interrupt {A = A} k)
unfolding interrupt
interrupt-IsQuiet k = record { rests = λ m. (refl, omega arith) }

Rests-trans :
    {A : Type 0} (n m : Machine) (o : Outcome A)
    → m.evaluation_scope ≡ n.evaluation_scope
    → timeouts n.events ≤ timeouts m.events
    → Rests m o
    → Rests n o
Rests-trans n m (done a m') e le h = (h.0 ∙ e, omega (arith, le, h.1))
Rests-trans n m (thrown x m') e le h = h ∙ e
Rests-trans n m (interrupted k m') e le h = (h.0 ∙ e, omega (arith, le, h.1))
Rests-trans n m (stopped w) e le h = h

Rests-then :
    {A B : Type 0} (n : Machine) (o : Outcome A) (f : A → Eval B)
    → Rests n o
    → ((a : A) → IsQuiet (f a))
    → Rests n (elim o [
      | done a m' ↦ f a m'
      | thrown x m' ↦ thrown x m'
      | interrupted k m' ↦ interrupted k m'
      | stopped w ↦ stopped w
    ])
Rests-then n (done a m) f h k = Rests-trans n m (f a m) h.0 h.1 ((k a).rests m)
Rests-then n (thrown x m) f h k = h
Rests-then n (interrupted i m) f h k = h
Rests-then n (stopped w) f h k = h

pub >>=-IsQuiet :
    {A B : Type 0} {c : Eval A} {f : A → Eval B}
    → IsQuiet c
    → ((a : A) → IsQuiet (f a))
    → IsQuiet (c >>= f)
unfolding ◌>>=◌
>>=-IsQuiet {c} {f} h k = record { rests = λ m. Rests-then m (c m) f (h.rests m) k }

pub lookup_entity-IsQuiet : (name : String) → IsQuiet (lookup_entity name)
unfolding lookup_entity
lookup_entity-IsQuiet name = record { rests = λ m. (refl, omega arith) }

pub lookup_type-IsQuiet : (name : String) → IsQuiet (lookup_type name)
unfolding lookup_type
lookup_type-IsQuiet name = record { rests = λ m. (refl, omega arith) }

pub returned_value-IsQuiet : (cell : ℕ) → IsQuiet (returned_value cell)
unfolding returned_value IsQuietStop
returned_value-IsQuiet cell = record {
  rests = λ m.
      elim (get_elem? m.evaluation_scope.cells cell)
        as (λ o. Rests m (elim o [ none ↦ stopped missing | some v ↦ done v m ])) [
          | none ↦ tt
          | some o ↦ (refl, omega arith)
        ];
}

pub new_payload-IsQuiet : (p : Payload) → IsQuiet (new_payload p)
unfolding new_payload
new_payload-IsQuiet p = record { rests = λ m. (refl, omega arith) }

pub payload-IsQuiet : (p : ℕ) → IsQuiet (payload p)
unfolding payload IsQuietStop
payload-IsQuiet p = record {
  rests = λ m.
      elim (get_elem? m.heap p)
        as (λ o. Rests m (elim o [ none ↦ stopped missing | some v ↦ done v m ])) [
          | none ↦ tt
          | some v ↦ (refl, omega arith)
        ];
}

pub set_payload-IsQuiet : (p : ℕ) (v : Payload) → IsQuiet (set_payload p v)
unfolding set_payload
set_payload-IsQuiet p v = record { rests = λ m. (refl, omega arith) }

timeouts-le : (e : Event) (es : List Event) → timeouts es ≤ timeouts (e ∷ es)
timeouts-le (timed_out k) es = omega arith
timeouts-le (print s) es = omega arith
timeouts-le (trace s) es = omega arith
timeouts-le (delay t) es = omega arith
timeouts-le (wait t) es = omega arith
timeouts-le (request k d t) es = omega arith

pub emit-IsQuiet : (e : Event) → IsQuiet (emit e)
unfolding emit
emit-IsQuiet e = record { rests = λ m. (refl, timeouts-le e m.events) }

pub past-IsQuiet : IsQuiet past
unfolding past
past-IsQuiet = record { rests = λ m. (refl, omega arith) }

pub cond-IsQuiet :
    {A : Type 0} (b : Bool) {c d : Eval A} → IsQuiet c → IsQuiet d → IsQuiet (cond b c d)
unfolding cond
cond-IsQuiet true h k = h
cond-IsQuiet false h k = k

pub from_option-IsQuiet :
    {A B : Type 0} (o : Option A) {c : Eval B} {f : A → Eval B}
    → IsQuiet c
    → ((a : A) → IsQuiet (f a))
    → IsQuiet (from_option o c f)
unfolding from_option
from_option-IsQuiet none h k = h
from_option-IsQuiet (some a) h k = k a

pub ruleset quiet = (
  pure-IsQuiet, throw-IsQuiet, missing-IsQuiet, overflow-IsQuiet, too_deep-IsQuiet,
  interrupt-IsQuiet, >>=-IsQuiet, lookup_entity-IsQuiet, lookup_type-IsQuiet,
  returned_value-IsQuiet, new_payload-IsQuiet, payload-IsQuiet, set_payload-IsQuiet, emit-IsQuiet,
  past-IsQuiet, cond-IsQuiet, from_option-IsQuiet,
)
