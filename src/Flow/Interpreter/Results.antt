-- ===== src/Flow/Interpreter/Results.antt =====
-- The type of the value that an invocation gives.
use text.Mathlib.TextEquality.{eq_iff}
use ez_cpp.Prelude.{
  ℕ, ◌≡◌, refl, sym, ap, subst, ◌∙◌, arith, ◌⊎◌, inl, inr, Bool, true, false, Option, none, some,
}
use ez_cpp.Flow.Ast.{Located, Identifier, Signature}
use ez_cpp.Flow.Ast.Statements.{WorkflowScope, workflow_definition}
use ez_cpp.Flow.Types.{TypeInfo, EntityKind, static_type, same_type}
use ez_cpp.Flow.Entity.{Entity, Instanciation, CallArguments, type}
use ez_cpp.Flow.Machine.{
  Machine, Exception, Outcome, done, thrown, interrupted, stopped, Eval, ◌>>=◌, pure, throw, cond,
  change_scopes, current_scope, returned_value, from_option,
}
use ez_cpp.Flow.Machine.Scoped.{in_function}
use ez_cpp.Flow.Scope.{ScopeType, push, pop}
use ez_cpp.Flow.Values.Host.{Platform}
use ez_cpp.Flow.Interpreter.Statements.{eval_scope}
use ez_cpp.Flow.Interpreter.Invocations.{return_type, bind_arguments, check_result, eval_invocation}
use ez_cpp.Flow.Interpreter.Related.Expressions.{Invoke}

abbrev next : {A B : Type 0} → (A → Eval B) → Outcome A → Outcome B
next f (done a m) = f a m
next f (thrown x m) = thrown x m
next f (interrupted k m) = interrupted k m
next f (stopped w) = stopped w

next-eq-done :
    {A B : Type 0} (f : A → Eval B) (o : Outcome A) (m' : Machine) (b : B)
    → next f o ≡ done b m'
    → (a : A) × (m : Machine) × (o ≡ done a m) × (f a m ≡ done b m')
next-eq-done f (done a m) m' b h = (a, m, refl, h)
next-eq-done f (thrown x m) m' b h = cc
next-eq-done f (interrupted k m) m' b h = cc
next-eq-done f (stopped w) m' b h = cc

-- The computation ends with the value on the machine that follows.
pub record Ends {A : Type 0} (c : Eval A) (m : Machine) (a : A) (m' : Machine) : Type 0 where
  pub ends : c m ≡ done a m'

>>=-eq-done :
    {A B : Type 0} (c : Eval A) (f : A → Eval B) (m m' : Machine) (b : B)
    → (c >>= f) m ≡ done b m'
    → (a : A) × (n : Machine) × (c m ≡ done a n) × (f a n ≡ done b m')
unfolding ◌>>=◌
>>=-eq-done c f m m' b h = next-eq-done f (c m) m' b h

-- A composed computation ends with a value where both parts do.
pub >>=-Ends :
    {A B : Type 0} {c : Eval A} {f : A → Eval B} {m m' : Machine} {b : B}
    → Ends (c >>= f) m b m'
    → (a : A) × (n : Machine) × Ends c m a n × Ends (f a) n b m'
>>=-Ends {c = c} {f = f} {m = m} {m' = m'} {b = b} h =
    let (a, n, first, rest) = >>=-eq-done c f m m' b h.ends in
    (a, n, record { ends = first }, record { ends = rest })

pure-Ends : {A : Type 0} {a b : A} {m m' : Machine} → Ends (pure a) m b m' → a ≡ b
unfolding pure
pure-Ends h = let e = h.ends in ground arith

cond-Ends :
    {A : Type 0} (b : Bool) {c d : Eval A} {m m' : Machine} {a : A}
    → Ends (cond b c d) m a m'
    → ((b ≡ true) × Ends c m a m') ⊎ ((b ≡ false) × Ends d m a m')
unfolding cond
cond-Ends true h = inl (refl, h)
cond-Ends false h = inr (refl, h)

throw-Ends : {A : Type 0} (x : Exception) {m m' : Machine} {a : A} → Ends (throw x) m a m' → ⊥
unfolding throw
throw-Ends x h = let e = h.ends in ground arith

pub from_option-Ends :
    {A B : Type 0} (o : Option A) (x : Exception) {f : A → Eval B} {m m' : Machine} {b : B}
    → Ends (from_option o (throw x) f) m b m'
    → (a : A) × Ends (f a) m b m'
unfolding from_option
from_option-Ends none x h = absurd (throw-Ends x h)
from_option-Ends (some a) x h = (a, h)

-- The type of the value, or that of an error.
abbrev pub IsResult : TypeInfo → Entity → Type 0
IsResult expected e = ((type e).id ≡ expected.id) ⊎ ((type e).id ≡ "error")

same_type-id : (s t : TypeInfo) → same_type s t ≡ true → s.id ≡ t.id
same_type-id s t h = (eq_iff s.id t.id).0 h

check_result-IsResult :
    (t : TypeInfo) (i : Instanciation) (o : Option Entity) (m m' : Machine) (e : Entity)
    → Ends (check_result t i o) m e m'
    → IsResult t e
unfolding check_result static_type
check_result-IsResult t i none m m' e h = elim (cond-Ends _ h) [
  | inl (q, r) ↦ inl (
      ap (λ x. (type x).id) (sym (pure-Ends r))
      ∙ sym (same_type-id t (static_type EntityKind.void) q))
  | inr (q, r) ↦ let (site, n, called, raised) = >>=-Ends r in absurd (throw-Ends _ raised)
]
check_result-IsResult t i (some x) m m' e h = elim (cond-Ends _ h) [
  | inl (q, r) ↦ inl (ap (λ x. (type x).id) (sym (pure-Ends r)) ∙ same_type-id (type x) t q)
  | inr (q, r) ↦ elim (cond-Ends _ r) [
    | inl (q, r) ↦ inr (
        ap (λ x. (type x).id) (sym (pure-Ends r))
        ∙ same_type-id (type x) (static_type EntityKind.error) q)
    | inr (q, r) ↦ absurd (throw-Ends _ r)
  ]
]

in_function-Ends :
    {A : Type 0} (c : Eval A) (m m' : Machine) (a : A)
    → Ends (in_function c) m a m'
    → (n n' : Machine) × Ends c n a n'
unfolding in_function
in_function-Ends c m m' a h =
    let steps : Ends
        (change_scopes (push ScopeType.function) >>= λ u.
          c >>= λ a. change_scopes pop >>= λ u. pure a)
        m a m' =
      h in
    let (u, n, pushed, rest) = >>=-Ends steps in
    let (b, n', ran, rest) = >>=-Ends rest in
    let (u, n'', popped, rest) = >>=-Ends rest in
    (n, n', subst (λ x. Ends c n x n') (pure-Ends rest) ran)

eval_invocation-typed :
    (P : Platform) (n : ℕ) (invoke : Invoke) (l : Located) (name : Identifier)
    (signature : Option Signature) (scope : WorkflowScope) (s : Instanciation)
    (args : CallArguments) (m m' : Machine) (e : Entity)
    → Ends (eval_invocation P n invoke (workflow_definition l name signature scope) s args) m e m'
    → (t : TypeInfo) × (k : Machine) × (return_type signature m ≡ done t k) × IsResult t e
unfolding eval_invocation
eval_invocation-typed P n invoke l name signature scope s args m m' e h =
    let steps : Ends
        (return_type signature >>= λ t. in_function (
          current_scope >>= λ top. bind_arguments signature s args >>= λ u.
          eval_scope P n invoke scope ScopeType.local >>= λ u.
          returned_value top.return_value >>= λ value. check_result t s value))
        m e m' =
      h in
    let (t, k, found, rest) = >>=-Ends steps in
    let (a, a', body) = in_function-Ends _ k m' e rest in
    let (top, b, now, rest) = >>=-Ends body in
    let (u, c, bound, rest) = >>=-Ends rest in
    let (u, d, ran, rest) = >>=-Ends rest in
    let (value, f, read, rest) = >>=-Ends rest in
    (t, k, found.ends, check_result-IsResult t s value f a' e rest)

-- An invocation that ends with a value, however the invocations that it awaits are evaluated, found its
-- return type, `void` where the workflow names none, and the value is of that type or an error.
pub eval_invocation-IsResult :
    (P : Platform) (n : ℕ) (invoke : Invoke) (l : Located) (name : Identifier)
    (signature : Option Signature) (scope : WorkflowScope) (s : Instanciation)
    (args : CallArguments) (m m' : Machine) (e : Entity)
    → eval_invocation P n invoke (workflow_definition l name signature scope) s args m ≡ done e m'
    → (t : TypeInfo) × (k : Machine) × (return_type signature m ≡ done t k) × IsResult t e
eval_invocation-IsResult P n invoke l name signature scope s args m m' e h =
    eval_invocation-typed P n invoke l name signature scope s args m m' e (record { ends = h })
