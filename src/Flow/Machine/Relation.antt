-- ===== src/Flow/Machine/Relation.antt =====
-- Relations between two computations that all the ways of putting computations together keep. What holds
-- of the parts of the interpreter in such a relation holds of the whole.
use ez_cpp.Prelude.{String, Bool, true, false, Option, none, some}
use ez_cpp.Flow.Entity.{Entity}
use ez_cpp.Flow.Scope.{Scope, ScopeType}
use ez_cpp.Flow.Machine.{
  Eval, ◌>>=◌, pure, cond, from_option, current_scope, declare, return_, break_,
}
use ez_cpp.Flow.Machine.Scoped.{in_scope, in_function, or_timeout}
use ez_cpp.Flow.Machine.Quiet.{IsQuiet, pure-IsQuiet}

pub record Congruence (R : (A : Type 0) → Eval A → Eval A → Type 0) : Type 1 where
  pub quiet : (A : Type 0) (c : Eval A) → IsQuiet c → R A c c
  pub bind :
      (A B : Type 0) (c d : Eval A) (f g : A → Eval B)
      → R A c d
      → ((a : A) → R B (f a) (g a))
      → R B (c >>= f) (d >>= g)
  pub scope_now : R (Scope Entity) current_scope current_scope
  pub declares : (name : String) (e : Entity) → R (Unit {0}) (declare name e) (declare name e)
  pub returns : (e : Entity) → R (Unit {0}) (return_ e) (return_ e)
  pub breaks : R (Unit {0}) break_ break_
  pub scoped :
      (A : Type 0) (t : ScopeType) (c d : Eval A) → R A c d → R A (in_scope t c) (in_scope t d)
  pub invoked : (A : Type 0) (c d : Eval A) → R A c d → R A (in_function c) (in_function d)
  pub awaited :
      (A : Type 0) (a : A) (c d : Eval A) → R A c d → R A (or_timeout a c) (or_timeout a d)

module _ {R : (A : Type 0) → Eval A → Eval A → Type 0} (K : Congruence R) where
  pub quiet-Related : {A : Type 0} {c : Eval A} → IsQuiet c → R A c c
  quiet-Related h = K.quiet _ _ h

  pub >>=-Related :
      {A B : Type 0} {c d : Eval A} {f g : A → Eval B}
      → R A c d
      → ((a : A) → R B (f a) (g a))
      → R B (c >>= f) (d >>= g)
  >>=-Related h k = K.bind _ _ _ _ _ _ h k

  pub pure-Related : {A : Type 0} (a : A) → R A (pure a) (pure a)
  pure-Related a = K.quiet _ _ (pure-IsQuiet a)

  pub cond-Related :
      {A : Type 0} (b : Bool) {c d c' d' : Eval A}
      → R A c d
      → R A c' d'
      → R A (cond b c c') (cond b d d')
  unfolding cond
  cond-Related true h k = h
  cond-Related false h k = k

  pub from_option-Related :
      {A B : Type 0} (o : Option A) {c d : Eval B} {f g : A → Eval B}
      → R B c d
      → ((a : A) → R B (f a) (g a))
      → R B (from_option o c f) (from_option o d g)
  unfolding from_option
  from_option-Related none h k = h
  from_option-Related (some a) h k = k a
