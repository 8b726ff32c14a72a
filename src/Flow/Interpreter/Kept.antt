-- ===== src/Flow/Interpreter/Kept.antt =====
-- What a computation of the interpreter leaves of a valid scope stack, and of one on which a scope was
-- pushed for it.
use ez_cpp.Prelude.{
  zero, suc, ◌<◌, ◌≤◌, ◌≡◌, ◌≢◌, refl, sym, ap, subst, ◌∙◌, ◌⊎◌, inl, inr, some, List, ◌∷◌, arith,
  length, eq_of_some,
}
use ez_cpp.Flow.Entity.{Entity}
use ez_cpp.Flow.Scope.{Scope, EvaluationScope, pop}
use ez_cpp.Flow.Scope.Shape.{IsValid}
use ez_cpp.Flow.Scope.Frames.{
  SameBelow, SameBelow-over, SameBelow-length, SameBelow-trans, current-IsValid, pop-Stands,
}
use ez_cpp.Flow.Machine.{
  Machine, Outcome, done, thrown, interrupted, stopped, Stop, Eval, ◌>>=◌, pure, change_scopes,
  no_scope,
}
use ez_cpp.Flow.Machine.Scoped.{leave, after_timeout}
use ez_cpp.Flow.Machine.Quiet.{Rests, IsQuietStop, timeouts}

-- What an outcome leaves of the machine `n`. A value leaves the scopes as they were but for the current
-- one, unless the timer of an awaited invocation has fired; an exception and a timer may leave scopes of
-- invocations that did not end.
abbrev pub Keeps : {A : Type 0} → Machine → Outcome A → Type 0
Keeps n (done a m) =
    IsValid m.evaluation_scope
    × (length n.evaluation_scope.scopes ≤ length m.evaluation_scope.scopes)
    × (timeouts n.events ≤ timeouts m.events)
    × (SameBelow n.evaluation_scope.scopes m.evaluation_scope.scopes
        ⊎ (timeouts n.events < timeouts m.events))
Keeps n (thrown x m) =
    IsValid m.evaluation_scope
    × (length n.evaluation_scope.scopes ≤ length m.evaluation_scope.scopes)
Keeps n (interrupted k m) =
    IsValid m.evaluation_scope
    × (length n.evaluation_scope.scopes ≤ length m.evaluation_scope.scopes)
    × (timeouts n.events < timeouts m.events)
Keeps n (stopped w) = w ≢ no_scope

pub SameBelow-refl : (es : EvaluationScope Entity) → IsValid es → SameBelow es.scopes es.scopes
SameBelow-refl es v =
    let (s, ss, e) = current-IsValid es v in subst (λ x. SameBelow x x) (sym e) ((refl, refl), refl)

-- After a value, the rest of a computation keeps what it kept before.
pub Keeps-trans :
    {A B : Type 0} (n m : Machine) (a : A) (o : Outcome B)
    → Keeps n (done a m)
    → Keeps m o
    → Keeps n o
Keeps-trans n m a (done b m') h k = (
  k.0,
  omega (arith, h.1, k.1),
  omega (arith, h.2, k.2),
  elim h.3 [
    | inr more ↦ inr (omega (arith, more, k.2))
    | inl same ↦ elim k.3 [
      | inr more ↦ inr (omega (arith, h.2, more))
      | inl same' ↦
          inl (SameBelow-trans n.evaluation_scope.scopes m.evaluation_scope.scopes _ same same')
    ]
  ],
)
Keeps-trans n m a (thrown x m') h k = (k.0, omega (arith, h.1, k.1))
Keeps-trans n m a (interrupted i m') h k = (k.0, omega (arith, h.1, k.1), omega (arith, h.2, k.2))
Keeps-trans n m a (stopped w) h k = k

abbrev pub next : {A B : Type 0} → (A → Eval B) → Outcome A → Outcome B
next f (done a m) = f a m
next f (thrown x m) = thrown x m
next f (interrupted k m) = interrupted k m
next f (stopped w) = stopped w

-- The same scopes.
pub same-Keeps :
    {A : Type 0} (n m : Machine) (a : A)
    → IsValid n.evaluation_scope
    → m.evaluation_scope ≡ n.evaluation_scope
    → timeouts n.events ≤ timeouts m.events
    → Keeps n (done a m)
same-Keeps n m a v e le = (
  subst IsValid (sym e) v,
  omega (arith, ap (λ x. length x.scopes) e),
  le,
  inl (
      subst (λ x. SameBelow n.evaluation_scope.scopes x.scopes) (sym e)
        (SameBelow-refl n.evaluation_scope v)),
)

pub Rests-Keeps :
    {A : Type 0} (n : Machine) (o : Outcome A) → IsValid n.evaluation_scope → Rests n o → Keeps n o
unfolding IsQuietStop
Rests-Keeps n (done a m) v h = same-Keeps n m a v h.0 h.1
Rests-Keeps n (thrown x m) v h =
    (subst IsValid (sym h) v, omega (arith, ap (λ x. length x.scopes) h))
Rests-Keeps n (interrupted k m) v h =
    (subst IsValid (sym h.0) v, omega (arith, ap (λ x. length x.scopes) h.0), h.1)
Rests-Keeps n (stopped Stop.out_of_rounds) v h = absurd h
Rests-Keeps n (stopped Stop.no_scope) v h = absurd h
Rests-Keeps n (stopped Stop.overflow) v h = λ e. cc
Rests-Keeps n (stopped Stop.missing) v h = λ e. cc
Rests-Keeps n (stopped Stop.too_deep) v h = λ e. cc

pub has-scope : (es : EvaluationScope Entity) → IsValid es → 0 < length es.scopes
has-scope es v = let (s, ss, e) = current-IsValid es v in omega (arith, ap (λ x. length x) e)

-- The stack after a pop, where what ran under a scope that was pushed on `n` has left `m`.
pub pop-Keeps :
    (n m : Machine)
    → IsValid n.evaluation_scope
    → IsValid m.evaluation_scope
    → length n.evaluation_scope.scopes < length m.evaluation_scope.scopes
    → (r : EvaluationScope Entity) × (pop m.evaluation_scope ≡ some r)
      × IsValid r
      × (length n.evaluation_scope.scopes ≤ length r.scopes)
pop-Keeps n m v w more =
    let (t, ts, over) = current-IsValid m.evaluation_scope w in
    let deep : length n.evaluation_scope.scopes ≤ length ts =
      omega (arith, more, ap (λ x. length x) over) in
    let (r, popped, valid, below) =
      pop-Stands t ts m.evaluation_scope w over
        (omega (arith, deep, has-scope n.evaluation_scope v)) in
    (r, popped, valid, omega (arith, deep, SameBelow-length ts r.scopes below))

-- The same where what ran has left the scopes below as they were.
pub pop-SameBelow :
    (s : Scope Entity) (n m : Machine) (ss : List (Scope Entity)) (r : EvaluationScope Entity)
    → IsValid n.evaluation_scope
    → IsValid m.evaluation_scope
    → ss ≡ s ∷ n.evaluation_scope.scopes
    → SameBelow ss m.evaluation_scope.scopes
    → pop m.evaluation_scope ≡ some r
    → SameBelow n.evaluation_scope.scopes r.scopes
pop-SameBelow s n m ss r v w e same popped =
    let (t, over) =
      SameBelow-over s n.evaluation_scope.scopes m.evaluation_scope.scopes
        (subst (λ x. SameBelow x m.evaluation_scope.scopes) e same) in
    let (r', popped', valid, below) =
      pop-Stands t n.evaluation_scope.scopes m.evaluation_scope w over
        (has-scope n.evaluation_scope v) in
    subst (λ x. SameBelow n.evaluation_scope.scopes x.scopes) (eq_of_some (sym popped' ∙ popped))
      below

-- A value that was computed under the scope, after a pop.
pub left-Keeps :
    {A : Type 0} (s : Scope Entity) (n k m : Machine) (a : A) (r : EvaluationScope Entity)
    → IsValid n.evaluation_scope
    → k.evaluation_scope.scopes ≡ s ∷ n.evaluation_scope.scopes
    → k.events ≡ n.events
    → Keeps k (done a m)
    → pop m.evaluation_scope ≡ some r
    → IsValid r
    → length n.evaluation_scope.scopes ≤ length r.scopes
    → Keeps n (done a (record m { evaluation_scope = r }))
left-Keeps s n k m a r v e same h popped valid deep =
    let still : timeouts k.events ≡ timeouts n.events = ap timeouts same in
    (
      valid,
      deep,
      omega (arith, still, h.2),
      elim h.3 [
        | inl below ↦ inl (pop-SameBelow s n m k.evaluation_scope.scopes r v h.0 e below popped)
        | inr more ↦ inr (omega (arith, still, more))
      ],
    )

module _ {A : Type 0} (s : Scope Entity) (n k : Machine) (v : IsValid n.evaluation_scope)
    (e : k.evaluation_scope.scopes ≡ s ∷ n.evaluation_scope.scopes)
    (same : k.events ≡ n.events) where
  -- The stack after what ran under a scope of its own was left with `pop`.
  pub leave-Keeps : (o : Outcome A) → Keeps k o → Keeps n (leave o)
  unfolding leave
  leave-Keeps (done a m) h =
      let (r, popped, valid, deep) =
        pop-Keeps n m v h.0 (omega (arith, h.1, ap (λ x. length x) e)) in
      rw (popped, leave) (left-Keeps s n k m a r v e same h popped valid deep)
  leave-Keeps (thrown x m) h =
      let (r, popped, valid, deep) =
        pop-Keeps n m v h.0 (omega (arith, h.1, ap (λ x. length x) e)) in
      rw (popped, leave) (valid, deep)
  leave-Keeps (interrupted i m) h =
      let (r, popped, valid, deep) =
        pop-Keeps n m v h.0 (omega (arith, h.1, ap (λ x. length x) e)) in
      rw (popped, leave) (valid, deep, omega (arith, ap timeouts same, h.2))
  leave-Keeps (stopped w) h = h

  -- An invocation leaves its scope where its body ends.
  pub close-Keeps :
      (o : Outcome A) → Keeps k o → Keeps n (next (λ a. change_scopes pop >>= λ u. pure a) o)
  unfolding change_scopes ◌>>=◌ pure
  close-Keeps (done a m) h =
      let (r, popped, valid, deep) =
        pop-Keeps n m v h.0 (omega (arith, h.1, ap (λ x. length x) e)) in
      rw (popped, Keeps, next, ◌>>=◌, change_scopes)
        (left-Keeps s n k m a r v e same h popped valid deep)
  close-Keeps (thrown x m) h = (h.0, omega (arith, h.1, ap (λ x. length x) e))
  close-Keeps (interrupted i m) h =
      (h.0, omega (arith, h.1, ap (λ x. length x) e), omega (arith, ap timeouts same, h.2))
  close-Keeps (stopped w) h = h

-- What waited for an invocation that was destroyed goes on over the scopes that are left.
pub after_timeout-Keeps :
    {A : Type 0} (n : Machine) (a : A) (o : Outcome A) → Keeps n o → Keeps n (after_timeout a o)
unfolding after_timeout
after_timeout-Keeps n a (done b m) h = h
after_timeout-Keeps n a (thrown x m) h = h
after_timeout-Keeps n a (interrupted zero m) h = (h.0, h.1, omega (arith, h.2), inr h.2)
after_timeout-Keeps n a (interrupted (suc k) m) h = h
after_timeout-Keeps n a (stopped w) h = h
