-- ===== src/Flow/Scope/Shape.antt =====
-- The shape of the scope stack that every operation of evaluation_context.cpp keeps.
use ez_cpp.Prelude.{
  ℕ, ◌+◌, ◌≤◌, ◌<◌, ◌≡◌, refl, sym, subst, ◌⊎◌, inl, inr, none, some, List, [], ◌∷◌, ◌++◌, arith,
  length, set, length-set, length-append, String,
}
use ez_cpp.Flow.Scope.{
  ScopeType, FlowControlPolicy, Scope, EvaluationScope, edit_current, push, pop, set_policy,
  propagate, new_scope, return_value, break_loop, add, scope_count, initial,
}

module _ {E : Type 0} where
  -- The bottom scope is a function's; every block shares the cell of the scope below it; and every
  -- cell exists.
  abbrev pub Linked : ℕ → List (Scope E) → Type 0
  Linked n [] = ⊥
  Linked n (s ∷ []) = (s.type ≡ ScopeType.function) × (s.return_value < n)
  Linked n (s ∷ t ∷ ss) =
      ((s.type ≡ ScopeType.function) ⊎ (s.return_value ≡ t.return_value))
      × (s.return_value < n)
      × Linked n (t ∷ ss)

  abbrev pub IsValid : EvaluationScope E → Type 0
  IsValid es = Linked (length es.cells) es.scopes

  -- The two scopes have the same type and cell.
  abbrev pub SameFrame : Scope E → Scope E → Type 0
  SameFrame s t = (s.type ≡ t.type) × (s.return_value ≡ t.return_value)

  Linked-mono : (m n : ℕ) (ss : List (Scope E)) → m ≤ n → Linked m ss → Linked n ss
  Linked-mono m n [] h l = l
  Linked-mono m n (s ∷ []) h l = (l.0, omega arith)
  Linked-mono m n (s ∷ t ∷ ss) h l = (l.0, omega arith, Linked-mono m n (t ∷ ss) h l.2)

  Linked-SameFrame :
      (n : ℕ) (s s' : Scope E) (ss : List (Scope E))
      → SameFrame s s'
      → Linked n (s ∷ ss)
      → Linked n (s' ∷ ss)
  Linked-SameFrame n s s' [] h l = ground arith
  Linked-SameFrame n s s' (t ∷ ss) h l = ground arith

  Linked-cell : (n : ℕ) (s : Scope E) (ss : List (Scope E)) → Linked n (s ∷ ss) → s.return_value < n
  Linked-cell n s [] l = l.1
  Linked-cell n s (t ∷ ss) l = l.1

  edit_current-Linked :
      (f : Scope E → Scope E) (n : ℕ) (ss : List (Scope E)) (es : EvaluationScope E)
      → ((s : Scope E) → SameFrame s (f s))
      → length es.cells ≡ n
      → es.scopes ≡ ss
      → Linked n ss
      → (es' : EvaluationScope E) × (edit_current f es ≡ some es') × IsValid es'
  unfolding edit_current
  edit_current-Linked f n [] es keep c e l = absurd l
  edit_current-Linked f n (s ∷ ss) es keep c e l = (
    record es { scopes = f s ∷ ss },
    ground arith,
    Linked-SameFrame _ s (f s) ss (keep s) (subst (λ k. Linked k (s ∷ ss)) (sym c) l),
  )

  push-Linked :
      (t : ScopeType) (ss : List (Scope E)) (es : EvaluationScope E)
      → es.scopes ≡ ss
      → Linked (length es.cells) ss
      → (es' : EvaluationScope E) × (push t es ≡ some es') × IsValid es'
  unfolding push
  push-Linked t [] es e l = absurd l
  push-Linked ScopeType.function (s ∷ ss) es e l =
      let grown : length (es.cells ++ none ∷ []) ≡ length es.cells + 1 =
        length-append es.cells (none ∷ []) in
      (
        record {
          scopes = new_scope (length es.cells) ScopeType.function ∷ s ∷ ss;
          cells = es.cells ++ none ∷ [];
        },
        ground arith,
        (inl refl, omega arith, Linked-mono _ _ (s ∷ ss) (omega arith) l),
      )
  push-Linked ScopeType.loop (s ∷ ss) es e l = (
    record es { scopes = new_scope s.return_value ScopeType.loop ∷ s ∷ ss },
    ground arith,
    (inr refl, Linked-cell _ s ss l, l),
  )
  push-Linked ScopeType.local (s ∷ ss) es e l = (
    record es { scopes = new_scope s.return_value ScopeType.local ∷ s ∷ ss },
    ground arith,
    (inr refl, Linked-cell _ s ss l, l),
  )

  propagate-Linked :
      (p : FlowControlPolicy) (t : ScopeType) (es : EvaluationScope E)
      → IsValid es
      → (es' : EvaluationScope E) × (propagate p t es ≡ some es') × IsValid es'
  unfolding propagate
  propagate-Linked FlowControlPolicy.stay t es v = (es, refl, v)
  propagate-Linked FlowControlPolicy.return ScopeType.function es v = (es, refl, v)
  propagate-Linked FlowControlPolicy.return ScopeType.loop es v =
      edit_current-Linked _ _ es.scopes es (λ s. (refl, refl)) refl refl v
  propagate-Linked FlowControlPolicy.return ScopeType.local es v =
      edit_current-Linked _ _ es.scopes es (λ s. (refl, refl)) refl refl v
  propagate-Linked FlowControlPolicy.break ScopeType.function es v = (es, refl, v)
  propagate-Linked FlowControlPolicy.break ScopeType.loop es v =
      edit_current-Linked _ _ es.scopes es (λ s. (refl, refl)) refl refl v
  propagate-Linked FlowControlPolicy.break ScopeType.local es v =
      edit_current-Linked _ _ es.scopes es (λ s. (refl, refl)) refl refl v

  pop-Linked :
      (ss : List (Scope E)) (es : EvaluationScope E)
      → es.scopes ≡ ss
      → 1 < length ss
      → Linked (length es.cells) ss
      → (es' : EvaluationScope E) × (pop es ≡ some es') × IsValid es'
  unfolding pop
  pop-Linked [] es e more l = absurd l
  pop-Linked (s ∷ []) es e more l = absurd (omega arith)
  pop-Linked (s ∷ t ∷ ss) es e more l =
      let (es', done, v) =
        propagate-Linked s.flow_control_policy s.type (record es { scopes = t ∷ ss }) l.2 in
      (es', rw (e, pop) done, v)

  return_value-Linked :
      (v : E) (ss : List (Scope E)) (es : EvaluationScope E)
      → es.scopes ≡ ss
      → Linked (length es.cells) ss
      → (es' : EvaluationScope E) × (return_value v es ≡ some es') × IsValid es'
  unfolding return_value
  return_value-Linked v [] es e l = absurd l
  return_value-Linked v (s ∷ ss) es e l = (
    record {
      scopes = set_policy FlowControlPolicy.return s ∷ ss;
      cells = set es.cells s.return_value (some v);
    },
    ground arith,
    Linked-mono _ _ (set_policy FlowControlPolicy.return s ∷ ss)
        (omega (arith, length-set es.cells s.return_value (some v)))
        (Linked-SameFrame _ s (set_policy FlowControlPolicy.return s) ss (refl, refl) l),
  )

  -- On a valid stack no operation meets an empty deque, and each leaves a valid stack: `push` of any
  -- type, a declaration, `return_value`, `break_loop`, and `pop` while two scopes are left.
  pub operations-IsValid :
      (es : EvaluationScope E)
      → IsValid es
      → ((t : ScopeType) → (r : EvaluationScope E) × (push t es ≡ some r) × IsValid r)
        × ((name : String) (v : E)
            → (r : EvaluationScope E) × (edit_current (add name v) es ≡ some r) × IsValid r)
        × ((v : E) → (r : EvaluationScope E) × (return_value v es ≡ some r) × IsValid r)
        × ((r : EvaluationScope E) × (break_loop es ≡ some r) × IsValid r)
        × (1 < scope_count es → (r : EvaluationScope E) × (pop es ≡ some r) × IsValid r)
  unfolding add break_loop scope_count
  operations-IsValid es v = (
    λ t. push-Linked t es.scopes es refl v,
    λ name x. edit_current-Linked (add name x) _ es.scopes es (λ s. (refl, refl)) refl refl v,
    λ x. return_value-Linked x es.scopes es refl v,
    edit_current-Linked (set_policy FlowControlPolicy.break) _ es.scopes es (λ s. (refl, refl)) refl
        refl v,
    λ more. pop-Linked es.scopes es refl more v,
  )

  -- The constructor makes a valid stack of one scope.
  pub initial-IsValid :
      (make : String → E)
      → (es : EvaluationScope E) × (initial make ≡ some es) × IsValid es × (scope_count es ≡ 1)
  unfolding initial scope_count
  initial-IsValid make = (_, refl, (refl, omega arith), refl)
