-- ===== src/Flow/Scope/Frames.antt =====
-- What the operations of the scope stack leave of the frames: the current scope's type and cell, and the
-- scopes below it.
use ez_cpp.Prelude.{
  ℕ, ◌<◌, ◌≡◌, refl, sym, ap, subst, ◌∙◌, inl, inr, Option, some, List, [], ◌∷◌, arith, length,
  String, List-cases, eq_of_some,
}
use ez_cpp.Flow.Scope.{
  ScopeType, FlowControlPolicy, Scope, EvaluationScope, edit_current, push, pop, propagate,
  set_policy, return_value, break_loop, add, scope_count, current, new_scope,
}
use ez_cpp.Flow.Scope.Shape.{IsValid, Linked, SameFrame, operations-IsValid}

module _ {E : Type 0} where
  -- The same current frame, over the same scopes.
  abbrev pub SameBelow : List (Scope E) → List (Scope E) → Type 0
  SameBelow [] ts = ⊥
  SameBelow (s ∷ ss) [] = ⊥
  SameBelow (s ∷ ss) (t ∷ ts) = SameFrame s t × (ts ≡ ss)

  pub SameBelow-length : (ss ts : List (Scope E)) → SameBelow ss ts → length ts ≡ length ss
  SameBelow-length [] ts h = absurd h
  SameBelow-length (s ∷ ss) [] h = absurd h
  SameBelow-length (s ∷ ss) (t ∷ ts) h = ap (λ u. ℕ.suc (length u)) h.1

  pub SameBelow-trans :
      (ss ts us : List (Scope E)) → SameBelow ss ts → SameBelow ts us → SameBelow ss us
  SameBelow-trans [] ts us h k = absurd h
  SameBelow-trans (s ∷ ss) [] us h k = absurd h
  SameBelow-trans (s ∷ ss) (t ∷ ts) [] h k = absurd k
  SameBelow-trans (s ∷ ss) (t ∷ ts) (u ∷ us) h k = ((h.0.0 ∙ k.0.0, h.0.1 ∙ k.0.1), k.1 ∙ h.1)

  pub SameBelow-over :
      (s : Scope E) (ss ts : List (Scope E)) → SameBelow (s ∷ ss) ts → (t : Scope E) × (ts ≡ t ∷ ss)
  SameBelow-over s ss [] h = absurd h
  SameBelow-over s ss (t ∷ ts) h = (t, ap (λ u. t ∷ u) h.1)

  -- A valid stack has a current scope.
  pub current-IsValid :
      (es : EvaluationScope E)
      → IsValid es
      → (s : Scope E) × (ss : List (Scope E)) × (es.scopes ≡ s ∷ ss)
  current-IsValid es v = elim (List-cases es.scopes) [
    | inl e ↦ absurd (subst (Linked (length es.cells)) e v)
    | inr c ↦ c
  ]

  edit_current-scopes :
      (f : Scope E → Scope E) (s : Scope E) (ss : List (Scope E)) (es r : EvaluationScope E)
      → es.scopes ≡ s ∷ ss
      → edit_current f es ≡ some r
      → r.scopes ≡ f s ∷ ss
  unfolding edit_current
  edit_current-scopes f s ss es r e h = ground arith

  return_value-scopes :
      (v : E) (s : Scope E) (ss : List (Scope E)) (es r : EvaluationScope E)
      → es.scopes ≡ s ∷ ss
      → return_value v es ≡ some r
      → r.scopes ≡ set_policy FlowControlPolicy.return s ∷ ss
  unfolding return_value current edit_current
  return_value-scopes v s ss es r e h = ground arith

  pub push-scopes :
      (t : ScopeType) (s : Scope E) (ss : List (Scope E)) (es r : EvaluationScope E)
      → es.scopes ≡ s ∷ ss
      → push t es ≡ some r
      → (n : Scope E) × (r.scopes ≡ n ∷ s ∷ ss)
  unfolding push current
  push-scopes ScopeType.function s ss es r e h =
      (new_scope (length es.cells) ScopeType.function, ground arith)
  push-scopes ScopeType.loop s ss es r e h = (new_scope s.return_value ScopeType.loop, ground arith)
  push-scopes ScopeType.local s ss es r e h =
      (new_scope s.return_value ScopeType.local, ground arith)

  edit-SameBelow :
      (f : Scope E → Scope E) (s : Scope E) (ss : List (Scope E)) (es r : EvaluationScope E)
      → SameFrame s (f s)
      → es.scopes ≡ s ∷ ss
      → edit_current f es ≡ some r
      → SameBelow (s ∷ ss) r.scopes
  edit-SameBelow f s ss es r keep e h =
      subst (SameBelow (s ∷ ss)) (sym (edit_current-scopes f s ss es r e h)) (keep, refl)

  propagate-SameBelow :
      (p : FlowControlPolicy) (t : ScopeType) (s : Scope E) (ss : List (Scope E))
      (es r : EvaluationScope E)
      → es.scopes ≡ s ∷ ss
      → propagate p t es ≡ some r
      → SameBelow (s ∷ ss) r.scopes
  unfolding propagate
  propagate-SameBelow FlowControlPolicy.stay t s ss es r e h =
      subst (SameBelow (s ∷ ss)) (sym e ∙ ap (λ x. x.scopes) (eq_of_some h)) ((refl, refl), refl)
  propagate-SameBelow FlowControlPolicy.return ScopeType.function s ss es r e h =
      subst (SameBelow (s ∷ ss)) (sym e ∙ ap (λ x. x.scopes) (eq_of_some h)) ((refl, refl), refl)
  propagate-SameBelow FlowControlPolicy.return ScopeType.loop s ss es r e h =
      edit-SameBelow (set_policy FlowControlPolicy.return) s ss es r (refl, refl) e h
  propagate-SameBelow FlowControlPolicy.return ScopeType.local s ss es r e h =
      edit-SameBelow (set_policy FlowControlPolicy.return) s ss es r (refl, refl) e h
  propagate-SameBelow FlowControlPolicy.break ScopeType.function s ss es r e h =
      subst (SameBelow (s ∷ ss)) (sym e ∙ ap (λ x. x.scopes) (eq_of_some h)) ((refl, refl), refl)
  propagate-SameBelow FlowControlPolicy.break ScopeType.loop s ss es r e h =
      edit-SameBelow (set_policy FlowControlPolicy.break) s ss es r (refl, refl) e h
  propagate-SameBelow FlowControlPolicy.break ScopeType.local s ss es r e h =
      edit-SameBelow (set_policy FlowControlPolicy.break) s ss es r (refl, refl) e h

  pub pop-SameBelow :
      (n s : Scope E) (ss : List (Scope E)) (es r : EvaluationScope E)
      → es.scopes ≡ n ∷ s ∷ ss
      → pop es ≡ some r
      → SameBelow (s ∷ ss) r.scopes
  unfolding pop
  pop-SameBelow n s ss es r e h =
      propagate-SameBelow n.flow_control_policy n.type s ss (record es { scopes = s ∷ ss }) r refl
        (sym (rw (e, pop) refl) ∙ h)

  pub current-eq :
      (s : Scope E) (ss : List (Scope E)) (es : EvaluationScope E)
      → es.scopes ≡ s ∷ ss
      → current es ≡ some s
  unfolding current
  current-eq s ss es e = rw (e, current) refl

  -- The operation succeeds, leaves a valid stack and keeps its frames.
  abbrev pub Stands : EvaluationScope E → Option (EvaluationScope E) → Type 0
  Stands es o = (r : EvaluationScope E) × (o ≡ some r) × IsValid r × SameBelow es.scopes r.scopes

  pub declare-Stands :
      (name : String) (v : E) (es : EvaluationScope E)
      → IsValid es
      → Stands es (edit_current (add name v) es)
  unfolding add
  declare-Stands name v es h =
      let (s, ss, e) = current-IsValid es h in
      let (r, done, w) = (operations-IsValid es h).1 name v in
      (
        r,
        done,
        w,
        subst (λ x. SameBelow x r.scopes) (sym e)
            (edit-SameBelow (add name v) s ss es r (refl, refl) e done),
      )

  pub return_value-Stands :
      (v : E) (es : EvaluationScope E) → IsValid es → Stands es (return_value v es)
  return_value-Stands v es h =
      let (s, ss, e) = current-IsValid es h in
      let (r, done, w) = (operations-IsValid es h).2 v in
      (
        r,
        done,
        w,
        subst (λ x. SameBelow x r.scopes) (sym e)
            (subst (SameBelow (s ∷ ss)) (sym (return_value-scopes v s ss es r e done))
              ((refl, refl), refl)),
      )

  pub break_loop-Stands : (es : EvaluationScope E) → IsValid es → Stands es (break_loop es)
  unfolding break_loop
  break_loop-Stands es h =
      let (s, ss, e) = current-IsValid es h in
      let (r, done, w) = (operations-IsValid es h).3 in
      (
        r,
        done,
        w,
        subst (λ x. SameBelow x r.scopes) (sym e)
            (edit-SameBelow (set_policy FlowControlPolicy.break) s ss es r (refl, refl) e done),
      )

  -- A scope that is pushed stands over the stack.
  pub push-over :
      (t : ScopeType) (es : EvaluationScope E)
      → IsValid es
      → (r : EvaluationScope E) × (push t es ≡ some r)
        × IsValid r
        × ((n : Scope E) × (r.scopes ≡ n ∷ es.scopes))
  push-over t es h =
      let (s, ss, e) = current-IsValid es h in
      let (r, done, w) = (operations-IsValid es h).0 t in
      let (n, over) = push-scopes t s ss es r e done in
      (r, done, w, (n, over ∙ ap (λ x. n ∷ x) (sym e)))

  -- `pop` of a valid stack with a scope below the current one.
  pub pop-Stands :
      (n : Scope E) (ss : List (Scope E)) (es : EvaluationScope E)
      → IsValid es
      → es.scopes ≡ n ∷ ss
      → 0 < length ss
      → (r : EvaluationScope E) × (pop es ≡ some r) × IsValid r × SameBelow ss r.scopes
  unfolding scope_count
  pop-Stands n [] es h e more = absurd (omega (arith, more))
  pop-Stands n (s ∷ ss) es h e more =
      let (r, done, w) = (operations-IsValid es h).4 (omega (arith, ap (λ x. length x) e)) in
      (r, done, w, pop-SameBelow n s ss es r e done)
