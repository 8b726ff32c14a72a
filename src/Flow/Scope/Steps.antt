-- ===== src/Flow/Scope/Steps.antt =====
-- What each operation of evaluation_context.cpp does to the list of scopes: inversion lemmas.
use ez_cpp.Prelude.{length, ℕ, ◌≡◌, inl, inr, some, List, ◌∷◌, arith, List-cases}
use ez_cpp.Flow.Scope.{
  ScopeType, FlowControlPolicy, Scope, EvaluationScope, edit_current, push, pop, new_scope,
}

module _ {E : Type 0} where
  pub edit_current-inv :
      (f : Scope E → Scope E) (es es' : EvaluationScope E)
      → edit_current f es ≡ some es'
      → (s : Scope E) × (ss : List (Scope E)) × (es.scopes ≡ s ∷ ss)
        × (es'.scopes ≡ f s ∷ ss)
        × (es'.cells ≡ es.cells)
  unfolding edit_current
  edit_current-inv f es es' h = elim (List-cases es.scopes) [
    | inl e ↦ absurd (ground arith)
    | inr (s, ss, e) ↦ (s, ss, e, ground arith, ground arith)
  ]

  -- A pushed scope is empty and stays, whatever its type.
  pub push-inv :
      (t : ScopeType) (es es' : EvaluationScope E)
      → push t es ≡ some es'
      → (cell : ℕ) × (es'.scopes ≡ new_scope cell t ∷ es.scopes)
  unfolding push
  push-inv ScopeType.function es es' h = (length es.cells, ground arith)
  push-inv ScopeType.loop es es' h = elim (List-cases es.scopes) [
    | inl e ↦ absurd (ground arith)
    | inr (s, ss, e) ↦ (s.return_value, ground arith)
  ]
  push-inv ScopeType.local es es' h = elim (List-cases es.scopes) [
    | inl e ↦ absurd (ground arith)
    | inr (s, ss, e) ↦ (s.return_value, ground arith)
  ]

  -- With nothing pending, `pop` takes the current scope away and does no more.
  pub pop_stay :
      (s : Scope E) (ss : List (Scope E)) (es : EvaluationScope E)
      → es.scopes ≡ s ∷ ss
      → s.flow_control_policy ≡ FlowControlPolicy.stay
      → pop es ≡ some (record es { scopes = ss })
  unfolding pop
  pop_stay s ss es e h = ground arith
