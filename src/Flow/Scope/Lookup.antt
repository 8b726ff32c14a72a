-- ===== src/Flow/Scope/Lookup.antt =====
-- What names mean in nested scopes (evaluation_context.cpp).
use text.Mathlib.Text.{◌==◌ as str_eq}
use ez_cpp.Prelude.{
  List-cases, inl, inr, String, ◌≡◌, refl, ap, Option, some, List, [], ◌∷◌, arith, if◌then◌else◌,
  ◌>>=◌, >>=-eq-some,
}
use ez_cpp.Flow.Scope.Steps.{edit_current-inv, push-inv, pop_stay}
use ez_cpp.Flow.Scope.{
  ScopeType, Scope, EvaluationScope, add, find_entry, find_entity_in, find_entity, find_type_in,
  find_type_in_scopes, find_type, edit_current, push, pop, new_scope,
}

module _ {E : Type 0} where
  -- A declaration in the current scope is found from then on, and hides only its own name.
  pub find_entity-add :
      (name k : String) (v : E) (es es' : EvaluationScope E)
      → edit_current (add name v) es ≡ some es'
      → find_entity k es'
        ≡ (if str_eq name k then some (record { name = name; value = v }) else find_entity k es)
  unfolding edit_current add find_entity find_entry
  find_entity-add name k v es es' h = elim (List-cases es.scopes) [
    | inl e ↦ ground arith
    | inr (s, ss, e) ↦ ground arith
  ]

  -- A new scope of any type sees the names and the types of the scopes below it, a function scope
  -- those of its caller too.
  pub find-push :
      (k : String) (t : ScopeType) (es es' : EvaluationScope E)
      → push t es ≡ some es'
      → (find_entity k es' ≡ find_entity k es) × (find_type k es' ≡ find_type k es)
  unfolding find_entity find_entry find_type find_type_in
  find-push k t es es' h =
      let (cell, e) = push-inv t es es' h in (ap (find_entity_in k) e, ap (find_type_in_scopes k) e)

  -- Declarations, one after the other, in the current scope.
  abbrev pub declare_all : List (String × E) → EvaluationScope E → Option (EvaluationScope E)
  declare_all [] es = some es
  declare_all ((name, v) ∷ ds) es = do es' ← edit_current (add name v) es; declare_all ds es'

  -- Declarations leave the scopes below and the pending flow control alone.
  declare_all-scopes :
      (ds : List (String × E)) (s : Scope E) (ss : List (Scope E)) (es es' : EvaluationScope E)
      → es.scopes ≡ s ∷ ss
      → declare_all ds es ≡ some es'
      → (s' : Scope E) × (es'.scopes ≡ s' ∷ ss) × (s'.flow_control_policy ≡ s.flow_control_policy)
  unfolding add
  declare_all-scopes [] s ss es es' e h = (s, ground arith, refl)
  declare_all-scopes ((name, v) ∷ ds) s ss es es' e h =
      let (a, added, more) = >>=-eq-some (edit_current (add name v) es) (declare_all ds) h in
      let (s₀, ss₀, e₀, e₁, _) = edit_current-inv (add name v) es a added in
      let (s', scopes, policy) = declare_all-scopes ds (add name v s₀) ss₀ a es' e₁ more in
      (s', ground arith, ground arith)

  -- A block that declares any names and ends with no `break` or `return` pending leaves the scopes
  -- as it found them, so that every name and type means afterwards what it meant before.
  pub block_restores :
      (t : ScopeType) (ds : List (String × E)) (es entered declared left : EvaluationScope E)
      → push t es ≡ some entered
      → declare_all ds entered ≡ some declared
      → pop declared ≡ some left
      → (left.scopes ≡ es.scopes)
        × ((k : String)
            → (find_entity k left ≡ find_entity k es) × (find_type k left ≡ find_type k es))
  unfolding find_entity find_type
  block_restores t ds es entered declared left h₁ h₂ h₃ =
      let (cell, e₁) = push-inv t es entered h₁ in
      let (s', e₂, policy) =
        declare_all-scopes ds (new_scope cell t) es.scopes entered declared e₁ h₂ in
      let e₃ = pop_stay s' es.scopes declared e₂ policy in
      let same : left.scopes ≡ es.scopes = cc in
      (same, λ k. (ap (find_entity_in k) same, ap (find_type_in_scopes k) same))
