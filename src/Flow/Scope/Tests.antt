-- ===== src/Flow/Scope/Tests.antt =====
-- Runs of the scope stack, and its theorems at them.
use ez_cpp.Prelude.{inr, ◌<◌, ℕ, ◌≡◌, refl, String, Option, some, none, [], ◌∷◌, arith, get_elem?}
use ez_cpp.Flow.Scope.{
  ScopeType, FlowControlPolicy, Scope, EvaluationScope, edit_current, push, pop, set_policy,
  new_scope, return_value, break_loop, add, scope_count, find_entity, find_type,
}
use ez_cpp.Flow.Scope.Lookup.{block_restores}
use ez_cpp.Flow.Scope.Unwinding.{unwind, return_value-unwind, break_loop-unwind}
use ez_cpp.Flow.Scope.Shape.{IsValid, operations-IsValid}

abbrev function_scope : Scope ℕ
function_scope = record (new_scope 0 ScopeType.function) {
  entries = record { name = "x"; value = 1 } ∷ [];
}

-- A loop in a local block in a function.
abbrev looping : EvaluationScope ℕ
looping = record {
  scopes = new_scope 0 ScopeType.loop ∷ new_scope 0 ScopeType.local ∷ function_scope ∷ [];
  cells = none ∷ [];
}

abbrev in_loop : EvaluationScope ℕ
in_loop = record looping {
  scopes =
      record (new_scope 0 ScopeType.loop) { entries = record { name = "x"; value = 2 } ∷ [] }
      ∷ new_scope 0 ScopeType.local
      ∷ function_scope
      ∷ [];
}

declared : edit_current (add "x" 2) looping ≡ some in_loop
unfolding edit_current add
declared = refl

entered :
    push ScopeType.loop
      (record looping { scopes = new_scope 0 ScopeType.local ∷ function_scope ∷ [] })
    ≡ some looping
unfolding push
entered = refl

left_block :
    pop in_loop
    ≡ some (record looping { scopes = new_scope 0 ScopeType.local ∷ function_scope ∷ [] })
unfolding pop
left_block = refl

block_restores_example :
    let outer = record looping { scopes = new_scope 0 ScopeType.local ∷ function_scope ∷ [] } in
    (outer.scopes ≡ outer.scopes)
    × ((k : String)
        → (find_entity k outer ≡ find_entity k outer) × (find_type k outer ≡ find_type k outer))
unfolding edit_current add
block_restores_example =
    block_restores ScopeType.loop (("x", 2) ∷ []) _ looping in_loop _ entered refl left_block

return_value-unwind_example :
    (r : EvaluationScope ℕ) × (return_value 7 in_loop ≡ some r)
    × (unwind 2 r
        ≡ some (record {
          scopes = set_policy FlowControlPolicy.return function_scope ∷ [];
          cells = some 7 ∷ [];
        }))
    × (get_elem? {A = Option ℕ} (some 7 ∷ []) 0 ≡ some (some 7))
return_value-unwind_example =
    return_value-unwind 7
      (record (new_scope 0 ScopeType.loop) { entries = record { name = "x"; value = 2 } ∷ [] }
        ∷ new_scope 0 ScopeType.local
        ∷ [])
      function_scope [] in_loop refl ((λ e. cc), refl, ((λ e. cc), refl, tt)) (omega arith)

break_loop-unwind_example :
    (r : EvaluationScope ℕ) × (break_loop looping ≡ some r)
    × (unwind 2 r
        ≡ some (record looping { scopes = set_policy FlowControlPolicy.break function_scope ∷ [] }))
break_loop-unwind_example =
    break_loop-unwind (new_scope 0 ScopeType.loop ∷ new_scope 0 ScopeType.local ∷ []) function_scope
      [] looping refl ((λ e. cc), refl, ((λ e. cc), refl, tt))

looping-IsValid : IsValid looping
looping-IsValid = ((inr refl), omega arith, ((inr refl), omega arith, (refl, omega arith)))

operations-IsValid_example :
    ((t : ScopeType) → (r : EvaluationScope ℕ) × (push t looping ≡ some r) × IsValid r)
    × ((name : String) (v : ℕ)
        → (r : EvaluationScope ℕ) × (edit_current (add name v) looping ≡ some r) × IsValid r)
    × ((v : ℕ) → (r : EvaluationScope ℕ) × (return_value v looping ≡ some r) × IsValid r)
    × ((r : EvaluationScope ℕ) × (break_loop looping ≡ some r) × IsValid r)
    × (1 < scope_count looping → (r : EvaluationScope ℕ) × (pop looping ≡ some r) × IsValid r)
operations-IsValid_example = operations-IsValid looping looping-IsValid
