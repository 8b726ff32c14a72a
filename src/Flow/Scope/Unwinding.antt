-- ===== src/Flow/Scope/Unwinding.antt =====
-- How `return` and `break` leave nested blocks (EvaluationScope::return_value, break_loop and pop),
-- and the shape of the scope stack that every operation keeps.
use ez_cpp.Prelude.{
  ◌≢◌, ℕ, zero, suc, ◌<◌, ◌≡◌, refl, Option, some, List, [], ◌∷◌, ◌++◌, arith, ◌>>=◌, length, set,
  get_elem?, get_elem?-set_self,
}
use ez_cpp.Flow.Scope.{
  ScopeType, FlowControlPolicy, Scope, EvaluationScope, edit_current, pop, set_policy, return_value,
  break_loop,
}

module _ {E : Type 0} where
  -- `n` calls of `pop`: the scope exits of `n` nested blocks.
  abbrev pub unwind : ℕ → EvaluationScope E → Option (EvaluationScope E)
  unwind zero es = some es
  unwind (suc n) es = do es' ← pop es; unwind n es'

  -- Local and loop scopes that share one cell for the value to return.
  abbrev pub AreBlocks : ℕ → List (Scope E) → Type 0
  AreBlocks cell [] = Unit {0}
  AreBlocks cell (s ∷ ss) =
      (s.type ≢ ScopeType.function) × (s.return_value ≡ cell) × AreBlocks cell ss

  -- The stack as it is once its first scope has been told a policy.
  abbrev mark : FlowControlPolicy → List (Scope E) → List (Scope E)
  mark p [] = []
  mark p (s ∷ ss) = set_policy p s ∷ ss

  pop-mark :
      (p : FlowControlPolicy) (s t : Scope E) (ss : List (Scope E)) (cells : List (Option E))
      → p ≢ FlowControlPolicy.stay
      → s.type ≢ ScopeType.function
      → pop (record { scopes = mark p (s ∷ t ∷ ss); cells = cells })
        ≡ some (record { scopes = mark p (t ∷ ss); cells = cells })
  unfolding pop edit_current
  pop-mark p s t ss cells moving block = ground arith

  unwind-mark :
      (p : FlowControlPolicy) (bs : List (Scope E)) (f : Scope E) (below : List (Scope E))
      (cell : ℕ) (cells : List (Option E))
      → p ≢ FlowControlPolicy.stay
      → AreBlocks cell bs
      → unwind (length bs) (record { scopes = mark p (bs ++ f ∷ below); cells = cells })
        ≡ some (record { scopes = set_policy p f ∷ below; cells = cells })
  unwind-mark p [] f below cell cells moving blocks = refl
  unwind-mark p (s ∷ []) f below cell cells moving blocks =
      rw (pop-mark p s f below cells moving blocks.0)
  unwind-mark p (s ∷ t ∷ bs) f below cell cells moving blocks =
      rw (pop-mark p s t (bs ++ f ∷ below) cells moving blocks.0)
        (unwind-mark p (t ∷ bs) f below cell cells moving blocks.2)

  -- A `return` inside any nest of local and loop blocks, all of which share the cell of the function
  -- scope below them, marks that scope as returning once the blocks are left, with the value in its
  -- cell, and changes no other scope and no other cell.
  pub return_value-unwind :
      (v : E) (bs : List (Scope E)) (f : Scope E) (below : List (Scope E)) (es : EvaluationScope E)
      → es.scopes ≡ bs ++ f ∷ below
      → AreBlocks f.return_value bs
      → f.return_value < length es.cells
      → (r : EvaluationScope E) × (return_value v es ≡ some r)
        × (unwind (length bs) r
            ≡ some (record {
              scopes = set_policy FlowControlPolicy.return f ∷ below;
              cells = set es.cells f.return_value (some v);
            }))
        × (get_elem? (set es.cells f.return_value (some v)) f.return_value ≡ some (some v))
  unfolding return_value
  return_value-unwind v [] f below es e blocks held = (
    record {
      scopes = set_policy FlowControlPolicy.return f ∷ below;
      cells = set es.cells f.return_value (some v);
    },
    ground arith,
    refl,
    get_elem?-set_self es.cells f.return_value (some v) held,
  )
  return_value-unwind v (b ∷ bs) f below es e blocks held = (
    record {
      scopes = mark FlowControlPolicy.return (b ∷ bs ++ f ∷ below);
      cells = set es.cells f.return_value (some v);
    },
    ground arith,
    unwind-mark FlowControlPolicy.return (b ∷ bs) f below f.return_value _ (λ e. cc) blocks,
    get_elem?-set_self es.cells f.return_value (some v) held,
  )

  -- A `break` inside any nest of local and loop blocks leaves them all: the loop scopes do not stop
  -- it, and the function scope below is marked as breaking.
  pub break_loop-unwind :
      (bs : List (Scope E)) (f : Scope E) (below : List (Scope E)) (es : EvaluationScope E)
      → es.scopes ≡ bs ++ f ∷ below
      → AreBlocks f.return_value bs
      → (r : EvaluationScope E) × (break_loop es ≡ some r)
        × (unwind (length bs) r
            ≡ some (record es { scopes = set_policy FlowControlPolicy.break f ∷ below }))
  unfolding break_loop
  break_loop-unwind [] f below es e blocks =
      (record es { scopes = set_policy FlowControlPolicy.break f ∷ below }, ground arith, refl)
  break_loop-unwind (b ∷ bs) f below es e blocks = (
    record es { scopes = mark FlowControlPolicy.break (b ∷ bs ++ f ∷ below) },
    ground arith,
    unwind-mark FlowControlPolicy.break (b ∷ bs) f below f.return_value es.cells (λ e. cc) blocks,
  )
