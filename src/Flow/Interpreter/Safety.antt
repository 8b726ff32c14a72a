-- ===== src/Flow/Interpreter/Safety.antt =====
-- The interpreter on a valid scope stack: it never asks for a scope that is not there, and what it leaves
-- of the stack where it ends.
use ez_cpp.Flow.Entity.{Entity}
use ez_cpp.Flow.Scope.{Scope}
use ez_cpp.Flow.Scope.Shape.{IsValid}
use ez_cpp.Flow.Machine.{Machine, Eval}
use ez_cpp.Flow.Interpreter.Kept.{Keeps}

record IsSafe (A : Type 0) (c d : Eval A) : Type 0 where
  keeps : (m : Machine) → IsValid m.evaluation_scope → Keeps m (c m)
