-- ===== src/Flow/Machine/Scoped.antt =====
-- Computations under a scope of their own: the `push` of an eval function of interpreter_workflow.cpp with
-- its `pop`, which EZ_ON_SCOPE_EXIT makes on an exception and where the coroutine is destroyed too; and
-- an awaited invocation whose timeout destroys it.
use ez_cpp.Prelude.{zero, suc, none, some}
use ez_cpp.Flow.Scope.{ScopeType, push, pop}
use ez_cpp.Flow.Machine.{
  Outcome, done, thrown, interrupted, stopped, no_scope, Eval, ◌>>=◌, ◌>>◌, pure, change_scopes,
}

-- `evaluation_scope.pop()` where a computation has ended.
unfoldable pub leave : {A : Type 0} → Outcome A → Outcome A
leave (done a m) = elim (pop m.evaluation_scope) [
  | none ↦ stopped no_scope
  | some es ↦ done a (record m { evaluation_scope = es })
]
leave (thrown x m) = elim (pop m.evaluation_scope) [
  | none ↦ stopped no_scope
  | some es ↦ thrown x (record m { evaluation_scope = es })
]
leave (interrupted k m) = elim (pop m.evaluation_scope) [
  | none ↦ stopped no_scope
  | some es ↦ interrupted k (record m { evaluation_scope = es })
]
leave (stopped w) = stopped w

unfoldable pub in_scope : {A : Type 0} → ScopeType → Eval A → Eval A
in_scope t c = change_scopes (push t) >> λ m. leave (c m)

-- An invocation pops its scope where it ends, and leaves it there on an exception and where it is
-- destroyed.
unfoldable pub in_function : {A : Type 0} → Eval A → Eval A
in_function c = do change_scopes (push ScopeType.function); a ← c; change_scopes pop; pure a

-- What waited for an invocation goes on with a value where the timeout destroyed it. The outcome names
-- how many more awaited invocations around it the same timer destroys.
unfoldable pub after_timeout : {A : Type 0} → A → Outcome A → Outcome A
after_timeout e (done a m) = done a m
after_timeout e (thrown x m) = thrown x m
after_timeout e (interrupted zero m) = done e m
after_timeout e (interrupted (suc k) m) = interrupted k m
after_timeout e (stopped w) = stopped w

unfoldable pub or_timeout : {A : Type 0} → A → Eval A → Eval A
or_timeout e c m = after_timeout e (c m)
