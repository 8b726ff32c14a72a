-- ===== src/Async/Operation.antt =====
-- Operation and ContextFreeOperation of src/libs/async/headers/ez/async/Operation.hpp, and race of Race.hpp.
-- The operation itself is a parameter: its state S and its functions.
use ez_cpp.Prelude.{
  ℕ, zero, suc, ◌≡◌, refl, ap, Bool, true, false, Option, none, some, List, [], ◌∷◌, map,
  if◌then◌else◌,
}

-- What an operation offers: `result` is read once it is done.
pub record Op (Context S R : Type 0) : Type 0 where
  pub start : Context → S → S
  pub is_ready : S → Bool
  pub cancel : S → S
  pub result : S → R

-- `callback` is the coroutine that the callback given to on_done resumes; `done` is shared with it.
pub record Operation (S : Type 0) : Type 0 where
  pub op : S
  pub done : Bool
  pub callback : Option ℕ

module _ {Context S R : Type 0} (ops : Op Context S R) where
  abbrev pub make_operation : S → Operation S
  make_operation s = record { op = s; done = false; callback = none }

  -- It starts the operation.
  unfoldable pub await_ready : Context → Operation S → Operation S × Bool
  await_ready context o =
      let o' = record o { op = ops.start context o.op } in (o', ops.is_ready o'.op)

  -- A ContextFreeOperation has nothing to start.
  unfoldable pub await_ready_context_free : Operation S → Bool
  await_ready_context_free o = ops.is_ready o.op

  unfoldable pub await_suspend : ℕ → Operation S → Operation S
  await_suspend coroutine o = record o { callback = some coroutine }

  unfoldable pub await_resume : Operation S → R
  await_resume o = ops.result o.op

  unfoldable pub cancel : Operation S → Operation S × Bool
  cancel o = if o.done then (o, false) else (record o { op = ops.cancel o.op; done = true }, true)

  -- The calls of cancel that race makes, from left to right.
  unfoldable pub cancel_each : List (Operation S) → List (Operation S) × List Bool
  cancel_each [] = ([], [])
  cancel_each (o ∷ os) =
      let (o', answer) = cancel o in
      let (os', answers) = cancel_each os in (o' ∷ os', answer ∷ answers)

  unfoldable pub mark_done : List (Operation S) → ℕ → List (Operation S)
  mark_done [] i = []
  mark_done (o ∷ os) zero = record o { done = true } ∷ os
  mark_done (o ∷ os) (suc i) = o ∷ mark_done os i

  -- The callback of the operation with this index: it resumes its coroutine, here one that waits for
  -- the race, which then cancels, and notes that the operation is done after that.
  unfoldable pub race_won : ℕ → List (Operation S) → List (Operation S) × List Bool
  unfolding mark_done
  race_won i os = let (os', answers) = cancel_each os in (mark_done os' i, answers)

  abbrev pub cancelled : Operation S → Operation S
  cancelled o = record o { op = ops.cancel o.op; done = true }

  abbrev pub NoneDone : List (Operation S) → Type 0
  NoneDone [] = Unit
  NoneDone (o ∷ os) = (o.done ≡ false) × NoneDone os

  cancel_each-cancelled :
      (os : List (Operation S))
      → NoneDone os
      → cancel_each os ≡ (map cancelled os, map (λ o. true) os)
  unfolding cancel_each cancel
  cancel_each-cancelled [] h = refl
  cancel_each-cancelled (o ∷ os) (h, hs) = rw (h, cancel_each-cancelled os hs) refl

  cancel_each-again :
      (os : List (Operation S))
      → cancel_each (map cancelled os) ≡ (map cancelled os, map (λ o. false) os)
  unfolding cancel_each cancel
  cancel_each-again [] = refl
  cancel_each-again (o ∷ os) = rw (cancel_each-again os) refl

  mark_done-cancelled :
      (os : List (Operation S)) (i : ℕ) → mark_done (map cancelled os) i ≡ map cancelled os
  unfolding mark_done
  mark_done-cancelled [] i = refl
  mark_done-cancelled (o ∷ os) zero = refl
  mark_done-cancelled (o ∷ os) (suc i) = ap (◌∷◌ (cancelled o)) (mark_done-cancelled os i)

  -- A race of operations none of which is done, won by any of them, calls the cancel of each operation
  -- once, of the one that won too, and leaves all of them done; to cancel them again changes nothing
  -- and answers false for each.
  pub race_won-cancels :
      (i : ℕ) (os : List (Operation S))
      → NoneDone os
      → (race_won i os ≡ (map cancelled os, map (λ o. true) os))
        × (cancel_each (map cancelled os) ≡ (map cancelled os, map (λ o. false) os))
  unfolding race_won
  race_won-cancels i os h = (
    rw (cancel_each-cancelled os h)
        (ap (λ xs. (xs, map (λ o. true) os)) (mark_done-cancelled os i)),
    cancel_each-again os,
  )
