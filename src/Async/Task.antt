-- ===== src/Async/Task.antt =====
-- Task of src/libs/async/headers/ez/async/Task.hpp: a coroutine that starts when it is awaited and goes on
-- with the one that awaits it when it ends. `none` is a null coroutine, or one that is resumed although it
-- stands at its final suspension.
use ez_cpp.Prelude.{
  ◌≡◌, refl, ℕ, Bool, true, false, Option, none, some, List, [], ◌∷◌, ◌++◌, if◌then◌else◌,
}
use ez_cpp.Async.Receiver.{
  Receiver, monostate, Got, got, Ending, returned, threw, has_value, get, receive, set_value,
  unhandled_exception, outcome,
}
use ez_cpp.Async.Continuation.{Stage, created, suspended, done}

pub record TaskPromise (A E : Type 0) : Type 0 where
  pub receiver : Receiver A E
  pub continuation : Option ℕ

-- A task is its promise, how far its coroutine is, and the resumptions of the coroutines that await it,
-- with what await_resume gave them.
pub record Task (A E : Type 0) : Type 0 where
  pub promise : TaskPromise A E
  pub stage : Stage
  pub resumed : List (ℕ × Got A E)

module _ {A E : Type 0} where
  unfoldable pub set_continuation : ℕ → TaskPromise A E → TaskPromise A E
  set_continuation c p = record p { continuation = some c }

  -- The initial suspension, with std::noop_coroutine to go on with.
  unfoldable pub make_task : Task A E
  make_task = record {
    promise = record { receiver = monostate; continuation = none };
    stage = created;
    resumed = [];
  }

  unfoldable pub is_done : Task A E → Bool
  is_done t = elim t.stage [ done ↦ true | _ ↦ false ]

  unfoldable pub await_ready : Task A E → Bool
  await_ready t = has_value t.promise.receiver

  unfoldable pub await_resume : Task A E → Got A E
  await_resume t = get t.promise.receiver

  unfoldable pub resume_caller : ℕ → Task A E → Task A E
  resume_caller c t = record t { resumed = t.resumed ++ (c, await_resume t) ∷ [] }

  -- The body ends, and the final awaiter goes on with the continuation.
  unfoldable pub finish : Ending A E → Task A E → Task A E
  finish o t =
      let t' = record t {
        promise = record t.promise { receiver = receive o t.promise.receiver };
        stage = done;
      } in
      elim t.promise.continuation [ none ↦ t' | some c ↦ resume_caller c t' ]

  -- A task that is resumed runs until it suspends, or to its end.
  unfoldable pub resume : Option (Ending A E) → Task A E → Option (Task A E)
  resume b t =
      if is_done t
      then none
      else some (elim b [ none ↦ record t { stage = suspended } | some o ↦ finish o t ])

  unfoldable pub await_suspend : ℕ → Option (Ending A E) → Task A E → Option (Task A E)
  await_suspend c b t = resume b (record t { promise = set_continuation c t.promise })

  -- `co_await task` in the coroutine c; how the body answers its resumption is given.
  unfoldable pub co_await : ℕ → Option (Ending A E) → Task A E → Option (Task A E)
  co_await c b t = if await_ready t then some (resume_caller c t) else await_suspend c b t

  -- A new task that is awaited resumes the coroutine that awaits it once, with its ending, whether its
  -- body ends at once or after a suspension. Awaited again, it gives a value again, and one that threw
  -- resumes a coroutine that is done.
  pub co_await-resumes_once :
      (c d : ℕ) (o : Ending A E) (b : Option (Ending A E))
      → (s t : Task A E) × (co_await c (some o) make_task ≡ some t)
        × (co_await c none make_task ≡ some s)
        × (s.resumed ≡ [])
        × (finish o s ≡ t)
        × (t.resumed ≡ (c, outcome o) ∷ [])
        × (co_await d b t ≡ (elim o [
          | returned a ↦ some (record t { resumed = (c, got a) ∷ (d, got a) ∷ [] })
          | threw e ↦ none
        ]))
  unfolding co_await await_suspend await_ready await_resume resume finish resume_caller make_task
      is_done set_continuation has_value get receive set_value unhandled_exception
  co_await-resumes_once c d (returned a) b = (_, _, refl, refl, refl, refl, refl, refl)
  co_await-resumes_once c d (threw e) b = (_, _, refl, refl, refl, refl, refl, refl)
