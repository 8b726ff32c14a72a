-- ===== src/Async/WhenAny.antt =====
-- WhenAnyLatch and WhenAnyAwaiter of src/libs/async/headers/ez/async/detail/WhenAny.hpp. One co_await of
-- when_any is a state: the tasks, the latch, and what await_resume gave at each resumption of the coroutine
-- that awaits, in order. What that coroutine does after a resumption does not touch the awaiter. `none` is
-- the resumption of a null coroutine or a task that does not exist.
pub mod Latch
pub mod Refines
pub mod Starts
use ez_cpp.Prelude.{
  ℕ, suc, ◌+◌, ◌%◌, ◌^◌, Bool, true, false, not, Option, none, some, List, [], ◌∷◌, ◌++◌, map, ltb,
  get_elem?, set, if◌then◌else◌, ◌==◌, ◌>>=◌,
}
use ez_cpp.Async.Receiver.{Got, got, rethrown, value_not_set, Ending}
use ez_cpp.Async.Continuation.{
  Stage, ContinuationTask, new_task, waiting_task, is_done, get_result, ended,
}

pub record WhenAnyLatch : Type 0 where
  pub finished_count : ℕ
  pub continuation : Option ℕ

unfoldable pub is_ready : WhenAnyLatch → Bool
is_ready l = ltb 0 l.finished_count

unfoldable pub set_continuation : ℕ → WhenAnyLatch → WhenAnyLatch
set_continuation awaiting l = record l { continuation = some awaiting }

pub record WhenAny (R E : Type 0) : Type 0 where
  pub tasks : List (ContinuationTask R E)
  pub latch : WhenAnyLatch
  pub resumed : List (ℕ × Got R E)

module _ {R E : Type 0} where
  -- The result starts as a default value; each task that is done writes it, or throws.
  unfoldable pub await_resume_from : R → List (ContinuationTask R E) → Got R E
  await_resume_from result [] = got result
  await_resume_from result (t ∷ ts) = elim (is_done t) [
    | false ↦ await_resume_from result ts
    | true ↦ elim (get_result t) [
      | got a ↦ await_resume_from a ts
      | rethrown e ↦ rethrown e
      | value_not_set ↦ value_not_set
    ]
  ]

  unfoldable pub await_ready : WhenAny R E → Bool
  await_ready s = is_ready s.latch

  -- The awaiter of when_any.
  unfoldable pub make_awaiter : List (Option (Ending R E)) → WhenAny R E
  make_awaiter bs = record {
    tasks = map (λ b. new_task) bs;
    latch = record { finished_count = 0; continuation = none };
    resumed = [];
  }

module _ {R E : Type 0} (initial : R) where
  unfoldable pub await_resume : WhenAny R E → Got R E
  await_resume s = await_resume_from initial s.tasks

  -- A resumption of the coroutine that awaits.
  unfoldable pub resume : ℕ → WhenAny R E → WhenAny R E
  resume c s = record s { resumed = s.resumed ++ (c, await_resume s) ∷ [] }

  -- `m_finished_count.fetch_add(1)`, on 32 bits, and what it gives.
  unfoldable pub notify_awaitable_completed : WhenAny R E → Option (WhenAny R E)
  notify_awaitable_completed s =
      let old_count = s.latch.finished_count in
      let s' = record s { latch = record s.latch { finished_count = (old_count + 1) % 2 ^ 32 } } in
      if old_count == 0 then (do c ← s.latch.continuation; some (resume c s')) else some s'

  -- The body of the task with this index ends; its promise then suspends for the last time.
  unfoldable pub finish : ℕ → Ending R E → WhenAny R E → Option (WhenAny R E)
  finish i o s = do
    t ← get_elem? s.tasks i
    notify_awaitable_completed (record s { tasks = set s.tasks i (ended o t) })

  -- A task that is started runs until its awaitable suspends, or ends at once.
  unfoldable pub start : ℕ → Option (Ending R E) → WhenAny R E → Option (WhenAny R E)
  start i (some o) s = finish i o s
  start i none s = some (record s { tasks = set s.tasks i waiting_task })

  unfoldable pub start_each : ℕ → List (Option (Ending R E)) → WhenAny R E → Option (WhenAny R E)
  start_each i [] s = some s
  start_each i (b ∷ bs) s = do s' ← start i b s; start_each (suc i) bs s'

  -- Whether the coroutine stays suspended.
  unfoldable pub start_tasks :
      ℕ → List (Option (Ending R E)) → WhenAny R E → Option (WhenAny R E × Bool)
  start_tasks awaiting bs s = do
    s' ← start_each 0 bs (record s { latch = set_continuation awaiting s.latch })
    some (s', not (is_ready s'.latch))

  unfoldable pub await_suspend :
      ℕ → List (Option (Ending R E)) → WhenAny R E → Option (WhenAny R E × Bool)
  await_suspend awaiting bs s = start_tasks awaiting bs s

  unfoldable pub resume_unless : ℕ → WhenAny R E × Bool → WhenAny R E
  resume_unless c (s, true) = s
  resume_unless c (s, false) = resume c s

  -- `co_await when_any(...)` in the coroutine c: how each awaitable answers its start is given.
  unfoldable pub co_await : ℕ → List (Option (Ending R E)) → Option (WhenAny R E)
  unfolding resume_unless
  co_await c bs =
      let s = make_awaiter bs in
      if await_ready s
      then some (resume c s)
      else (do r ← await_suspend c bs s; some (resume_unless c r))
