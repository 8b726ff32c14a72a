-- ===== src/Async/WhenAll.antt =====
-- WhenAllLatch and WhenAllAwaiter of src/libs/async/headers/ez/async/detail/WhenAll.hpp, in the manner of
-- WhenAny. The latch asks the coroutine that awaits whether it stands at its final suspension: it does once
-- it has been resumed, if it then runs to its end without suspending again, which `finishes` says.
pub mod Latch
pub mod Starts
pub mod Joins
use ez_cpp.Prelude.{
  ℕ, suc, ◌+◌, ◌-◌, ◌%◌, ◌^◌, Bool, true, false, not, Option, none, some, List, [], ◌∷◌, ◌++◌, map,
  length, get_elem?, set, if◌then◌else◌, ◌==◌, ◌>>=◌,
}
use ez_cpp.Async.Receiver.{Got, got, rethrown, value_not_set, Ending}
use ez_cpp.Async.Continuation.{ContinuationTask, new_task, waiting_task, get_result, ended}

pub record WhenAllLatch : Type 0 where
  pub count : ℕ
  pub continuation : Option ℕ

unfoldable pub make_latch : ℕ → WhenAllLatch
make_latch n = record { count = (n + 1) % 2 ^ 32; continuation = none }

-- `m_count.fetch_sub(1)`, on 32 bits.
unfoldable pub decrement : WhenAllLatch → WhenAllLatch
decrement l = record l { count = (l.count + 2 ^ 32 - 1) % 2 ^ 32 }

unfoldable pub set_continuation : ℕ → WhenAllLatch → WhenAllLatch
set_continuation awaiting l = decrement (record l { continuation = some awaiting })

-- Whether there is a continuation, and it is done.
unfoldable pub is_ready : WhenAllLatch → Bool → Bool
is_ready l done = elim l.continuation [ none ↦ false | some c ↦ done ]

-- await_resume is noexcept: a task that threw ends the program.
pub data Results (R : Type 0) : Type 0 where
  values : List R → Results R
  terminated : Results R

abbrev pub prepend : {R : Type 0} → R → Results R → Results R
prepend a (values xs) = values (a ∷ xs)
prepend a terminated = terminated

pub record WhenAll (R E : Type 0) : Type 0 where
  pub tasks : List (ContinuationTask R E)
  pub latch : WhenAllLatch
  pub resumed : List (ℕ × Results R)
  pub awaiting_done : Bool

module _ {R E : Type 0} where
  unfoldable pub transformed : List (ContinuationTask R E) → Results R
  transformed [] = values []
  transformed (t ∷ ts) = elim (get_result t) [
    | got a ↦ prepend a (transformed ts)
    | rethrown e ↦ terminated
    | value_not_set ↦ terminated
  ]

  unfoldable pub await_resume : WhenAll R E → Results R
  await_resume s = transformed s.tasks

  unfoldable pub await_ready : WhenAll R E → Bool
  await_ready s = is_ready s.latch s.awaiting_done

  -- The awaiter of when_all.
  unfoldable pub make_awaiter : List (Option (Ending R E)) → WhenAll R E
  make_awaiter bs = record {
    tasks = map (λ b. new_task) bs;
    latch = make_latch (length bs);
    resumed = [];
    awaiting_done = false;
  }

module _ {R E : Type 0} (finishes : Bool) where
  -- A resumption of the coroutine that awaits.
  unfoldable pub resume : ℕ → WhenAll R E → WhenAll R E
  resume c s = record s {
    resumed = s.resumed ++ (c, await_resume s) ∷ [];
    awaiting_done = finishes;
  }

  unfoldable pub notify_awaitable_completed : WhenAll R E → Option (WhenAll R E)
  notify_awaitable_completed s =
      let s' = record s { latch = decrement s.latch } in
      if s.latch.count == 1 then (do c ← s.latch.continuation; some (resume c s')) else some s'

  -- The body of the task with this index ends; its promise then suspends for the last time.
  unfoldable pub finish : ℕ → Ending R E → WhenAll R E → Option (WhenAll R E)
  finish i o s = do
    t ← get_elem? s.tasks i
    notify_awaitable_completed (record s { tasks = set s.tasks i (ended o t) })

  -- A task that is started runs until its awaitable suspends, or ends at once.
  unfoldable pub start : ℕ → Option (Ending R E) → WhenAll R E → Option (WhenAll R E)
  start i (some o) s = finish i o s
  start i none s = some (record s { tasks = set s.tasks i waiting_task })

  unfoldable pub start_each : ℕ → List (Option (Ending R E)) → WhenAll R E → Option (WhenAll R E)
  start_each i [] s = some s
  start_each i (b ∷ bs) s = do s' ← start i b s; start_each (suc i) bs s'

  -- Whether the coroutine stays suspended.
  unfoldable pub start_tasks :
      ℕ → List (Option (Ending R E)) → WhenAll R E → Option (WhenAll R E × Bool)
  start_tasks awaiting bs s = do
    s' ← start_each 0 bs (record s { latch = set_continuation awaiting s.latch })
    some (s', not (is_ready s'.latch s'.awaiting_done))

  unfoldable pub await_suspend :
      ℕ → List (Option (Ending R E)) → WhenAll R E → Option (WhenAll R E × Bool)
  await_suspend awaiting bs s = start_tasks awaiting bs s

  unfoldable pub resume_unless : ℕ → WhenAll R E × Bool → WhenAll R E
  resume_unless c (s, true) = s
  resume_unless c (s, false) = resume c s

  -- `co_await when_all(...)` in the coroutine c: how each awaitable answers its start is given.
  unfoldable pub co_await : ℕ → List (Option (Ending R E)) → Option (WhenAll R E)
  co_await c bs =
      let s = make_awaiter bs in
      if await_ready s
      then some (resume c s)
      else (do r ← await_suspend c bs s; some (resume_unless c r))
