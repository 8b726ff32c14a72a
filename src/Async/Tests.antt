-- ===== src/Async/Tests.antt =====
-- Runs of the combinators: numbers are awaited, and exceptions are texts.
use ez_cpp.Prelude.{
  ℕ, ◌+◌, ◌≡◌, refl, arith, true, false, String, Option, none, some, List, [], ◌∷◌, map, length,
  get_elem?,
}
use ez_cpp.Async.Receiver.{got, Ending, returned}
use ez_cpp.Async.Continuation.{Stage, ContinuationTask, started}
use ez_cpp.Async.WhenAny as WhenAny
use ez_cpp.Async.WhenAny.Refines as Refines
use ez_cpp.Async.WhenAny.Refines.{Race, pending, race}
use ez_cpp.Async.WhenAny.Starts as AnyStarts
use ez_cpp.Async.WhenAll as WhenAll
use ez_cpp.Async.WhenAll.Joins as Joins
use ez_cpp.Async.WhenAll.Starts as AllStarts
use ez_cpp.Async.Task as Task
use ez_cpp.Async.Operation as Operation
use ez_cpp.Async.TaskPool as TaskPool

-- Two awaitables that wait, and two of which the second ends at once.
abbrev waits : List (Option (Ending ℕ String))
waits = none ∷ none ∷ []

abbrev ends : List (Option (Ending ℕ String))
ends = none ∷ some (returned 5) ∷ []

abbrev five : Ending ℕ String
five = returned 5

abbrev one_end : List (Option (Ending ℕ String))
one_end = some five ∷ []

co_await-refines_example :
    (s : WhenAny.WhenAny ℕ String) × (WhenAny.co_await 0 7 waits ≡ some s)
    × ((u : WhenAny.WhenAny ℕ String) (os : List (Ending ℕ String))
        → Refines.Runs 0 u s os
        → (u.resumed ≡ Refines.seen 7 (race os pending))
          × ((i : ℕ) (task : ContinuationTask ℕ String) (o : Ending ℕ String)
              → get_elem? u.tasks i ≡ some task
              → task.stage ≡ Stage.suspended
              → (v : WhenAny.WhenAny ℕ String) × Refines.Finishes 0 u o v))
co_await-refines_example = Refines.co_await-refines 0 7 waits (omega arith) refl

when_any-resumptions_example :
    (t : WhenAny.WhenAny ℕ String) × (WhenAny.co_await 0 7 ends ≡ some t) × (length t.resumed ≡ 2)
when_any-resumptions_example = AnyStarts.when_any-resumptions 0 7 ends (omega arith)

co_await-joins_example :
    (s : WhenAll.WhenAll ℕ String) × (WhenAll.co_await true 7 ends ≡ some s)
    × ((u : WhenAll.WhenAll ℕ String)
        → Joins.Runs true u s
        → (ds : List (Option (Ending ℕ String))) × Joins.Joins ds ends
          × (u.tasks ≡ map started ds)
          × (u.resumed ≡ Joins.seen 7 ds)
          × ((i : ℕ) (o : Ending ℕ String)
              → get_elem? ds i ≡ some none
              → (v : WhenAll.WhenAll ℕ String) × Joins.Finishes true u v))
co_await-joins_example = Joins.co_await-joins true 7 ends (omega arith) (omega arith)

when_all-resumptions_example :
    (t : WhenAll.WhenAll ℕ String) × (WhenAll.co_await true 7 one_end ≡ some t)
    × (length t.resumed ≡ 2)
when_all-resumptions_example =
    AllStarts.when_all-resumptions true 7 one_end (omega arith) (omega arith)

co_await-resumes_once_example :
    (s t : Task.Task ℕ String) × (Task.co_await 7 (some (returned 5)) Task.make_task ≡ some t)
    × (Task.co_await 7 none Task.make_task ≡ some s)
    × (s.resumed ≡ [])
    × (Task.finish (returned 5) s ≡ t)
    × (t.resumed ≡ (7, got 5) ∷ [])
    × (Task.co_await 8 none t ≡ some (record t { resumed = (7, got 5) ∷ (8, got 5) ∷ [] }))
co_await-resumes_once_example = Task.co_await-resumes_once 7 8 five none

-- A counter of calls of cancel.
abbrev counted : Operation.Op (Unit {0}) ℕ ℕ
counted = record { start = λ c s. s; is_ready = λ s. false; cancel = λ s. s + 1; result = λ s. s }

abbrev operations : List (Operation.Operation ℕ)
operations =
    record { op = 0; done = false; callback = some 1 }
    ∷ record { op = 0; done = false; callback = some 2 }
    ∷ []

race_won-cancels_example :
    (Operation.race_won counted 1 operations
      ≡ (map (Operation.cancelled counted) operations, true ∷ true ∷ []))
    × (Operation.cancel_each counted (map (Operation.cancelled counted) operations)
        ≡ (map (Operation.cancelled counted) operations, false ∷ false ∷ []))
race_won-cancels_example = Operation.race_won-cancels counted 1 operations (refl, (refl, tt))

-- A pool in which a task has been added, has run, and has returned.
abbrev added : TaskPool.TaskPool
added = TaskPool.add_task TaskPool.empty_pool

abbrev swept : TaskPool.TaskPool
swept =
    TaskPool.run_handler TaskPool.returned (TaskPool.resume_task 0) (record added { posted = [] })

added_posts : added.posted ≡ TaskPool.resume_task 0 ∷ []
unfolding TaskPool.add_task
added_posts = refl

Reach-keeps_example :
    (TaskPool.any_returned swept.tasks ≡ true → TaskPool.any_cleanup swept.posted ≡ true)
    × (TaskPool.any_returned (TaskPool.cleanup swept).tasks ≡ false)
    × ((q : TaskPool.TaskPool) (n : ℕ) (w : TaskPool.Wrapper)
        → TaskPool.Step swept q
        → TaskPool.task_stage n swept.tasks ≡ some w
        → TaskPool.is_done w ≡ false
        → TaskPool.in_pool n q.tasks ≡ true)
Reach-keeps_example = TaskPool.Reach-keeps (
    TaskPool.then_ (TaskPool.then_ TaskPool.start TaskPool.adds)
      (TaskPool.runs TaskPool.returned (TaskPool.resume_task 0) [] added_posts))
