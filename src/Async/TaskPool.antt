-- ===== src/Async/TaskPool.antt =====
-- TaskPool of src/libs/async/headers/ez/async/Executor.hpp and src/Executor.cpp. The io_context runs one
-- handler after another, in the order in which they were posted; it is not part of the repository.
use ez_cpp.Prelude.{
  ℕ, suc, ◌≡◌, refl, ap, sym, ◌∙◌, arith, Bool, true, false, Option, none, some, List, [], ◌∷◌,
  ◌++◌, if◌then◌else◌, ◌==◌,
}

-- The wrapper of a task: it ends without an exception only after it has posted the cleanup.
pub data Wrapper : Type 0 where
  created : Wrapper
  suspended : Wrapper
  returned : Wrapper
  threw : Wrapper

pub data Handler : Type 0 where
  resume_task : ℕ → Handler
  cleanup_tasks : Handler

-- A task keeps the number that it got when it was added.
pub record TaskPool : Type 0 where
  pub added : ℕ
  pub tasks : List (ℕ × Wrapper)
  pub posted : List Handler

unfoldable pub is_done : Wrapper → Bool
is_done created = false
is_done suspended = false
is_done returned = true
is_done threw = true

-- `m_tasks << task`
unfoldable pub add_task : TaskPool → TaskPool
add_task p = record {
  added = suc p.added;
  tasks = p.tasks ++ (p.added, created) ∷ [];
  posted = p.posted ++ resume_task p.added ∷ [];
}

unfoldable pub remove_done : List (ℕ × Wrapper) → List (ℕ × Wrapper)
remove_done [] = []
remove_done ((n, w) ∷ ts) = let rest = remove_done ts in if is_done w then rest else (n, w) ∷ rest

unfoldable pub cleanup : TaskPool → TaskPool
cleanup p = record p { tasks = remove_done p.tasks }

-- A task that waits gets as far as w.
unfoldable pub advance : ℕ → Wrapper → List (ℕ × Wrapper) → List (ℕ × Wrapper)
advance n w [] = []
advance n w ((k, v) ∷ ts) =
    if k == n then (k, if is_done v then v else w) ∷ ts else (k, v) ∷ advance n w ts

-- The wrapper of task n runs: `co_await task`, and the cleanup is posted if that throws nothing.
unfoldable pub run_wrapper : ℕ → Wrapper → TaskPool → TaskPool
run_wrapper n w p =
    let p' = record p { tasks = advance n w p.tasks } in
    elim w [ returned ↦ record p' { posted = p'.posted ++ cleanup_tasks ∷ [] } | _ ↦ p' ]

unfoldable pub run_handler : Wrapper → Handler → TaskPool → TaskPool
run_handler w (resume_task n) p = run_wrapper n w p
run_handler w cleanup_tasks p = cleanup p

-- How far a task is, while it is in the pool.
unfoldable pub task_stage : ℕ → List (ℕ × Wrapper) → Option Wrapper
task_stage n [] = none
task_stage n ((k, w) ∷ ts) = if k == n then some w else task_stage n ts

-- A step: a task is added, the first handler is run, or a task that waits for something else goes on.
-- How far a task gets when it runs is open.
pub data Step (p : TaskPool) : TaskPool → Type 0 where
  adds : Step p (add_task p)
  runs :
      (w : Wrapper) (h : Handler) (hs : List Handler)
      → p.posted ≡ h ∷ hs
      → Step p (run_handler w h (record p { posted = hs }))
  goes_on :
      (n : ℕ) (w : Wrapper) → task_stage n p.tasks ≡ some suspended → Step p (run_wrapper n w p)

abbrev pub empty_pool : TaskPool
empty_pool = record { added = 0; tasks = []; posted = [] }

pub data Reach : TaskPool → Type 0 where
  start : Reach empty_pool
  then_ : {p q : TaskPool} → Reach p → Step p q → Reach q

-- Whether a task has returned.
abbrev pub any_returned : List (ℕ × Wrapper) → Bool
any_returned [] = false
any_returned ((n, returned) ∷ ts) = true
any_returned ((n, w) ∷ ts) = any_returned ts

abbrev pub any_cleanup : List Handler → Bool
any_cleanup [] = false
any_cleanup (cleanup_tasks ∷ hs) = true
any_cleanup (resume_task n ∷ hs) = any_cleanup hs

any_returned-append :
    (ts : List (ℕ × Wrapper)) (n : ℕ) → any_returned (ts ++ (n, created) ∷ []) ≡ any_returned ts
any_returned-append [] n = refl
any_returned-append ((k, returned) ∷ ts) n = refl
any_returned-append ((k, created) ∷ ts) n = any_returned-append ts n
any_returned-append ((k, suspended) ∷ ts) n = any_returned-append ts n
any_returned-append ((k, threw) ∷ ts) n = any_returned-append ts n

any_cleanup-append :
    (hs : List Handler) (h : Handler) → any_cleanup hs ≡ true → any_cleanup (hs ++ h ∷ []) ≡ true
any_cleanup-append [] h e = cc
any_cleanup-append (cleanup_tasks ∷ hs) h e = refl
any_cleanup-append (resume_task n ∷ hs) h e = any_cleanup-append hs h e

any_cleanup-posted : (hs : List Handler) → any_cleanup (hs ++ cleanup_tasks ∷ []) ≡ true
any_cleanup-posted [] = refl
any_cleanup-posted (cleanup_tasks ∷ hs) = refl
any_cleanup-posted (resume_task n ∷ hs) = any_cleanup-posted hs

any_returned-remove_done : (ts : List (ℕ × Wrapper)) → any_returned (remove_done ts) ≡ false
unfolding remove_done is_done
any_returned-remove_done [] = refl
any_returned-remove_done ((k, returned) ∷ ts) = any_returned-remove_done ts
any_returned-remove_done ((k, created) ∷ ts) = any_returned-remove_done ts
any_returned-remove_done ((k, suspended) ∷ ts) = any_returned-remove_done ts
any_returned-remove_done ((k, threw) ∷ ts) = any_returned-remove_done ts

any_returned-cons :
    (k n : ℕ) (w : Wrapper) (ts : List (ℕ × Wrapper))
    → any_returned ((n, w) ∷ []) ≡ false
    → any_returned ((k, w) ∷ ts) ≡ any_returned ts
any_returned-cons k n returned ts h = cc
any_returned-cons k n created ts h = refl
any_returned-cons k n suspended ts h = refl
any_returned-cons k n threw ts h = refl

-- A task that gets anywhere but to its return adds none that has returned.
any_returned-advance :
    (n : ℕ) (w : Wrapper) (ts : List (ℕ × Wrapper))
    → any_returned ((n, w) ∷ []) ≡ false
    → any_returned (advance n w ts) ≡ true
    → any_returned ts ≡ true
unfolding advance is_done
any_returned-advance n w [] h e = e
any_returned-advance n w ((k, returned) ∷ ts) h e = refl
any_returned-advance n w ((k, threw) ∷ ts) h e =
    ground (arith, any_returned-cons k n w ts h, any_returned-advance n w ts h)
any_returned-advance n w ((k, created) ∷ ts) h e =
    ground (arith, any_returned-cons k n w ts h, any_returned-advance n w ts h)
any_returned-advance n w ((k, suspended) ∷ ts) h e =
    ground (arith, any_returned-cons k n w ts h, any_returned-advance n w ts h)

-- Where a task has returned, a cleanup is posted.
abbrev IsSwept : TaskPool → Type 0
IsSwept p = any_returned p.tasks ≡ true → any_cleanup p.posted ≡ true

run_wrapper-IsSwept : (n : ℕ) (w : Wrapper) (p : TaskPool) → IsSwept p → IsSwept (run_wrapper n w p)
unfolding run_wrapper
run_wrapper-IsSwept n returned p swept e = any_cleanup-posted p.posted
run_wrapper-IsSwept n created p swept e = swept (any_returned-advance n created p.tasks refl e)
run_wrapper-IsSwept n suspended p swept e = swept (any_returned-advance n suspended p.tasks refl e)
run_wrapper-IsSwept n threw p swept e = swept (any_returned-advance n threw p.tasks refl e)

run_handler-IsSwept :
    (w : Wrapper) (h : Handler) (hs : List Handler) (p : TaskPool)
    → p.posted ≡ h ∷ hs
    → IsSwept p
    → IsSwept (run_handler w h (record p { posted = hs }))
unfolding run_handler cleanup
run_handler-IsSwept w (resume_task n) hs p e swept r =
    run_wrapper-IsSwept n w (record p { posted = hs }) (λ r. sym (ap any_cleanup e) ∙ swept r) r
run_handler-IsSwept w cleanup_tasks hs p e swept r =
    let none_left = any_returned-remove_done p.tasks in cc

Step-IsSwept : {p q : TaskPool} → Step p q → IsSwept p → IsSwept q
unfolding add_task
Step-IsSwept {p} adds swept r =
    any_cleanup-append p.posted (resume_task p.added)
      (swept (sym (any_returned-append p.tasks p.added) ∙ r))
Step-IsSwept {p} (runs w h hs e) swept r = run_handler-IsSwept w h hs p e swept r
Step-IsSwept {p} (goes_on n w e) swept r = run_wrapper-IsSwept n w p swept r

Reach-IsSwept : {p : TaskPool} → Reach p → IsSwept p
Reach-IsSwept start r = cc
Reach-IsSwept (then_ before st) r = Step-IsSwept st (Reach-IsSwept before) r

-- Whether a task is in the pool.
abbrev pub in_pool : ℕ → List (ℕ × Wrapper) → Bool
in_pool n [] = false
in_pool n ((k, w) ∷ ts) = if k == n then true else in_pool n ts

in_pool-task_stage :
    (n : ℕ) (ts : List (ℕ × Wrapper)) (w : Wrapper) → task_stage n ts ≡ some w → in_pool n ts ≡ true
unfolding task_stage
in_pool-task_stage n [] w e = cc
in_pool-task_stage n ((k, v) ∷ ts) w e = ground (arith, in_pool-task_stage n ts w)

in_pool-append :
    (n : ℕ) (ts : List (ℕ × Wrapper)) (t : ℕ × Wrapper)
    → in_pool n ts ≡ true
    → in_pool n (ts ++ t ∷ []) ≡ true
in_pool-append n [] t e = cc
in_pool-append n ((k, v) ∷ ts) t e = ground (arith, in_pool-append n ts t)

in_pool-advance :
    (n m : ℕ) (x : Wrapper) (ts : List (ℕ × Wrapper)) → in_pool n (advance m x ts) ≡ in_pool n ts
unfolding advance
in_pool-advance n m x [] = refl
in_pool-advance n m x ((k, v) ∷ ts) = ground (arith, in_pool-advance n m x ts)

in_pool-remove_done :
    (n : ℕ) (ts : List (ℕ × Wrapper)) (w : Wrapper)
    → task_stage n ts ≡ some w
    → is_done w ≡ false
    → in_pool n (remove_done ts) ≡ true
unfolding task_stage remove_done
in_pool-remove_done n [] w e h = cc
in_pool-remove_done n ((k, v) ∷ ts) w e h = ground (arith, in_pool-remove_done n ts w)

in_pool-run_wrapper :
    (n m : ℕ) (x : Wrapper) (p : TaskPool)
    → in_pool n p.tasks ≡ true
    → in_pool n (run_wrapper m x p).tasks ≡ true
unfolding run_wrapper
in_pool-run_wrapper n m returned p e = in_pool-advance n m returned p.tasks ∙ e
in_pool-run_wrapper n m created p e = in_pool-advance n m created p.tasks ∙ e
in_pool-run_wrapper n m suspended p e = in_pool-advance n m suspended p.tasks ∙ e
in_pool-run_wrapper n m threw p e = in_pool-advance n m threw p.tasks ∙ e

in_pool-Step :
    {p q : TaskPool} (n : ℕ) (w : Wrapper)
    → task_stage n p.tasks ≡ some w
    → is_done w ≡ false
    → Step p q
    → in_pool n q.tasks ≡ true
unfolding add_task run_handler cleanup
in_pool-Step {p} n w e h adds =
    in_pool-append n p.tasks (p.added, created) (in_pool-task_stage n p.tasks w e)
in_pool-Step {p} n w e h (runs x (resume_task m) hs posted) =
    in_pool-run_wrapper n m x (record p { posted = hs }) (in_pool-task_stage n p.tasks w e)
in_pool-Step {p} n w e h (runs x cleanup_tasks hs posted) = in_pool-remove_done n p.tasks w e h
in_pool-Step {p} n w e h (goes_on m x waits) =
    in_pool-run_wrapper n m x p (in_pool-task_stage n p.tasks w e)

-- In every state that a task pool reaches, from when it is made, by adding tasks and by running handlers
-- and tasks in any order: where a task has returned and is still in the pool, a cleanup is posted; a
-- cleanup leaves no task that has returned; and a task that is in the pool and not done is there after
-- any further step.
pub Reach-keeps :
    {p : TaskPool}
    → Reach p
    → (any_returned p.tasks ≡ true → any_cleanup p.posted ≡ true)
      × (any_returned (cleanup p).tasks ≡ false)
      × ((q : TaskPool) (n : ℕ) (w : Wrapper)
          → Step p q
          → task_stage n p.tasks ≡ some w
          → is_done w ≡ false
          → in_pool n q.tasks ≡ true)
unfolding cleanup
Reach-keeps {p} r =
    (Reach-IsSwept r, any_returned-remove_done p.tasks, λ q n w st e h. in_pool-Step n w e h st)
