-- ===== src/Async/WhenAny/Refines.antt =====
-- when_any as a race: an abstract contract and that the latch keeps it.
use ez_cpp.Prelude.{
  ℕ, zero, suc, ◌^◌, ◌<◌, ◌≡◌, refl, ap, sym, subst, ◌∙◌, arith, Option, some, List, [], ◌∷◌,
  length, get_elem?, set, length-set, eq_of_some,
}
use ez_cpp.Async.Receiver.{
  Got, got, Ending, returned, threw, outcome, get, receive, set_value, unhandled_exception,
}
use ez_cpp.Async.Continuation.{
  completions, count_done-started, length-started, eq-nil_of_length, Stage, ContinuationTask,
  is_done, get_result, ended, count_done, count_done-le, count_done-set,
}
use ez_cpp.Async.WhenAny.{
  WhenAny, await_resume, await_resume_from, finish, co_await, make_awaiter, await_ready, is_ready,
  resume_unless,
}
use ez_cpp.Async.WhenAny.Latch.{notified, finish-notified}
use ez_cpp.Async.WhenAny.Starts.{await_suspend-Counts}

-- The contract: a race is won by the first ending, which no later one changes.
pub data Race (R E : Type 0) : Type 0 where
  pending : Race R E
  won : Got R E → Race R E

module _ {R E : Type 0} where
  abbrev pub step : Ending R E → Race R E → Race R E
  step o pending = won (outcome o)
  step o (won g) = won g

  abbrev pub race : List (Ending R E) → Race R E → Race R E
  race [] r = r
  race (o ∷ os) r = race os (step o r)

  -- What the coroutine c sees of it.
  abbrev pub seen : ℕ → Race R E → List (ℕ × Got R E)
  seen c pending = []
  seen c (won g) = (c, g) ∷ []

  abbrev Phase : Race R E → ℕ → Type 0
  Phase pending n = n ≡ 0
  Phase (won g) n = 0 < n

  await_resume_from-none_done :
      (r : R) (ts : List (ContinuationTask R E))
      → count_done ts ≡ 0
      → await_resume_from r ts ≡ got r
  unfolding await_resume_from count_done
  await_resume_from-none_done r [] h = refl
  await_resume_from-none_done r (t ∷ ts) h = ground (arith, await_resume_from-none_done r ts)

  -- Where one task is done, its ending is the result.
  await_resume_from-one_done :
      (r : R) (o : Ending R E) (ts : List (ContinuationTask R E)) (i : ℕ) (t : ContinuationTask R E)
      → count_done ts ≡ 0
      → get_elem? ts i ≡ some t
      → await_resume_from r (set ts i (ended o t)) ≡ outcome o
  unfolding await_resume_from count_done is_done ended get_result get receive set_value
      unhandled_exception
  await_resume_from-one_done r o [] i t h here = cc
  await_resume_from-one_done r (returned a) (u ∷ ts) zero t h here =
      await_resume_from-none_done a ts (ground arith)
  await_resume_from-one_done r (threw e) (u ∷ ts) zero t h here = refl
  await_resume_from-one_done r o (u ∷ ts) (suc i) t h here =
      ground (arith, await_resume_from-one_done r o ts i t)

module _ {R E : Type 0} (initial : R) where
  -- A task that is suspended ends.
  pub data Finishes (s : WhenAny R E) (o : Ending R E) (t : WhenAny R E) : Type 0 where
    finishes :
        (i : ℕ) (task : ContinuationTask R E)
        → get_elem? s.tasks i ≡ some task
        → task.stage ≡ Stage.suspended
        → finish initial i o s ≡ some t
        → Finishes s o t

  -- Endings in order, up to the state u.
  pub data Runs (u : WhenAny R E) : WhenAny R E → List (Ending R E) → Type 0 where
    here : Runs u u []
    next :
        {s t : WhenAny R E} {o : Ending R E} {os : List (Ending R E)}
        → Finishes s o t
        → Runs u t os
        → Runs u s (o ∷ os)

  module _ (c : ℕ) where
    record Shows (s : WhenAny R E) (r : Race R E) : Type 0 where
      continues : s.latch.continuation ≡ some c
      counted : s.latch.finished_count ≡ count_done s.tasks
      few : length s.tasks < 2 ^ 32
      phase : Phase r s.latch.finished_count
      sees : s.resumed ≡ seen c r

    module _ (s : WhenAny R E) (i : ℕ) (task : ContinuationTask R E)
        (here : get_elem? s.tasks i ≡ some task) (waits : task.stage ≡ Stage.suspended) where
      abbrev after : Ending R E → WhenAny R E
      after o = record s { tasks = set s.tasks i (ended o task) }

      -- A task that waits can end.
      finish-runs :
          (o : Ending R E) (r : Race R E)
          → Shows s r
          → finish initial i o s ≡ some (notified initial c (after o))
      finish-runs o r shows = finish-notified initial c i o s task here shows.continues (
          omega (
            arith,
            shows.counted,
            shows.few,
            count_done-set o s.tasks i task here waits,
            count_done-le (set s.tasks i (ended o task)),
            length-set s.tasks i (ended o task),
          ))

      notified-Shows :
          (o : Ending R E) (r : Race R E)
          → Shows s r
          → Shows (notified initial c (after o)) (step o r)
      unfolding await_resume
      notified-Shows o pending shows = record {
        continues = shows.continues;
        counted = omega (arith, shows.counted, count_done-set o s.tasks i task here waits);
        few = omega (arith, shows.few, length-set s.tasks i (ended o task));
        phase = omega arith;
        sees =
            let none_done : count_done s.tasks ≡ 0 = sym shows.counted ∙ shows.phase in
            let e = shows.phase in
            let old = shows.sees in
            rw (e, old, await_resume_from-one_done initial o s.tasks i task none_done here) refl;
      }
      notified-Shows o (won g) shows = record {
        continues = shows.continues;
        counted = omega (arith, shows.counted, count_done-set o s.tasks i task here waits);
        few = omega (arith, shows.few, length-set s.tasks i (ended o task));
        phase = omega arith;
        sees = let e = shows.phase in let old = shows.sees in ground arith;
      }

    Finishes-Shows :
        (s t : WhenAny R E) (o : Ending R E) (r : Race R E)
        → Shows s r
        → Finishes s o t
        → Shows t (step o r)
    Finishes-Shows s t o r shows (finishes i task found waits runs) =
        let e = eq_of_some (sym (finish-runs s i task found waits o r shows) ∙ runs) in
        subst (λ u. Shows u (step o r)) e (notified-Shows s i task found waits o r shows)

    Runs-Shows :
        (u s : WhenAny R E) (os : List (Ending R E)) (r : Race R E)
        → Shows s r
        → Runs u s os
        → Shows u (race os r)
    Runs-Shows u s os r shows here = shows
    Runs-Shows u s os r shows (next {t = t} {o = o} {os = rest} first later) =
        Runs-Shows u t rest (step o r) (Finishes-Shows s t o r shows first) later

  -- when_any of fewer than 2^32 awaitables, none of which ends as soon as it is started, keeps the
  -- contract of a race: the co_await leaves the coroutine suspended, and after any endings of tasks, in
  -- any order, the coroutine has been resumed exactly as often as the contract says, once with the
  -- outcome of the first ending; and a task that waits can always end.
  pub co_await-refines :
      (c : ℕ) (bs : List (Option (Ending R E)))
      → length bs < 2 ^ 32
      → completions bs ≡ 0
      → (s : WhenAny R E) × (co_await initial c bs ≡ some s)
        × ((u : WhenAny R E) (os : List (Ending R E))
            → Runs u s os
            → (u.resumed ≡ seen c (race os pending))
              × ((i : ℕ) (task : ContinuationTask R E) (o : Ending R E)
                  → get_elem? u.tasks i ≡ some task
                  → task.stage ≡ Stage.suspended
                  → (v : WhenAny R E) × Finishes u o v))
  unfolding co_await await_ready is_ready make_awaiter resume_unless
  co_await-refines c bs small wait =
      let (s, runs, all, count, has, fired) = await_suspend-Counts initial c bs small in
      let start : Shows c s pending = record {
        continues = has;
        counted = count ∙ sym (ap count_done all ∙ count_done-started bs);
        few = omega (arith, ap length all, length-started bs);
        phase = count ∙ wait;
        sees = eq-nil_of_length s.resumed (rw wait at fired);
      } in
      (
        s,
        rw runs (rw wait refl),
        λ u os later.
            let shows = Runs-Shows c u s os pending start later in
            (
              shows.sees,
              λ i task o found waits. (
                _,
                finishes i task found waits
                    (finish-runs c u i task found waits o (race os pending) shows),
              ),
            ),
      )
