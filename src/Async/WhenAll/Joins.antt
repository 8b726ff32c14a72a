-- ===== src/Async/WhenAll/Joins.antt =====
-- when_all as a join: an abstract contract and that the latch keeps it.
use ez_cpp.Prelude.{
  ℕ, zero, suc, ◌+◌, ◌^◌, ◌<◌, ◌≡◌, refl, ap, sym, subst, ◌∙◌, arith, Bool, false, Option, none,
  some, List, [], ◌∷◌, map, length, get_elem?, set, length-set, if◌then◌else◌, ◌==◌, eq_of_some,
}
use ez_cpp.Async.Receiver.{Ending, returned, threw, get, receive, set_value, unhandled_exception}
use ez_cpp.Async.Continuation.{
  Stage, ContinuationTask, waiting_task, ended, get_result, completions, completions-le,
  completions-set, started, get_elem?-started, set-started, eq-nil_of_length,
}
use ez_cpp.Async.WhenAll.{
  WhenAll, Results, values, terminated, prepend, transformed, await_resume, finish, co_await,
  make_awaiter, make_latch, await_ready, is_ready, resume_unless,
}
use ez_cpp.Async.WhenAll.Latch.{notified, finish-notified}
use ez_cpp.Async.WhenAll.Starts.{await_suspend-Counts}

module _ {R E : Type 0} where
  -- The contract: a join is the list of the endings so far. Once all are there, the coroutine c has their
  -- values, in the order of the awaitables, unless one of them threw, which ends the program.
  abbrev pub collect : List (Option (Ending R E)) → Results R
  collect [] = values []
  collect (some (returned a) ∷ bs) = prepend a (collect bs)
  collect (some (threw e) ∷ bs) = terminated
  collect (none ∷ bs) = terminated

  abbrev pub seen : ℕ → List (Option (Ending R E)) → List (ℕ × Results R)
  seen c bs = if completions bs == length bs then (c, collect bs) ∷ [] else []

  -- The endings, in order, of awaitables that wait.
  pub data Joins (ds : List (Option (Ending R E))) : List (Option (Ending R E)) → Type 0 where
    here : Joins ds ds
    next :
        {bs : List (Option (Ending R E))} (i : ℕ) (o : Ending R E)
        → get_elem? bs i ≡ some none
        → Joins ds (set bs i (some o))
        → Joins ds bs

  transformed-started :
      (bs : List (Option (Ending R E))) → transformed (map started bs) ≡ collect bs
  unfolding transformed get_result ended get receive set_value unhandled_exception
  transformed-started [] = refl
  transformed-started (none ∷ bs) = refl
  transformed-started (some (returned a) ∷ bs) = ap (prepend a) (transformed-started bs)
  transformed-started (some (threw e) ∷ bs) = refl

  -- Some awaitable waits.
  completions-lt :
      (bs : List (Option (Ending R E))) (i : ℕ)
      → get_elem? bs i ≡ some none
      → completions bs < length bs
  completions-lt [] i h = cc
  completions-lt (none ∷ bs) i h = omega (arith, completions-le bs)
  completions-lt (some o ∷ bs) zero h = cc
  completions-lt (some o ∷ bs) (suc i) h = omega (arith, completions-lt bs i h)

module _ {R E : Type 0} (finishes : Bool) where
  -- A task that is suspended ends.
  pub data Finishes (s : WhenAll R E) (t : WhenAll R E) : Type 0 where
    ends :
        (i : ℕ) (o : Ending R E) (task : ContinuationTask R E)
        → get_elem? s.tasks i ≡ some task
        → task.stage ≡ Stage.suspended
        → finish finishes i o s ≡ some t
        → Finishes s t

  pub data Runs (u : WhenAll R E) : WhenAll R E → Type 0 where
    here : Runs u u
    next : {s t : WhenAll R E} → Finishes s t → Runs u t → Runs u s

  module _ (c : ℕ) where
    pub record Shows (s : WhenAll R E) (bs : List (Option (Ending R E))) : Type 0 where
      pub continues : s.latch.continuation ≡ some c
      pub tasks : s.tasks ≡ map started bs
      pub counted : s.latch.count + completions bs ≡ length bs
      pub few : length bs < 2 ^ 32
      pub sees : s.resumed ≡ seen c bs

    waiting :
        (bs : List (Option (Ending R E))) (i : ℕ)
        → get_elem? bs i ≡ some none
        → get_elem? (map started bs) i ≡ some waiting_task
    waiting [] i h = cc
    waiting (none ∷ bs) zero h = refl
    waiting (some o ∷ bs) zero h = cc
    waiting (b ∷ bs) (suc i) h = waiting bs i h

    -- A task that waits can end.
    finish-runs :
        (s : WhenAll R E) (bs : List (Option (Ending R E))) (i : ℕ) (o : Ending R E)
        → Shows s bs
        → get_elem? bs i ≡ some none
        → finish finishes i o s
          ≡ some (notified finishes c (record s { tasks = set s.tasks i (ended o waiting_task) }))
    finish-runs s bs i o shows waits =
        let more = completions-lt bs i waits in
        let counted = shows.counted in
        finish-notified finishes c i o s waiting_task
          (ap (λ ts. get_elem? ts i) shows.tasks ∙ waiting bs i waits) shows.continues (omega arith)
          (omega (arith, shows.few))

    -- The ending of a task is a step of the join.
    notified-Shows :
        (s : WhenAll R E) (bs : List (Option (Ending R E))) (i : ℕ) (o : Ending R E)
        → Shows s bs
        → get_elem? bs i ≡ some none
        → Shows
            (notified finishes c (record s { tasks = set s.tasks i (ended o waiting_task) }))
            (set bs i (some o))
    unfolding await_resume
    notified-Shows s bs i o shows waits =
        let more = completions-set bs i o waits in
        let open_ = completions-lt bs i waits in
        let same = length-set bs i (some o) in
        let all : set s.tasks i (ended o waiting_task) ≡ map started (set bs i (some o)) =
          ap (λ ts. set ts i (ended o waiting_task)) shows.tasks ∙ set-started bs i o in
        let old = shows.sees in
        let given : transformed (set s.tasks i (ended o waiting_task))
            ≡ collect (set bs i (some o)) =
          ap transformed all ∙ transformed-started (set bs i (some o)) in
        let counted = shows.counted in
        record {
          continues = shows.continues;
          tasks = all;
          counted = omega arith;
          few = omega (arith, shows.few);
          sees = ground arith;
        }

    Finishes-Shows :
        (s t : WhenAll R E) (bs : List (Option (Ending R E)))
        → Shows s bs
        → Finishes s t
        → (i : ℕ) × (o : Ending R E) × (get_elem? bs i ≡ some none) × Shows t (set bs i (some o))
    Finishes-Shows s t bs shows (ends i o task found waits runs) =
        let (open_, fresh) =
          get_elem?-started bs i task (ap (λ ts. get_elem? ts i) (sym shows.tasks) ∙ found) waits in
        let e = eq_of_some (
          sym (finish-runs s bs i o shows open_)
          ∙ subst (λ task. finish finishes i o s ≡ some t) fresh runs) in
        (
          i,
          o,
          open_,
          subst (λ u. Shows u (set bs i (some o))) e (notified-Shows s bs i o shows open_),
        )

    Runs-Shows :
        (u s : WhenAll R E) (bs : List (Option (Ending R E)))
        → Shows s bs
        → Runs u s
        → (ds : List (Option (Ending R E))) × Joins ds bs × Shows u ds
    Runs-Shows u s bs shows here = (bs, Joins.here, shows)
    Runs-Shows u s bs shows (next {t = t} first later) =
        let (i, o, open_, then_) = Finishes-Shows s t bs shows first in
        let (ds, joins, shows_u) = Runs-Shows u t (set bs i (some o)) then_ later in
        (ds, Joins.next i o open_ joins, shows_u)

  -- when_all of fewer than 2^32 - 1 awaitables, not all of which end as soon as they are started, keeps the
  -- contract of a join: the co_await leaves the coroutine suspended, and after any endings of tasks, in
  -- any order, the tasks have ended as the join says, and the coroutine has been resumed exactly when
  -- all have, once, with what they gave in their order, or the program is ended where one threw; and a
  -- task that waits can always end.
  pub co_await-joins :
      (c : ℕ) (bs : List (Option (Ending R E)))
      → length bs + 1 < 2 ^ 32
      → completions bs < length bs
      → (s : WhenAll R E) × (co_await finishes c bs ≡ some s)
        × ((u : WhenAll R E)
            → Runs u s
            → (ds : List (Option (Ending R E))) × Joins ds bs
              × (u.tasks ≡ map started ds)
              × (u.resumed ≡ seen c ds)
              × ((i : ℕ) (o : Ending R E)
                  → get_elem? ds i ≡ some none
                  → (v : WhenAll R E) × Finishes u v))
  unfolding co_await await_ready is_ready make_awaiter make_latch resume_unless
  co_await-joins c bs small wait =
      let (s, runs, all, count, has, fired, ran) = await_suspend-Counts finishes c bs small in
      let waits : s.awaiting_done ≡ false = ground arith in
      let start : Shows c s bs = record {
        continues = has;
        tasks = all;
        counted = count;
        few = omega arith;
        sees = let e = eq-nil_of_length s.resumed (ground arith) in ground arith;
      } in
      (
        s,
        rw runs (rw waits refl),
        λ u later.
            let (ds, joins, shows) = Runs-Shows c u s bs start later in
            (
              ds,
              joins,
              shows.tasks,
              shows.sees,
              λ i o open_. (
                _,
                ends i o waiting_task (ap (λ ts. get_elem? ts i) shows.tasks ∙ waiting c ds i open_)
                    refl (finish-runs c u ds i o shows open_),
              ),
            ),
      )
