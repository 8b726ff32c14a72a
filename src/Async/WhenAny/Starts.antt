-- ===== src/Async/WhenAny/Starts.antt =====
-- The start of the tasks of when_any.
use ez_cpp.Prelude.{
  ℕ, suc, ◌+◌, ◌^◌, ◌<◌, ◌≡◌, refl, ap, subst, ◌∙◌, arith, Option, none, some, List, [], ◌∷◌, ◌++◌,
  map, length, get_elem?, set, if◌then◌else◌, ◌==◌, Bool-cases, inl, inr, length-snoc,
  get_elem?-middle, set-middle,
}
use mathlib.Core.List.{append_assoc}
use ez_cpp.Async.Receiver.{Ending}
use ez_cpp.Async.Continuation.{
  completions, started, completions-le, ContinuationTask, new_task, waiting_task, ended,
}
use ez_cpp.Async.WhenAny.{
  WhenAny, start, start_each, start_tasks, co_await, make_awaiter, await_suspend, await_ready,
  is_ready, set_continuation, resume, resume_unless, await_resume,
}
use ez_cpp.Async.WhenAny.Latch.{notified, finish-notified}

-- How often a count of completions resumes the coroutine.
abbrev pub firings : ℕ → ℕ → ℕ
firings n k = if n == 0 then (if k == 0 then 0 else 1) else 0

module _ {R E : Type 0} (initial : R) (c : ℕ) where
  -- What k more completions have made of a state.
  pub record Counts (s : WhenAny R E) (k : ℕ) (t : WhenAny R E) : Type 0 where
    pub count : t.latch.finished_count ≡ s.latch.finished_count + k
    pub continues : t.latch.continuation ≡ some c
    pub fired : length t.resumed ≡ length s.resumed + firings s.latch.finished_count k

  Counts-notified :
      (s : WhenAny R E) → s.latch.continuation ≡ some c → Counts s 1 (notified initial c s)
  Counts-notified s has = record {
    count = refl;
    continues = has;
    fired = ground (arith, length-snoc s.resumed (c, await_resume initial s));
  }

  Counts-trans :
      (s t u : WhenAny R E) (k l : ℕ) → 0 < k → Counts s k t → Counts t l u → Counts s (k + l) u
  Counts-trans s t u k l some_now a b = record {
    count = omega (arith, a.count, b.count);
    continues = b.continues;
    fired = let x = a.fired in let y = b.fired in let z = a.count in ground arith;
  }

  pub start_each-Counts :
      (pre : List (ContinuationTask R E)) (bs : List (Option (Ending R E))) (s : WhenAny R E)
      → s.tasks ≡ pre ++ map (λ b. new_task) bs
      → s.latch.continuation ≡ some c
      → s.latch.finished_count + completions bs < 2 ^ 32
      → (t : WhenAny R E) × (start_each initial (length pre) bs s ≡ some t)
        × (t.tasks ≡ pre ++ map started bs)
        × Counts s (completions bs) t
  unfolding start_each start
  start_each-Counts pre [] s tasks has small =
      (s, refl, tasks, record { count = omega arith; continues = has; fired = ground arith })
  start_each-Counts pre (none ∷ bs) s tasks has small =
      let s1 : WhenAny R E = record s { tasks = set s.tasks (length pre) waiting_task } in
      let (t, runs, all, counts) =
        start_each-Counts (pre ++ waiting_task ∷ []) bs s1
          (rw tasks (set-middle pre (map (λ b. new_task) bs) new_task waiting_task)) has small in
      (
        t,
        subst (λ (i : ℕ). start_each initial i bs s1 ≡ some t) (length-snoc pre waiting_task) runs,
        all ∙ append_assoc pre (waiting_task ∷ []) (map started bs),
        record { count = counts.count; continues = counts.continues; fired = counts.fired },
      )
  start_each-Counts pre (some o ∷ bs) s tasks has small =
      let ends : ContinuationTask R E = ended o new_task in
      let here : get_elem? s.tasks (length pre) ≡ some new_task =
        rw tasks (get_elem?-middle pre (map (λ b. new_task) bs) new_task) in
      let s1 : WhenAny R E =
        notified initial c (record s { tasks = set s.tasks (length pre) ends }) in
      let now = finish-notified initial c (length pre) o s new_task here has (omega arith) in
      let (t, runs, all, counts) =
        start_each-Counts (pre ++ ends ∷ []) bs s1
          (rw tasks (set-middle pre (map (λ b. new_task) bs) new_task ends)) has (omega arith) in
      let first = Counts-notified (record s { tasks = set s.tasks (length pre) ends }) has in
      let both =
        Counts-trans (record s { tasks = set s.tasks (length pre) ends }) s1 t 1 (completions bs)
          (omega arith) first counts in
      (
        t,
        rw now (subst (λ (i : ℕ). start_each initial i bs s1 ≡ some t) (length-snoc pre ends) runs),
        all ∙ append_assoc pre (ends ∷ []) (map started bs),
        record {
          count = omega (arith, both.count);
          continues = both.continues;
          fired =
              both.fired
              ∙ ap (λ (k : ℕ). length s.resumed + firings s.latch.finished_count k)
                  (let e : 1 + completions bs ≡ suc (completions bs) = omega arith in e);
        },
      )

module _ {R E : Type 0} (initial : R) (c : ℕ) where
  -- The state that await_suspend leaves behind, and whether it keeps the coroutine suspended.
  pub await_suspend-Counts :
      (bs : List (Option (Ending R E)))
      → length bs < 2 ^ 32
      → (t : WhenAny R E) × (await_suspend initial c bs (make_awaiter bs)
          ≡ some (t, completions bs == 0))
        × (t.tasks ≡ map started bs)
        × (t.latch.finished_count ≡ completions bs)
        × (t.latch.continuation ≡ some c)
        × (length t.resumed ≡ (if completions bs == 0 then 0 else 1))
  unfolding await_suspend start_tasks make_awaiter is_ready set_continuation
  await_suspend-Counts bs small =
      let s : WhenAny R E = record {
        tasks = map (λ b. new_task) bs;
        latch = record { finished_count = 0; continuation = some c };
        resumed = [];
      } in
      let (t, runs, all, counts) =
        start_each-Counts initial c [] bs s refl refl (omega (arith, completions-le bs)) in
      let e = counts.count in
      let f = counts.fired in
      (t, rw runs (ground arith), all, ground arith, counts.continues, ground arith)

  -- A co_await of when_any of fewer than 2^32 awaitables resumes the coroutine that awaits twice, if
  -- one of them ends as soon as it is started, and not at all before a later completion, if none does.
  pub when_any-resumptions :
      (bs : List (Option (Ending R E)))
      → length bs < 2 ^ 32
      → (t : WhenAny R E) × (co_await initial c bs ≡ some t)
        × (length t.resumed ≡ (if completions bs == 0 then 0 else 2))
  unfolding co_await await_ready is_ready make_awaiter resume_unless resume
  when_any-resumptions bs small =
      let (t, runs, all, count, has, fired) = await_suspend-Counts bs small in
      elim (Bool-cases (completions bs == 0)) [
        | inl waits ↦ (t, rw runs (rw waits refl), ground arith)
        | inr ends ↦ (
          resume initial c t,
          rw runs (rw ends refl),
          ground (arith, length-snoc t.resumed (c, await_resume initial t)),
        )
      ]
