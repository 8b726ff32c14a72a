-- ===== src/Async/WhenAll/Starts.antt =====
-- The start of the tasks of when_all.
use mathlib.Core.List.{append_assoc}
use ez_cpp.Prelude.{
  ℕ, suc, ◌+◌, ◌-◌, ◌%◌, ◌^◌, ◌<◌, ◌≤◌, ◌≡◌, refl, ap, subst, ◌∙◌, arith, Bool, false, not, Option,
  none, some, List, [], ◌∷◌, ◌++◌, map, length, get_elem?, set, if◌then◌else◌, ◌==◌, Bool-cases,
  inl, inr, length-snoc, get_elem?-middle, set-middle,
}
use ez_cpp.Async.Receiver.{Ending}
use ez_cpp.Async.Continuation.{
  ContinuationTask, new_task, waiting_task, ended, completions, started,
}
use ez_cpp.Async.WhenAll.{
  WhenAll, WhenAllLatch, start, start_each, start_tasks, co_await, make_awaiter, make_latch,
  decrement, await_suspend, await_ready, is_ready, set_continuation, resume, resume_unless,
  await_resume,
}
use ez_cpp.Async.WhenAll.Latch.{notified, finish-notified}

-- How often k completions resume the coroutine that n completions are awaited for.
abbrev pub firings : ℕ → ℕ → ℕ
firings n k = if n == k then (if k == 0 then 0 else 1) else 0

module _ {R E : Type 0} (finishes : Bool) (c : ℕ) where
  -- What k more completions have made of a state.
  pub record Counts (s : WhenAll R E) (k : ℕ) (t : WhenAll R E) : Type 0 where
    pub count : t.latch.count + k ≡ s.latch.count
    pub continues : t.latch.continuation ≡ some c
    pub fired : length t.resumed ≡ length s.resumed + firings s.latch.count k
    pub ran : t.awaiting_done ≡ (if firings s.latch.count k == 1 then finishes else s.awaiting_done)

  Counts-notified :
      (s : WhenAll R E)
      → s.latch.continuation ≡ some c
      → 0 < s.latch.count
      → Counts s 1 (notified finishes c s)
  Counts-notified s has more = record {
    count = omega arith;
    continues = has;
    fired = ground (arith, length-snoc s.resumed (c, await_resume s));
    ran = ground arith;
  }

  Counts-trans :
      (s t u : WhenAll R E) (k l : ℕ) → 0 < k → Counts s k t → Counts t l u → Counts s (k + l) u
  Counts-trans s t u k l some_now a b = record {
    count = omega (arith, a.count, b.count);
    continues = b.continues;
    fired = let x = a.fired in let y = b.fired in let z = a.count in ground arith;
    ran = let x = a.ran in let y = b.ran in let z = a.count in ground arith;
  }

  pub start_each-Counts :
      (pre : List (ContinuationTask R E)) (bs : List (Option (Ending R E))) (s : WhenAll R E)
      → s.tasks ≡ pre ++ map (λ b. new_task) bs
      → s.latch.continuation ≡ some c
      → length bs ≤ s.latch.count
      → s.latch.count < 2 ^ 32
      → (t : WhenAll R E) × (start_each finishes (length pre) bs s ≡ some t)
        × (t.tasks ≡ pre ++ map started bs)
        × Counts s (completions bs) t
  unfolding start_each start
  start_each-Counts pre [] s tasks has more small = (
    s,
    refl,
    tasks,
    record { count = omega arith; continues = has; fired = ground arith; ran = ground arith },
  )
  start_each-Counts pre (none ∷ bs) s tasks has more small =
      let s1 : WhenAll R E = record s { tasks = set s.tasks (length pre) waiting_task } in
      let (t, runs, all, counts) =
        start_each-Counts (pre ++ waiting_task ∷ []) bs s1
          (rw tasks (set-middle pre (map (λ b. new_task) bs) new_task waiting_task)) has
          (omega arith) small in
      (
        t,
        subst (λ (i : ℕ). start_each finishes i bs s1 ≡ some t) (length-snoc pre waiting_task) runs,
        all ∙ append_assoc pre (waiting_task ∷ []) (map started bs),
        record {
          count = counts.count;
          continues = counts.continues;
          fired = counts.fired;
          ran = counts.ran;
        },
      )
  start_each-Counts pre (some o ∷ bs) s tasks has more small =
      let ends : ContinuationTask R E = ended o new_task in
      let here : get_elem? s.tasks (length pre) ≡ some new_task =
        rw tasks (get_elem?-middle pre (map (λ b. new_task) bs) new_task) in
      let s0 : WhenAll R E = record s { tasks = set s.tasks (length pre) ends } in
      let s1 : WhenAll R E = notified finishes c s0 in
      let now = finish-notified finishes c (length pre) o s new_task here has (omega arith) small in
      let (t, runs, all, counts) =
        start_each-Counts (pre ++ ends ∷ []) bs s1
          (rw tasks (set-middle pre (map (λ b. new_task) bs) new_task ends)) has (omega arith)
          (omega arith) in
      let both =
        Counts-trans s0 s1 t 1 (completions bs) (omega arith) (Counts-notified s0 has (omega arith))
          counts in
      let e : 1 + completions bs ≡ suc (completions bs) = omega arith in
      (
        t,
        rw now
            (subst (λ (i : ℕ). start_each finishes i bs s1 ≡ some t) (length-snoc pre ends) runs),
        all ∙ append_assoc pre (ends ∷ []) (map started bs),
        subst (λ (k : ℕ). Counts s k t) e
            (record {
              count = both.count;
              continues = both.continues;
              fired = both.fired;
              ran = both.ran;
            }),
      )

latch_starts :
    (c n : ℕ)
    → n + 1 < 2 ^ 32
    → set_continuation c (make_latch n) ≡ record { count = n; continuation = some c }
unfolding set_continuation make_latch decrement
latch_starts c n small =
    let e : ((n + 1) % 2 ^ 32 + 2 ^ 32 - 1) % 2 ^ 32 ≡ n = omega arith in rw e refl

is_ready_lem : (c : ℕ) (l : WhenAllLatch) (b : Bool) → l.continuation ≡ some c → is_ready l b ≡ b
unfolding is_ready
is_ready_lem c l b h = rw h refl

module _ {R E : Type 0} (finishes : Bool) (c : ℕ) where
  -- The state that await_suspend leaves behind, and whether it keeps the coroutine suspended.
  pub await_suspend-Counts :
      (bs : List (Option (Ending R E)))
      → length bs + 1 < 2 ^ 32
      → (t : WhenAll R E) × (await_suspend finishes c bs (make_awaiter bs)
          ≡ some (t, not t.awaiting_done))
        × (t.tasks ≡ map started bs)
        × (t.latch.count + completions bs ≡ length bs)
        × (t.latch.continuation ≡ some c)
        × (length t.resumed ≡ firings (length bs) (completions bs))
        × (t.awaiting_done
            ≡ (if firings (length bs) (completions bs) == 1 then finishes else false))
  unfolding await_suspend start_tasks make_awaiter
  await_suspend-Counts bs small =
      let s : WhenAll R E = record {
        tasks = map (λ b. new_task) bs;
        latch = record { count = length bs; continuation = some c };
        resumed = [];
        awaiting_done = false;
      } in
      let (t, runs, all, counts) =
        start_each-Counts finishes c [] bs s refl refl (omega arith) (omega arith) in
      let ready = is_ready_lem c t.latch t.awaiting_done counts.continues in
      let f = counts.fired in
      (
        t,
        rw (latch_starts c (length bs) small) (rw runs (ap (λ b. some (t, not b)) ready)),
        all,
        counts.count,
        counts.continues,
        omega (arith, f),
        counts.ran,
      )

  -- A co_await of when_all of at least one and fewer than 2^32 - 1 awaitables, all of which end as soon as
  -- they are started, resumes the coroutine that awaits once, or twice if it runs to its end when it is
  -- resumed; if some do not end at once, it is not resumed before a later completion.
  pub when_all-resumptions :
      (bs : List (Option (Ending R E)))
      → 0 < length bs
      → length bs + 1 < 2 ^ 32
      → (t : WhenAll R E) × (co_await finishes c bs ≡ some t)
        × (length t.resumed
            ≡ (if completions bs == length bs then (if finishes then 2 else 1) else 0))
  unfolding co_await await_ready is_ready make_awaiter make_latch resume_unless resume
  when_all-resumptions bs one small =
      let (t, runs, all, count, has, fired, ran) = await_suspend-Counts bs small in
      elim (Bool-cases t.awaiting_done) [
        | inl stands ↦ (
          resume finishes c t,
          rw runs (rw stands refl),
          ground (arith, length-snoc t.resumed (c, await_resume t)),
        )
        | inr waits ↦ (t, rw runs (rw waits refl), ground arith)
      ]
