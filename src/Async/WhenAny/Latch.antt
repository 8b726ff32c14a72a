-- ===== src/Async/WhenAny/Latch.antt =====
-- What one completion does to the latch of when_any.
use ez_cpp.Prelude.{
  ℕ, ◌+◌, ◌%◌, ◌^◌, ◌<◌, ◌≡◌, refl, arith, some, ◌++◌, ◌∷◌, [], get_elem?, set, if◌then◌else◌, ◌==◌,
  Bool-cases, inl, inr,
}
use ez_cpp.Async.Receiver.{Ending}
use ez_cpp.Async.Continuation.{ContinuationTask, ended}
use ez_cpp.Async.WhenAny.{WhenAny, await_resume, resume, notify_awaitable_completed, finish}

module _ {R E : Type 0} (initial : R) (c : ℕ) where
  -- The state after a completion: the first one resumes the coroutine.
  abbrev pub notified : WhenAny R E → WhenAny R E
  notified s = record s {
    latch = record s.latch { finished_count = s.latch.finished_count + 1 };
    resumed =
        if s.latch.finished_count == 0
        then s.resumed ++ (c, await_resume initial s) ∷ []
        else s.resumed;
  }

  pub notify-notified :
      (s : WhenAny R E)
      → s.latch.continuation ≡ some c
      → s.latch.finished_count + 1 < 2 ^ 32
      → notify_awaitable_completed initial s ≡ some (notified s)
  unfolding notify_awaitable_completed resume await_resume
  notify-notified s has small =
      let e : (s.latch.finished_count + 1) % 2 ^ 32 ≡ s.latch.finished_count + 1 = omega arith in
      elim (Bool-cases (s.latch.finished_count == 0)) [
        | inl first ↦ rw (first, has, e) refl
        | inr later ↦ rw (later, e) refl
      ]

  pub finish-notified :
      (i : ℕ) (o : Ending R E) (s : WhenAny R E) (t : ContinuationTask R E)
      → get_elem? s.tasks i ≡ some t
      → s.latch.continuation ≡ some c
      → s.latch.finished_count + 1 < 2 ^ 32
      → finish initial i o s ≡ some (notified (record s { tasks = set s.tasks i (ended o t) }))
  unfolding finish
  finish-notified i o s t here has small =
      rw here (notify-notified (record s { tasks = set s.tasks i (ended o t) }) has small)
