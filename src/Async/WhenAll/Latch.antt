-- ===== src/Async/WhenAll/Latch.antt =====
-- What one completion does to the latch of when_all.
use ez_cpp.Prelude.{
  ℕ, ◌+◌, ◌-◌, ◌%◌, ◌^◌, ◌<◌, ◌≡◌, refl, arith, Bool, some, ◌++◌, ◌∷◌, [], get_elem?, set,
  if◌then◌else◌, ◌==◌, Bool-cases, inl, inr,
}
use ez_cpp.Async.Receiver.{Ending}
use ez_cpp.Async.Continuation.{ContinuationTask, ended}
use ez_cpp.Async.WhenAll.{
  WhenAll, await_resume, resume, decrement, notify_awaitable_completed, finish,
}

module _ {R E : Type 0} (finishes : Bool) (c : ℕ) where
  -- The state after a completion: the last one resumes the coroutine.
  abbrev pub notified : WhenAll R E → WhenAll R E
  notified s = record s {
    latch = record s.latch { count = s.latch.count - 1 };
    resumed = if s.latch.count == 1 then s.resumed ++ (c, await_resume s) ∷ [] else s.resumed;
    awaiting_done = if s.latch.count == 1 then finishes else s.awaiting_done;
  }

  pub notify-notified :
      (s : WhenAll R E)
      → s.latch.continuation ≡ some c
      → 0 < s.latch.count
      → s.latch.count < 2 ^ 32
      → notify_awaitable_completed finishes s ≡ some (notified s)
  unfolding notify_awaitable_completed resume await_resume decrement
  notify-notified s has more small =
      let e : (s.latch.count + 2 ^ 32 - 1) % 2 ^ 32 ≡ s.latch.count - 1 = omega arith in
      elim (Bool-cases (s.latch.count == 1)) [
        | inl last ↦ rw (last, has, e) refl
        | inr earlier ↦ rw (earlier, e) refl
      ]

  pub finish-notified :
      (i : ℕ) (o : Ending R E) (s : WhenAll R E) (t : ContinuationTask R E)
      → get_elem? s.tasks i ≡ some t
      → s.latch.continuation ≡ some c
      → 0 < s.latch.count
      → s.latch.count < 2 ^ 32
      → finish finishes i o s ≡ some (notified (record s { tasks = set s.tasks i (ended o t) }))
  unfolding finish
  finish-notified i o s t here has more small =
      rw here (notify-notified (record s { tasks = set s.tasks i (ended o t) }) has more small)
