-- ===== src/Async/Continuation.antt =====
-- WhenAnyContinuationTask and WhenAllContinuationTask of src/libs/async/headers/ez/async/detail: coroutines
-- that await one awaitable each and tell a latch when they end.
use ez_cpp.Prelude.{
  ℕ, zero, suc, ◌≤◌, ◌≡◌, refl, ap, arith, Bool, true, false, Option, none, some, List, [], ◌∷◌,
  map, sym, ◌∙◌, length, get_elem?, set, if◌then◌else◌, eq_of_some,
}
use ez_cpp.Async.Receiver.{Receiver, monostate, Got, Ending, receive, get}

-- How far a coroutine is: it waits for its start or for its awaitable, or stands at its final suspension.
pub data Stage : Type 0 where
  created : Stage
  suspended : Stage
  done : Stage

done-ne-suspended : done ≡ suspended → ⊥
done-ne-suspended h = cc

pub record ContinuationTask (A E : Type 0) : Type 0 where
  pub receiver : Receiver A E
  pub stage : Stage

module _ {A E : Type 0} where
  abbrev pub new_task : ContinuationTask A E
  new_task = record { receiver = monostate; stage = created }

  abbrev pub waiting_task : ContinuationTask A E
  waiting_task = record { receiver = monostate; stage = suspended }

  unfoldable pub is_done : ContinuationTask A E → Bool
  is_done t = elim t.stage [ done ↦ true | _ ↦ false ]

  unfoldable pub get_result : ContinuationTask A E → Got A E
  get_result t = get t.receiver

  -- The task once its body has ended.
  unfoldable pub ended : Ending A E → ContinuationTask A E → ContinuationTask A E
  ended o t = record { receiver = receive o t.receiver; stage = done }

  unfoldable pub count_done : List (ContinuationTask A E) → ℕ
  count_done [] = 0
  count_done (t ∷ ts) = if is_done t then suc (count_done ts) else count_done ts

  pub count_done-le : (ts : List (ContinuationTask A E)) → count_done ts ≤ length ts
  unfolding count_done
  count_done-le [] = omega arith
  count_done-le (t ∷ ts) = ground (arith, count_done-le ts)

  pub count_done-set :
      (o : Ending A E) (ts : List (ContinuationTask A E)) (i : ℕ) (t : ContinuationTask A E)
      → get_elem? ts i ≡ some t
      → t.stage ≡ suspended
      → count_done (set ts i (ended o t)) ≡ suc (count_done ts)
  unfolding count_done is_done ended
  count_done-set o [] i t h w = cc
  count_done-set o (u ∷ ts) zero t h w = let e : u ≡ t = eq_of_some h in rw (e, w) refl
  count_done-set o (u ∷ ts) (suc i) t h w = ground (arith, count_done-set o ts i t h w)

-- How many awaitables end as soon as they are started.
abbrev pub completions {ℓ} : {A : Type ℓ} → List (Option A) → ℕ
completions [] = 0
completions (none ∷ bs) = completions bs
completions (some o ∷ bs) = suc (completions bs)

pub completions-le {ℓ} : {A : Type ℓ} (bs : List (Option A)) → completions bs ≤ length bs
completions-le [] = omega arith
completions-le (none ∷ bs) = omega (arith, completions-le bs)
completions-le (some o ∷ bs) = omega (arith, completions-le bs)

pub completions-set {ℓ} :
    {A : Type ℓ} (bs : List (Option A)) (i : ℕ) (o : A)
    → get_elem? bs i ≡ some none
    → completions (set bs i (some o)) ≡ suc (completions bs)
completions-set [] i o h = cc
completions-set (none ∷ bs) zero o h = refl
completions-set (some p ∷ bs) zero o h = cc
completions-set (none ∷ bs) (suc i) o h = completions-set bs i o h
completions-set (some p ∷ bs) (suc i) o h = ap suc (completions-set bs i o h)

pub eq-nil_of_length {ℓ} : {A : Type ℓ} (xs : List A) → length xs ≡ 0 → xs ≡ []
eq-nil_of_length [] h = refl
eq-nil_of_length (x ∷ xs) h = absurd (omega arith)

-- Tasks whose awaitables wait (`none`) or have ended.
module _ {A E : Type 0} where
  abbrev pub started : Option (Ending A E) → ContinuationTask A E
  started none = waiting_task
  started (some o) = ended o new_task

  pub count_done-started :
      (bs : List (Option (Ending A E))) → count_done (map started bs) ≡ completions bs
  unfolding count_done is_done ended
  count_done-started [] = refl
  count_done-started (none ∷ bs) = count_done-started bs
  count_done-started (some o ∷ bs) = ap suc (count_done-started bs)

  pub length-started : (bs : List (Option (Ending A E))) → length (map started bs) ≡ length bs
  length-started [] = refl
  length-started (b ∷ bs) = ap suc (length-started bs)

  pub get_elem?-started :
      (bs : List (Option (Ending A E))) (i : ℕ) (t : ContinuationTask A E)
      → get_elem? (map started bs) i ≡ some t
      → t.stage ≡ suspended
      → (get_elem? bs i ≡ some none) × (t ≡ waiting_task)
  unfolding ended
  get_elem?-started [] i t h w = cc
  get_elem?-started (none ∷ bs) zero t h w = (refl, sym (eq_of_some h))
  get_elem?-started (some o ∷ bs) zero t h w =
      absurd (done-ne-suspended (ap (λ u. u.stage) (eq_of_some h) ∙ w))
  get_elem?-started (b ∷ bs) (suc i) t h w = get_elem?-started bs i t h w

  pub set-started :
      (bs : List (Option (Ending A E))) (i : ℕ) (o : Ending A E)
      → set (map started bs) i (ended o waiting_task) ≡ map started (set bs i (some o))
  unfolding ended
  set-started [] i o = refl
  set-started (b ∷ bs) zero o = refl
  set-started (b ∷ bs) (suc i) o = ap (◌∷◌ (started b)) (set-started bs i o)
