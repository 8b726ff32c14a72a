-- ===== src/Ownership/Shared.antt =====
-- Shared of src/libs/core/headers/ez/Shared.hpp: objects that share a value and its changes.
use ez_cpp.Prelude.{
  ℕ, ◌<◌, ◌≡◌, ◌≢◌, ◌∙◌, false, Option, some, arith, if◌then◌else◌, ◌==◌, length, get_elem?, set,
  get_elem?-set_self, get_elem?-set_ne,
}
use ez_cpp.Reporting.Store.Frame.{get_elem?-lt}
use ez_cpp.Ownership.{Heap, value, use_count, detach, write}
use ez_cpp.Ownership.Counts.{count_uses_positive}
use ez_cpp.Ownership.Isolation.{Holds, value-Holds, write-Holds, detach-Holds, use_count-Holds}

module _ {ℓ} {A : Type ℓ} where
  -- `shared = new_val`, which writes through the pointer.
  unfoldable pub share_value : A → ℕ → Heap A → Option (Heap A)
  share_value v i h = write (λ old. v) i h

  unfoldable pub detach_if_shared : ℕ → Heap A → Option (Heap A)
  detach_if_shared i h = if use_count i h == 0 then some h else detach i h

  -- A value that is assigned through one object is read through every object that points to the
  -- same cell, and objects that point to other cells keep theirs.
  pub share_value-shares :
      (i p : ℕ) (h : Heap A) (old v : A)
      → Holds h i p old
      → (h' : Heap A) × (share_value v i h ≡ some h')
        × ((j : ℕ) → get_elem? h.handles j ≡ some (some p) → value j h' ≡ some v)
        × ((j q : ℕ) (u : A) → p ≢ q → Holds h j q u → value j h' ≡ some u)
  unfolding share_value
  share_value-shares i p h old v a =
      let h' : Heap A = record h { cells = set h.cells p v } in
      (
        h',
        write-Holds (λ o. v) i p h a,
        λ j e. value-Holds j p h' (e, get_elem?-set_self h.cells p v (get_elem?-lt h.cells p a.1)),
        λ j q u ne b. value-Holds j q h' (b.0, get_elem?-set_ne h.cells p q v ne ∙ b.1),
      )

  -- An object that holds a value is detached by `detach_if_shared` whether or not its cell has
  -- another handle: it gets a new cell with the value, and every other object keeps its own.
  pub detach_if_shared-detaches :
      (i p : ℕ) (h : Heap A) (v : A)
      → Holds h i p v
      → (h' : Heap A) × (detach_if_shared i h ≡ some h')
        × Holds h' i (length h.cells) v
        × ((j q : ℕ) (u : A) → i ≢ j → Holds h j q u → Holds h' j q u × (q < length h.cells))
  unfolding detach_if_shared
  detach_if_shared-detaches i p h v a =
      let counted = use_count-Holds i p h a in
      let some_use = count_uses_positive p i h.handles a.0 in
      let used : (use_count i h == 0) ≡ false = ground arith in
      let (h', runs, mine, others) = detach-Holds i p h a in (h', rw used runs, mine, others)
