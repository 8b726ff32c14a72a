-- ===== src/Ownership.antt =====
-- Cow and Shared of src/libs/core/headers/ez/Cow.hpp and Shared.hpp: values behind a counted pointer.
-- The objects of a program stand in a heap: each object is a handle, whose pointer is an index into
-- the cells, or null once it has been moved from or destroyed. A cell outlives its last handle,
-- which nothing can observe. `none` is a null or dangling pointer that is dereferenced.
pub mod Counts
pub mod Isolation
pub mod Shared
mod Tests
use ez_cpp.Prelude.{
  ℕ, suc, ◌+◌, Bool, Option, none, some, List, [], ◌∷◌, ◌++◌, if◌then◌else◌, ◌==◌, ◌>>=◌, length,
  get_elem?, set,
}

pub record Heap {ℓ} (A : Type ℓ) : Type ℓ where
  pub cells : List A
  pub handles : List (Option ℕ)

-- The handles that point to a cell.
unfoldable pub count_uses : ℕ → List (Option ℕ) → ℕ
count_uses p [] = 0
count_uses p (none ∷ hs) = count_uses p hs
count_uses p (some q ∷ hs) = let rest = count_uses p hs in if q == p then suc rest else rest

module _ {ℓ} {A : Type ℓ} where
  -- `m_data` of an object.
  unfoldable pub pointer : ℕ → Heap A → Option ℕ
  pointer i h = do p ← get_elem? h.handles i; p

  unfoldable pub value : ℕ → Heap A → Option A
  value i h = do p ← pointer i h; get_elem? h.cells p

  -- `m_data = p`
  abbrev pub point : ℕ → Option ℕ → Heap A → Heap A
  point i p h = record h { handles = set h.handles i p }

  unfoldable pub use_count : ℕ → Heap A → ℕ
  use_count i h = elim (pointer i h) [ none ↦ 0 | some p ↦ count_uses p h.handles ]

  unfoldable pub is_unique : ℕ → Heap A → Bool
  is_unique i h = use_count i h == 1

  -- The constructors from a value: `std::make_shared`.
  unfoldable pub make : A → Heap A → Heap A
  make v h = record { cells = h.cells ++ v ∷ []; handles = h.handles ++ some (length h.cells) ∷ [] }

  -- The copy and move constructors, the assignments from another object, and the destructor.
  unfoldable pub copy : ℕ → Heap A → Heap A
  copy i h = record h { handles = h.handles ++ pointer i h ∷ [] }

  unfoldable pub move : ℕ → Heap A → Heap A
  move i h = record h { handles = set h.handles i none ++ pointer i h ∷ [] }

  unfoldable pub assign_copy : ℕ → ℕ → Heap A → Heap A
  assign_copy i j h = point i (pointer j h) h

  unfoldable pub assign_move : ℕ → ℕ → Heap A → Heap A
  assign_move i j h = if i == j then h else point j none (point i (pointer j h) h)

  unfoldable pub destroy : ℕ → Heap A → Heap A
  destroy i h = point i none h

  -- `m_data = std::make_shared<T>(*m_data)`
  unfoldable pub detach : ℕ → Heap A → Option (Heap A)
  detach i h = do
    v ← value i h
    some (record { cells = h.cells ++ v ∷ []; handles = set h.handles i (some (length h.cells)) })

  -- `f(*m_data)`
  unfoldable pub write : (A → A) → ℕ → Heap A → Option (Heap A)
  write f i h = do
    p ← pointer i h
    v ← get_elem? h.cells p
    some (record h { cells = set h.cells p (f v) })

  unfoldable pub edit : (A → A) → ℕ → Heap A → Option (Heap A)
  edit f i h = do h' ← (if is_unique i h then some h else detach i h); write f i h'

  -- `cow = new_val`
  unfoldable pub assign_value : A → ℕ → Heap A → Option (Heap A)
  assign_value v i h = edit (λ old. v) i h
