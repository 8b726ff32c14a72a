-- ===== src/Container/StableVector.antt =====
-- internal::AppendOnlyStableVector of src/libs/core/headers/ez/reporting/AppendOnlyStableVector.hpp.
-- A result `none` is a failed EZ_ASSERT, an out of range access or an overfull static_vector.
-- The three atomic counters are plain numbers: one operation is taken at a time.
pub mod Growth
pub mod Access
pub mod Visits
mod Tests
use ez_cpp.Prelude.{
  ℕ, zero, suc, ◌+◌, ◌/◌, ◌%◌, Bool, true, false, Option, none, some, List, [], ◌∷◌, ◌++◌, foldl,
  ltb, ◌==◌, if◌then◌else◌, length, get_elem?, ◌>>=◌,
}

pub record StableVector {ℓ} (A : Type ℓ) : Type ℓ where
  pub blocks : List (List A)
  pub size : ℕ
  pub capacity : ℕ
  pub block_count : ℕ

-- How far a loop over the elements has come: `running s n` may still visit `n` elements, and
-- `returned s` has left the function.
pub data Visit {ℓ} (S : Type ℓ) : Type ℓ where
  running : S → ℕ → Visit S
  returned : S → Visit S

abbrev pub outcome {ℓ} : {S : Type ℓ} → Visit S → S
outcome (running s n) = s
outcome (returned s) = s

abbrev pub continue_if {ℓ} : {S : Type ℓ} → Bool → S → ℕ → Visit S
continue_if true s n = running s n
continue_if false s n = returned s

module _ {ℓ} {A : Type ℓ} where
  abbrev pub empty : StableVector A
  empty = record { blocks = []; size = 0; capacity = 0; block_count = 0 }

  -- The elements in order: the list that the vector stands for.
  abbrev pub concat : List (List A) → List A
  concat [] = []
  concat (b ∷ bs) = b ++ concat bs

  abbrev pub to_list : StableVector A → List A
  to_list v = concat v.blocks

  unfoldable pub is_empty : StableVector A → Bool
  is_empty v = v.size == 0

  -- `back()` of a container, which must not be empty.
  abbrev pub back : List A → Option A
  back [] = none
  back (x ∷ []) = some x
  back (x ∷ y ∷ r) = back (y ∷ r)

module _ {ℓ} (block_size : ℕ) {A : Type ℓ} where
  pub maybe_grow : StableVector A → StableVector A
  maybe_grow v =
      if v.size == v.capacity
      then record v {
        blocks = v.blocks ++ ([] ∷ []);
        capacity = v.capacity + block_size;
        block_count = v.block_count + 1;
      }
      else v

  -- `static_vector::push_back`, within the fixed capacity of a block.
  pub push_back : A → List A → Option (List A)
  push_back t block = if ltb (length block) block_size then some (block ++ t ∷ []) else none

  -- `m_blocks.back().push_back(t)`
  pub push_to_last : A → List (List A) → Option (List (List A))
  push_to_last t [] = none
  push_to_last t (b ∷ []) = do b' ← push_back t b; some (b' ∷ [])
  push_to_last t (b ∷ c ∷ r) = do r' ← push_to_last t (c ∷ r); some (b ∷ r')

  pub append : StableVector A → A → Option (StableVector A)
  append v t = do
    let g = maybe_grow v
    bs ← push_to_last t g.blocks
    some (record g { blocks = bs; size = g.size + 1 })

  -- The assertions on `m_size`, then the two indices.
  pub at : StableVector A → ℕ → Option A
  at v i =
      if v.size == 0
      then none
      else if ltb i v.size
      then (do block ← get_elem? v.blocks (i / block_size); get_elem? block (i % block_size))
      else none

module _ {ℓ} {A : Type ℓ} where
  pub last : StableVector A → Option A
  last v = if ltb 0 v.size then (do block ← back v.blocks; back block) else none

module _ {ℓ κ} {A : Type ℓ} {S : Type κ} where
  -- One round of the inner loop of `visit`.
  pub visit_item : (S → A → S) → Visit S → A → Visit S
  visit_item f (returned s) x = returned s
  visit_item f (running s zero) x = returned s
  visit_item f (running s (suc n)) x = running (f s x) n

  -- The two nested loops of `visit`, from a snapshot of the element count.
  pub visit_blocks : (S → A → S) → Visit S → List (List A) → Visit S
  visit_blocks f = foldl (foldl (visit_item f))

  pub visit : (S → A → S) → StableVector A → S → S
  visit f v s = outcome (visit_blocks f (running s v.size) v.blocks)

  pub visit_while_item : (S → A → S × Bool) → Visit S → A → Visit S
  visit_while_item f (returned s) x = returned s
  visit_while_item f (running s zero) x = returned s
  visit_while_item f (running s (suc n)) x = continue_if (f s x).1 (f s x).0 n

  pub visit_while_true : (S → A → S × Bool) → StableVector A → S → S
  visit_while_true f v s = outcome (foldl (foldl (visit_while_item f)) (running s v.size) v.blocks)
