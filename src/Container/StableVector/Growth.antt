-- ===== src/Container/StableVector/Growth.antt =====
-- The shape that `append` of AppendOnlyStableVector.hpp keeps, and what it adds.
use mathlib.Core.List.{append-nil, append_assoc}
use ez_cpp.Prelude.{
  ◌∙◌, inl, inr, subst, ℕ, suc, ◌+◌, ◌-◌, ◌*◌, ◌≤◌, ◌<◌, ◌≡◌, refl, ap, sym, ◌∙◌, some, List, [],
  ◌∷◌, ◌++◌, arith, ◌==◌, length, length-append, Bool-cases,
}
use ez_cpp.Container.StableVector.{
  StableVector, empty, concat, to_list, maybe_grow, push_back, push_to_last, append,
}

module _ {ℓ} (block_size : ℕ) {A : Type ℓ} where
  -- Every block but the last is full, and the blocks hold `n` elements.
  abbrev pub Filled : ℕ → List (List A) → Type 0
  Filled n [] = n ≡ 0
  Filled n (b ∷ []) = (length b ≡ n) × (n ≤ block_size)
  Filled n (b ∷ c ∷ r) =
      (length b ≡ block_size) × (block_size ≤ n) × Filled (n - block_size) (c ∷ r)

  -- The counters agree with the blocks.
  pub record IsValid (v : StableVector A) : Type 0 where
    pub filled : Filled v.size v.blocks
    pub capacity_counts : v.capacity ≡ length v.blocks * block_size
    pub blocks_counted : v.block_count ≡ length v.blocks

  pub empty-IsValid : IsValid empty
  empty-IsValid = omega arith

  push_back_room :
      (t : A) (b : List A) → length b < block_size → push_back block_size t b ≡ some (b ++ t ∷ [])
  unfolding push_back
  push_back_room t b h = ground arith

  -- Where the last block has room, the push goes there.
  push_to_last-Filled :
      (t : A) (n : ℕ) (b : List A) (r : List (List A))
      → Filled n (b ∷ r)
      → n < suc (length r) * block_size
      → (b' : List A) × (r' : List (List A)) × (push_to_last block_size t (b ∷ r) ≡ some (b' ∷ r'))
        × Filled (n + 1) (b' ∷ r')
        × (concat (b' ∷ r') ≡ concat (b ∷ r) ++ t ∷ [])
        × (length r' ≡ length r)
  unfolding push_to_last
  push_to_last-Filled t n b [] f room = (
    b ++ t ∷ [],
    [],
    rw (push_back_room t b (omega arith)),
    (omega (arith, length-append b (t ∷ [])), omega arith),
    simp append-nil,
    refl,
  )
  push_to_last-Filled t n b (c ∷ r) f room =
      let (c', r', pushed, fill, content, count) =
        push_to_last-Filled t (n - block_size) c r f.2 (grind arith) in
      (
        b,
        c' ∷ r',
        rw pushed,
        (f.0, omega arith, subst (λ k. Filled k (c' ∷ r')) (omega arith) fill),
        rw content (sym (append_assoc b (c ++ concat r) (t ∷ []))),
        ap suc count,
      )

  -- A full vector gets a block of its own for the next element.
  Filled-grow :
      (n : ℕ) (bs : List (List A))
      → 0 < block_size
      → Filled n bs
      → n ≡ length bs * block_size
      → Filled n (bs ++ ([] ∷ []))
  Filled-grow n [] pos f e = (omega arith, omega arith)
  Filled-grow n (b ∷ []) pos f e = (omega arith, omega arith, (omega arith, omega arith))
  Filled-grow n (b ∷ c ∷ r) pos f e =
      (f.0, f.1, Filled-grow (n - block_size) (c ∷ r) pos f.2 (grind arith))

  length-grow : (bs : List (List A)) → length (bs ++ ([] ∷ [])) ≡ suc (length bs)
  length-grow [] = refl
  length-grow (b ∷ bs) = ap suc (length-grow bs)

  concat-grow : (bs : List (List A)) → concat (bs ++ ([] ∷ [])) ≡ concat bs
  concat-grow [] = refl
  concat-grow (b ∷ bs) = ap (◌++◌ b) (concat-grow bs)

  Filled-le : (n : ℕ) (bs : List (List A)) → Filled n bs → n ≤ length bs * block_size
  Filled-le n [] f = omega arith
  Filled-le n (b ∷ []) f = omega arith
  Filled-le n (b ∷ c ∷ r) f = let ih = Filled-le (n - block_size) (c ∷ r) f.2 in grind arith

  -- A grown vector keeps its shape and its elements, and has a free place.
  maybe_grow-room :
      (v : StableVector A)
      → 0 < block_size
      → IsValid v
      → let g = maybe_grow block_size v in
        IsValid g × (to_list g ≡ to_list v) × (g.size ≡ v.size) × (g.size < g.capacity)
  unfolding maybe_grow
  maybe_grow-room v pos h = elim (Bool-cases (v.size == v.capacity)) [
    | inl full ↦ rw full (
      record {
        filled = Filled-grow v.size v.blocks pos h.filled (ground (arith, h.capacity_counts));
        capacity_counts = rw (length-grow v.blocks) (omega (arith, h.capacity_counts));
        blocks_counted = grind (arith, length-grow v.blocks, h.blocks_counted);
      },
      concat-grow v.blocks,
      refl,
      ground arith,
    )
    | inr free ↦
        rw free
          (h, refl, refl, ground (arith, Filled-le v.size v.blocks h.filled, h.capacity_counts))
  ]

  -- With a free place, the element goes to the end and the shape is kept.
  push_to_last-IsValid :
      (g : StableVector A) (t : A) (bs : List (List A))
      → g.blocks ≡ bs
      → IsValid g
      → g.size < g.capacity
      → (cs : List (List A)) × (push_to_last block_size t g.blocks ≡ some cs)
        × IsValid (record g { blocks = cs; size = g.size + 1 })
        × (concat cs ≡ to_list g ++ t ∷ [])
  push_to_last-IsValid g t [] e h free =
      let none_held : g.capacity ≡ 0 * block_size =
        subst (λ bs. g.capacity ≡ length bs * block_size) e h.capacity_counts in
      absurd (omega arith)
  push_to_last-IsValid g t (b ∷ r) e h free =
      let c : g.capacity ≡ suc (length r) * block_size =
        subst (λ bs. g.capacity ≡ length bs * block_size) e h.capacity_counts in
      let f : Filled g.size (b ∷ r) = subst (Filled g.size) e h.filled in
      let (b', r', pushed, fill, content, count) =
        push_to_last-Filled t g.size b r f (omega arith) in
      (
        b' ∷ r',
        rw e pushed,
        record {
          filled = fill;
          capacity_counts = rw count c;
          blocks_counted = rw count (h.blocks_counted ∙ ap length e);
        },
        rw e content,
      )

  -- On a valid vector `append` succeeds, keeps the vector valid, and adds the value at the end.
  pub append-adds :
      (v : StableVector A) (t : A)
      → 0 < block_size
      → IsValid v
      → (w : StableVector A) × (append block_size v t ≡ some w)
        × IsValid w
        × (to_list w ≡ to_list v ++ t ∷ [])
        × (w.size ≡ v.size + 1)
  unfolding append
  append-adds v t pos h =
      let g = maybe_grow block_size v in
      let (valid, same, size, free) = maybe_grow-room v pos h in
      let (cs, pushed, valid', content) = push_to_last-IsValid g t g.blocks refl valid free in
      (
        record g { blocks = cs; size = g.size + 1 },
        rw pushed,
        valid',
        content ∙ ap (λ l. l ++ t ∷ []) same,
        omega arith,
      )
