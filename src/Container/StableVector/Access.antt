-- ===== src/Container/StableVector/Access.antt =====
-- `at` and `last` of AppendOnlyStableVector.hpp against the list of elements.
use native.Mathlib.Nat.{div-eq_of_lt, mod-eq_of_lt, div-eq-sub-div, mod-eq-sub-mod}
use ez_cpp.Prelude.{
  if◌then◌else◌, >>=-eq-some, eq_of_some, ℕ, suc, ◌+◌, ◌-◌, ◌/◌, ◌%◌, ◌≤◌, ◌<◌, ◌≡◌, refl, sym, ◌∙◌,
  true, false, Option, some, none, List, [], ◌∷◌, ◌++◌, arith, ltb, ◌==◌, length, length-append,
  Bool-cases, inl, inr, get_elem?, ◌>>=◌, get_elem?-append_left, get_elem?-append_right, subst,
  get_elem?_beyond,
}
use ez_cpp.Container.StableVector.{
  StableVector, concat, to_list, back, append, at, last, push_back, push_to_last, maybe_grow,
}
use ez_cpp.Container.StableVector.Growth.{Filled, IsValid, append-adds}

back-append {ℓ} : {A : Type ℓ} (b : List A) (t : A) → back (b ++ t ∷ []) ≡ some t
back-append [] t = refl
back-append (x ∷ []) t = refl
back-append (x ∷ y ∷ r) t = back-append (y ∷ r) t

back_cons {ℓ} :
    {A : Type ℓ} (b : List A) (r : List (List A)) (t : A)
    → (back r >>= back) ≡ some t
    → (back (b ∷ r) >>= back) ≡ some t
back_cons b [] t h = cc
back_cons b (c ∷ r) t h = h

module _ {ℓ} (block_size : ℕ) {A : Type ℓ} where
  abbrev pick : List (List A) → ℕ → Option A
  pick bs i = do block ← get_elem? bs (i / block_size); get_elem? block (i % block_size)

  pick_first :
      (b : List A) (r : List (List A)) (i : ℕ) → i < block_size → pick (b ∷ r) i ≡ get_elem? b i
  pick_first b r i h = rw (div-eq_of_lt h, mod-eq_of_lt h)

  pick_later :
      (b : List A) (r : List (List A)) (i : ℕ)
      → 0 < block_size
      → block_size ≤ i
      → pick (b ∷ r) i ≡ pick r (i - block_size)
  pick_later b r i pos h =
      let e : i / block_size ≡ suc ((i - block_size) / block_size) =
        omega (arith, div-eq-sub-div pos h) in
      rw (e, mod-eq-sub-mod h)

  pub length-concat : (n : ℕ) (bs : List (List A)) → Filled block_size n bs → length (concat bs) ≡ n
  length-concat n [] f = omega arith
  length-concat n (b ∷ []) f = omega (arith, length-append b [])
  length-concat n (b ∷ c ∷ r) f =
      omega (arith, length-append b (concat (c ∷ r)), length-concat (n - block_size) (c ∷ r) f.2)

  pick-concat :
      (n : ℕ) (bs : List (List A)) (i : ℕ)
      → 0 < block_size
      → Filled block_size n bs
      → i < n
      → pick bs i ≡ get_elem? (concat bs) i
  pick-concat n [] i pos f h = absurd (omega arith)
  pick-concat n (b ∷ []) i pos f h =
      pick_first b [] i (omega arith) ∙ sym (get_elem?-append_left b [] i (omega arith))
  pick-concat n (b ∷ c ∷ r) i pos f h = elim (Bool-cases (ltb i block_size)) [
    | inl near ↦
        pick_first b (c ∷ r) i (ground arith)
        ∙ sym (get_elem?-append_left b (concat (c ∷ r)) i (ground arith))
    | inr far ↦
        let le : block_size ≤ i = ground arith in
        pick_later b (c ∷ r) i pos le
        ∙ pick-concat (n - block_size) (c ∷ r) (i - block_size) pos f.2 (omega arith)
        ∙ sym (get_elem?-append_right b (concat (c ∷ r)) i (i - block_size) (omega arith))
  ]

  at_beyond : (v : StableVector A) (i : ℕ) → ltb i v.size ≡ false → at block_size v i ≡ none
  unfolding at
  at_beyond v i h = elim (Bool-cases (v.size == 0)) [ inl e ↦ rw e | inr e ↦ rw (e, h) ]

  -- `at` reads the element of that index from the list, and fails exactly where the list ends.
  pub at-eq-get_elem? :
      (v : StableVector A) (i : ℕ)
      → 0 < block_size
      → IsValid block_size v
      → at block_size v i ≡ get_elem? (to_list v) i
  unfolding at
  at-eq-get_elem? v i pos h = elim (Bool-cases (ltb i v.size)) [
    | inl inside ↦
        let held : (v.size == 0) ≡ false = ground arith in
        rw (held, inside) (pick-concat v.size v.blocks i pos h.filled (ground arith))
    | inr beyond ↦
        let past : length (to_list v) ≤ i =
          ground (arith, length-concat v.size v.blocks h.filled) in
        at_beyond v i beyond ∙ sym (get_elem?_beyond (to_list v) i past)
  ]

  -- An index that was valid before `append` still names the same element.
  pub at-append :
      (v w : StableVector A) (t : A) (i : ℕ)
      → 0 < block_size
      → IsValid block_size v
      → append block_size v t ≡ some w
      → i < v.size
      → at block_size w i ≡ at block_size v i
  at-append v w t i pos h done inside =
      let (u, e, valid, content, _) = append-adds block_size v t pos h in
      let same : u ≡ w = cc in
      subst (λ x. at block_size x i ≡ at block_size v i) same
        (rw (at-eq-get_elem? u i pos valid, at-eq-get_elem? v i pos h, content)
          (get_elem?-append_left (to_list v) (t ∷ []) i
            (omega (arith, length-concat v.size v.blocks h.filled))))

  back-push_back : (t : A) (b b' : List A) → push_back block_size t b ≡ some b' → back b' ≡ some t
  unfolding push_back
  back-push_back t b b' h = elim (Bool-cases (ltb (length b) block_size)) [
    | inl room ↦
        let e : b ++ t ∷ [] ≡ b' = eq_of_some (rw room at h) in
        subst (λ l. back l ≡ some t) e (back-append b t)
    | inr full ↦ let e : none ≡ some b' = rw full at h in cc
  ]

  last-push_to_last :
      (t : A) (bs cs : List (List A))
      → push_to_last block_size t bs ≡ some cs
      → (back cs >>= back) ≡ some t
  unfolding push_to_last
  last-push_to_last t [] cs h = cc
  last-push_to_last t (b ∷ []) cs h =
      let (b', pushed, e) = >>=-eq-some (push_back block_size t b) _ h in
      subst (λ l. (back l >>= back) ≡ some t) (eq_of_some e) (back-push_back t b b' pushed)
  last-push_to_last t (b ∷ c ∷ r) cs h =
      let (r', pushed, e) = >>=-eq-some (push_to_last block_size t (c ∷ r)) _ h in
      subst (λ l. (back l >>= back) ≡ some t) (eq_of_some e)
        (back_cons b r' t (last-push_to_last t (c ∷ r) r' pushed))

  -- After `append`, `last` is the value that was appended.
  pub last-append :
      (v w : StableVector A) (t : A) → append block_size v t ≡ some w → last w ≡ some t
  unfolding append last
  last-append v w t h =
      let g = maybe_grow block_size v in
      let (bs, pushed, e) = >>=-eq-some (push_to_last block_size t g.blocks) _ h in
      subst (λ x. (if ltb 0 x.size then (do block ← back x.blocks; back block) else none) ≡ some t)
        (eq_of_some e)
        (let counted : ltb 0 (g.size + 1) ≡ true = ground arith in
          rw counted (last-push_to_last t g.blocks bs pushed))
