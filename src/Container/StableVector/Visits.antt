-- ===== src/Container/StableVector/Visits.antt =====
-- `visit` and `visit_while_true` of AppendOnlyStableVector.hpp against a fold of the list.
use mathlib.Core.List.{append_assoc, append-nil, foldl-append}
use ez_cpp.Prelude.{
  ℕ, zero, suc, ◌<◌, ◌≡◌, refl, ap, sym, ◌∙◌, Bool, true, false, Option, some, List, [], ◌∷◌, ◌++◌,
  arith, Bool-cases, inl, inr, ◌>>=◌, eq_of_some, subst, take, take_all, take-append_left, foldl,
}
use ez_cpp.Container.StableVector.{
  StableVector, running, returned, outcome, concat, to_list, append, visit, visit_item,
  visit_blocks, visit_while_item, visit_while_true,
}
use ez_cpp.Container.StableVector.Growth.{IsValid, append-adds}
use ez_cpp.Container.StableVector.Access.{length-concat}

foldl-concat {ℓ κ} :
    {A : Type ℓ} {S : Type κ} (g : S → A → S) (s : S) (bs : List (List A))
    → foldl (foldl g) s bs ≡ foldl g s (concat bs)
foldl-concat g s [] = refl
foldl-concat g s (b ∷ bs) = foldl-concat g (foldl g s b) bs ∙ sym (foldl-append g s b (concat bs))

module _ {ℓ κ} {A : Type ℓ} {S : Type κ} where
  -- The specification of `visit_while_true`: a fold that ends at the first `false`.
  abbrev pub fold_while : (S → A → S × Bool) → S → List A → S
  fold_while f s [] = s
  fold_while f s (x ∷ xs) = elim (f s x).1 [ true ↦ fold_while f (f s x).0 xs | false ↦ (f s x).0 ]

  visit-returned :
      (f : S → A → S) (s : S) (xs : List A) → foldl (visit_item f) (returned s) xs ≡ returned s
  unfolding visit_item
  visit-returned f s [] = refl
  visit-returned f s (x ∷ xs) = visit-returned f s xs

  visit_items :
      (f : S → A → S) (s : S) (n : ℕ) (xs : List A)
      → outcome (foldl (visit_item f) (running s n) xs) ≡ foldl f s (take n xs)
  unfolding visit_item
  visit_items f s zero [] = refl
  visit_items f s zero (x ∷ xs) = ap outcome (visit-returned f s xs)
  visit_items f s (suc n) [] = refl
  visit_items f s (suc n) (x ∷ xs) = visit_items f (f s x) n xs

  visit_while-returned :
      (f : S → A → S × Bool) (s : S) (xs : List A)
      → foldl (visit_while_item f) (returned s) xs ≡ returned s
  unfolding visit_while_item
  visit_while-returned f s [] = refl
  visit_while-returned f s (x ∷ xs) = visit_while-returned f s xs

  visit_while_items :
      (f : S → A → S × Bool) (s : S) (n : ℕ) (xs : List A)
      → outcome (foldl (visit_while_item f) (running s n) xs) ≡ fold_while f s (take n xs)
  unfolding visit_while_item
  visit_while_items f s zero [] = refl
  visit_while_items f s zero (x ∷ xs) = ap outcome (visit_while-returned f s xs)
  visit_while_items f s (suc n) [] = refl
  visit_while_items f s (suc n) (x ∷ xs) = elim (Bool-cases (f s x).1) [
    | inl more ↦ rw (more, fold_while) (visit_while_items f (f s x).0 n xs)
    | inr enough ↦ rw (enough, fold_while) (ap outcome (visit_while-returned f (f s x).0 xs))
  ]

module _ {ℓ} (block_size : ℕ) {A : Type ℓ} where
  -- Zero or more further appends.
  abbrev pub append_all : StableVector A → List A → Option (StableVector A)
  append_all v [] = some v
  append_all v (x ∷ xs) = do w ← append block_size v x; append_all w xs

module _ {ℓ} (block_size : ℕ) {A : Type ℓ} where
  append_all-adds :
      (v w : StableVector A) (ys : List A)
      → 0 < block_size
      → IsValid block_size v
      → append_all block_size v ys ≡ some w
      → IsValid block_size w × (to_list w ≡ to_list v ++ ys)
  append_all-adds v w [] pos h e =
      subst (λ x. IsValid block_size x × (to_list x ≡ to_list v ++ [])) (eq_of_some e)
        (h, sym (append-nil (to_list v)))
  append_all-adds v w (y ∷ ys) pos h e =
      let (u, added, valid, content, _) = append-adds block_size v y pos h in
      let (valid', content') = append_all-adds u w ys pos valid (rw added at e) in
      (valid', content' ∙ ap (λ l. l ++ ys) content ∙ append_assoc (to_list v) (y ∷ []) ys)

  visit_snapshot_lem {κ} :
      {S : Type κ} (f : S → A → S) (v w : StableVector A) (ys : List A) (s : S)
      → 0 < block_size
      → IsValid block_size v
      → append_all block_size v ys ≡ some w
      → outcome (visit_blocks f (running s v.size) w.blocks) ≡ foldl f s (to_list v)
  unfolding visit_blocks
  visit_snapshot_lem f v w ys s pos h e =
      let (_, content) = append_all-adds v w ys pos h e in
      let count = length-concat block_size v.size v.blocks h.filled in
      ap outcome (foldl-concat (visit_item f) (running s v.size) w.blocks)
      ∙ visit_items f s v.size (to_list w)
      ∙ rw content (ap (foldl f s) (take-append_left v.size (to_list v) ys (sym count)))

  -- A visit that counted the elements at `v`, and reads the blocks after any further appends have
  -- been made, calls its function on the elements of `v`, in order, and on no other.
  pub visit_snapshot {κ} :
      {S : Type κ} (f : S → A → S) (v w : StableVector A) (ys : List A) (s : S)
      → 0 < block_size
      → IsValid block_size v
      → append_all block_size v ys ≡ some w
      → (outcome (visit_blocks f (running s v.size) w.blocks) ≡ foldl f s (to_list v))
        × (visit f v s ≡ foldl f s (to_list v))
  unfolding visit
  visit_snapshot f v w ys s pos h e =
      (visit_snapshot_lem f v w ys s pos h e, visit_snapshot_lem f v v [] s pos h refl)

  -- `visit_while_true` on a valid vector calls its function on the elements in order, up to and
  -- with the first one for which it answers false.
  pub visit_while_true-eq-fold_while {κ} :
      {S : Type κ} (f : S → A → S × Bool) (v : StableVector A) (s : S)
      → IsValid block_size v
      → visit_while_true f v s ≡ fold_while f s (to_list v)
  unfolding visit_while_true
  visit_while_true-eq-fold_while f v s h =
      let count = length-concat block_size v.size v.blocks h.filled in
      ap outcome (foldl-concat (visit_while_item f) (running s v.size) v.blocks)
      ∙ visit_while_items f s v.size (to_list v)
      ∙ ap (fold_while f s) (take_all v.size (to_list v) (omega arith))
