-- ===== src/Ownership/Counts.antt =====
-- What the use count of src/libs/core/headers/ez/Cow.hpp tells of the other objects.
use ez_cpp.Prelude.{
  ℕ, zero, suc, ◌<◌, ◌≡◌, refl, ap, inl, inr, Option, none, some, List, [], ◌∷◌, arith, ◌==◌,
  get_elem?, eq_of_some, Bool-cases,
}
use ez_cpp.Ownership.{count_uses}

-- A handle to a cell is counted.
pub count_uses_positive :
    (p i : ℕ) (hs : List (Option ℕ)) → get_elem? hs i ≡ some (some p) → 0 < count_uses p hs
unfolding count_uses
count_uses_positive p i [] e = cc
count_uses_positive p zero (none ∷ hs) e = absurd (let n : none ≡ some p = eq_of_some e in cc)
count_uses_positive p (suc i) (none ∷ hs) e = count_uses_positive p i hs e
count_uses_positive p zero (some q ∷ hs) e =
    let n : q ≡ p = eq_of_some (eq_of_some e) in ground arith
count_uses_positive p (suc i) (some q ∷ hs) e =
    let ih = count_uses_positive p i hs e in ground arith

-- A cell with one handle has no other.
pub count_uses_unique :
    (p i j : ℕ) (hs : List (Option ℕ))
    → count_uses p hs ≡ 1
    → get_elem? hs i ≡ some (some p)
    → get_elem? hs j ≡ some (some p)
    → i ≡ j
unfolding count_uses
count_uses_unique p i j [] one a b = cc
count_uses_unique p zero zero (h ∷ hs) one a b = refl
count_uses_unique p zero (suc j) (none ∷ hs) one a b =
    absurd (let n : none ≡ some p = eq_of_some a in cc)
count_uses_unique p (suc i) zero (none ∷ hs) one a b =
    absurd (let n : none ≡ some p = eq_of_some b in cc)
count_uses_unique p (suc i) (suc j) (none ∷ hs) one a b =
    ap suc (count_uses_unique p i j hs one a b)
count_uses_unique p zero (suc j) (some q ∷ hs) one a b =
    let n : q ≡ p = eq_of_some (eq_of_some a) in
    let more = count_uses_positive p j hs b in absurd (ground arith)
count_uses_unique p (suc i) zero (some q ∷ hs) one a b =
    let n : q ≡ p = eq_of_some (eq_of_some b) in
    let more = count_uses_positive p i hs a in absurd (ground arith)
count_uses_unique p (suc i) (suc j) (some q ∷ hs) one a b = elim (Bool-cases (q == p)) [
  | inl same ↦ let more = count_uses_positive p i hs a in absurd (ground arith)
  | inr other ↦
      let rest : count_uses p hs ≡ 1 = ground arith in ap suc (count_uses_unique p i j hs rest a b)
]
