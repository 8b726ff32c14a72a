-- ===== src/Flags/Tested.antt =====
-- What `test` of src/libs/core/headers/ez/Flags.hpp sees after the operations.
use ez_cpp.Prelude.{
  ℕ, suc, ◌≡◌, refl, ap, sym, ◌∙◌, Bool, true, false, not, ◌&&◌, ◌||◌, List, [], ◌∷◌, map, arith,
  length,
}
use ez_cpp.Flags.{bit_eq, bitwise, same_bits, flags_or, test, all, set_flag, clear_flag, make_flags}

both : (a b : Bool) → a ≡ true → b ≡ true → (a && b) ≡ true
both a b x y = rw (x, y)

set_bit : (v f : Bool) → bit_eq ((v || f) && f) f ≡ true
set_bit true true = refl
set_bit true false = refl
set_bit false true = refl
set_bit false false = refl

-- A bit that is not of the flag is not touched, set or cleared.
other_bit :
    (v f g : Bool)
    → (f && g) ≡ false
    → (((v || f) && g) ≡ (v && g)) × (((v && not f) && g) ≡ (v && g))
other_bit true true true h = cc
other_bit true true false h = (refl, refl)
other_bit true false g h = (refl, refl)
other_bit false true true h = cc
other_bit false true false h = (refl, refl)
other_bit false false g h = (refl, refl)

-- The flags have no bit in common.
abbrev pub Disjoint : List Bool → List Bool → Type 0
Disjoint [] gs = Unit {0}
Disjoint (f ∷ fs) [] = Unit {0}
Disjoint (f ∷ fs) (g ∷ gs) = ((f && g) ≡ false) × Disjoint fs gs

test-set : (v f : List Bool) → length v ≡ length f → test (bitwise ◌||◌ v f) f ≡ true
unfolding test
test-set [] f e = refl
test-set (a ∷ v) [] e = absurd (omega arith)
test-set (a ∷ v) (b ∷ f) e = both _ _ (set_bit a b) (test-set v f (omega arith))

masked_set :
    (v f g : List Bool)
    → length v ≡ length f
    → Disjoint f g
    → (bitwise ◌&&◌ (bitwise ◌||◌ v f) g ≡ bitwise ◌&&◌ v g)
      × (bitwise ◌&&◌ (bitwise ◌&&◌ v (map not f)) g ≡ bitwise ◌&&◌ v g)
masked_set [] f g e d = (refl, refl)
masked_set (a ∷ v) [] g e d = absurd (omega arith)
masked_set (a ∷ v) (b ∷ f) [] e d = (refl, refl)
masked_set (a ∷ v) (b ∷ f) (c ∷ g) e d =
    let (x, y) = other_bit a b c d.0 in
    let (xs, ys) = masked_set v f g (omega arith) d.1 in (cc, cc)

-- A flag that has been set tests as set; setting or clearing it does not change how a flag with no
-- bit in common tests; and setting a flag off is to clear it.
pub test-set_flag :
    (v f g : List Bool) (on : Bool)
    → length v ≡ length f
    → Disjoint f g
    → (test (set_flag v f true) f ≡ true)
      × (test (set_flag v f on) g ≡ test v g)
      × (set_flag v f false ≡ clear_flag v f)
unfolding set_flag test clear_flag
test-set_flag v f g true e d =
    (test-set v f e, ap (λ m. same_bits m g) (masked_set v f g e d).0, refl)
test-set_flag v f g false e d =
    (test-set v f e, ap (λ m. same_bits m g) (masked_set v f g e d).1, refl)

abbrev pub Width : ℕ → List (List Bool) → Type 0
Width n [] = Unit {0}
Width n (v ∷ vs) = (length v ≡ n) × Width n vs

length-or : (a b : List Bool) → length a ≡ length b → length (flags_or a b) ≡ length a
unfolding flags_or
length-or [] b e = refl
length-or (x ∷ a) [] e = absurd (omega arith)
length-or (x ∷ a) (y ∷ b) e = ap suc (length-or a b (omega arith))

split : (a b : Bool) → (a && b) ≡ true → (a ≡ true) × (b ≡ true)
split true b h = (refl, h)
split false b h = cc

keep_bit :
    (a b f : Bool)
    → (bit_eq (a && f) f ≡ true → bit_eq ((a || b) && f) f ≡ true)
      × (bit_eq (b && f) f ≡ true → bit_eq ((a || b) && f) f ≡ true)
keep_bit true b true = (λ h. refl, λ h. refl)
keep_bit true b false = (λ h. refl, λ h. refl)
keep_bit false b true = (λ h. absurd (let n : false ≡ true = h in cc), λ h. h)
keep_bit false true false = (λ h. refl, λ h. refl)
keep_bit false false false = (λ h. refl, λ h. refl)

-- A flag that one of two values has, their union has.
test-or :
    (a b f : List Bool)
    → length a ≡ length b
    → (test a f ≡ true → test (flags_or a b) f ≡ true)
      × (test b f ≡ true → test (flags_or a b) f ≡ true)
unfolding test flags_or
test-or [] [] f e = (λ h. h, λ h. h)
test-or [] (y ∷ b) f e = absurd (omega arith)
test-or (x ∷ a) [] f e = absurd (omega arith)
test-or (x ∷ a) (y ∷ b) [] e = (λ h. refl, λ h. refl)
test-or (x ∷ a) (y ∷ b) (z ∷ f) e =
    let (l, r) = keep_bit x y z in
    let (ls, rs) = test-or a b f (omega arith) in
    (
      λ h. let (p, q) = split _ _ h in both _ _ (l p) (ls q),
      λ h. let (p, q) = split _ _ h in both _ _ (r p) (rs q),
    )

all-or :
    (a b : List Bool) (vs : List (List Bool))
    → length a ≡ length b
    → all b vs ≡ true
    → all (flags_or a b) vs ≡ true
unfolding all
all-or a b [] e h = refl
all-or a b (v ∷ vs) e h =
    let (p, q) = split _ _ h in both _ _ ((test-or a b v e).1 p) (all-or a b vs e q)

test_self : (f : List Bool) → test f f ≡ true
unfolding test
test_self [] = refl
test_self (true ∷ f) = test_self f
test_self (false ∷ f) = test_self f

length-make_flags :
    (n : ℕ) (v : List Bool) (vs : List (List Bool))
    → Width n (v ∷ vs)
    → length (make_flags v vs) ≡ n
unfolding make_flags
length-make_flags n v [] h = h.0
length-make_flags n v (u ∷ vs) h =
    length-or v (make_flags u vs) (h.0 ∙ sym (length-make_flags n u vs h.1)) ∙ h.0

-- `make_flags` of any flags of one width has all of them.
pub all-make_flags :
    (n : ℕ) (v : List Bool) (vs : List (List Bool))
    → Width n (v ∷ vs)
    → all (make_flags v vs) (v ∷ vs) ≡ true
unfolding all make_flags
all-make_flags n v [] h = both _ _ (test_self v) refl
all-make_flags n v (u ∷ vs) h =
    let m = make_flags u vs in
    let e : length v ≡ length m = h.0 ∙ sym (length-make_flags n u vs h.1) in
    both _ _ ((test-or v m v e).0 (test_self v)) (all-or v m (u ∷ vs) e (all-make_flags n u vs h.1))
