-- ===== src/Flow/Values/Numbers.antt =====
-- What the operators of Integer compute.
use ez_cpp.Prelude.{ℕ, ◌≡◌, refl, ◌++◌, [], ◌∷◌, some, get_elem?, length, true, String, ◌∙◌}
use ez_cpp.Prelude.Int.{ℤ, ◌+ℤ◌, ◌-ℤ◌, ◌*ℤ◌, eq_ℤ, fits_ℤ}
use ez_cpp.Flow.Ast.{MultiplicativeOperator, AdditiveOperator}
use ez_cpp.Flow.Entity.{Entity, Payload, integer_payload, boolean_payload, integer, boolean}
use ez_cpp.Flow.Machine.{Machine, Eval, done, ◌>>=◌, pure, payload, new_payload, cond}
use ez_cpp.Flow.Machine.Runs.{>>=-done, payload-done}
use ez_cpp.Flow.Values.Host.{Platform, ok}
use ez_cpp.Flow.Values.Payloads.{integer_value, as_integer, new_integer, new_real, new_boolean}
use ez_cpp.Flow.Values.Operators.{integer_operator, checked_integer, multiplicative_op, additive_op}

-- The machine with a new payload.
abbrev pub grown : Payload → Machine → Machine
grown v m = record m { heap = m.heap ++ v ∷ [] }

pub integer_value-done :
    (p : ℕ) (a : ℤ) (m : Machine)
    → get_elem? m.heap p ≡ some (integer_payload a)
    → integer_value p m ≡ done a m
unfolding integer_value as_integer pure
integer_value-done p a m e = >>=-done (payload p) as_integer m m _ (payload-done p _ m e)

checked_integer-done :
    (z : ℤ) (m : Machine)
    → fits_ℤ 64 z ≡ true
    → checked_integer z m ≡ done (integer (length m.heap)) (grown (integer_payload z) m)
unfolding checked_integer cond new_integer new_payload ◌>>=◌ pure
checked_integer-done z m e = rw (e, cond) refl

integers-done :
    (P : Platform) (symbol : String) (f : ℤ → ℤ → Eval Entity) (g : ℕ → ℕ → Eval Entity) (p q : ℕ)
    (a b : ℤ) (m : Machine)
    → get_elem? m.heap p ≡ some (integer_payload a)
    → get_elem? m.heap q ≡ some (integer_payload b)
    → integer_operator P symbol f g (integer p) (integer q) m ≡ (f a b >>= λ e. pure (ok e)) m
unfolding integer_operator
integers-done P symbol f g p q a b m x y =
    >>=-done (integer_value p) _ m m a (integer_value-done p a m x)
    ∙ >>=-done (integer_value q) _ m m b (integer_value-done q b m y)

checked_integers-done :
    (P : Platform) (symbol : String) (h : ℤ → ℤ → ℤ) (g : ℕ → ℕ → Eval Entity) (p q : ℕ) (a b : ℤ)
    (m : Machine)
    → get_elem? m.heap p ≡ some (integer_payload a)
    → get_elem? m.heap q ≡ some (integer_payload b)
    → fits_ℤ 64 (h a b) ≡ true
    → integer_operator P symbol (λ a b. checked_integer (h a b)) g (integer p) (integer q) m
      ≡ done (ok (integer (length m.heap))) (grown (integer_payload (h a b)) m)
unfolding pure
checked_integers-done P symbol h g p q a b m x y fits =
    integers-done P symbol (λ a b. checked_integer (h a b)) g p q a b m x y
    ∙ >>=-done (checked_integer (h a b)) (λ e. pure (ok e)) m _ _ (checked_integer-done _ m fits)

-- On two integers whose sum, difference and product are of 64 bits, `+` and `-` give new integers with
-- the sum and the difference; `*` gives a new Boolean, whether they are equal; and `/` a new integer with
-- the product.
pub operators-integers :
    (P : Platform) (p q : ℕ) (a b : ℤ) (m : Machine)
    → get_elem? m.heap p ≡ some (integer_payload a)
    → get_elem? m.heap q ≡ some (integer_payload b)
    → fits_ℤ 64 (a +ℤ b) ≡ true
    → fits_ℤ 64 (a -ℤ b) ≡ true
    → fits_ℤ 64 (a *ℤ b) ≡ true
    → (additive_op P AdditiveOperator.plus (integer p) (integer q) m
        ≡ done (ok (integer (length m.heap))) (grown (integer_payload (a +ℤ b)) m))
      × (additive_op P AdditiveOperator.minus (integer p) (integer q) m
          ≡ done (ok (integer (length m.heap))) (grown (integer_payload (a -ℤ b)) m))
      × (multiplicative_op P MultiplicativeOperator.mult (integer p) (integer q) m
          ≡ done (ok (boolean (length m.heap))) (grown (boolean_payload (eq_ℤ a b)) m))
      × (multiplicative_op P MultiplicativeOperator.div (integer p) (integer q) m
          ≡ done (ok (integer (length m.heap))) (grown (integer_payload (a *ℤ b)) m))
unfolding additive_op multiplicative_op new_boolean new_payload ◌>>=◌ pure
operators-integers P p q a b m x y sum difference product = (
  checked_integers-done P "+" (λ a b. a +ℤ b) (λ a b. new_real (P.real_add a b)) p q a b m x y sum,
  checked_integers-done P "-" (λ a b. a -ℤ b) (λ a b. new_real (P.real_sub a b)) p q a b m x y
      difference,
  integers-done P "*" (λ a b. new_boolean (eq_ℤ a b)) (λ a b. new_boolean (P.real_eq a b)) p q a b m
      x y,
  checked_integers-done P "/" (λ a b. a *ℤ b) (λ a b. new_real (P.real_mult a b)) p q a b m x y
      product,
)
