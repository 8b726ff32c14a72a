-- ===== src/Flow/Values/Tests.antt =====
-- The operators and the constructors on a heap with two numbers.
use ez_cpp.Prelude.{
  ◌+◌, ◌-◌, ◌*◌, ◌==◌, ltb, leb, ◌≡◌, refl, ◌++◌, [], ◌∷◌, none, some, false, set, arith,
}
use ez_cpp.Prelude.Int.{pos, negsuc, pos_part}
use ez_cpp.Flow.Ast.{Located, MultiplicativeOperator, AdditiveOperator}
use ez_cpp.Flow.Types.{EntityKind, static_type}
use ez_cpp.Flow.Entity.{integer, boolean, void, integer_payload, boolean_payload}
use ez_cpp.Flow.Machine.{Machine, done, ◌>>=◌}
use ez_cpp.Flow.Values.{defaults, construct, assign, ensure_value, default_integer}
use ez_cpp.Flow.Values.Host.{Platform, ok}
use ez_cpp.Flow.Values.Operators.{multiplicative_op, additive_op}
use ez_cpp.Flow.Values.Numbers.{grown, operators-integers}
use ez_cpp.Flow.Values.Defaults.{integer_in, construct-shares_default}

abbrev platform : Platform
platform = record {
  real_of_int = pos_part;
  int_of_real = pos;
  real_add = λ a b. a + b;
  real_sub = λ a b. a - b;
  real_mult = λ a b. a * b;
  real_less = ltb;
  real_less_eq = leb;
  real_eq = λ a b. a == b;
  real_text = λ d. "real";
  moved_from = λ s. "";
  start_time = 0;
  address_text = λ e. "entity";
  replace_all = λ text from to. text;
  boost_format = λ base texts. some base;
  code = λ l. "code";
  file_path = "file";
  answer = λ k m es. none;
  interrupts = λ es. none;
}

abbrev machine : Machine
machine = record {
  evaluation_scope = record { scopes = []; cells = [] };
  heap = defaults ++ integer_payload (pos 6) ∷ integer_payload (negsuc 2) ∷ [];
  events = [];
}

-- 6 and -3: the sum 3, the difference 9, no equality, the product -18.
operators-integers_example :
    (additive_op platform AdditiveOperator.plus (integer 6) (integer 7) machine
      ≡ done (ok (integer 8)) (grown (integer_payload (pos 3)) machine))
    × (additive_op platform AdditiveOperator.minus (integer 6) (integer 7) machine
        ≡ done (ok (integer 8)) (grown (integer_payload (pos 9)) machine))
    × (multiplicative_op platform MultiplicativeOperator.mult (integer 6) (integer 7) machine
        ≡ done (ok (boolean 8)) (grown (boolean_payload false) machine))
    × (multiplicative_op platform MultiplicativeOperator.div (integer 6) (integer 7) machine
        ≡ done (ok (integer 8)) (grown (integer_payload (negsuc 17)) machine))
operators-integers_example =
    operators-integers platform 6 7 (pos 6) (negsuc 2) machine refl refl refl refl refl

abbrev here : Located
here = record { start_position = 0; end_position = 1 }

construct-shares_default_example :
    (do
      a ← ensure_value (construct platform (static_type EntityKind.integer) void) here
      result ← assign platform a (integer 6)
      b ← ensure_value (construct platform (static_type EntityKind.integer) void) here
      integer_in b)
      machine
    ≡ done
        (pos 6)
        (record machine { heap = set machine.heap default_integer (integer_payload (pos 6)) })
construct-shares_default_example =
    construct-shares_default platform here 6 (pos 6) machine (omega arith) refl
