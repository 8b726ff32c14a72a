-- ===== src/Flow/Values/Defaults.antt =====
-- The default that the constructor of Integer hands out.
use ez_cpp.Prelude.{ℕ, ◌<◌, ◌≡◌, ◌∙◌, refl, some, get_elem?, get_elem?-set_self, set, length}
use ez_cpp.Prelude.Int.{ℤ}
use ez_cpp.Flow.Ast.{Located}
use ez_cpp.Flow.Types.{EntityKind, static_type}
use ez_cpp.Flow.Entity.{Entity, integer, void, integer_payload}
use ez_cpp.Flow.Machine.{Machine, Eval, done, stop, missing, ◌>>=◌, pure, set_payload, from_option}
use ez_cpp.Flow.Values.{
  construct, construct_kind, make_constructor, assign, ensure_value, value_at, default_integer,
  kind_in,
}
use ez_cpp.Flow.Machine.Runs.{>>=-done}
use ez_cpp.Flow.Values.Numbers.{integer_value-done}
use ez_cpp.Flow.Values.Host.{Platform, ok}
use ez_cpp.Flow.Values.Payloads.{integer_value}

-- The number in an entity that holds one.
abbrev pub integer_in : Entity → Eval ℤ
integer_in (integer p) = integer_value p
integer_in e = stop missing

constructed :
    (P : Platform) (l : Located) (m : Machine)
    → ensure_value (construct P (static_type EntityKind.integer) void) l m
      ≡ done (integer default_integer) m
unfolding construct construct_kind make_constructor ensure_value value_at kind_in static_type ◌>>=◌
    pure from_option
constructed P l m = refl

assigned :
    (P : Platform) (q : ℕ) (z : ℤ) (m : Machine)
    → get_elem? m.heap q ≡ some (integer_payload z)
    → assign P (integer default_integer) (integer q) m
      ≡ done
          (ok (integer default_integer), integer default_integer)
          (record m { heap = set m.heap default_integer (integer_payload z) })
unfolding assign set_payload ◌>>=◌ pure
assigned P q z m held = >>=-done (integer_value q) _ m m z (integer_value-done q z m held)

-- An integer that is constructed without a value, and assigned the value of another: an integer that
-- is constructed without a value after that holds the assigned value too.
pub construct-shares_default :
    (P : Platform) (l : Located) (q : ℕ) (z : ℤ) (m : Machine)
    → default_integer < length m.heap
    → get_elem? m.heap q ≡ some (integer_payload z)
    → (do
      a ← ensure_value (construct P (static_type EntityKind.integer) void) l
      result ← assign P a (integer q)
      b ← ensure_value (construct P (static_type EntityKind.integer) void) l
      integer_in b)
        m
      ≡ done z (record m { heap = set m.heap default_integer (integer_payload z) })
construct-shares_default P l q z m in_heap held =
    let n : Machine = record m { heap = set m.heap default_integer (integer_payload z) } in
    let fresh : Eval Entity = ensure_value (construct P (static_type EntityKind.integer) void) l in
    >>=-done fresh (λ a. assign P a (integer q) >>= λ result. fresh >>= integer_in) m m
      (integer default_integer) (constructed P l m)
    ∙ >>=-done (assign P (integer default_integer) (integer q)) (λ result. fresh >>= integer_in) m n
        _ (assigned P q z m held)
    ∙ >>=-done fresh integer_in n n (integer default_integer) (constructed P l n)
    ∙ integer_value-done default_integer z n
        (get_elem?-set_self m.heap default_integer (integer_payload z) in_heap)
