-- ===== src/Flow/Json.antt =====
-- boost::json, which the flow library calls: its values and objects, and what its documentation
-- says of them. An object keeps its entries in the order in which their keys were first assigned,
-- and `object[key] = value` replaces the value of a key that is there.
use ez_cpp.Prelude.{String, ◌≡◌, List}

pub record Json : Type 1 where
  pub Value : Type 0
  pub Object : Type 0
  pub no_entries : Object
  pub put : Object → String → Value → Object
  pub of_string : String → Value
  pub of_object : Object → Value
  pub of_array : List Value → Value
  -- `object[key] = v; object[key] = w;`
  pub put_twice : (o : Object) (key : String) (v w : Value) → put (put o key v) key w ≡ put o key w
