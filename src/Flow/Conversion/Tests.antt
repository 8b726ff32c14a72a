-- ===== src/Flow/Conversion/Tests.antt =====
-- An implementation of the JSON interface, and the round trip at a dictionary that holds an array.
use Prim.Native.String.{String}
use text.Mathlib.Text.{◌==◌ as str_eq}
use text.Mathlib.TextPositions.{eq_refl}
use ez_cpp.Prelude.{
  ℕ, ◌≡◌, refl, ap, Bool, true, some, List, [], ◌∷◌, arith, if◌then◌else◌, Bool-cases, inl, inr,
}
use ez_cpp.Prelude.Int.{ℤ, negsuc}
use ez_cpp.Flow.Json.{Json}
use ez_cpp.Flow.Conversion.{
  Kind, bool_value, int64_value, double_value, string_value, array_value, object_value, put_entry,
  JsonReader, Entity, boolean, integer, string, array, dictionary, no_entity, entity, no_entry,
  entry, text_less, entity_to_json, entity_from_json,
}
use ez_cpp.Flow.Conversion.RoundTrip.{IsConvertible, size, entity_from_json-to_json}

mutual
  data Value : Type 0 where
    bool_json : Bool → Value
    int64_json : ℤ → Value
    double_json : ℕ → Value
    string_json : String → Value
    array_json : Items → Value
    object_json : Object → Value

  data Items : Type 0 where
    no_item : Items
    item : Value → Items → Items

  data Object : Type 0 where
    no_member : Object
    member : String → Value → Object → Object

abbrev put : Object → String → Value → Object
put no_member key v = member key v no_member
put (member k w o) key v = if str_eq key k then member k v o else member k w (put o key v)

abbrev members : Object → List (String × Value)
members no_member = []
members (member k v o) = (k, v) ∷ members o

abbrev to_items : List Value → Items
to_items [] = no_item
to_items (v ∷ vs) = item v (to_items vs)

abbrev of_items : Items → List Value
of_items no_item = []
of_items (item v vs) = v ∷ of_items vs

of_items-to_items : (vs : List Value) → of_items (to_items vs) ≡ vs
of_items-to_items [] = refl
of_items-to_items (v ∷ vs) = ap (◌∷◌ v) (of_items-to_items vs)

put_twice : (o : Object) (key : String) (v w : Value) → put (put o key v) key w ≡ put o key w
put_twice no_member key v w = rw (eq_refl key)
put_twice (member k u o) key v w = elim (Bool-cases (str_eq key k)) [
  | inl same ↦ rw (same, same)
  | inr different ↦ rw (different, different) (ap (member k u) (put_twice o key v w))
]

members-put :
    (o : Object) (key : String) (v : Value) → members (put o key v) ≡ put_entry key v (members o)
members-put no_member key v = refl
members-put (member k u o) key v = elim (Bool-cases (str_eq key k)) [
  | inl same ↦ rw same
  | inr different ↦ rw different (ap (◌∷◌ (k, u)) (members-put o key v))
]

abbrev json : Json
json = record {
  Value = Value;
  Object = Object;
  no_entries = no_member;
  put = put;
  of_string = string_json;
  of_object = object_json;
  of_array = λ vs. array_json (to_items vs);
  put_twice = put_twice;
}

abbrev kind_of : Value → Kind Value Object
kind_of (bool_json b) = bool_value b
kind_of (int64_json z) = int64_value z
kind_of (double_json d) = double_value d
kind_of (string_json s) = string_value s
kind_of (array_json vs) = array_value (of_items vs)
kind_of (object_json o) = object_value o

abbrev reader : JsonReader json
reader = record {
  of_bool = bool_json;
  of_int64 = int64_json;
  of_double = double_json;
  kind = kind_of;
  entries = members;
  kind_bool = λ b. refl;
  kind_int64 = λ z. refl;
  kind_double = λ d. refl;
  kind_string = λ s. refl;
  kind_array = λ vs. ap array_value (of_items-to_items vs);
  kind_object = λ o. refl;
  entries_none = refl;
  entries_put = members-put;
}

abbrev sample : Entity
sample = dictionary (
    entry "a" (integer (negsuc 4))
      (entry "b" (array (entity (boolean true) (entity (string "x") no_entity))) no_entry))

sample-IsConvertible : IsConvertible sample
unfolding IsConvertible text_less
sample-IsConvertible = ((((refl, tt), tt), (tt, tt)), (tt, ((tt, (tt, tt)), tt)))

entity_from_json-to_json_example :
    (v : Value) × (entity_to_json json reader sample ≡ some v)
    × (entity_from_json json reader 3 v ≡ some (some sample))
unfolding size
entity_from_json-to_json_example =
    entity_from_json-to_json json reader sample 3 sample-IsConvertible (omega arith)
