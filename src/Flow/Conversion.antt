-- ===== src/Flow/Conversion.antt =====
-- Arrays and dictionaries of the flow language as JSON and back,
-- src/libs/flow/src/engine/conversion/json.hpp.
-- An array or dictionary is its contents: the source copies what it converts. A std::map is the list
-- of its entries in the order of the keys. A double is its bit pattern. Reading nested values takes
-- rounds; `none` is that they ran out.
pub mod RoundTrip
mod Tests
use Prim.Native.Char.{code}
use Prim.Native.String.{String}
use text.Mathlib.Text.{◌==◌ as str_eq}
use ez_cpp.Prelude.{
  ℕ, zero, suc, ◌-◌, ◌^◌, ◌≡◌, Bool, true, false, Option, none, some, List, [], ◌∷◌, if◌then◌else◌,
  ◌==◌, ltb, ◌>>=◌,
}
use ez_cpp.Prelude.Int.{ℤ, pos, negsuc}
use ez_cpp.Flow.Types.{EntityKind}
use ez_cpp.Flow.Json.{Json}

-- What a value of boost::json is.
pub data Kind {ℓ} (V : Type ℓ) (O : Type ℓ) : Type ℓ where
  null_value : Kind V O
  bool_value : Bool → Kind V O
  int64_value : ℤ → Kind V O
  uint64_value : ℕ → Kind V O
  double_value : ℕ → Kind V O
  string_value : String → Kind V O
  array_value : List V → Kind V O
  object_value : O → Kind V O

-- The entries of an object after `object[key] = v`.
abbrev pub put_entry {ℓ} : {V : Type ℓ} → String → V → List (String × V) → List (String × V)
put_entry key v [] = (key, v) ∷ []
put_entry key v ((k, w) ∷ es) = if str_eq key k then (k, v) ∷ es else (k, w) ∷ put_entry key v es

-- The rest of boost::json that the conversions call, with its documented behaviour: a value is of the
-- kind that it was made of, and an object lists its entries in the order of their first assignment.
pub record JsonReader (J : Json) : Type 0 where
  pub of_bool : Bool → J.Value
  pub of_int64 : ℤ → J.Value
  pub of_double : ℕ → J.Value
  pub kind : J.Value → Kind J.Value J.Object
  pub entries : J.Object → List (String × J.Value)
  pub kind_bool : (b : Bool) → kind (of_bool b) ≡ bool_value b
  pub kind_int64 : (z : ℤ) → kind (of_int64 z) ≡ int64_value z
  pub kind_double : (d : ℕ) → kind (of_double d) ≡ double_value d
  pub kind_string : (s : String) → kind (J.of_string s) ≡ string_value s
  pub kind_array : (vs : List J.Value) → kind (J.of_array vs) ≡ array_value vs
  pub kind_object : (o : J.Object) → kind (J.of_object o) ≡ object_value o
  pub entries_none : entries J.no_entries ≡ []
  pub entries_put :
      (o : J.Object) (key : String) (v : J.Value)
      → entries (J.put o key v) ≡ put_entry key v (entries o)

-- Entities, as far as the conversions tell them apart: `other` is any further alternative.
mutual
  pub data Entity : Type 0 where
    boolean : Bool → Entity
    integer : ℤ → Entity
    real : ℕ → Entity
    string : String → Entity
    array : Entities → Entity
    dictionary : DictionaryMap → Entity
    other : EntityKind → Entity

  pub data Entities : Type 0 where
    no_entity : Entities
    entity : Entity → Entities → Entities

  pub data DictionaryMap : Type 0 where
    no_entry : DictionaryMap
    entry : String → Entity → DictionaryMap → DictionaryMap

-- `std::less<>` of two strings.
unfoldable pub text_less : String → String → Bool
text_less String.[] String.[] = false
text_less String.[] (String.◌∷◌ d t) = true
text_less (String.◌∷◌ c s) String.[] = false
text_less (String.◌∷◌ c s) (String.◌∷◌ d t) =
    let rest = text_less s t in
    if ltb (code c) (code d) then true else if ltb (code d) (code c) then false else rest

-- `std::map::insert`, which keeps an entry that is there.
unfoldable pub insert : String → Entity → DictionaryMap → DictionaryMap
insert key e no_entry = entry key e no_entry
insert key e (entry k f m) =
    let rest = insert key e m in
    if text_less key k
    then entry key e (entry k f m)
    else if text_less k key
    then entry k f rest
    else entry k f m

-- The conversion of a uint64 to an int64.
unfoldable pub to_int64 : ℕ → ℤ
to_int64 n = if ltb n (2 ^ 63) then pos n else negsuc (2 ^ 64 - 1 - n)

module _ (J : Json) (R : JsonReader J) where
  unfoldable mutual
    pub entity_to_json : Entity → Option J.Value
    entity_to_json (boolean b) = some (R.of_bool b)
    entity_to_json (integer z) = some (R.of_int64 z)
    entity_to_json (real d) = some (R.of_double d)
    entity_to_json (string s) = some (J.of_string s)
    entity_to_json (array es) = some (J.of_array (array_to_json es))
    entity_to_json (dictionary m) = some (J.of_object (map_to_json J.no_entries m))
    entity_to_json (other k) = none

    pub array_to_json : Entities → List J.Value
    array_to_json no_entity = []
    array_to_json (entity e es) =
        let rest = array_to_json es in elim (entity_to_json e) [ none ↦ rest | some v ↦ v ∷ rest ]

    pub map_to_json : J.Object → DictionaryMap → J.Object
    map_to_json out no_entry = out
    map_to_json out (entry key e m) =
        map_to_json (elim (entity_to_json e) [ none ↦ out | some v ↦ J.put out key v ]) m

  -- The loop of `from_json` over an array; `read` reads one value, and skips a null.
  unfoldable pub array_from_json :
      (J.Value → Option (Option Entity)) → List J.Value → Option Entities
  array_from_json read [] = some no_entity
  array_from_json read (v ∷ vs) = do
    e ← read v
    es ← array_from_json read vs
    some (elim e [ none ↦ es | some x ↦ entity x es ])

  -- The loop of `from_json` over the entries of an object.
  unfoldable pub map_from_json :
      (J.Value → Option (Option Entity))
      → DictionaryMap
      → List (String × J.Value)
      → Option DictionaryMap
  map_from_json read result [] = some result
  map_from_json read result ((key, v) ∷ rest) = do
    e ← read v
    map_from_json read (elim e [ none ↦ result | some x ↦ insert key x result ]) rest

  unfoldable pub kind_from_json :
      (J.Value → Option (Option Entity)) → Kind J.Value J.Object → Option (Option Entity)
  kind_from_json read null_value = some none
  kind_from_json read (bool_value b) = some (some (boolean b))
  kind_from_json read (int64_value z) = some (some (integer z))
  kind_from_json read (uint64_value n) = some (some (integer (to_int64 n)))
  kind_from_json read (double_value d) = some (some (real d))
  kind_from_json read (string_value s) = some (some (string s))
  kind_from_json read (array_value vs) = do es ← array_from_json read vs; some (some (array es))
  kind_from_json read (object_value o) = do
    m ← map_from_json read no_entry (R.entries o)
    some (some (dictionary m))

  unfoldable pub entity_from_json : ℕ → J.Value → Option (Option Entity)
  entity_from_json zero v = none
  entity_from_json (suc rounds) v = kind_from_json (entity_from_json rounds) (R.kind v)
