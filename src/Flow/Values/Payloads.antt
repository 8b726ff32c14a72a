-- ===== src/Flow/Values/Payloads.antt =====
-- `value()` of each type of src/libs/flow/src/engine/types/builtin/types.hpp, and new values.
use ez_cpp.Prelude.{ℕ, String, Bool, List}
use ez_cpp.Prelude.Int.{ℤ}
use ez_cpp.Flow.Duration.{DurationStorage}
use ez_cpp.Flow.Entity.{
  Entity, Payload, boolean, integer, real, string, duration, array, dictionary, DictionaryKind,
  boolean_payload, integer_payload, real_payload, string_payload, duration_payload, array_payload,
  map_payload,
}
use ez_cpp.Flow.Machine.{Eval, pure, stop, ◌>>=◌, payload, new_payload, missing}

unfoldable pub as_boolean : Payload → Eval Bool
as_boolean (boolean_payload v) = pure v
as_boolean other = stop missing

unfoldable pub boolean_value : ℕ → Eval Bool
boolean_value p = payload p >>= as_boolean

unfoldable pub as_integer : Payload → Eval ℤ
as_integer (integer_payload v) = pure v
as_integer other = stop missing

unfoldable pub integer_value : ℕ → Eval ℤ
integer_value p = payload p >>= as_integer

unfoldable pub as_real : Payload → Eval ℕ
as_real (real_payload v) = pure v
as_real other = stop missing

unfoldable pub real_value : ℕ → Eval ℕ
real_value p = payload p >>= as_real

unfoldable pub as_string : Payload → Eval String
as_string (string_payload v) = pure v
as_string other = stop missing

unfoldable pub string_value : ℕ → Eval String
string_value p = payload p >>= as_string

unfoldable pub as_duration : Payload → Eval DurationStorage
as_duration (duration_payload v) = pure v
as_duration other = stop missing

unfoldable pub duration_value : ℕ → Eval DurationStorage
duration_value p = payload p >>= as_duration

unfoldable pub as_array : Payload → Eval (List Entity)
as_array (array_payload v) = pure v
as_array other = stop missing

unfoldable pub array_value : ℕ → Eval (List Entity)
array_value p = payload p >>= as_array

unfoldable pub as_map : Payload → Eval (List (String × Entity))
as_map (map_payload v) = pure v
as_map other = stop missing

unfoldable pub map_value : ℕ → Eval (List (String × Entity))
map_value p = payload p >>= as_map

unfoldable pub new_boolean : Bool → Eval Entity
new_boolean b = do p ← new_payload (boolean_payload b); pure (boolean p)

unfoldable pub new_integer : ℤ → Eval Entity
new_integer z = do p ← new_payload (integer_payload z); pure (integer p)

unfoldable pub new_real : ℕ → Eval Entity
new_real d = do p ← new_payload (real_payload d); pure (real p)

unfoldable pub new_string : String → Eval Entity
new_string s = do p ← new_payload (string_payload s); pure (string p)

unfoldable pub new_duration : DurationStorage → Eval Entity
new_duration d = do p ← new_payload (duration_payload d); pure (duration p)

unfoldable pub new_array : List Entity → Eval Entity
new_array es = do p ← new_payload (array_payload es); pure (array p)

unfoldable pub new_dictionary : DictionaryKind → List (String × Entity) → Eval Entity
new_dictionary k es = do p ← new_payload (map_payload es); pure (dictionary k p)

-- `Entity::copy()`: a payload that is shared is detached. One that is not shared has no other holder,
-- so that a new payload for it too makes no difference.
unfoldable pub copy_payload : ℕ → Eval ℕ
copy_payload p = do v ← payload p; new_payload v

unfoldable pub copy : Entity → Eval Entity
copy (boolean p) = do q ← copy_payload p; pure (boolean q)
copy (integer p) = do q ← copy_payload p; pure (integer q)
copy (real p) = do q ← copy_payload p; pure (real q)
copy (string p) = do q ← copy_payload p; pure (string q)
copy (duration p) = do q ← copy_payload p; pure (duration q)
copy (array p) = do q ← copy_payload p; pure (array q)
copy (dictionary k p) = do q ← copy_payload p; pure (dictionary k q)
copy other = pure other
