-- ===== src/Flow/Values/Quiet.antt =====
-- Every operation on values leaves the evaluation scope alone: the payloads and the dictionaries.
use ez_cpp.Prelude.{ℕ, zero, suc, String, Bool, List}
use ez_cpp.Prelude.Int.{ℤ}
use ez_cpp.Flow.Duration.{DurationStorage}
use ez_cpp.Flow.Entity.{
  Entity, Payload, DictionaryKind, CallArguments, no_call_argument, call_argument, boolean_payload,
  integer_payload, real_payload, string_payload, duration_payload, array_payload, map_payload, void,
  error, boolean, integer, real, string, duration, array, dictionary,
}
use ez_cpp.Flow.Machine.Quiet.{
  pure-IsQuiet, missing-IsQuiet, >>=-IsQuiet, payload-IsQuiet, IsQuiet, quiet,
}
use ez_cpp.Flow.Values.Host.{Platform}
use ez_cpp.Flow.Values.Payloads.{
  as_boolean, boolean_value, as_integer, integer_value, as_real, real_value, as_string,
  string_value, as_duration, duration_value, as_array, array_value, as_map, map_value, new_boolean,
  new_integer, new_real, new_string, new_duration, new_array, new_dictionary, copy_payload, copy,
}
use ez_cpp.Flow.Values.Dictionaries.{
  at, construct_dictionary, key_cell, insert, insert_key, dictionary_property, contains,
}

as_boolean-IsQuiet : (v : Payload) → IsQuiet (as_boolean v)
unfolding as_boolean
as_boolean-IsQuiet (boolean_payload v) = pure-IsQuiet v
as_boolean-IsQuiet other = missing-IsQuiet

pub boolean_value-IsQuiet : (p : ℕ) → IsQuiet (boolean_value p)
unfolding boolean_value
boolean_value-IsQuiet p = >>=-IsQuiet (payload-IsQuiet p) as_boolean-IsQuiet

as_integer-IsQuiet : (v : Payload) → IsQuiet (as_integer v)
unfolding as_integer
as_integer-IsQuiet (integer_payload v) = pure-IsQuiet v
as_integer-IsQuiet other = missing-IsQuiet

pub integer_value-IsQuiet : (p : ℕ) → IsQuiet (integer_value p)
unfolding integer_value
integer_value-IsQuiet p = >>=-IsQuiet (payload-IsQuiet p) as_integer-IsQuiet

as_real-IsQuiet : (v : Payload) → IsQuiet (as_real v)
unfolding as_real
as_real-IsQuiet (real_payload v) = pure-IsQuiet v
as_real-IsQuiet other = missing-IsQuiet

pub real_value-IsQuiet : (p : ℕ) → IsQuiet (real_value p)
unfolding real_value
real_value-IsQuiet p = >>=-IsQuiet (payload-IsQuiet p) as_real-IsQuiet

as_string-IsQuiet : (v : Payload) → IsQuiet (as_string v)
unfolding as_string
as_string-IsQuiet (string_payload v) = pure-IsQuiet v
as_string-IsQuiet other = missing-IsQuiet

pub string_value-IsQuiet : (p : ℕ) → IsQuiet (string_value p)
unfolding string_value
string_value-IsQuiet p = >>=-IsQuiet (payload-IsQuiet p) as_string-IsQuiet

as_duration-IsQuiet : (v : Payload) → IsQuiet (as_duration v)
unfolding as_duration
as_duration-IsQuiet (duration_payload v) = pure-IsQuiet v
as_duration-IsQuiet other = missing-IsQuiet

pub duration_value-IsQuiet : (p : ℕ) → IsQuiet (duration_value p)
unfolding duration_value
duration_value-IsQuiet p = >>=-IsQuiet (payload-IsQuiet p) as_duration-IsQuiet

as_array-IsQuiet : (v : Payload) → IsQuiet (as_array v)
unfolding as_array
as_array-IsQuiet (array_payload v) = pure-IsQuiet v
as_array-IsQuiet other = missing-IsQuiet

pub array_value-IsQuiet : (p : ℕ) → IsQuiet (array_value p)
unfolding array_value
array_value-IsQuiet p = >>=-IsQuiet (payload-IsQuiet p) as_array-IsQuiet

as_map-IsQuiet : (v : Payload) → IsQuiet (as_map v)
unfolding as_map
as_map-IsQuiet (map_payload v) = pure-IsQuiet v
as_map-IsQuiet other = missing-IsQuiet

pub map_value-IsQuiet : (p : ℕ) → IsQuiet (map_value p)
unfolding map_value
map_value-IsQuiet p = >>=-IsQuiet (payload-IsQuiet p) as_map-IsQuiet

pub new_boolean-IsQuiet : (v : Bool) → IsQuiet (new_boolean v)
unfolding new_boolean
new_boolean-IsQuiet v = search quiet

pub new_integer-IsQuiet : (v : ℤ) → IsQuiet (new_integer v)
unfolding new_integer
new_integer-IsQuiet v = search quiet

pub new_real-IsQuiet : (v : ℕ) → IsQuiet (new_real v)
unfolding new_real
new_real-IsQuiet v = search quiet

pub new_string-IsQuiet : (v : String) → IsQuiet (new_string v)
unfolding new_string
new_string-IsQuiet v = search quiet

pub new_duration-IsQuiet : (v : DurationStorage) → IsQuiet (new_duration v)
unfolding new_duration
new_duration-IsQuiet v = search quiet

pub new_array-IsQuiet : (v : List Entity) → IsQuiet (new_array v)
unfolding new_array
new_array-IsQuiet v = search quiet

pub new_dictionary-IsQuiet :
    (k : DictionaryKind) (es : List (String × Entity)) → IsQuiet (new_dictionary k es)
unfolding new_dictionary
new_dictionary-IsQuiet k es = search quiet

pub ruleset payloads = (
  quiet, boolean_value-IsQuiet, integer_value-IsQuiet, real_value-IsQuiet, string_value-IsQuiet,
  duration_value-IsQuiet, array_value-IsQuiet, map_value-IsQuiet, new_boolean-IsQuiet,
  new_integer-IsQuiet, new_real-IsQuiet, new_string-IsQuiet, new_duration-IsQuiet,
  new_array-IsQuiet, new_dictionary-IsQuiet,
)

pub copy-IsQuiet : (e : Entity) → IsQuiet (copy e)
unfolding copy copy_payload
copy-IsQuiet (boolean p) = search quiet
copy-IsQuiet (integer p) = search quiet
copy-IsQuiet (real p) = search quiet
copy-IsQuiet (string p) = search quiet
copy-IsQuiet (duration p) = search quiet
copy-IsQuiet (array p) = search quiet
copy-IsQuiet (dictionary k p) = search quiet
copy-IsQuiet other = search quiet

pub at-IsQuiet : (args : CallArguments) (i : ℕ) → IsQuiet (at args i)
unfolding at
at-IsQuiet no_call_argument i = search quiet
at-IsQuiet (call_argument j n e rest) zero = search quiet
at-IsQuiet (call_argument j n e rest) (suc i) = at-IsQuiet rest i

pub construct_dictionary-IsQuiet :
    (k : DictionaryKind) (e : Entity) → IsQuiet (construct_dictionary k e)
unfolding construct_dictionary
construct_dictionary-IsQuiet k void = search payloads
construct_dictionary-IsQuiet k (error what where_) = search payloads
construct_dictionary-IsQuiet k (dictionary j p) = search payloads
construct_dictionary-IsQuiet k other = search payloads

key_cell-IsQuiet : (e : Entity) → IsQuiet (key_cell e)
unfolding key_cell
key_cell-IsQuiet (string p) = search quiet
key_cell-IsQuiet other = search quiet

pub insert-IsQuiet :
    (P : Platform) (k : DictionaryKind) (self : ℕ) (args : CallArguments)
    → IsQuiet (insert P k self args)
unfolding insert insert_key
insert-IsQuiet P k self args = search (payloads, at-IsQuiet, key_cell-IsQuiet) depth 12

pub dictionary_property-IsQuiet :
    (k : DictionaryKind) (self : ℕ) (name : String) → IsQuiet (dictionary_property k self name)
unfolding dictionary_property
dictionary_property-IsQuiet k self name = search payloads

pub contains-IsQuiet : (self : ℕ) (element : Entity) → IsQuiet (contains self element)
unfolding contains
contains-IsQuiet self (string p) = search payloads
contains-IsQuiet self other = search payloads
