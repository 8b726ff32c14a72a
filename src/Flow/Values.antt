-- ===== src/Flow/Values.antt =====
-- The operations that every type has, src/libs/flow/src/engine/types: construction, assignment, conversion and
-- properties (core/type.{hpp,cpp}, core/function.cpp, entity.cpp, entity_utils.hpp and the types under
-- builtin and execution), with the errors of core/errors.hpp.
-- The payloads of the defaults that the constructors hold are the first six of the heap.
pub mod Host
pub mod Payloads
pub mod Dictionaries
pub mod Operators
pub mod Printing
pub mod Requests
pub mod Quiet
pub mod Effects
pub mod Outputs
pub mod Numbers
pub mod Defaults
mod Tests
use Prim.Native.String.{◌++◌ as ◌+++◌}
use text.Mathlib.Text.{◌==◌ as str_eq}
use ez_cpp.Prelude.{
  ℕ, String, Bool, false, Option, none, some, List, [], ◌∷◌, if◌then◌else◌, length, not, ◌&&◌,
}
use ez_cpp.Prelude.Int.{pos}
use ez_cpp.Flow.Ast.{Located, DurationUnit}
use ez_cpp.Flow.Types.{TypeInfo, EntityKind, static_type, same_type}
use ez_cpp.Flow.Entity.{
  Entity, Payload, DictionaryKind, CallArguments, type, void, boolean, integer, real, string,
  duration, time_point, array, dictionary, boolean_payload, integer_payload, real_payload,
  string_payload, duration_payload, array_payload,
}
use ez_cpp.Flow.Machine.{
  cond, from_option, Eval, pure, throw, ◌>>=◌, ◌>>◌, set_payload, evaluation_error,
  bad_function_call,
}
use ez_cpp.Flow.Scope.{entity_type_list}
use ez_cpp.Flow.Values.Host.{Platform, EvalResult, ok, fail}
use ez_cpp.Flow.Values.Payloads.{integer_value, real_value, array_value, new_integer}
use ez_cpp.Flow.Values.Dictionaries.{
  construct_dictionary, dictionary_property, insert, invalid_constructor,
}

-- The cells of the defaults, and what they hold at first.
abbrev pub defaults : List Payload
defaults =
    boolean_payload false
    ∷ integer_payload (pos 0)
    ∷ real_payload 0
    ∷ string_payload ""
    ∷ duration_payload (record { count = 0; unit = DurationUnit.sec })
    ∷ array_payload []
    ∷ []

abbrev pub default_boolean : ℕ
default_boolean = 0

abbrev pub default_integer : ℕ
default_integer = 1

abbrev pub default_real : ℕ
default_real = 2

abbrev pub default_string : ℕ
default_string = 3

abbrev pub default_duration : ℕ
default_duration = 4

abbrev pub default_array : ℕ
default_array = 5

unfoldable pub value_at : Located → EvalResult → Eval Entity
value_at location (ok e) = pure e
value_at location (fail what) = throw (evaluation_error what location)

-- `entity::ensure_value`.
unfoldable pub ensure_value : Eval EvalResult → Located → Eval Entity
ensure_value c location = c >>= value_at location

-- The type that a copy of it, found under its name, is.
unfoldable pub kind_in : String → List EntityKind → Option EntityKind
kind_in name [] = none
kind_in name (k ∷ ks) =
    let later = kind_in name ks in if str_eq (static_type k).name name then some k else later

-- `entity::make_constructor` for a type with its default: the default is handed out, not a copy.
unfoldable pub make_constructor : EntityKind → Entity → Entity → EvalResult
make_constructor k default_value void = ok default_value
make_constructor k default_value other =
    (if str_eq (type other).name (static_type k).name
      then ok other
      else invalid_constructor (static_type k).name other)

-- `construct.call` of each type; of a type that sets none it is an empty function.
unfoldable pub construct_kind : Platform → EntityKind → Entity → Eval EvalResult
construct_kind P EntityKind.void args = pure (make_constructor EntityKind.void void args)
construct_kind P EntityKind.boolean args =
    pure (make_constructor EntityKind.boolean (boolean default_boolean) args)
construct_kind P EntityKind.integer args =
    pure (make_constructor EntityKind.integer (integer default_integer) args)
construct_kind P EntityKind.real args =
    pure (make_constructor EntityKind.real (real default_real) args)
construct_kind P EntityKind.string args =
    pure (make_constructor EntityKind.string (string default_string) args)
construct_kind P EntityKind.duration args =
    pure (make_constructor EntityKind.duration (duration default_duration) args)
construct_kind P EntityKind.time_point args =
    pure (make_constructor EntityKind.time_point (time_point P.start_time) args)
construct_kind P EntityKind.array args =
    pure (make_constructor EntityKind.array (array default_array) args)
construct_kind P EntityKind.dictionary args = construct_dictionary DictionaryKind.dictionary args
construct_kind P EntityKind.action args = construct_dictionary DictionaryKind.action args
construct_kind P EntityKind.action_reply args =
    construct_dictionary DictionaryKind.action_reply args
construct_kind P EntityKind.campaign args = construct_dictionary DictionaryKind.campaign args
construct_kind P EntityKind.campaign_reply args =
    construct_dictionary DictionaryKind.campaign_reply args
construct_kind P EntityKind.http_request args =
    construct_dictionary DictionaryKind.http_request args
construct_kind P EntityKind.http_reply args = construct_dictionary DictionaryKind.http_reply args
construct_kind P EntityKind.device_info_request args =
    construct_dictionary DictionaryKind.device_info_request args
construct_kind P EntityKind.device_info_reply args =
    construct_dictionary DictionaryKind.device_info_reply args
construct_kind P _ args = throw bad_function_call

-- `entity::construct`.
unfoldable pub construct : Platform → TypeInfo → Entity → Eval EvalResult
construct P t args =
    from_option (kind_in t.name entity_type_list) (throw bad_function_call)
      (λ k. construct_kind P k args)

abbrev pub invalid_assignment : Entity → Entity → EvalResult
invalid_assignment lhs rhs = fail (
    "Invalid assignent. Expected '"
    +++ (type lhs).name
    +++ "' while provided a '"
    +++ (type rhs).name
    +++ "'")

-- The default `Assignment`, with what it leaves in the variable `lhs`.
unfoldable pub rebind : Entity → Entity → EvalResult × Entity
rebind lhs rhs =
    if not (same_type (type lhs) (type rhs))
      && not (same_type (type rhs) (static_type EntityKind.error))
    then (invalid_assignment lhs rhs, lhs)
    else (ok rhs, rhs)

-- `entity::assign`, with what it leaves in the variable `lhs`. An integer and an array write through
-- their payload.
unfoldable pub assign : Platform → Entity → Entity → Eval (EvalResult × Entity)
assign P (integer p) (integer q) = do
  z ← integer_value q
  set_payload p (integer_payload z)
  pure (ok (integer p), integer p)
assign P (integer p) (real q) = do
  d ← real_value q
  set_payload p (integer_payload (P.int_of_real d))
  pure (ok (integer p), integer p)
assign P (integer p) rhs = pure (invalid_assignment (integer p) rhs, integer p)
assign P (array p) (array q) = do
  es ← array_value q
  set_payload p (array_payload es)
  pure (ok (array p), array p)
assign P (array p) rhs = pure (invalid_assignment (array p) rhs, array p)
assign P lhs rhs = pure (rebind lhs rhs)

-- `entity::convert`: every type has the default.
unfoldable pub convert : Entity → TypeInfo → EvalResult
convert e t =
    if not (same_type (type e) t)
    then fail ("Type '" +++ (type e).name +++ "' not convertible to '" +++ t.name +++ "'")
    else ok e

-- `entity::get_property`.
unfoldable pub get_property : Entity → String → Eval EvalResult
get_property (array p) name =
    cond (str_eq name "size")
      (do es ← array_value p; z ← new_integer (pos (length es)); pure (ok z))
      (pure (fail ("Property '" +++ name +++ "' not found")))
get_property (dictionary k p) name = dictionary_property k p name
get_property self name = pure (fail ("Property '" +++ name +++ "' not found"))

-- `entity::call_mem_function`.
unfoldable pub call_mem_function : Platform → Entity → String → CallArguments → Eval EvalResult
call_mem_function P (dictionary k p) name args =
    cond (str_eq name "insert") (insert P k p args)
      (pure (fail ("Member function '" +++ name +++ "' not found")))
call_mem_function P self name args = pure (fail ("Member function '" +++ name +++ "' not found"))
