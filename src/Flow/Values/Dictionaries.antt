-- ===== src/Flow/Values/Dictionaries.antt =====
-- DictionaryType of src/libs/flow/src/engine/types/builtin/dictionary_type.hpp, which gives the types Dictionary,
-- Action, HttpRequest and the other requests and replies their operations; and the call arguments of
-- core/call_arguments.cpp.
use Prim.Native.String.{◌++◌ as ◌+++◌}
use text.Mathlib.Text.{◌==◌ as str_eq}
use ez_cpp.Prelude.{
  ℕ, zero, suc, String, Bool, true, false, Option, none, some, List, [], ◌∷◌, if◌then◌else◌, length,
  not, ◌&&◌, ◌==◌,
}
use ez_cpp.Prelude.Int.{pos}
use ez_cpp.Flow.Types.{same_type, static_type, EntityKind}
use ez_cpp.Flow.Entity.{
  Entity, DictionaryKind, CallArguments, no_call_argument, call_argument, type, size,
  dictionary_kind, error, void, string, dictionary, member_function,
}
use ez_cpp.Flow.Conversion.{text_less}
use ez_cpp.Flow.Machine.{
  cond, Eval, pure, throw, ◌>>=◌, ◌>>◌, set_payload, out_of_range, bad_variant_access,
}
use ez_cpp.Flow.Entity.Payload.{map_payload, string_payload}
use ez_cpp.Flow.Values.Host.{Platform, EvalResult, ok, fail}
use ez_cpp.Flow.Values.Payloads.{string_value, map_value, new_dictionary, new_boolean, new_integer}

-- `CallArguments::push`: a vector counts its elements from the front.
unfoldable pub push_after : ℕ → CallArguments → Option String → Entity → CallArguments
push_after i no_call_argument name e = call_argument i name e no_call_argument
push_after i (call_argument j n f rest) name e =
    call_argument j n f (push_after (suc i) rest name e)

unfoldable pub push : CallArguments → Option String → Entity → CallArguments
unfolding push_after
push args name e = push_after 0 args name e

-- `CallArguments::find`.
unfoldable pub find : String → CallArguments → Option Entity
find name no_call_argument = none
find name (call_argument i n e rest) =
    let later = find name rest in
    elim n [ none ↦ later | some m ↦ if str_eq m name then some e else later ]

-- `CallArguments::at`, whose value `variable_at` gives.
unfoldable pub at : CallArguments → ℕ → Eval Entity
at no_call_argument i = throw out_of_range
at (call_argument j n e rest) zero = pure e
at (call_argument j n e rest) (suc i) = at rest i

unfoldable pub is_array : CallArguments → Bool
is_array no_call_argument = true
is_array (call_argument i n e rest) = elim n [ none ↦ is_array rest | some s ↦ false ]

-- `std::map::insert`, which keeps an entry that is there, and `std::map::find`.
unfoldable pub insert_entry : String → Entity → List (String × Entity) → List (String × Entity)
insert_entry key e [] = (key, e) ∷ []
insert_entry key e ((k, f) ∷ rest) =
    let inserted = insert_entry key e rest in
    if text_less key k
    then (key, e) ∷ (k, f) ∷ rest
    else if text_less k key
    then (k, f) ∷ inserted
    else (k, f) ∷ rest

unfoldable pub find_value : String → List (String × Entity) → Option Entity
find_value key [] = none
find_value key ((k, e) ∷ rest) =
    let later = find_value key rest in if str_eq k key then some e else later

-- `name()`.
abbrev pub kind_name : DictionaryKind → String
kind_name k = (static_type (dictionary_kind k)).name

-- `arg.is<T>()` for two of these types.
abbrev same_kind : DictionaryKind → DictionaryKind → Bool
same_kind k k' = str_eq (kind_name k) (kind_name k')

abbrev pub invalid_constructor : String → Entity → EvalResult
invalid_constructor expected e = fail (
    "Invalid construction. Expected '"
    +++ expected
    +++ "' while provided a '"
    +++ (type e).name
    +++ "'")

unfoldable pub construct_dictionary : DictionaryKind → Entity → Eval EvalResult
construct_dictionary k void = do d ← new_dictionary k []; pure (ok d)
construct_dictionary k (error what where_) = pure (ok (error what where_))
construct_dictionary k (dictionary j p) = cond (same_kind j k) (pure (ok (dictionary j p))) (
    cond (same_kind j DictionaryKind.dictionary)
      (do es ← map_value p; d ← new_dictionary k es; pure (ok d))
      (pure (invalid_constructor (kind_name k) (dictionary j p))))
construct_dictionary k other = pure (invalid_constructor (kind_name k) other)

abbrev invalid_insert : DictionaryKind → String → EvalResult
invalid_insert k reason = fail ("Invalid call of '" +++ kind_name k +++ ".insert': " +++ reason)

-- `key->as<String>().value()`, of a key that is of the type of a string.
unfoldable pub key_cell : Entity → Eval ℕ
key_cell (string p) = pure p
key_cell other = throw bad_variant_access

module _ (P : Platform) where
  -- The insertion moves the text out of the key.
  unfoldable pub insert_key : DictionaryKind → ℕ → Entity → Entity → Eval EvalResult
  insert_key k self key value =
      cond (not (same_type (type key) (static_type EntityKind.string)))
        (pure (invalid_insert k "expected a string key"))
        (do
          cell ← key_cell key
          text ← string_value cell
          set_payload cell (string_payload (P.moved_from text))
          es ← map_value self
          set_payload self (map_payload (insert_entry text value es))
          pure (ok void))

  -- Named arguments fail the second test, which asks `is_array` twice; so `find` is not reached.
  unfoldable pub insert : DictionaryKind → ℕ → CallArguments → Eval EvalResult
  insert k self args =
      cond (not (size args == 2)) (pure (invalid_insert k "expecting 2 arguments")) (
        cond (not (is_array args) && not (is_array args))
          (pure (invalid_insert k "arguments should all be named or unnamed"))
          (do key ← at args 0; value ← at args 1; insert_key k self key value))

-- The static property `size`, the member function `insert` and the entries.
unfoldable pub dictionary_property : DictionaryKind → ℕ → String → Eval EvalResult
dictionary_property k self name =
    cond (str_eq name "size")
      (do es ← map_value self; z ← new_integer (pos (length es)); pure (ok z))
      (cond (str_eq name "insert") (pure (ok (member_function (kind_name k) "insert"))) (do
        es ← map_value self
        pure (elim (find_value name es) [
          | none ↦ fail ("Property '" +++ name +++ "' not found")
          | some e ↦ ok e
        ])))

-- The operator `in`.
unfoldable pub contains : ℕ → Entity → Eval EvalResult
contains self (string p) = (do
  es ← map_value self
  s ← string_value p
  b ← new_boolean (elim (find_value s es) [ none ↦ false | some e ↦ true ])
  pure (ok b))
contains self other = pure (fail ("Expected a string, got a " +++ (type other).name))
