-- ===== src/Flow/Values/Requests.antt =====
-- Requests to the delegates: a dictionary's contents, which to_json of src/libs/flow/src/engine/conversion/json.hpp
-- writes, and new values for the contents of a reply, which from_json reads. The conversion between
-- contents and JSON is Flow.Conversion.
use ez_cpp.Prelude.Int.{ℤ}
use ez_cpp.Prelude.{ℕ, zero, suc, String, Option, none, some, List, [], ◌∷◌}
use ez_cpp.Flow.Entity.{Entity, DictionaryKind, kind}
use ez_cpp.Flow.Conversion as Json
use ez_cpp.Flow.Conversion.{Entities, no_entity, entity, DictionaryMap, no_entry, entry}
use ez_cpp.Flow.Machine.{from_option, Eval, pure, stop, ◌>>=◌, ◌>>◌, emit, past, request, too_deep}
use ez_cpp.Flow.Values.Host.{Platform, suspend}
use ez_cpp.Flow.Values.Payloads.{
  boolean_value, integer_value, real_value, string_value, array_value, map_value, new_boolean,
  new_integer, new_real, new_string, new_array, new_dictionary,
}

unfoldable pub element_contents : (Entity → Eval Json.Entity) → List Entity → Eval Entities
element_contents read [] = pure no_entity
element_contents read (e ∷ es) = do
  c ← read e
  rest ← element_contents read es
  pure (entity c rest)

unfoldable pub entry_contents :
    (Entity → Eval Json.Entity) → List (String × Entity) → Eval DictionaryMap
entry_contents read [] = pure no_entry
entry_contents read ((key, e) ∷ es) = do
  c ← read e
  rest ← entry_contents read es
  pure (entry key c rest)

-- The contents of a value. Of the derived types `to_json` takes none inside another value.
unfoldable pub contents : ℕ → Entity → Eval Json.Entity
contents zero e = stop too_deep
contents (suc rounds) (Entity.boolean p) = do b ← boolean_value p; pure (Json.boolean b)
contents (suc rounds) (Entity.integer p) = do z ← integer_value p; pure (Json.integer z)
contents (suc rounds) (Entity.real p) = do d ← real_value p; pure (Json.real d)
contents (suc rounds) (Entity.string p) = do s ← string_value p; pure (Json.string s)
contents (suc rounds) (Entity.array p) = do
  es ← array_value p
  cs ← element_contents (contents rounds) es
  pure (Json.array cs)
contents (suc rounds) (Entity.dictionary DictionaryKind.dictionary p) = do
  es ← map_value p
  m ← entry_contents (contents rounds) es
  pure (Json.dictionary m)
contents (suc rounds) other = pure (Json.other (kind other))

-- New values with the contents of a reply. `other` is no value of JSON.
unfoldable mutual
  pub new_value : Json.Entity → Eval Entity
  new_value (Json.boolean b) = new_boolean b
  new_value (Json.integer z) = new_integer z
  new_value (Json.real d) = new_real d
  new_value (Json.string s) = new_string s
  new_value (Json.array es) = do vs ← new_elements es; new_array vs
  new_value (Json.dictionary m) = do vs ← new_entries m; new_dictionary DictionaryKind.dictionary vs
  new_value (Json.other k) = pure Entity.void

  pub new_elements : Entities → Eval (List Entity)
  new_elements no_entity = pure []
  new_elements (entity e es) = do v ← new_value e; vs ← new_elements es; pure (v ∷ vs)

  pub new_entries : DictionaryMap → Eval (List (String × Entity))
  new_entries no_entry = pure []
  new_entries (entry key e m) = do v ← new_value e; vs ← new_entries m; pure ((key, v) ∷ vs)

-- A delegate called with the dictionary of a request, against a timeout in ticks: the reply,
-- or `none` where the timeout comes first.
unfoldable pub perform :
    Platform → ℕ → DictionaryKind → DictionaryKind → ℕ → ℤ → Eval (Option Entity)
perform P rounds k reply_kind p timeout = do
  es ← map_value p
  m ← entry_contents (contents rounds) es
  emit (request k m timeout)
  suspend P
  events ← past
  from_option (P.answer k m events) (pure none)
      (λ reply. do vs ← new_entries reply; e ← new_dictionary reply_kind vs; pure (some e))
