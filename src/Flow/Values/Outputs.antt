-- ===== src/Flow/Values/Outputs.antt =====
-- Printing and requests leave the evaluation scope alone.
use ez_cpp.Prelude.Int.{ℤ}
use ez_cpp.Prelude.{ℕ, zero, suc, String, List, [], ◌∷◌}
use ez_cpp.Flow.Entity.{
  Entity, DictionaryKind, CallArguments, no_call_argument, call_argument, void, error, boolean,
  integer, real, string, duration, array, dictionary, workflow_definition, workflow_invocation,
}
use ez_cpp.Flow.Conversion as Json
use ez_cpp.Flow.Conversion.{Entities, no_entity, entity, DictionaryMap, no_entry, entry}
use ez_cpp.Flow.Machine.{Eval}
use ez_cpp.Flow.Machine.Quiet.{IsQuiet, quiet, >>=-IsQuiet, pure-IsQuiet}
use ez_cpp.Flow.Values.Host.{Platform, suspend}
use ez_cpp.Flow.Values.Printing.{
  elements_text, entries_text, representation, representations, format_args, println, str_format,
  panic_, call_free_function,
}
use ez_cpp.Flow.Values.Requests.{
  element_contents, entry_contents, contents, new_value, new_elements, new_entries, perform,
}
use ez_cpp.Flow.Values.Quiet.{payloads, map_value-IsQuiet}

elements_text-IsQuiet :
    (f : Entity → Eval String) (es : List Entity)
    → ((e : Entity) → IsQuiet (f e))
    → IsQuiet (elements_text f es)
unfolding elements_text
elements_text-IsQuiet f [] h = search quiet
elements_text-IsQuiet f (e ∷ es) h =
    >>=-IsQuiet (h e) (λ s. >>=-IsQuiet (elements_text-IsQuiet f es h) (λ rest. pure-IsQuiet _))

entries_text-IsQuiet :
    (f : Entity → Eval String) (es : List (String × Entity))
    → ((e : Entity) → IsQuiet (f e))
    → IsQuiet (entries_text f es)
unfolding entries_text
entries_text-IsQuiet f [] h = search quiet
entries_text-IsQuiet f ((key, e) ∷ es) h =
    >>=-IsQuiet (h e) (λ s. >>=-IsQuiet (entries_text-IsQuiet f es h) (λ rest. pure-IsQuiet _))

module _ (P : Platform) where
  representation-IsQuiet : (n : ℕ) (e : Entity) → IsQuiet (representation P n e)
  unfolding representation
  representation-IsQuiet zero e = search quiet
  representation-IsQuiet (suc n) (error what where_) = search quiet
  representation-IsQuiet (suc n) void = search quiet
  representation-IsQuiet (suc n) (boolean p) = search payloads
  representation-IsQuiet (suc n) (integer p) = search payloads
  representation-IsQuiet (suc n) (real p) = search payloads
  representation-IsQuiet (suc n) (string p) = search payloads
  representation-IsQuiet (suc n) (duration p) = search payloads
  representation-IsQuiet (suc n) (array p) =
      search (payloads, elements_text-IsQuiet, representation-IsQuiet n)
  representation-IsQuiet (suc n) (dictionary k p) =
      search (payloads, entries_text-IsQuiet, representation-IsQuiet n)
  representation-IsQuiet (suc n) (workflow_definition d) = search quiet
  representation-IsQuiet (suc n) (workflow_invocation d i args) = search quiet
  representation-IsQuiet (suc n) other = search quiet

  representations-IsQuiet : (n : ℕ) (args : CallArguments) → IsQuiet (representations P n args)
  unfolding representations
  representations-IsQuiet n no_call_argument = search quiet
  representations-IsQuiet n (call_argument i name e rest) =
      >>=-IsQuiet (representation-IsQuiet n e)
        (λ s. >>=-IsQuiet (representations-IsQuiet n rest) (λ more. pure-IsQuiet _))

  format_args-IsQuiet : (n : ℕ) (args : CallArguments) → IsQuiet (format_args P n args)
  unfolding format_args
  format_args-IsQuiet n no_call_argument = search quiet
  format_args-IsQuiet n (call_argument i name (string p) rest) =
      search (payloads, representations-IsQuiet)
  format_args-IsQuiet n (call_argument i name other rest) = search quiet

  pub call_free_function-IsQuiet :
      (n : ℕ) (name : String) (args : CallArguments) → IsQuiet (call_free_function P n name args)
  unfolding call_free_function println str_format panic_
  call_free_function-IsQuiet n name args =
      search (payloads, format_args-IsQuiet, representations-IsQuiet) depth 12

element_contents-IsQuiet :
    (f : Entity → Eval Json.Entity) (es : List Entity)
    → ((e : Entity) → IsQuiet (f e))
    → IsQuiet (element_contents f es)
unfolding element_contents
element_contents-IsQuiet f [] h = search quiet
element_contents-IsQuiet f (e ∷ es) h =
    >>=-IsQuiet (h e) (λ s. >>=-IsQuiet (element_contents-IsQuiet f es h) (λ rest. pure-IsQuiet _))

entry_contents-IsQuiet :
    (f : Entity → Eval Json.Entity) (es : List (String × Entity))
    → ((e : Entity) → IsQuiet (f e))
    → IsQuiet (entry_contents f es)
unfolding entry_contents
entry_contents-IsQuiet f [] h = search quiet
entry_contents-IsQuiet f ((key, e) ∷ es) h =
    >>=-IsQuiet (h e) (λ s. >>=-IsQuiet (entry_contents-IsQuiet f es h) (λ rest. pure-IsQuiet _))

contents-IsQuiet : (n : ℕ) (e : Entity) → IsQuiet (contents n e)
unfolding contents
contents-IsQuiet zero e = search quiet
contents-IsQuiet (suc n) (boolean p) = search payloads
contents-IsQuiet (suc n) (integer p) = search payloads
contents-IsQuiet (suc n) (real p) = search payloads
contents-IsQuiet (suc n) (string p) = search payloads
contents-IsQuiet (suc n) (array p) = search (payloads, element_contents-IsQuiet, contents-IsQuiet n)
contents-IsQuiet (suc n) (dictionary DictionaryKind.dictionary p) =
    search (payloads, entry_contents-IsQuiet, contents-IsQuiet n)
contents-IsQuiet (suc n) other = search quiet

mutual
  unfolding new_value new_elements new_entries

  new_value-IsQuiet : (v : Json.Entity) → IsQuiet (new_value v)
  new_value-IsQuiet (Json.boolean b) = search payloads
  new_value-IsQuiet (Json.integer z) = search payloads
  new_value-IsQuiet (Json.real d) = search payloads
  new_value-IsQuiet (Json.string s) = search payloads
  new_value-IsQuiet (Json.array es) = search (payloads, new_elements-IsQuiet es)
  new_value-IsQuiet (Json.dictionary m) = search (payloads, new_entries-IsQuiet m)
  new_value-IsQuiet (Json.other k) = search quiet

  new_elements-IsQuiet : (es : Entities) → IsQuiet (new_elements es)
  new_elements-IsQuiet no_entity = search quiet
  new_elements-IsQuiet (entity e es) = search (quiet, new_value-IsQuiet e, new_elements-IsQuiet es)

  new_entries-IsQuiet : (m : DictionaryMap) → IsQuiet (new_entries m)
  new_entries-IsQuiet no_entry = search quiet
  new_entries-IsQuiet (entry key e m) = search (quiet, new_value-IsQuiet e, new_entries-IsQuiet m)

pub suspend-IsQuiet : (P : Platform) → IsQuiet (suspend P)
unfolding suspend
suspend-IsQuiet P = search quiet

pub perform-IsQuiet :
    (P : Platform) (n : ℕ) (k reply : DictionaryKind) (p : ℕ) (timeout : ℤ)
    → IsQuiet (perform P n k reply p timeout)
unfolding perform
perform-IsQuiet P n k reply p timeout = >>=-IsQuiet (map_value-IsQuiet p) (λ es.
    >>=-IsQuiet (entry_contents-IsQuiet (contents n) es (contents-IsQuiet n))
      (λ m. search (payloads, new_entries-IsQuiet, suspend-IsQuiet) depth 14))
