-- ===== src/Flow/Interpreter/Related/Terms.antt =====
-- The parts of the interpreter that evaluate no expression leave the evaluation scope alone.
use ez_cpp.Prelude.{ℕ, zero, suc, String, Option, none, some, List, [], ◌∷◌}
use ez_cpp.Flow.Ast.{
  Located, Identifier, IdentifierPath, Literal, Signature, FunctionCall, FunctionArguments,
  no_argument, argument, call,
}
use ez_cpp.Flow.Entity as Entity
use ez_cpp.Flow.Entity.{CallArguments, Instanciation, DictionaryKind}
use ez_cpp.Flow.Duration.{DurationStorage}
use ez_cpp.Flow.Types.{TypeInfo}
use ez_cpp.Flow.Machine.Quiet.{IsQuiet, quiet, >>=-IsQuiet, pure-IsQuiet}
use ez_cpp.Flow.Values.Host.{Platform}
use ez_cpp.Flow.Values.Quiet.{payloads, at-IsQuiet}
use ez_cpp.Flow.Values.Effects.{ensure_value-IsQuiet, get_property-IsQuiet}
use ez_cpp.Flow.Values.Outputs.{perform-IsQuiet, suspend-IsQuiet}
use ez_cpp.Flow.Interpreter.Terms.{eval_literal, properties, eval_names, eval_path}
use ez_cpp.Flow.Interpreter.Expressions.{timeout_of, eval_request, std_duration}
use ez_cpp.Flow.Interpreter.Statements.{truth_of, truth, delay_for, raised}
use ez_cpp.Flow.Interpreter.Invocations.{
  named_type, return_type, call_site, argument_position, call_argument_position, argument_for,
  check_result,
}

pub eval_literal-IsQuiet : (l : Literal) → IsQuiet (eval_literal l)
unfolding eval_literal
eval_literal-IsQuiet (Literal.boolean b) = search payloads
eval_literal-IsQuiet (Literal.integer l z) = search payloads
eval_literal-IsQuiet (Literal.real l d) = search payloads
eval_literal-IsQuiet (Literal.string l s) = search payloads
eval_literal-IsQuiet (Literal.duration l n u) = search payloads

properties-IsQuiet : (e : Entity.Entity) (names : List Identifier) → IsQuiet (properties e names)
unfolding properties
properties-IsQuiet e [] = search quiet
properties-IsQuiet e (x ∷ xs) =
    >>=-IsQuiet (ensure_value-IsQuiet _ (get_property-IsQuiet e x.text))
      (λ f. properties-IsQuiet f xs)

eval_names-IsQuiet : (names : List Identifier) (l : Located) → IsQuiet (eval_names names l)
unfolding eval_names
eval_names-IsQuiet [] l = search quiet
eval_names-IsQuiet (x ∷ xs) l = search (quiet, properties-IsQuiet)

pub eval_path-IsQuiet : (path : IdentifierPath) → IsQuiet (eval_path path)
unfolding eval_path
eval_path-IsQuiet path = eval_names-IsQuiet path.identifiers path.position

pub timeout_of-IsQuiet : (e : Entity.Entity) (l : Located) → IsQuiet (timeout_of e l)
unfolding timeout_of
timeout_of-IsQuiet (Entity.duration p) l = search payloads
timeout_of-IsQuiet other l = search quiet

truth_of-IsQuiet : (e : Entity.Entity) → IsQuiet (truth_of e)
unfolding truth_of
truth_of-IsQuiet (Entity.boolean p) = search payloads
truth_of-IsQuiet other = search quiet

pub truth-IsQuiet : (e : Entity.Entity) (l : Located) → IsQuiet (truth e l)
unfolding truth
truth-IsQuiet (Entity.boolean p) l = search payloads
truth-IsQuiet other l = >>=-IsQuiet (ensure_value-IsQuiet l (pure-IsQuiet _)) truth_of-IsQuiet

pub std_duration-IsQuiet : (d : DurationStorage) → IsQuiet (std_duration d)
unfolding std_duration
std_duration-IsQuiet d = search quiet

pub delay_for-IsQuiet : (P : Platform) (e : Entity.Entity) (l : Located) → IsQuiet (delay_for P e l)
unfolding delay_for
delay_for-IsQuiet P (Entity.duration p) l = search (payloads, std_duration-IsQuiet, suspend-IsQuiet)
delay_for-IsQuiet P other l = search quiet

pub raised-IsQuiet : (e : Entity.Entity) (l : Located) → IsQuiet (raised e l)
unfolding raised
raised-IsQuiet (Entity.string p) l = search payloads
raised-IsQuiet (Entity.error what where_) l = search quiet
raised-IsQuiet other l = search quiet

named_type-IsQuiet : (name : Identifier) → IsQuiet (named_type name)
unfolding named_type
named_type-IsQuiet name = search quiet

pub return_type-IsQuiet : (s : Option Signature) → IsQuiet (return_type s)
unfolding return_type
return_type-IsQuiet none = search quiet
return_type-IsQuiet (some s) = search (quiet, named_type-IsQuiet)

pub call_site-IsQuiet : (i : Instanciation) → IsQuiet (call_site i)
unfolding call_site
call_site-IsQuiet (Instanciation.function_call c) = search quiet
call_site-IsQuiet (Instanciation.expression e) = search quiet

argument_position-IsQuiet : (a : FunctionArguments) (i : ℕ) → IsQuiet (argument_position a i)
unfolding argument_position
argument_position-IsQuiet no_argument i = search quiet
argument_position-IsQuiet (argument l name e rest) zero = search quiet
argument_position-IsQuiet (argument l name e rest) (suc i) = argument_position-IsQuiet rest i

pub call_argument_position-IsQuiet :
    (c : FunctionCall) (i : ℕ) → IsQuiet (call_argument_position c i)
unfolding call_argument_position
call_argument_position-IsQuiet (call l path k arguments) i = argument_position-IsQuiet arguments i

pub argument_for-IsQuiet :
    (name : String) (i : ℕ) (args : CallArguments) → IsQuiet (argument_for name i args)
unfolding argument_for
argument_for-IsQuiet name i args = search (quiet, at-IsQuiet)

pub check_result-IsQuiet :
    (t : TypeInfo) (i : Instanciation) (o : Option Entity.Entity) → IsQuiet (check_result t i o)
unfolding check_result
check_result-IsQuiet t i none = search (quiet, call_site-IsQuiet)
check_result-IsQuiet t i (some e) = search quiet

module _ (P : Platform) (n : ℕ) where
  pub eval_request-IsQuiet :
      (l : Located) (k r : DictionaryKind) (p : ℕ) (t : DurationStorage)
      → IsQuiet (eval_request P n l k r p t)
  unfolding eval_request
  eval_request-IsQuiet l k r p t = search (quiet, std_duration-IsQuiet, perform-IsQuiet)
