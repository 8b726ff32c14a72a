-- ===== src/Flow/Values/Printing.antt =====
-- Representations (`representation.call` of each type under src/libs/flow/src/engine/types) and the free functions
-- of builtin/print.cpp and builtin/panic.cpp.
-- Values may hold themselves, so that a representation takes rounds.
use Prim.Native.String.{◌++◌ as ◌+++◌}
use text.Mathlib.Text.{◌==◌ as str_eq}
use ez_cpp.Prelude.{
  ℕ, zero, suc, ◌/◌, ◌%◌, String, Option, none, some, List, [], ◌∷◌, if◌then◌else◌, ltb, ◌==◌,
  get_elem?, foldl,
}
use ez_cpp.Prelude.Int.{ℤ, pos, negsuc}
use ez_cpp.Flow.Ast.{DurationUnit}
use ez_cpp.Flow.Ast.Statements.{WorkflowDefinition, workflow_definition}
use ez_cpp.Flow.Entity.{Entity, CallArguments, no_call_argument, call_argument, size}
use ez_cpp.Flow.Machine.{
  cond, from_option, Eval, pure, throw, stop, ◌>>=◌, ◌>>◌, emit, print, panic, too_deep,
  bad_function_call,
}
use ez_cpp.Flow.Values.Host.{Platform, EvalResult, ok, fail}
use ez_cpp.Flow.Values.Payloads.{
  boolean_value, integer_value, real_value, string_value, duration_value, array_value, map_value,
  new_string,
}

abbrev digits : List String
digits = "0" ∷ "1" ∷ "2" ∷ "3" ∷ "4" ∷ "5" ∷ "6" ∷ "7" ∷ "8" ∷ "9" ∷ []

abbrev digit : Option String → String
digit none = ""
digit (some d) = d

-- A number in decimal digits, at most as many as the first argument says.
unfoldable pub decimal : ℕ → ℕ → String
decimal zero n = ""
decimal (suc more) n =
    let front = decimal more (n / 10) in
    let last = digit (get_elem? digits (n % 10)) in if ltb n 10 then last else front +++ last

-- `std::to_string` of a number of 64 bits.
unfoldable pub to_string : ℤ → String
unfolding decimal
to_string (pos n) = decimal 20 n
to_string (negsuc n) = "-" +++ decimal 20 (suc n)

unfoldable pub unit_text : DurationUnit → String
unit_text DurationUnit.ms = "ms"
unit_text DurationUnit.sec = "sec"
unit_text DurationUnit.min = "min"
unit_text DurationUnit.day = "day"
unit_text DurationUnit.week = "week"

-- What stands between an element and the next.
abbrev separator {ℓ} : {A : Type ℓ} → List A → String
separator [] = ""
separator (x ∷ xs) = ", "

unfoldable pub elements_text : (Entity → Eval String) → List Entity → Eval String
elements_text show [] = pure ""
elements_text show (e ∷ es) = do
  s ← show e
  rest ← elements_text show es
  pure (s +++ separator es +++ rest)

unfoldable pub entries_text : (Entity → Eval String) → List (String × Entity) → Eval String
entries_text show [] = pure ""
entries_text show ((key, e) ∷ es) = do
  s ← show e
  rest ← entries_text show es
  pure (key +++ "=" +++ s +++ separator es +++ rest)

abbrev workflow_name : WorkflowDefinition → String
workflow_name (workflow_definition l name signature scope) = name.text

abbrev usage : String
usage = "Invalid arguments !! Usage: ('base string', args ...) "

module _ (P : Platform) where
  unfoldable pub representation : ℕ → Entity → Eval String
  representation zero e = stop too_deep
  representation (suc rounds) (Entity.error what where_) = pure what
  representation (suc rounds) Entity.void = pure "void"
  representation (suc rounds) (Entity.boolean p) = do
    b ← boolean_value p
    pure (if b then "true" else "false")
  representation (suc rounds) (Entity.integer p) = do z ← integer_value p; pure (to_string z)
  representation (suc rounds) (Entity.real p) = do d ← real_value p; pure (P.real_text d)
  representation (suc rounds) (Entity.string p) = do s ← string_value p; pure ("'" +++ s +++ "'")
  representation (suc rounds) (Entity.duration p) = do
    d ← duration_value p
    pure (decimal 20 d.count +++ unit_text d.unit)
  representation (suc rounds) (Entity.array p) = do
    es ← array_value p
    s ← elements_text (representation rounds) es
    pure ("[" +++ s +++ "]")
  representation (suc rounds) (Entity.dictionary k p) = do
    es ← map_value p
    s ← entries_text (representation rounds) es
    pure ("(" +++ s +++ ")")
  representation (suc rounds) (Entity.workflow_definition d) =
      pure ("Workflow '" +++ workflow_name d +++ "' defined in " +++ P.file_path)
  representation (suc rounds) (Entity.workflow_invocation d i args) = pure "Workflow invokation"
  representation (suc rounds) other = pure (P.address_text other)

  -- The representations of the arguments.
  unfoldable pub representations : ℕ → CallArguments → Eval (List String)
  representations rounds no_call_argument = pure []
  representations rounds (call_argument i name e rest) = do
    s ← representation rounds e
    more ← representations rounds rest
    pure (s ∷ more)

  -- "{i}" becomes "%i%", from the last argument to the first.
  unfoldable pub replace_indices : ℕ → String → String
  replace_indices zero base = base
  replace_indices (suc i) base =
      replace_indices i (
        P.replace_all base ("{" +++ decimal 20 (suc i) +++ "}")
          ("%" +++ decimal 20 (suc i) +++ "%"))

  -- `none` is the usage.
  unfoldable pub format_args : ℕ → CallArguments → Eval (Option String)
  format_args rounds no_call_argument = pure none
  format_args rounds (call_argument i name (Entity.string p) rest) = do
    base ← string_value p
    cond (size rest == 0) (pure (some base)) (do
      texts ← representations rounds rest
      pure (P.boost_format (replace_indices (size rest) base) texts))
  format_args rounds (call_argument i name other rest) = pure none

  unfoldable pub println : ℕ → CallArguments → Eval EvalResult
  println rounds args = do
    text ← format_args rounds args
    emit (print ("[FLOW] " +++ elim text [ none ↦ usage | some s ↦ s ]))
    pure (ok Entity.void)

  unfoldable pub str_format : ℕ → CallArguments → Eval EvalResult
  str_format rounds args = do
    text ← format_args rounds args
    from_option text (pure (fail usage)) (λ s. do e ← new_string s; pure (ok e))

  unfoldable pub panic_ : ℕ → CallArguments → Eval EvalResult
  panic_ rounds args = do
    texts ← representations rounds args
    throw (panic (foldl (λ all s. all +++ s +++ " ") "" texts))

  -- `FreeFunction::call`: the functions that the scope is made with.
  unfoldable pub call_free_function : ℕ → String → CallArguments → Eval EvalResult
  call_free_function rounds name args = cond (str_eq name "println") (println rounds args) (
      cond (str_eq name "str_format") (str_format rounds args)
        (cond (str_eq name "panic") (panic_ rounds args) (throw bad_function_call)))
