-- ===== src/Flow/Interpreter/Declarations.antt =====
-- Variable declarations: a name is declared once in a scope.
use ez_cpp.Flow.Values.Payloads.{copy}
use ez_cpp.Flow.Values.{ensure_value, construct}
use text.Mathlib.TextEquality.{eq_iff}
use ez_cpp.Flow.Scope.Steps.{edit_current-inv}
use ez_cpp.Flow.Interpreter.Results.{Ends, >>=-Ends, from_option-Ends}
use Prim.Native.String.{◌++◌ as ◌+++◌}
use ez_cpp.Prelude.{
  ℕ, ◌≡◌, ◌∙◌, refl, inl, inr, some, String, Option, subst, sym, Option-cases, arith,
}
use ez_cpp.Flow.Ast.{Located}
use ez_cpp.Flow.Ast.Statements.{VariableDeclaration}
use ez_cpp.Flow.Entity.{Entity}
use ez_cpp.Flow.Scope.{
  Scope, VariableEntry, current, find_entry, EvaluationScope, edit_current, add,
}
use ez_cpp.Flow.Machine.{
  Machine, done, thrown, evaluation_error, pure, throw, from_option, current_scope, lookup_type,
  declare, change_scopes, ◌>>=◌,
}
use ez_cpp.Flow.Machine.Runs.{>>=-done, >>=-thrown, current_scope-done}
use ez_cpp.Flow.Values.Host.{Platform}
use ez_cpp.Flow.Interpreter.Statements.{undeclared, eval_declaration, eval_initializer}
use ez_cpp.Flow.Interpreter.Related.Expressions.{Invoke}

undeclared-thrown :
    (name : String) (l : Located) (s : Scope Entity) (e : VariableEntry Entity) (m : Machine)
    → current m.evaluation_scope ≡ some s
    → find_entry name s.entries ≡ some e
    → undeclared name l m
      ≡ thrown (evaluation_error ("'" +++ name +++ "' already declaraed in the current scope ") l) m
unfolding undeclared from_option throw pure
undeclared-thrown name l s e m now found =
    >>=-done current_scope _ m m s (current_scope-done m s now) ∙ rw (found, from_option) refl

-- What a change of the scopes that ends with a value has made.
change_scopes-Ends :
    (f : EvaluationScope Entity → Option (EvaluationScope Entity)) (m m' : Machine) (u : Unit {0})
    → Ends (change_scopes f) m u m'
    → f m.evaluation_scope ≡ some m'.evaluation_scope
unfolding change_scopes
change_scopes-Ends f m m' u h = elim (Option-cases (f m.evaluation_scope)) [
  | inl e ↦ absurd (let ends = h.ends in ground arith)
  | inr (es, e) ↦ let ends = h.ends in ground arith
]

-- A name that was just declared is in the current scope.
declare-Ends :
    (name : String) (v : Entity) (m m' : Machine) (u : Unit {0})
    → Ends (declare name v) m u m'
    → (s : Scope Entity) × (current m'.evaluation_scope ≡ some s)
      × (find_entry name s.entries ≡ some (record { name = name; value = v }))
unfolding declare add current find_entry
declare-Ends name v m m' u h =
    let (s, ss, e, e', _) =
      edit_current-inv (add name v) m.evaluation_scope m'.evaluation_scope
        (change_scopes-Ends (edit_current (add name v)) m m' u h) in
    (add name v s, rw (e', current) refl, ground (arith, eq_iff name name))

eval_declaration-declares :
    (P : Platform) (n : ℕ) (invoke : Invoke) (d : VariableDeclaration) (m m' : Machine)
    (u : Unit {0})
    → Ends (eval_declaration P n invoke d) m u m'
    → (v : Entity) × (k : Machine) × Ends (declare d.name.text v) k u m'
unfolding eval_declaration
eval_declaration-declares P n invoke d m m' u h =
    let steps : Ends
        (undeclared d.name.text d.position >>= λ x. lookup_type d.type.text >>= λ found.
          from_option found
            (throw (evaluation_error ("Unknown type '" +++ d.type.text +++ "'") d.type.position))
            (λ t. eval_initializer P n invoke d.expression >>= λ arguments.
              copy arguments >>= λ own.
              ensure_value (construct P t own) d.position >>= λ value. declare d.name.text value))
        m u m' =
      h in
    let (x, a, guarded, rest) = >>=-Ends steps in
    let (found, b, looked, rest) = >>=-Ends rest in
    let (t, rest) = from_option-Ends found _ rest in
    let (arguments, c, evaluated, rest) = >>=-Ends rest in
    let (own, k, copied, rest) = >>=-Ends rest in
    let (value, l, made, rest) = >>=-Ends rest in (value, l, rest)

-- Once the declaration of a variable has ended with a value, a declaration of the same name on the
-- machine that it leaves, of any type and with any initial value, throws the error that the name is
-- declared already, at the position of that declaration, and changes nothing.
pub eval_declaration-declared :
    (P : Platform) (n : ℕ) (invoke : Invoke) (d again : VariableDeclaration) (m m' : Machine)
    (u : Unit {0})
    → again.name.text ≡ d.name.text
    → eval_declaration P n invoke d m ≡ done u m'
    → eval_declaration P n invoke again m'
      ≡ thrown
          (evaluation_error
            ("'" +++ again.name.text +++ "' already declaraed in the current scope ")
            again.position)
          m'
unfolding eval_declaration
eval_declaration-declared P n invoke d again m m' u same h =
    let (v, k, declared) = eval_declaration-declares P n invoke d m m' u (record { ends = h }) in
    let (s, now, found) = declare-Ends d.name.text v k m' u declared in
    >>=-thrown (undeclared again.name.text again.position) _ m' m' _ (
      undeclared-thrown again.name.text again.position s _ m' now (
        subst (λ x. find_entry x s.entries ≡ some (record { name = d.name.text; value = v }))
          (sym same) found))
