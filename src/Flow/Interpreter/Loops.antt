-- ===== src/Flow/Interpreter/Loops.antt =====
-- The repeat block.
use ez_cpp.Prelude.{ℕ, zero, suc, ◌≡◌, refl, ◌∙◌, true}
use ez_cpp.Flow.Ast.{Located}
use ez_cpp.Flow.Ast.Statements.{WorkflowScope, repeat_block}
use ez_cpp.Flow.Scope.{ScopeType}
use ez_cpp.Flow.Machine.{Machine, Eval, done, pure, cond}
use ez_cpp.Flow.Machine.Runs.{>>=-done}
use ez_cpp.Flow.Values.Host.{Platform}
use ez_cpp.Flow.Interpreter.Statements.{stays, repeat, eval_scope, eval_repeat, max_loop_count}
use ez_cpp.Flow.Interpreter.Related.Expressions.{Invoke}

-- A change made n times.
abbrev pub iterate : ℕ → (Machine → Machine) → Machine → Machine
iterate zero f m = m
iterate (suc n) f m = iterate n f (f m)

repeat-iterates :
    (count : ℕ) (c : Eval (Unit {0})) (change : Machine → Machine) (Goes : Machine → Type 0)
    (m : Machine)
    → ((n : Machine)
        → Goes n
        → (c n ≡ done tt (change n)) × Goes (change n) × (stays (change n) ≡ done true (change n)))
    → Goes m
    → repeat count c m ≡ done tt (iterate count change m)
unfolding repeat cond pure
repeat-iterates zero c change Goes m step goes = refl
repeat-iterates (suc count) c change Goes m step goes =
    let (ran, again, on) = step m goes in
    >>=-done c _ m (change m) tt ran
    ∙ >>=-done stays _ (change m) (change m) true on
    ∙ repeat-iterates count c change Goes (change m) step again

-- A repeat block each of whose iterations, from where `Goes` holds of the machine, makes the same change,
-- leaves no return or break pending and stays where `Goes` holds: it ends, without an error, after exactly
-- `max_loop_count` iterations.
pub eval_repeat-iterates :
    (P : Platform) (n : ℕ) (invoke : Invoke) (l : Located) (scope : WorkflowScope)
    (change : Machine → Machine) (Goes : Machine → Type 0) (m : Machine)
    → ((k : Machine)
        → Goes k
        → (eval_scope P n invoke scope ScopeType.loop k ≡ done tt (change k))
          × Goes (change k)
          × (stays (change k) ≡ done true (change k)))
    → Goes m
    → eval_repeat P n invoke (repeat_block l scope) m ≡ done tt (iterate 1000 change m)
unfolding eval_repeat
eval_repeat-iterates P n invoke l scope change Goes m step goes =
    repeat-iterates max_loop_count _ change Goes m step goes
