-- ===== src/Flow/Machine/Runs.antt =====
-- How composed computations run, one step after the other.
use ez_cpp.Prelude.{ℕ, ◌≡◌, refl, some, get_elem?}
use ez_cpp.Flow.Entity.{Entity, Payload}
use ez_cpp.Flow.Scope.{Scope, current}
use ez_cpp.Flow.Machine.{Machine, Exception, Eval, done, thrown, ◌>>=◌, payload, current_scope}

pub >>=-done :
    {A B : Type 0} (c : Eval A) (f : A → Eval B) (m n : Machine) (a : A)
    → c m ≡ done a n
    → (c >>= f) m ≡ f a n
unfolding ◌>>=◌
>>=-done c f m n a e = rw (e, ◌>>=◌) refl

pub >>=-thrown :
    {A B : Type 0} (c : Eval A) (f : A → Eval B) (m n : Machine) (x : Exception)
    → c m ≡ thrown x n
    → (c >>= f) m ≡ thrown x n
unfolding ◌>>=◌
>>=-thrown c f m n x e = rw (e, ◌>>=◌) refl

pub current_scope-done :
    (m : Machine) (s : Scope Entity)
    → current m.evaluation_scope ≡ some s
    → current_scope m ≡ done s m
unfolding current_scope
current_scope-done m s e = rw (e, current_scope) refl

pub payload-done :
    (p : ℕ) (v : Payload) (m : Machine) → get_elem? m.heap p ≡ some v → payload p m ≡ done v m
unfolding payload
payload-done p v m e = rw (e, payload) refl
