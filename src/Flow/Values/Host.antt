-- ===== src/Flow/Values/Host.antt =====
-- What the flow engine uses of the machine, of Boost and of its host: the doubles, the texts of
-- std::format and boost::format for them, the clock, the program's text, and the delegates of
-- src/libs/flow/headers/ez/flow/extensions.hpp with the timers they race against. And a Result<Entity,
-- EvaluationError>, whose error has no location yet.
use ez_cpp.Prelude.{ℕ, String, Bool, Option, List}
use ez_cpp.Prelude.Int.{ℤ}
use ez_cpp.Flow.Ast.{Located}
use ez_cpp.Flow.Entity.{Entity, DictionaryKind}
use ez_cpp.Flow.Conversion.{DictionaryMap}
use ez_cpp.Flow.Machine.{Event, Eval, ◌>>=◌, pure, past, interrupt, from_option}

pub record Platform : Type 0 where
  pub real_of_int : ℤ → ℕ
  pub int_of_real : ℕ → ℤ
  pub real_add : ℕ → ℕ → ℕ
  pub real_sub : ℕ → ℕ → ℕ
  pub real_mult : ℕ → ℕ → ℕ
  pub real_less : ℕ → ℕ → Bool
  pub real_less_eq : ℕ → ℕ → Bool
  pub real_eq : ℕ → ℕ → Bool
  pub real_text : ℕ → String
  -- What a string holds after it was moved from.
  pub moved_from : String → String
  -- The time at which the type `time_point` was made.
  pub start_time : ℕ
  -- "{}({})" of an entity's type and address.
  pub address_text : Entity → String
  -- `boost::replace_all` and `boost::format`, `none` where it throws.
  pub replace_all : String → String → String → String
  pub boost_format : String → List String → Option String
  pub code : Located → String
  pub file_path : String
  -- The reply of a delegate, `none` where the timeout comes first.
  pub answer : DictionaryKind → DictionaryMap → List Event → Option DictionaryMap
  -- Whether the timer of an awaited invocation fires where the program waits now: `some k` for the
  -- invocation within which k others are being awaited. Where there are not so many, the host has
  -- dropped the whole program.
  pub interrupts : List Event → Option ℕ

-- The program waits: for a delay, or for the reply of a delegate.
unfoldable pub suspend : Platform → Eval (Unit {0})
suspend P = do events ← past; from_option (P.interrupts events) (pure tt) interrupt

pub data EvalResult : Type 0 where
  ok : Entity → EvalResult
  fail : String → EvalResult
