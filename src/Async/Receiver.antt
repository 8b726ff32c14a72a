-- ===== src/Async/Receiver.antt =====
-- Receiver of src/libs/async/headers/ez/async/Receiver.hpp: what a coroutine ended with.
use ez_cpp.Prelude.{◌≡◌, refl, Bool, true, false}

-- The alternatives of `m_value`; E is std::exception_ptr.
pub data Receiver (A E : Type 0) : Type 0 where
  monostate : Receiver A E
  value : A → Receiver A E
  exception : E → Receiver A E

-- What a call gives: a value, the exception that it rethrows, or ValueNotSet.
pub data Got (A E : Type 0) : Type 0 where
  got : A → Got A E
  rethrown : E → Got A E
  value_not_set : Got A E

-- How the body of a coroutine ends: by co_return or by an exception.
pub data Ending (A E : Type 0) : Type 0 where
  returned : A → Ending A E
  threw : E → Ending A E

module _ {A E : Type 0} where
  unfoldable pub has_value : Receiver A E → Bool
  has_value (value a) = true
  has_value _ = false

  unfoldable pub set_value : A → Receiver A E → Receiver A E
  set_value a r = value a

  unfoldable pub unhandled_exception : E → Receiver A E → Receiver A E
  unhandled_exception e r = exception e

  unfoldable pub get : Receiver A E → Got A E
  get (exception e) = rethrown e
  get monostate = value_not_set
  get (value a) = got a

  -- The calls that the end of a body makes on its promise.
  unfoldable pub receive : Ending A E → Receiver A E → Receiver A E
  receive (returned a) r = set_value a r
  receive (threw e) r = unhandled_exception e r

  -- What an ending gives to the one who asks.
  abbrev pub outcome : Ending A E → Got A E
  outcome (returned a) = got a
  outcome (threw e) = rethrown e

  pub get-receive : (o : Ending A E) (r : Receiver A E) → get (receive o r) ≡ outcome o
  unfolding get receive set_value unhandled_exception
  get-receive (returned a) r = refl
  get-receive (threw e) r = refl
