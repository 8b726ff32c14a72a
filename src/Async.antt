-- ===== src/Async.antt =====
-- The combinators of src/libs/async: receivers, tasks, when_any, when_all, operations, races and the task
-- pool. A coroutine is what the compiler makes of it: the models keep how far it is, and record each
-- resumption of the one that awaits.
pub mod Receiver
pub mod Continuation
pub mod Operation
pub mod Task
pub mod TaskPool
pub mod WhenAll
pub mod WhenAny
mod Tests
