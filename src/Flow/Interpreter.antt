-- ===== src/Flow/Interpreter.antt =====
-- Interpreter of src/libs/flow/src/engine/eval/interpreter.hpp: expressions, statements, and the invocations that
-- both may make.
-- An invocation takes a round for each invocation that it awaits within.
pub mod Terms
pub mod Expressions
pub mod Statements
pub mod Invocations
pub mod Related
pub mod Kept
pub mod Safety
pub mod Results
pub mod Loops
pub mod Declarations
pub mod Conditionals
mod Samples
mod Tests
mod TypedTests
