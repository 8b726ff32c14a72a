-- ===== src/Flow/Interpreter/Related.antt =====
-- A relation between computations that their composition keeps holds of the interpreter with itself, for
-- two ways to evaluate an awaited invocation that it relates.
pub mod Terms
pub mod Expressions
pub mod Statements
pub mod Invocations
