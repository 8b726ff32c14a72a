-- ===== src/Flow.antt =====
-- src/libs/flow: the flow language and its interpreter.
pub mod Types
pub mod Scope
pub mod Ast
pub mod Json
pub mod Export
pub mod Duration
pub mod Conversion
pub mod Entity
pub mod Machine
pub mod Values
pub mod Interpreter
