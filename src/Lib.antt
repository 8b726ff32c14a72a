-- ===== src/Lib.antt =====
-- Verification of ez-cpp, a set of C++ libraries: core (reports of executions, containers, value
-- wrappers), flow (a workflow language with its interpreter and exporter), async and rpc.
--
-- How the parts interact. An execution report (src/libs/core/headers/ez/reporting/ExecutionReport.hpp)
-- keeps its messages, sub items and sub reports in append-only block vectors
-- (AppendOnlyStableVector.hpp). A change of status, progress, messages or sub reports notifies the
-- observers of the report and of every report above it; progress goes up to the parents, cancelling
-- goes down to the sub reports, and a status guard (ExecutionStatusGuard.hpp) drives the status of a
-- report through a scope. The flow interpreter keeps names, types and pending control flow in a stack
-- of scopes (src/libs/flow/src/engine/eval/evaluation_context.cpp); the exporter
-- (src/libs/flow/src/exporter/exporter.cpp) prints a parsed program as JSON.
--
-- Container/StableVector: AppendOnlyStableVector. A vector is its blocks and its three counters;
--   append, at, last, visit and visit_while_true are the functions of the same names. Growth has the
--   shape that appends keep, Access the indices, Visits the loops.
-- Reporting/Types, Reporting/Progress: reporting/Types.hpp. A progress is the unsigned char it is kept
--   in; the conversions from int, double and counts wrap before they clamp, as there.
-- Reporting/Store: ExecutionReportData and ExecutionReportItem. Reports stand in a store, pointers to
--   them are indices, and the calls of observers are recorded in order. Store/Frame has what a write
--   leaves alone, Store/Hierarchy what a hierarchy without a cycle is.
-- Reporting/Report: making, joining, observing, notifying and logging. Report/Notices, Report/Logging
--   (with ExecutionLogMessageBuilder) and Report/Items hold what is known of them.
-- Reporting/Updates: set_status, set_progress, update_progress_from_sub_reports and the functions they
--   call. Rising and Means describe the way up, Propagation proves it, Cancelling the way down, and
--   Statuses the other status changes.
-- Reporting/StatusGuard: ExecutionStatusGuard. The clock and std::uncaught_exceptions are arguments.
--   StatusGuard/Outcome is about a report without sub reports.
-- Ownership: Cow.hpp and Shared.hpp, a heap of cells and of objects that point to them.
-- Flags: Flags.hpp, on the bits of the underlying integer.
-- Flow/Types, Flow/Scope: the static types of entities and the scope stack. Lookup is about names,
--   Unwinding about return and break, Shape about the invariant of the stack.
-- Flow/Ast, Flow/Ast/Statements: headers/ez/flow/ast.hpp, type by type.
-- Flow/Json, Flow/Export: exporter.cpp and Program::get_code. boost::json is not part of the
--   repository: it is the parameter `Json`, a record of the calls that the exporter makes and of one
--   documented law of assignment to a key. Export/Tests gives an implementation of it.
-- Flow/Conversion: engine/conversion/json.hpp, against a second interface to boost::json, `JsonReader`,
--   whose laws say that a value is of the kind it was made of and how an object lists its entries.
-- Flow/Duration: the two conversions of DurationStorage.
-- Flow/Entity: entity.hpp and the value types under engine/types. Values that share a payload are
--   numbers of cells of one heap.
-- Flow/Machine: what the interpreter changes (the scope stack, the heap, the events that reach the
--   outside) and computations on it, which end with a value, an exception, where their coroutine is
--   destroyed, or where the model stops. Machine/Scoped has the pushes with their pops and the
--   timeouts, Machine/Quiet the computations that leave the scope stack alone, Machine/Relation the
--   relations that all compositions keep, Machine/Runs single steps.
-- Flow/Values: the operations of the types (engine/types): Values itself constructors, assignment,
--   conversion and properties, Values/Dictionaries the dictionary types and call arguments,
--   Values/Operators, Values/Printing (representations, println, str_format, panic), Values/Requests
--   (what the delegates are sent and answer). Values/Host names what comes from outside: doubles,
--   Boost's formatting, the delegates, and whether the timer of an awaited invocation fires. Quiet,
--   Effects and Outputs show that they leave the scope stack alone; Numbers and Defaults what some
--   compute.
-- Flow/Interpreter: engine/eval. Terms, Expressions, Statements and Invocations have one function for
--   each eval function of interpreter_expression.cpp, interpreter_workflow.cpp and
--   interpreter_program.cpp; the function that evaluates an awaited invocation is an argument of the
--   first three. Related shows that every relation that compositions keep holds of the interpreter;
--   Safety applies it to what Kept says of the scope stack. Results is about the types of results, Loops
--   about repeat, Conditionals about if, elif and else, Declarations about declared names.
-- Async/Receiver, Continuation, Task, Operation, TaskPool, WhenAny, WhenAll: the files of these names
--   under src/libs/async/headers/ez/async (Continuation is in detail/WhenAny.hpp and detail/WhenAll.hpp,
--   TaskPool in Executor.hpp, race of Race.hpp in Operation). A coroutine is how far it is, and the
--   resumptions of the one that awaits are recorded. Latch, Starts, Refines and Joins are about one
--   completion, the start of all tasks, and the contracts of a race and of a join.
-- Rpc/Messages, Function, Service, Client: src/libs/rpc, with the messages that protobuf generates as
--   the parameter `Protobuf`, whose laws say that a written message is read back. Client/Queries and
--   Client/Replies are about waiting calls, Call about a call through both sides. Rpc/Wire stands for
--   protobuf in the tests.
--
-- Bounds and fuel. Recursion over reports takes rounds, bounded by the number of reports in the store:
-- on a hierarchy without a cycle the depth of a report is below that number, and the theorems that an
-- operation ends say that this is enough. The interpreter takes a round for each invocation that is
-- awaited within another, which a program may nest without end; printed and sent values take a round
-- for each nested container, and so does reading JSON. Repeat blocks have the source's own bound.
-- Counts, positions and sums are natural numbers; where the source's type wraps around and the program
-- can reach it, the wrap is written out (% 2 ^ 8, % 2 ^ 32, % 2 ^ 64). A duration is a number of 64 bits
-- with a sign, and has no value where the source overflows. The rounded quotient of two sums stands for
-- the double of the source, exact below the bounds that Reporting/Progress names.
--
-- Timeouts. Where the interpreter waits, the platform says whether the timer of an awaited invocation
-- fires: the coroutines of the invocation are then destroyed, which pops the scopes of its blocks and
-- leaves that of the invocation, as in the source. An invocation that ends without waiting goes on
-- once; that when_any resumes its coroutine a second time is modelled in Async/WhenAny only.
--
-- Not modelled: threads (one operation runs at a time, so a compare-exchange after its load succeeds;
-- an observer does not change a report); a signed sum or product that overflows, which is undefined; the
-- task that runs an interpreter and logs what it throws; the parser, which is made of boost::spirit
-- rules; the timers and executors of boost::asio, and waiting for a coroutine on a thread; templates
-- that only adapt types (Tuple, Mixin, TypeUtils, rpl); formatting and output.
pub mod Prelude
pub mod Async
pub mod Container
pub mod Flags
pub mod Flow
pub mod Ownership
pub mod Reporting
pub mod Rpc
