-- ===== src/Rpc.antt =====
-- Remote calls of src/libs/rpc: the functions of a schema, the service that answers requests, and the
-- client that sends them.
pub mod Messages
pub mod Call
pub mod Client
pub mod Function
pub mod Service
mod Tests
mod Wire
