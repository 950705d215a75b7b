-- ===== src/Rpc/Conn.antt =====
-- src/rpc/conn.ts: the connection, its tables and its handlers, with the questions of
-- src/rpc/question.ts, the answer entries of src/rpc/answer.ts and the imported clients of
-- src/rpc/import-client.ts, which reach back into it.
pub mod Wire
pub mod State
pub mod Questions
pub mod Exports
pub mod Imports
pub mod Answers
pub mod Caps
pub mod Fulfill
pub mod Handlers
pub mod Returns
pub mod Calls
pub mod Dispatch
pub mod Valid
pub mod Settling
pub mod Waiters
pub mod Asking
pub mod Shutdown
