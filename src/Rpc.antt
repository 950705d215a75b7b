-- ===== src/Rpc.antt =====
-- src/rpc: the parts of the RPC layer that keep state of their own.
pub mod Queue
pub mod CallQueue
pub mod Fulfiller
pub mod HeldClient
pub mod IdGen
pub mod Slots
pub mod RefCount
pub mod Conn
