-- ===== src/Tests.antt =====
-- Small inputs for the components: runs of the code, and the theorems applied.
pub mod Packing
pub mod Conn
pub mod Rpc
pub mod Fulfiller
pub mod Serialization
pub mod Pointer
pub mod Runs
pub mod Lists
