-- ===== src/Serialization.antt =====
-- src/serialization: messages, their segments and arenas, and the stream framing.
pub mod Word
pub mod Arena
pub mod Message
pub mod Access
pub mod Framing
pub mod ObjectSize
pub mod Context
pub mod Pointer
pub mod List
pub mod Struct
pub mod Root
