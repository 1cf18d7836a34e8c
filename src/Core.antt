-- ===== src/Core.antt =====
-- src/core: sequence numbers, message chunks and the connection's hello.
pub mod Sequence
pub mod Uasc
pub mod Chunk
pub mod Framing
pub mod Response
pub mod OpenResponse
pub mod Tcp
mod Tests
