-- ===== src/Rpc.antt =====
-- rpc/: calls of protobuf services over HTTP.
pub mod Protobuf
pub mod Serve
pub mod Status
pub mod Channel
pub mod Reply
pub mod Roundtrip
pub mod Parsed
mod Tests
