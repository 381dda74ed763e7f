-- ===== src/Socket.antt =====
-- The blocking system calls that frame.cc makes for its coroutines.
pub mod Kernel
pub mod Transfer
pub mod Connect
pub mod Exchange
pub mod Send
pub mod Recv
mod Tests
