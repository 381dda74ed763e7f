-- ===== src/Mutex.antt =====
-- mutex.h and mutex.cc: the lock by which the worker processes take turns at a listening socket.
pub mod Defs
pub mod Workers
pub mod Exclusion
mod Tests
