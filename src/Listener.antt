-- ===== src/Listener.antt =====
-- listener.h, listener.cc and util/network.cc: the sockets that the servers listen on.
pub mod Network
pub mod Listen
pub mod Opened
pub mod Bound
pub mod Tests
