-- ===== src/Log.antt =====
-- util/log.h and util/log.cc: the log, its levels and the rotation of its files.
pub mod Files
pub mod History
pub mod Item
pub mod Local
pub mod Master
pub mod Names
pub mod Sound
pub mod Rotation
pub mod Refinement
mod Tests
