-- ===== src/Text.antt =====
-- util/string.cc and util/string.h: splitting at a delimiter and trimming white space.
pub mod Split
pub mod Trim
mod Tests
