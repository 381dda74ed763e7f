-- ===== src/Frame.antt =====
-- thread.h, thread.cc, frame.h and frame.cc: coroutines and the scheduler that runs them.
pub mod Heap
pub mod Waits
pub mod State
pub mod Pending
pub mod Timeout
pub mod Wakeup
pub mod Wrapper
pub mod Steps
pub mod Ownership
pub mod Invariant
pub mod Turns
pub mod Sleepers
pub mod Dropped
mod SortedTimers
mod Tests
