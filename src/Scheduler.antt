-- ===== src/Scheduler.antt =====
-- src/shed/scheduler.h and scheduler.cpp: the ring of tasks, the timer tick and the task calls.
pub mod Task
pub mod Search
pub mod Create
pub mod Switch
pub mod Calls
pub mod Ring
pub mod Valid
pub mod Born
pub mod Saved
pub mod Tick
pub mod Fair
pub mod Find
pub mod Kill
mod Tests
