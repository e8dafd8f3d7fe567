-- ===== src/WorkSteal.antt =====
-- hw3/work-steal.c: the work-stealing deque, its threads and its tasks.
pub mod Join
pub mod JoinTests
pub mod Scheduler
pub mod Deque
pub mod Race
