-- ===== src/Ask.antt =====
-- daemon-go/service/ask_tracker.go: the in-memory store of open ask threads.
pub mod Types
pub mod Channel
pub mod Ops
pub mod Replies
pub mod Sweep
pub mod Wait
pub mod Inv
pub mod Evict
pub mod Step
pub mod Run
pub mod Guarantees
pub mod Threads
pub mod Reminders
pub mod Wakes
mod Tests
