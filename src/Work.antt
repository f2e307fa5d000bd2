-- ===== src/Work.antt =====
-- daemon-go/state/work.go and work_runner.go: tracked work, its states and its runner attempts. The
-- table is an association list by work id. The database itself is not modelled: a statement that
-- the database refuses has no effect in the code. A time is its text.
pub mod Types
pub mod Runner
pub mod Create
pub mod Update
pub mod Cancel
pub mod Acquire
pub mod Attempt
pub mod Recover
pub mod Stamps
pub mod Terminal
pub mod Attempts
mod Tests
