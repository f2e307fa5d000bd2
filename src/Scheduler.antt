-- ===== src/Scheduler.antt =====
-- Scheduled check-ins: daemon-go/state/schedules.go and daemon-go/service/scheduler.go.
pub mod Store
pub mod Round
pub mod Firing
pub mod Earliest
pub mod Timing
pub mod Tests
