-- ===== src/Queue.antt =====
-- The durable queue of deliveries: daemon-go/state/queued_deliveries.go and its replay in
-- daemon-go/hub/ws.go.
pub mod Store
pub mod Flush
pub mod Rows
pub mod Order
pub mod View
pub mod Replay
pub mod History
pub mod Tests
