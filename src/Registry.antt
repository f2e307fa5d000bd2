-- ===== src/Registry.antt =====
-- daemon-go/peer: the peer registry, its addressing, access control, role claims and lifecycle.
pub mod Types
pub mod Resolve
pub mod Access
pub mod Role
pub mod Addressing
pub mod Latest
pub mod Duty
pub mod Orchestrators
pub mod Circles
pub mod Claims
pub mod Lifecycle
pub mod Edits
pub mod Pane
pub mod Folder
pub mod Names
pub mod Allocate
pub mod Reap
pub mod Evict
pub mod Lockstep
pub mod Ops
pub mod Naming
pub mod Panes
mod Tests
pub mod Gates
pub mod Registrations
