-- ===== src/Fsm.antt =====
-- daemon-go/peer/fsm.go: the peer lifecycle state machine. `apply` is the transition function, in
-- the order of the source's cases. `none` is `ErrIllegalTransition`, which leaves the state as it
-- was. The wire status is written `PeerStatus.…`, since the two enums share words.
pub mod Reach
mod Tests
use repowire.Prelude.{Option, none, some}
use repowire.Proto.{PeerStatus}

pub data LifecycleState : Type 0 where
  unregistered online busy offline retired : LifecycleState

pub data LifecycleEvent : Type 0 where
  connect user_prompt_submit notification stop transport_disconnect ghost_demote : LifecycleEvent
  pane_displaced terminal_offline reconnect reap reclaim_with_live_agent : LifecycleEvent

unfoldable pub apply : LifecycleState → LifecycleEvent → Option LifecycleState
apply unregistered connect = some online
apply online user_prompt_submit = some busy
apply online notification = some online
apply online stop = some online
apply online transport_disconnect = some offline
apply online ghost_demote = some offline
apply online pane_displaced = some offline
apply online terminal_offline = some retired
apply busy stop = some online
apply busy notification = some online
apply busy user_prompt_submit = some busy
apply busy transport_disconnect = some offline
apply busy ghost_demote = some offline
apply busy pane_displaced = some offline
apply busy terminal_offline = some retired
apply offline terminal_offline = some retired
apply offline reconnect = some online
apply offline reap = some retired
apply retired reclaim_with_live_agent = some online
apply _ _ = none

-- `ToStatus`: the second result `false` is `none`.
unfoldable pub to_status : LifecycleState → Option PeerStatus
to_status online = some PeerStatus.online
to_status busy = some PeerStatus.busy
to_status offline = some PeerStatus.offline
to_status retired = some PeerStatus.offline
to_status unregistered = none
