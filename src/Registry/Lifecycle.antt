-- ===== src/Registry/Lifecycle.antt =====
-- daemon-go/peer/registry.go: offline marks, retirement and status frames, all through the state
-- machine. What the database refuses to persist is only logged by the code, and left out.
use repowire.Prelude.{
  ℕ, String, Bool, true, false, Option, none, some, insert, erase, lookup, ◌&&◌, if◌then◌else◌,
}
use repowire.Proto.{PeerId, PeerStatus}
use repowire.Fsm.{
  LifecycleState, LifecycleEvent, transport_disconnect, terminal_offline, stop, user_prompt_submit,
  apply, to_status,
}
use repowire.Registry.Types.{
  PeerState, Registry, Seams, close_transport, offline_hook, redeliver, terminal_hook, log_event,
  call, set_peer,
}

-- `retireLocked` and `unretireLocked`
unfoldable pub retire : ℕ → PeerId → Bool → Registry → Registry
retire now id hard r = record r { retired = insert id (record { at = now; hard = hard }) r.retired }

unfoldable pub unretire : PeerId → Registry → Registry
unretire id r = record r { retired = erase id r.retired }

-- `emitContradiction`
abbrev pub contradict : PeerId → Registry → Registry
contradict = log_event "peer_contradiction"

abbrev pub status_or : Option PeerStatus → PeerStatus → PeerStatus
status_or none old = old
status_or (some s) old = s

-- A new state with its projection to the wire, seen now.
unfoldable pub move : LifecycleState → ℕ → PeerState → PeerState
unfolding to_status
move next now ps = record ps {
  state = next;
  peer = record ps.peer {
    status = status_or (to_status next) ps.peer.status;
    last_seen = some now;
  };
}

abbrev pub offline_event : Bool → LifecycleEvent
offline_event true = terminal_offline
offline_event false = transport_disconnect

-- `markOffline` after the state change: retirement, transport, journal, hooks.
unfoldable pub went_offline : Seams → ℕ → PeerId → Bool → String → Bool → Registry → Registry
unfolding retire
went_offline seams now id terminal reason hard r =
    let retired = if terminal then retire now id hard r else r in
    let closed =
      if terminal && seams.has_transport then call (close_transport id) retired else retired in
    let told = call (offline_hook id) (log_event "peer_offline" id closed) in
    if terminal then call (terminal_hook id reason) told else told

unfoldable pub mark_known_offline :
    Seams
    → ℕ
    → PeerId
    → Bool
    → String
    → Bool
    → PeerState
    → Option LifecycleState
    → Registry
    → Registry
unfolding move went_offline
mark_known_offline seams now id terminal reason hard ps none r = contradict id r
mark_known_offline seams now id terminal reason hard ps (some next) r =
    went_offline seams now id terminal reason hard (set_peer id (move next now ps) r)

-- `markOffline`; the three public forms fix its arguments.
unfoldable pub mark_offline : Seams → ℕ → PeerId → Bool → String → Bool → Registry → Registry
unfolding lookup retire mark_known_offline
mark_offline seams now id terminal reason hard r = elim (lookup id r.peers) [
  | none ↦ if terminal then retire now id hard r else r
  | some ps ↦
      mark_known_offline seams now id terminal reason hard ps
        (apply ps.state (offline_event terminal)) r
]

abbrev pub close_peer : Seams → ℕ → PeerId → String → Registry → Registry
close_peer seams now id reason = mark_offline seams now id true reason true

-- `statusToEvent`; every status has an event.
unfoldable pub status_to_event : PeerStatus → LifecycleEvent
status_to_event PeerStatus.online = stop
status_to_event PeerStatus.busy = user_prompt_submit
status_to_event PeerStatus.offline = transport_disconnect

abbrev pub comes_back : LifecycleState → LifecycleState → Bool
comes_back LifecycleState.offline LifecycleState.online = true
comes_back LifecycleState.offline LifecycleState.busy = true
comes_back _ _ = false

abbrev pub schedule_redelivery : Seams → PeerId → Registry → Registry
schedule_redelivery seams id r = if seams.has_asks then call (redeliver id) r else r

unfoldable pub update_known_status :
    Seams → ℕ → PeerId → PeerState → Option LifecycleState → Registry → Registry
unfolding move
update_known_status seams now id ps none r = contradict id r
update_known_status seams now id ps (some next) r =
    let moved = log_event "peer_status" id (set_peer id (move next now ps) r) in
    if comes_back ps.state next then schedule_redelivery seams id moved else moved

-- `UpdateStatus`
unfoldable pub update_status : Seams → ℕ → PeerId → PeerStatus → Registry → Registry
unfolding lookup status_to_event update_known_status
update_status seams now id status r = elim (lookup id r.peers) [
  | none ↦ r
  | some ps ↦ update_known_status seams now id ps (apply ps.state (status_to_event status)) r
]
