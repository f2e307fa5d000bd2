-- ===== src/Registry/Allocate/Reconnect.antt =====
-- `AllocateAndRegister` of daemon-go/peer/registry.go: the reconnect of a peer that is in the table.
use repowire.Prelude.{
  ℕ, String, Bool, ◌||◌, ◌==◌, Option, none, some, insert, lookup, if◌then◌else◌,
}
use repowire.Json.{Fields, end, field}
use repowire.Proto.{PeerId}
use repowire.Fsm.{LifecycleState, reconnect, stop, reclaim_with_live_agent, apply, to_status}
use repowire.Registry.Types.{PeerState, Registry, Seams, log_event, set_peer, set_mapping}
use repowire.Registry.Access.{merge_opt}
use repowire.Registry.Lifecycle.{status_or, schedule_redelivery}
use repowire.Registry.Pane.{release_pane}
use repowire.Registry.Names.{AllocateParams}
use repowire.Registry.Allocate.Identity.{Allocated, allocated, or_opt}

abbrev pub state_or : Option LifecycleState → LifecycleState → LifecycleState
state_or none old = old
state_or (some next) old = next

-- (d) The state after a reconnect; `recovered` is the proof that the retirement guard accepted.
unfoldable pub reconnect_state : Bool → LifecycleState → LifecycleState
unfolding apply
reconnect_state recovered LifecycleState.offline =
    state_or (apply LifecycleState.offline reconnect) LifecycleState.offline
reconnect_state recovered LifecycleState.busy =
    state_or (apply LifecycleState.busy stop) LifecycleState.busy
reconnect_state recovered LifecycleState.retired =
    if recovered
    then state_or (apply LifecycleState.retired reclaim_with_live_agent) LifecycleState.retired
    else LifecycleState.retired
reconnect_state recovered state = state

-- `len(params.Metadata) > 0` merges.
unfoldable pub merged_metadata : Option Fields → Option Fields → Option Fields
merged_metadata none old = old
merged_metadata (some end) old = old
merged_metadata (some (field k v m)) old = some (merge_opt (field k v m) old)

abbrev pub machine_or : String → String → String
machine_or new old = if new == "" || new == "unknown" then old else new

abbrev pub turn_or : Option String → String → String
turn_or none old = old
turn_or (some turn) old = turn

unfoldable pub reconnected : ℕ → AllocateParams → Bool → PeerState → PeerState
unfolding reconnect_state merged_metadata to_status
reconnected now p recovered ps =
    let target = reconnect_state recovered ps.state in
    record ps {
      state = target;
      peer = record ps.peer {
        status = status_or (to_status target) ps.peer.status;
        last_seen = some now;
        model = or_opt p.model ps.peer.model;
        pane_id = or_opt p.pane_id ps.peer.pane_id;
        tmux_session = or_opt p.tmux_session ps.peer.tmux_session;
        machine = machine_or p.machine ps.peer.machine;
        agent_pid = or_opt p.agent_pid ps.peer.agent_pid;
        turn_state = turn_or p.turn_state ps.peer.turn_state;
        metadata = merged_metadata p.metadata ps.peer.metadata;
      };
    }

unfoldable pub release_claimed : ℕ → Option String → PeerId → Registry → Registry
unfolding release_pane
release_claimed now none id r = r
release_claimed now (some pane) id r = if pane == "" then r else release_pane now pane id r

unfoldable pub refresh_mapping : ℕ → AllocateParams → PeerId → Registry → Registry
unfolding lookup insert
refresh_mapping now p id r = elim (lookup id r.mappings) [
  | none ↦ r
  | some m ↦
      set_mapping id
        (record m {
          updated_at = now;
          model = or_opt p.model m.model;
          agent_pid = or_opt p.agent_pid m.agent_pid;
        })
        r
]

unfoldable pub reconnect_peer :
    Seams → ℕ → AllocateParams → Bool → PeerId → PeerState → Registry → Allocated × Registry
unfolding reconnected release_claimed refresh_mapping insert
reconnect_peer seams now p recovered id ps r =
    let updated = set_peer id (reconnected now p recovered ps) r in
    let released = release_claimed now p.pane_id id updated in
    let online = log_event "peer_online" id (refresh_mapping now p id released) in
    (allocated id ps.peer.display_name, schedule_redelivery seams id online)
