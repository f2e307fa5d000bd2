-- ===== src/Registry/Allocate.antt =====
-- `AllocateAndRegister` of daemon-go/peer/registry.go. `token` is the random part of a minted id.
mod Identity
mod Reconnect
unfoldable pub use Identity.*
unfoldable pub use Reconnect.*
use repowire.Prelude.{
  ℕ, String, Bool, false, ◌&&◌, ◌||◌, ◌==◌, Option, none, some, first, insert, lookup,
  if◌then◌else◌,
}
use repowire.Proto.{PeerId, PeerRole, PeerStatus, DisplayName, agent_name, Peer, SessionMapping}
use repowire.Fsm.{LifecycleState, connect, apply, to_status}
use repowire.Registry.Types.{PeerState, Entry, Registry, Seams, log_event, set_peer, set_mapping}
use repowire.Registry.Lifecycle.{contradict, status_or, schedule_redelivery}
use repowire.Registry.Pane.{
  recently_seen, holds_pane, is_pid, live_pane_holder, fresh_orchestrator_pane, pane_claim_proven,
}
use repowire.Registry.Names.{AllocateParams, text_of, build_display_name}

-- (d.5) What the evidence gates decide about the pane of a fresh registration.
pub data PaneGate : Type 0 where
  hijack : PeerId → PaneGate
  sticky : PeerId → PeerState → PaneGate
  granted : Option String → Registry → PaneGate

abbrev pub is_parent : Option ℕ → Option ℕ → Bool
is_parent none holder = false
is_parent (some parent) holder = is_pid holder parent

-- (1) The claimant's parent is the live holder's agent.
abbrev pub is_hijacked : Seams → ℕ → AllocateParams → String → Entry → Bool
is_hijacked seams now p pane e =
    holds_pane pane e.1.peer
    && (is_parent p.parent_pid e.1.peer.agent_pid
        && (recently_seen now e.1.peer || seams.connected e.1.peer.peer_id))

-- (3) Proof against a live holder.
unfoldable pub prove_claim : Seams → ℕ → AllocateParams → String → Registry → PaneGate
unfolding live_pane_holder pane_claim_proven
prove_claim seams now p pane r = elim (live_pane_holder seams now pane r) [
  | none ↦ granted (some pane) r
  | some e ↦
      if pane_claim_proven seams pane e.1.peer p.agent_pid
      then granted (some pane) r
      else granted none (log_event "pane_claim_rejected" e.1.peer.peer_id r)
]

abbrev pub same_workspace : AllocateParams → Peer → Bool
same_workspace p holder =
    agent_name holder.backend == agent_name p.backend && holder.circle == p.circle

-- (2) The sticky orchestrator.
unfoldable pub pane_gate : Seams → ℕ → AllocateParams → String → Registry → PaneGate
unfolding fresh_orchestrator_pane prove_claim
pane_gate seams now p pane r = elim (first (is_hijacked seams now p pane) r.peers) [
  | some e ↦ hijack e.1.peer.peer_id
  | none ↦ elim (fresh_orchestrator_pane now pane r) [
    | some e ↦ if same_workspace p e.1.peer then sticky e.0 e.1 else granted none r
    | none ↦ prove_claim seams now p pane r
  ]
]

unfoldable pub gate : Seams → ℕ → AllocateParams → Registry → Option String → PaneGate
unfolding pane_gate
gate seams now p r none = granted none r
gate seams now p r (some pane) =
    if pane == "" then granted (some pane) r else pane_gate seams now p pane r

-- What the durable mapping restores: role, circle, description, display name and model.
pub record Durable : Type 0 where
  pub role : PeerRole
  pub circle : String
  pub description : String
  pub display_name : DisplayName
  pub model : Option String

unfoldable pub durable : AllocateParams → DisplayName → Option SessionMapping → Durable
durable p name none = record {
  role = p.role;
  circle = p.circle;
  description = "";
  display_name = name;
  model = p.model;
}
durable p name (some m) = record {
  role = m.role;
  circle = m.circle;
  description = m.description;
  display_name = m.display_name;
  model = or_opt p.model m.model;
}

unfoldable pub fresh_peer :
    ℕ → AllocateParams → PeerId → Durable → Option String → LifecycleState → PeerState
unfolding to_status
fresh_peer now p id d pane state = record {
  state = state;
  peer = record {
    peer_id = id;
    display_name = d.display_name;
    path = text_of p.path;
    machine = p.machine;
    tmux_session = p.tmux_session;
    pane_id = pane;
    backend = p.backend;
    model = d.model;
    circle = d.circle;
    role = d.role;
    status = status_or (to_status state) PeerStatus.offline;
    turn_state = text_of p.turn_state;
    last_seen = some now;
    metadata = p.metadata;
    description = d.description;
    agent_pid = p.agent_pid;
  };
}

abbrev pub fresh_mapping : ℕ → AllocateParams → PeerId → Durable → SessionMapping
fresh_mapping now p id d = record {
  session_id = id;
  display_name = d.display_name;
  circle = d.circle;
  backend = p.backend;
  path = p.path;
  role = d.role;
  updated_at = now;
  description = d.description;
  model = d.model;
  agent_pid = p.agent_pid;
}

-- (e) A fresh record for a new, reclaimed or adopted identity.
unfoldable pub store_fresh :
    Seams
    → ℕ
    → AllocateParams
    → PeerId
    → Durable
    → Option String
    → LifecycleState
    → Registry
    → Allocated × Registry
unfolding fresh_peer release_claimed insert
store_fresh seams now p id d pane state r =
    let stored = set_peer id (fresh_peer now p id d pane state) r in
    let mapped = set_mapping id (fresh_mapping now p id d) (release_claimed now pane id stored) in
    (allocated id d.display_name, schedule_redelivery seams id (log_event "peer_online" id mapped))

unfoldable pub connect_fresh :
    Seams
    → ℕ
    → AllocateParams
    → DisplayName
    → PeerId
    → Option String
    → Registry
    → Allocated × Registry
unfolding apply durable store_fresh lookup
connect_fresh seams now p name id pane r = elim (apply LifecycleState.unregistered connect) [
  | none ↦ (illegal_connect, contradict id r)
  | some next ↦ store_fresh seams now p id (durable p name (lookup id r.mappings)) pane next r
]

unfoldable pub register_gated :
    Seams → ℕ → AllocateParams → DisplayName → PeerId → Registry → PaneGate → Allocated × Registry
unfolding connect_fresh insert
register_gated seams now p name id r (hijack holder) =
    (hijack_rejected, log_event "pane_claim_rejected" holder r)
register_gated seams now p name id r (sticky key ps) = (
  allocated ps.peer.peer_id ps.peer.display_name,
  set_peer key
      (record ps {
        peer = record ps.peer {
          last_seen = some now;
          model = or_opt p.model ps.peer.model;
          turn_state = turn_or p.turn_state ps.peer.turn_state;
        };
      })
      r,
)
register_gated seams now p name id r (granted pane journalled) =
    connect_fresh seams now p name id pane journalled

unfoldable pub register_as :
    Seams → ℕ → AllocateParams → Bool → DisplayName → PeerId → Registry → Allocated × Registry
unfolding lookup reconnect_peer register_gated gate
register_as seams now p recovered name id r = elim (lookup id r.peers) [
  | some ps ↦ reconnect_peer seams now p recovered id ps r
  | none ↦ register_gated seams now p name id r (gate seams now p r p.pane_id)
]

unfoldable pub register_admitted :
    Seams → (ℕ → String) → String → ℕ → AllocateParams → Bool → Registry → Allocated × Registry
unfolding build_display_name choose_id register_as
register_admitted seams decimal token now p recovered r = elim (build_display_name decimal p r) [
  | none ↦ (endless, r)
  | some name ↦ register_as seams now p recovered name (choose_id token p name r) r
]

-- `AllocateAndRegister`
unfoldable pub allocate_and_register :
    Seams → (ℕ → String) → String → ℕ → AllocateParams → Registry → Allocated × Registry
unfolding admit_claim register_admitted
allocate_and_register seams decimal token now p r = elim (admit_claim seams p r p.claimed_peer_id) [
  | none ↦ (peer_retired, r)
  | some (recovered, admitted) ↦ register_admitted seams decimal token now p recovered admitted
]
