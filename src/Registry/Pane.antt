-- ===== src/Registry/Pane.antt =====
-- daemon-go/peer/registry.go: who owns a tmux pane. A search through the peers takes the first in the
-- order of the list.
use repowire.Prelude.{
  ℕ, String, Bool, true, false, not, ◌&&◌, ◌||◌, ◌==◌, Option, none, some, List, [], ◌∷◌, eqb,
  exists, first, is_text, if◌then◌else◌,
}
use repowire.Proto.{PeerId, Peer, is_orchestrator, is_offline}
use repowire.Fsm.{LifecycleState, pane_displaced, apply}
use repowire.Registry.Types.{PeerState, Entry, Registry, Seams, log_event}
use repowire.Registry.Resolve.{is_fresh}
use repowire.Registry.Lifecycle.{contradict, move}

-- `paneHeartbeatTolerance`, 60 seconds
abbrev pub pane_heartbeat_tolerance : ℕ
pane_heartbeat_tolerance = 60_000_000_000

-- `recentlySeen`
abbrev pub recently_seen : ℕ → Peer → Bool
recently_seen now p = is_fresh now pane_heartbeat_tolerance p.last_seen

abbrev pub holds_pane : String → Peer → Bool
holds_pane pane p = is_text p.pane_id pane

abbrev pub is_pid : Option ℕ → ℕ → Bool
is_pid none n = false
is_pid (some m) n = eqb m n

abbrev pub runs : Seams → Option ℕ → Bool
runs seams none = false
runs seams (some pid) = seams.pid_alive pid

-- `livePaneHolderLocked`
abbrev pub is_live_holder : Seams → ℕ → String → Entry → Bool
is_live_holder seams now pane e =
    holds_pane pane e.1.peer
    && not (is_offline e.1.peer.status)
    && runs seams e.1.peer.agent_pid
    && (recently_seen now e.1.peer || seams.connected e.1.peer.peer_id)

unfoldable pub live_pane_holder : Seams → ℕ → String → Registry → Option Entry
live_pane_holder seams now pane r = first (is_live_holder seams now pane) r.peers

abbrev pub is_fresh_orchestrator : ℕ → Peer → Bool
is_fresh_orchestrator now p =
    is_orchestrator p.role && not (is_offline p.status) && recently_seen now p

-- `isFreshOrchestratorPaneLocked`
unfoldable pub fresh_orchestrator_pane : ℕ → String → Registry → Option Entry
fresh_orchestrator_pane now pane r =
    first (λ (e : Entry). holds_pane pane e.1.peer && is_fresh_orchestrator now e.1.peer) r.peers

abbrev pub among_pids : ℕ → List ℕ → Bool
among_pids n = exists (eqb n)

abbrev pub holder_among : Option ℕ → List ℕ → Bool
holder_among none pids = false
holder_among (some pid) pids = among_pids pid pids

-- The claimant is at the root of the pane's process tree, or below it.
unfoldable pub in_pane_tree : Seams → String → ℕ → List ℕ → Bool
in_pane_tree seams pane claimant above = elim (seams.pane_root_pid pane) [
  | none ↦ true
  | some root ↦ eqb claimant root || among_pids root above
]

unfoldable pub ancestry_proves : Seams → String → Peer → ℕ → Bool
unfolding in_pane_tree
ancestry_proves seams pane holder claimant = elim (seams.ancestors claimant) [
  | none ↦ true
  | some above ↦ not (holder_among holder.agent_pid above) && in_pane_tree seams pane claimant above
]

-- `paneClaimProvenLocked`
unfoldable pub pane_claim_proven : Seams → String → Peer → Option ℕ → Bool
unfolding ancestry_proves
pane_claim_proven seams pane holder none = true
pane_claim_proven seams pane holder (some claimant) =
    is_pid holder.agent_pid claimant || ancestry_proves seams pane holder claimant

-- Whom a released pane displaces.
abbrev pub is_displaced : ℕ → String → PeerId → Entry → Bool
is_displaced now pane new e =
    not (e.0 == new) && (holds_pane pane e.1.peer && not (is_fresh_orchestrator now e.1.peer))

unfoldable pub displace : LifecycleState → ℕ → PeerState → PeerState
unfolding move
displace next now ps =
    let moved = move next now ps in record moved { peer = record moved.peer { pane_id = none } }

-- One displacement: its peer and its journal row; an illegal one is only journalled.
unfoldable pub displaced_peer : ℕ → Option LifecycleState → PeerState → PeerState
unfolding displace
displaced_peer now none ps = ps
displaced_peer now (some next) ps = displace next now ps

abbrev pub displaced_row : Option LifecycleState → PeerId → Registry → Registry
displaced_row none id r = contradict id r
displaced_row (some next) id r = log_event "peer_offline" id r

-- `releasePaneLocked`: the peers, and the registry with its journal.
unfoldable pub release_peers : ℕ → String → PeerId → List Entry → Registry → List Entry × Registry
unfolding displaced_peer
release_peers now pane new [] r = ([], r)
release_peers now pane new ((id, ps) ∷ rest) r =
    let displaced = is_displaced now pane new (id, ps) in
    let next = apply ps.state pane_displaced in
    let (peers, done) =
      release_peers now pane new rest
        (if displaced then displaced_row next ps.peer.peer_id r else r) in
    ((id, if displaced then displaced_peer now next ps else ps) ∷ peers, done)

unfoldable pub release_pane : ℕ → String → PeerId → Registry → Registry
unfolding release_peers
release_pane now pane new r =
    let (peers, done) = release_peers now pane new r.peers r in record done { peers = peers }
