-- ===== src/Registry/Types.antt =====
-- The state of daemon-go/peer/registry.go. Times are numbers of nanoseconds. What the registry asks
-- of its injected transport and process probe is an argument of the operations.
use repowire.Prelude.{ℕ, ◌+◌, ◌*◌, String, Bool, true, Option, List, [], ◌∷◌, ◌++◌, insert}
use repowire.Proto.{PeerId, Peer, SessionMapping}
use repowire.Fsm.{LifecycleState}

pub record PeerState : Type 0 where
  pub peer : Peer
  pub state : LifecycleState

pub record Retirement : Type 0 where
  pub at : ℕ
  pub hard : Bool

-- An event of the journal, by its type and its subject; payloads are left out.
pub record Event : Type 0 where
  pub kind : String
  pub peer_id : PeerId

-- What the registry calls on the seams injected into it, in order.
pub data SeamCall : Type 0 where
  close_transport offline_hook redeliver forget_peer : PeerId → SeamCall
  terminal_hook : PeerId → String → SeamCall

-- The answers of the injected seams: the transport, the liveness and the process probe (none where a
-- probe is absent or inconclusive), and whether an ask tracker is wired.
pub record Seams : Type 0 where
  pub has_transport : Bool
  pub has_asks : Bool
  pub connected : PeerId → Bool
  pub pid_alive : ℕ → Bool
  pub ancestors : ℕ → Option (List ℕ)
  pub pane_root_pid : String → Option ℕ

abbrev pub Entry : Type 0
Entry = PeerId × PeerState

pub record Registry : Type 0 where
  pub peers : List (PeerId × PeerState)
  pub mappings : List (PeerId × SessionMapping)
  pub mappings_dirty : Bool
  pub mappings_version : ℕ
  pub retired : List (PeerId × Retirement)
  pub heartbeat_interval : ℕ
  pub events : List Event
  pub retired_ttl : ℕ
  pub reap_ttl : ℕ
  pub description_ttl : ℕ
  pub description_set_at : List (PeerId × ℕ)
  pub calls : List SeamCall

-- `HeartbeatTolerance`
unfoldable pub heartbeat_tolerance : Registry → ℕ
heartbeat_tolerance r = r.heartbeat_interval * 2

-- `markMappingsDirtyLocked`
abbrev pub mark_mappings_dirty : Registry → Registry
mark_mappings_dirty r = record r {
  mappings_dirty = true;
  mappings_version = r.mappings_version + 1;
}

-- `appendEvent`
abbrev pub log_event : String → PeerId → Registry → Registry
log_event kind id r = record r { events = r.events ++ (record { kind = kind; peer_id = id }) ∷ [] }

abbrev pub call : SeamCall → Registry → Registry
call c r = record r { calls = r.calls ++ c ∷ [] }

abbrev pub set_peer : PeerId → PeerState → Registry → Registry
set_peer id ps r = record r { peers = insert id ps r.peers }

abbrev pub set_mapping : PeerId → SessionMapping → Registry → Registry
set_mapping id m r = mark_mappings_dirty (record r { mappings = insert id m r.mappings })
