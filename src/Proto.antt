-- ===== src/Proto.antt =====
-- daemon-go/proto/proto.go: the typed enums of the wire contract and the peer record. A Go string
-- type keeps its texts where the code compares them; the closed enums are data types.
use repowire.Json
use repowire.Json.{Json, Fields, Items, nil, cons, str}
use repowire.Prelude.{ℕ, String, Bool, true, false, ◌==◌, Option, none, some, if◌then◌else◌}

-- `PeerID` is identity and `DisplayName` is addressing. Both are Go strings.
abbrev pub PeerId : Type 0
PeerId = String

abbrev pub DisplayName : Type 0
DisplayName = String

pub data PeerStatus : Type 0 where
  online busy offline : PeerStatus

pub data PeerRole : Type 0 where
  agent service orchestrator human : PeerRole

pub PeerRole-discrete : Discrete PeerRole
PeerRole-discrete = hlevel

-- `BypassesCircles`
unfoldable pub bypasses_circles : PeerRole → Bool
bypasses_circles agent = false
bypasses_circles service = true
bypasses_circles orchestrator = true
bypasses_circles human = true

abbrev pub is_orchestrator : PeerRole → Bool
is_orchestrator orchestrator = true
is_orchestrator _ = false

abbrev pub is_agent : PeerRole → Bool
is_agent agent = true
is_agent _ = false

abbrev pub is_offline : PeerStatus → Bool
is_offline offline = true
is_offline _ = false

pub data AgentType : Type 0 where
  claude_code open_code codex pi mcp_http : AgentType

-- The texts of `AgentType`
unfoldable pub agent_name : AgentType → String
agent_name claude_code = "claude-code"
agent_name open_code = "opencode"
agent_name codex = "codex"
agent_name pi = "pi"
agent_name mcp_http = "mcp-http"

pub record Peer : Type 0 where
  pub peer_id : PeerId
  pub display_name : DisplayName
  pub path : String
  pub machine : String
  pub tmux_session : Option String
  pub pane_id : Option String
  pub backend : AgentType
  pub model : Option String
  pub circle : String
  pub role : PeerRole
  pub status : PeerStatus
  pub turn_state : String
  pub last_seen : Option ℕ
  pub metadata : Option Fields
  pub description : String
  pub agent_pid : Option ℕ

pub record SessionMapping : Type 0 where
  pub session_id : PeerId
  pub display_name : DisplayName
  pub circle : String
  pub backend : AgentType
  pub path : Option String
  pub role : PeerRole
  pub updated_at : ℕ
  pub description : String
  pub model : Option String
  pub agent_pid : Option ℕ

-- The two cases of `HasCapability`: metadata decoded from JSON holds a `[]any`.
unfoldable pub lists_capability : String → Items → Bool
lists_capability c nil = false
lists_capability c (cons (str v) rest) = if v == c then true else lists_capability c rest
lists_capability c (cons _ rest) = lists_capability c rest

unfoldable pub has_capability : Fields → String → Bool
unfolding lists_capability
has_capability metadata c = elim (Json.as_array (Json.at "capabilities" metadata)) [
  | some values ↦ lists_capability c values
  | none ↦ false
]
