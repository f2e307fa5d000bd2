-- ===== src/Registry/Names.antt =====
-- daemon-go/peer/registry.go: display names and the identities that a registration may take over.
-- `decimal` is how Go's fmt prints a number. The search for a free name has fuel; `none` is that it ran
-- out.
use Prim.Native.String.{◌++◌}
use repowire.Prelude.{
  ℕ, zero, suc, ◌+◌, String, Bool, not, ◌&&◌, ◌||◌, ◌==◌, Option, none, some, List, length, first,
  if◌then◌else◌,
}
use repowire.Json
use repowire.Json.{Fields}
use repowire.Proto.{PeerId, PeerRole, DisplayName, AgentType, agent_name, SessionMapping}
use repowire.Registry.Types.{Entry, Registry}
use repowire.Registry.Edits.{is_offline_state}
use repowire.Registry.Folder.{base_folder}

pub record AllocateParams : Type 0 where
  pub circle : String
  pub backend : AgentType
  pub preferred_display_name : Option DisplayName
  pub model : Option String
  pub path : Option String
  pub pane_id : Option String
  pub tmux_session : Option String
  pub machine : String
  pub role : PeerRole
  pub claimed_peer_id : Option PeerId
  pub metadata : Option Fields
  pub agent_pid : Option ℕ
  pub turn_state : Option String
  pub parent_pid : Option ℕ
  pub runtime_identity_verified : Bool

abbrev pub text_of : Option String → String
text_of none = ""
text_of (some s) = s

-- `claimMatchesIdentity`
unfoldable pub claim_matches_identity : AgentType → String → AgentType → String → Bool
claim_matches_identity existing_backend existing_path claim_backend claim_path =
    agent_name existing_backend == agent_name claim_backend
    && (existing_path == "" || (claim_path == "" || existing_path == claim_path))

abbrev pub session_at : String → Fields → String
session_at key m = text_of (Json.as_text (Json.at key m))

-- `runtimeSessionID`: the first of the three keys with a text that is not empty.
unfoldable pub runtime_session_id : Option Fields → String
unfolding Json.at Json.as_text
runtime_session_id none = ""
runtime_session_id (some m) =
    if not (session_at "hook_session_id" m == "")
    then session_at "hook_session_id" m
    else (if not (session_at "runtime_session_id" m == "")
        then session_at "runtime_session_id" m
        else session_at "session_id" m)

abbrev pub blocks_name : String → String → Entry → Bool
blocks_name candidate circle e = e.1.peer.display_name == candidate && e.1.peer.circle == circle

-- The holder of a name gives it up: a dead peer, or the same runtime session.
unfoldable pub yields : AllocateParams → Entry → Bool
unfolding runtime_session_id
yields p e =
    let incoming = runtime_session_id p.metadata in
    (not (incoming == "") && runtime_session_id e.1.peer.metadata == incoming)
    || is_offline_state e.1.state

module _ (decimal : ℕ → String) where
  unfoldable pub folder_of : AllocateParams → String
  unfolding base_folder
  folder_of p = if text_of p.path == "" then "peer" else base_folder (text_of p.path)

  unfoldable pub base_name : AllocateParams → DisplayName
  unfolding folder_of
  base_name p =
      if text_of p.preferred_display_name == ""
      then folder_of p ++ ("-" ++ agent_name p.backend)
      else text_of p.preferred_display_name

  unfoldable pub numbered_name : AllocateParams → ℕ → DisplayName
  unfolding folder_of
  numbered_name p n =
      if text_of p.preferred_display_name == ""
      then folder_of p ++ ("-" ++ (decimal n ++ ("-" ++ agent_name p.backend)))
      else text_of p.preferred_display_name ++ ("-" ++ decimal n)

  unfoldable pub name_loop : AllocateParams → List Entry → ℕ → ℕ → DisplayName → Option DisplayName
  unfolding yields
  name_loop p peers zero suffix candidate = none
  name_loop p peers (suc fuel) suffix candidate =
      let later = name_loop p peers fuel (suffix + 1) (numbered_name p suffix) in
      elim (first (blocks_name candidate p.circle) peers) [
        | none ↦ some candidate
        | some e ↦ if yields p e then some candidate else later
      ]

  -- `buildDisplayName`, with one round for each peer and two more
  unfoldable pub build_display_name : AllocateParams → Registry → Option DisplayName
  unfolding name_loop base_name
  build_display_name p r = name_loop p r.peers (suc (suc (length r.peers))) 2 (base_name p)

-- `reclaimableOfflineLocked`
abbrev pub is_reclaimable : DisplayName → String → AgentType → String → Entry → Bool
is_reclaimable name circle backend path e =
    e.1.peer.display_name == name
    && (e.1.peer.circle == circle
        && (claim_matches_identity e.1.peer.backend e.1.peer.path backend path
            && is_offline_state e.1.state))

-- `findReusableMappingLocked`
abbrev pub is_reusable : DisplayName → String → AgentType → String → PeerId × SessionMapping → Bool
is_reusable name circle backend path m =
    m.1.display_name == name
    && (m.1.circle == circle && claim_matches_identity m.1.backend (text_of m.1.path) backend path)
