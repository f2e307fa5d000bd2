-- ===== src/Registry/Edits.antt =====
-- daemon-go/peer/registry.go and registry_lifecycle_byname.go: edits of one peer that leave its
-- lifecycle alone, its removal, and the wrappers that resolve a name first.
use repowire.Prelude.{
  ℕ, String, Bool, true, false, not, ◌&&◌, ◌==◌, Option, none, some, List, erase, exists, insert,
  keep, lookup, if◌then◌else◌,
}
use repowire.Proto.{PeerId, DisplayName, AgentType, agent_name}
use repowire.Fsm.{LifecycleState, offline}
use repowire.Registry.Types.{
  PeerState, Entry, Registry, Seams, close_transport, call, set_peer, set_mapping,
}
use repowire.Registry.Resolve.{Resolved, missing, ambiguous, panic, hit, resolve_peer}
use repowire.Registry.Access.{Updated, updated, unknown, ambiguous_name, index_panic}

-- `UpdateTurnState`
unfoldable pub update_turn_state : ℕ → PeerId → String → Registry → Registry
unfolding lookup insert
update_turn_state now id turn r = elim (lookup id r.peers) [
  | none ↦ r
  | some ps ↦
      set_peer id (record ps { peer = record ps.peer { turn_state = turn; last_seen = some now } })
        r
]

unfoldable pub circle_of_mapping : ℕ → PeerId → String → Registry → Registry
unfolding lookup insert
circle_of_mapping now id circle r = elim (lookup id r.mappings) [
  | none ↦ r
  | some m ↦ set_mapping id (record m { circle = circle; updated_at = now }) r
]

-- `SetCircle`
unfoldable pub set_circle : ℕ → PeerId → String → Registry → Registry
unfolding lookup insert circle_of_mapping
set_circle now id circle r = elim (lookup id r.peers) [
  | none ↦ r
  | some ps ↦
      circle_of_mapping now id circle
        (set_peer id (record ps { peer = record ps.peer { circle = circle } }) r)
]

-- `UpdateTmuxSession`
unfoldable pub update_tmux_session : PeerId → String → Registry → Registry
unfolding lookup insert
update_tmux_session id session r = elim (lookup id r.peers) [
  | none ↦ r
  | some ps ↦ set_peer id (record ps { peer = record ps.peer { tmux_session = some session } }) r
]

abbrev pub is_offline_state : LifecycleState → Bool
is_offline_state offline = true
is_offline_state _ = false

-- Another peer of that name and backend.
abbrev pub is_namesake : PeerId → DisplayName → AgentType → Entry → Bool
is_namesake id name backend e =
    not (e.0 == id)
    && (e.1.peer.display_name == name && agent_name e.1.peer.backend == agent_name backend)

unfoldable pub name_of_mapping : ℕ → PeerId → DisplayName → Registry → Registry
unfolding lookup insert
name_of_mapping now id name r = elim (lookup id r.mappings) [
  | none ↦ r
  | some m ↦ set_mapping id (record m { display_name = name; updated_at = now }) r
]

-- The name is taken by a peer that is not offline.
abbrev pub is_taken : PeerId → DisplayName → AgentType → List Entry → Bool
is_taken id name backend =
    exists (λ e. is_namesake id name backend e && not (is_offline_state e.1.state))

-- The ghosts of that name leave, and the peer is renamed.
unfoldable pub rename : ℕ → PeerId → PeerState → DisplayName → Registry → Registry
unfolding insert name_of_mapping
rename now id ps name r =
    let kept = keep (λ e. not (is_namesake id name ps.peer.backend e)) r.peers in
    name_of_mapping now id name (record r {
      peers = insert id (record ps { peer = record ps.peer { display_name = name } }) kept;
    })

-- `UpdateDisplayName`
unfoldable pub update_display_name : ℕ → PeerId → DisplayName → Registry → Bool × Registry
unfolding lookup rename
update_display_name now id name r = elim (lookup id r.peers) [
  | none ↦ (false, r)
  | some ps ↦
      if is_taken id name ps.peer.backend r.peers
      then (false, r)
      else (true, rename now id ps name r)
]

-- The removal in `UnregisterPeer`
unfoldable pub remove_peer : Seams → PeerId → Registry → Registry
unfolding erase
remove_peer seams id r =
    let removed = record r { peers = erase id r.peers; mappings = erase id r.mappings } in
    if seams.has_transport then call (close_transport id) removed else removed

unfoldable pub unregister_found : Seams → Registry → Resolved → Updated × Registry
unfolding remove_peer
unregister_found seams r missing = (unknown, r)
unregister_found seams r ambiguous = (ambiguous_name, r)
unregister_found seams r panic = (index_panic, r)
unregister_found seams r (hit id ps) = (updated, remove_peer seams ps.peer.peer_id r)

-- `UnregisterPeer`: the id first, which is also where the resolver looks first.
unfoldable pub unregister_peer : Seams → String → Option String → Registry → Updated × Registry
unfolding resolve_peer unregister_found
unregister_peer seams identifier circle r =
    unregister_found seams r (resolve_peer seams.connected identifier circle r)

unfoldable pub touch_found : ℕ → Registry → Resolved → Updated × Registry
unfolding insert
touch_found now r missing = (unknown, r)
touch_found now r ambiguous = (ambiguous_name, r)
touch_found now r panic = (index_panic, r)
touch_found now r (hit id ps) =
    (updated, set_peer id (record ps { peer = record ps.peer { last_seen = some now } }) r)

-- `TouchLastSeen`
unfoldable pub touch_last_seen : Seams → ℕ → String → Option String → Registry → Updated × Registry
unfolding resolve_peer touch_found
touch_last_seen seams now identifier circle r =
    touch_found now r (resolve_peer seams.connected identifier circle r)

unfoldable pub description_of_mapping : ℕ → PeerId → String → Registry → Registry
unfolding lookup insert
description_of_mapping now id description r = elim (lookup id r.mappings) [
  | none ↦ r
  | some m ↦
      if m.description == description
      then r
      else set_mapping id (record m { description = description; updated_at = now }) r
]

unfoldable pub describe : ℕ → PeerId → PeerState → String → Registry → Registry
unfolding insert erase description_of_mapping
describe now id ps description r =
    let set_at =
      if description == ""
      then erase ps.peer.peer_id r.description_set_at
      else insert ps.peer.peer_id now r.description_set_at in
    description_of_mapping now ps.peer.peer_id description (record r {
      peers =
          insert id
            (record ps {
              peer = record ps.peer { description = description; last_seen = some now };
            })
            r.peers;
      description_set_at = set_at;
    })

unfoldable pub describe_found : ℕ → String → Registry → Resolved → Updated × Registry
unfolding describe
describe_found now description r missing = (unknown, r)
describe_found now description r ambiguous = (ambiguous_name, r)
describe_found now description r panic = (index_panic, r)
describe_found now description r (hit id ps) = (updated, describe now id ps description r)

-- `UpdateDescription`
unfoldable pub update_description :
    Seams → ℕ → String → String → Option String → Registry → Updated × Registry
unfolding resolve_peer describe_found
update_description seams now identifier description circle r =
    describe_found now description r (resolve_peer seams.connected identifier circle r)
