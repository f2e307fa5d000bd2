-- ===== src/Registry/Access.antt =====
-- daemon-go/peer/registry_access.go: who may dispatch to whom, and the two updates by name.
use repowire.Prelude.{
  ℕ, String, Bool, true, false, ◌||◌, ◌==◌, Option, none, some, insert, lookup, if◌then◌else◌,
}
use repowire.Json
use repowire.Json.{Fields, end, field}
use repowire.Proto.{PeerId, bypasses_circles, Peer}
use repowire.Registry.Types.{PeerState, Registry, mark_mappings_dirty}
use repowire.Registry.Resolve.{Resolved, missing, ambiguous, panic, hit, resolve_peer}

-- `checkCircleAccess`: true when it returns no error.
unfoldable pub check_circle_access : Option Peer → Option Peer → Bool → Bool
check_circle_access none to bypass = true
check_circle_access (some from) none bypass = true
check_circle_access (some from) (some to) bypass =
    if bypass || bypasses_circles from.role || bypasses_circles to.role
    then true
    else from.circle == to.circle

-- The results of `CheckAccess`: the sender is best effort.
pub data Access : Type 0 where
  ambiguous_target unknown_target out_of_range : Access
  granted : Option Peer → Peer → Access
  circle_boundary : Option Peer → Access

-- The results of an update by name.
pub data Updated : Type 0 where
  updated unknown ambiguous_name index_panic : Updated

-- `p.Metadata[k] = v` for every pair.
unfoldable pub merge : Fields → Fields → Fields
unfolding Json.set
merge end m = m
merge (field k v rest) m = merge rest (Json.set k v m)

abbrev pub merge_opt : Fields → Option Fields → Fields
merge_opt new none = merge new end
merge_opt new (some m) = merge new m

module _ (connected : PeerId → Bool) where
  abbrev pub found : Resolved → Option Peer
  found (hit id ps) = some ps.peer
  found _ = none

  -- In the target's circle first, then anywhere; an ambiguous sender counts as unknown.
  unfoldable pub resolve_sender : String → String → Registry → Option Peer
  unfolding resolve_peer
  resolve_sender from circle r = elim (found (resolve_peer connected from (some circle) r)) [
    | some p ↦ some p
    | none ↦ found (resolve_peer connected from none r)
  ]

  unfoldable pub admit : Option Peer → Peer → Bool → Access
  unfolding check_circle_access
  admit from target bypass =
      if check_circle_access from (some target) bypass
      then granted from target
      else circle_boundary from

  -- `CheckAccess` after the target is resolved
  unfoldable pub dispatch : String → Bool → Registry → Resolved → Access
  unfolding resolve_sender admit
  dispatch from bypass r ambiguous = ambiguous_target
  dispatch from bypass r missing = unknown_target
  dispatch from bypass r panic = out_of_range
  dispatch from bypass r (hit id ps) = admit (resolve_sender from ps.peer.circle r) ps.peer bypass

  unfoldable pub check_access : String → String → Bool → Option String → Registry → Access
  unfolding resolve_peer dispatch
  check_access from to bypass circle r = dispatch from bypass r (resolve_peer connected to circle r)

  abbrev pub is_model : String → Option String → Bool
  is_model model none = false
  is_model model (some m) = m == model

  unfoldable pub model_of_mapping : ℕ → String → PeerId → Registry → Registry
  unfolding lookup insert
  model_of_mapping now model id r = elim (lookup id r.mappings) [
    | none ↦ r
    | some m ↦
        if is_model model m.model
        then r
        else mark_mappings_dirty (record r {
          mappings = insert id (record m { model = some model; updated_at = now }) r.mappings;
        })
  ]

  unfoldable pub set_model : ℕ → String → PeerId → PeerState → Registry → Registry
  unfolding model_of_mapping insert
  set_model now model id ps r =
      if is_model model ps.peer.model
      then r
      else model_of_mapping now model ps.peer.peer_id (record r {
        peers =
            insert id
              (record ps { peer = record ps.peer { model = some model; last_seen = some now } })
              r.peers;
      })

  unfoldable pub model_found : ℕ → String → Registry → Resolved → Updated × Registry
  unfolding set_model
  model_found now model r ambiguous = (ambiguous_name, r)
  model_found now model r missing = (unknown, r)
  model_found now model r panic = (index_panic, r)
  model_found now model r (hit id ps) = (updated, set_model now model id ps r)

  -- `UpdateModelByName`
  unfoldable pub update_model_by_name : ℕ → String → String → Registry → Updated × Registry
  unfolding resolve_peer model_found
  update_model_by_name now identifier model r =
      model_found now model r (resolve_peer connected identifier none r)

  unfoldable pub set_metadata : ℕ → Fields → PeerId → PeerState → Registry → Registry
  unfolding insert
  set_metadata now metadata id ps r = record r {
    peers =
        insert id
          (record ps {
            peer = record ps.peer {
              metadata = some (merge_opt metadata ps.peer.metadata);
              last_seen = some now;
            };
          })
          r.peers;
  }

  unfoldable pub metadata_found : ℕ → Fields → Registry → Resolved → Updated × Registry
  unfolding set_metadata
  metadata_found now metadata r ambiguous = (ambiguous_name, r)
  metadata_found now metadata r missing = (unknown, r)
  metadata_found now metadata r panic = (index_panic, r)
  metadata_found now metadata r (hit id ps) = (updated, set_metadata now metadata id ps r)

  -- `UpdateMetadataByName`
  unfoldable pub update_metadata_by_name : ℕ → String → Fields → Registry → Updated × Registry
  unfolding resolve_peer metadata_found
  update_metadata_by_name now identifier metadata r =
      metadata_found now metadata r (resolve_peer connected identifier none r)
