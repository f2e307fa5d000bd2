-- ===== src/Registry/Evict.antt =====
-- `evictStalePeers` of daemon-go/peer/reconcile.go: its copies and its second section, with what the
-- probe between them found as `evidence`; `GetPeerByPane` of registry.go; and
-- `MarkOfflineByNameWithReason` of registry_lifecycle_byname.go, which resolves in one section (on `seen`)
-- and marks in another. A peer that is evicted is not retired.
use Prim.Native.String.{len}
use text.Mathlib.Text.{starts_with}
use repowire.Prelude.{
  ℕ, String, Bool, true, false, not, ◌&&◌, ◌==◌, Option, none, some, List, [], ◌∷◌, erase, first,
  keep, lookup, map, ltb, leb, if◌then◌else◌,
}
use repowire.Proto.{PeerId, Peer}
use repowire.Registry.Types.{Entry, Registry, Seams, forget_peer, log_event, call}
use repowire.Registry.Resolve.{Resolved, missing, ambiguous, panic, hit, peer_of, resolve_peer}
use repowire.Registry.Access.{Updated, updated, unknown, ambiguous_name, index_panic}
use repowire.Registry.Lifecycle.{mark_offline}
use repowire.Registry.Pane.{holds_pane}
use repowire.Registry.Reap.{is_dangling, same_runtime, apply_description_ttl, peer_at}

-- The copies that the first section takes.
unfoldable pub stale_peers : ℕ → ℕ → Registry → List Peer
stale_peers now max_age r =
    if leb max_age 0
    then []
    else map peer_of (keep (λ (e : Entry). is_dangling now max_age e.1) r.peers)

unfoldable pub remove_stale : Seams → PeerId → Registry → Registry
unfolding erase
remove_stale seams id r =
    let removed = record r { peers = erase id r.peers; mappings = erase id r.mappings } in
    if seams.has_asks then call (forget_peer id) removed else removed

-- One copy, checked again against the table.
unfoldable pub evict_peer : Seams → ℕ → ℕ → (PeerId → Bool) → Peer → Registry → Registry
unfolding lookup remove_stale
evict_peer seams now max_age evidence old r = elim (lookup old.peer_id r.peers) [
  | none ↦ r
  | some ps ↦
      if not (is_dangling now max_age ps && same_runtime ps.peer old)
      then r
      else (if evidence old.peer_id
          then log_event "offline_peer_still_has_runtime_evidence" old.peer_id r
          else remove_stale seams old.peer_id r)
]

unfoldable pub evict_stale_peers : Seams → ℕ → ℕ → (PeerId → Bool) → List Peer → Registry → Registry
unfolding evict_peer
evict_stale_peers seams now max_age evidence [] r = r
evict_stale_peers seams now max_age evidence (p ∷ ps) r =
    evict_stale_peers seams now max_age evidence ps (evict_peer seams now max_age evidence p r)

-- `GetPeerByPane`
unfoldable pub get_peer_by_pane : ℕ → String → Registry → Option Peer × Registry
unfolding lookup apply_description_ttl
get_peer_by_pane now pane r =
    if pane == ""
    then (none, r)
    else elim (first (λ (e : Entry). holds_pane pane e.1.peer) r.peers) [
      | none ↦ (none, r)
      | some e ↦
          let after = apply_description_ttl now e.0 e.1 r in
          (peer_at (lookup e.0 after.peers), after)
    ]

-- `looksLikePeerID`
unfoldable pub looks_like_peer_id : String → Bool
looks_like_peer_id identifier = ltb 6 (len identifier) && starts_with identifier "repow-"

unfoldable pub mark_found_offline :
    Seams → ℕ → String → Bool → String → Registry → Resolved → Updated × Registry
unfolding mark_offline looks_like_peer_id
mark_found_offline seams now identifier terminal reason r missing = (
  unknown,
  if terminal && looks_like_peer_id identifier
      then mark_offline seams now identifier true reason false r
      else r,
)
mark_found_offline seams now identifier terminal reason r ambiguous = (ambiguous_name, r)
mark_found_offline seams now identifier terminal reason r panic = (index_panic, r)
mark_found_offline seams now identifier terminal reason r (hit id ps) =
    (updated, mark_offline seams now ps.peer.peer_id terminal reason false r)

-- `MarkOfflineByNameWithReason`
unfoldable pub mark_offline_by_name :
    Seams → ℕ → String → Bool → String → Registry → Registry → Updated × Registry
unfolding mark_found_offline resolve_peer
mark_offline_by_name seams now identifier terminal reason seen r =
    mark_found_offline seams now identifier terminal reason r
      (resolve_peer seams.connected identifier none seen)
