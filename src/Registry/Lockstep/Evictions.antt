-- ===== src/Registry/Lockstep/Evictions.antt =====
-- `Lockstep` for evictions, the lookup by pane and offline marks by name.
use repowire.Prelude.{
  false, ℕ, String, Bool, true, ◌==◌, none, List, [], ◌∷◌, Bool-cases, Option-cases, inl, inr,
  first, lookup, arith,
}
use repowire.Proto.{PeerId, Peer}
use repowire.Registry.Types.{Entry, Registry, Seams}
use repowire.Registry.Resolve.{Resolved, missing, ambiguous, panic, hit, resolve_peer}
use repowire.Registry.Pane.{holds_pane}
use repowire.Registry.Evict
use repowire.Registry.Lockstep.{Linked, Lockstep, erase-Lockstep, mark_offline-Lockstep}
use repowire.Registry.Lockstep.Passes.{apply_description_ttl-Lockstep}
use repowire.Registry.Lockstep.Allocation.{first-All}

evict_peer-Lockstep :
    (seams : Seams) (now max_age : ℕ) (evidence : PeerId → Bool) (old : Peer) (r : Registry)
    → Lockstep r
    → Lockstep (Evict.evict_peer seams now max_age evidence old r)
unfolding Evict.evict_peer Evict.remove_stale
evict_peer-Lockstep seams now max_age evidence old r h =
    elim (Option-cases (lookup old.peer_id r.peers)) [
      | inl gone ↦ rw (gone, Evict.evict_peer) h
      | inr (ps, here) ↦
          rw (here, Evict.evict_peer) (ground (arith, h, erase-Lockstep old.peer_id r.peers h))
    ]

pub evict_stale_peers-Lockstep :
    (seams : Seams) (now max_age : ℕ) (evidence : PeerId → Bool) (olds : List Peer) (r : Registry)
    → Lockstep r
    → Lockstep (Evict.evict_stale_peers seams now max_age evidence olds r)
unfolding Evict.evict_stale_peers
evict_stale_peers-Lockstep seams now max_age evidence [] r h = h
evict_stale_peers-Lockstep seams now max_age evidence (p ∷ ps) r h =
    evict_stale_peers-Lockstep seams now max_age evidence ps
      (Evict.evict_peer seams now max_age evidence p r)
      (evict_peer-Lockstep seams now max_age evidence p r h)

pub get_peer_by_pane-Lockstep :
    (now : ℕ) (pane : String) (r : Registry)
    → Lockstep r
    → Lockstep (Evict.get_peer_by_pane now pane r).1
unfolding Evict.get_peer_by_pane
get_peer_by_pane-Lockstep now pane r h = elim (Bool-cases (pane == "")) [
  | inl empty ↦ rw (empty, Evict.get_peer_by_pane) h
  | inr named ↦ elim (Option-cases (first (λ (e : Entry). holds_pane pane e.1.peer) r.peers)) [
    | inl nobody ↦ rw (named, Evict.get_peer_by_pane, nobody) h
    | inr (e, found) ↦
        rw (named, Evict.get_peer_by_pane, found)
          (apply_description_ttl-Lockstep now e.0 e.1 r h
            (first-All Linked (λ x. holds_pane pane x.1.peer) r.peers e h found).0)
  ]
]

mark_found_offline-Lockstep :
    (seams : Seams) (now : ℕ) (identifier : String) (terminal : Bool) (reason : String)
    (r : Registry) (res : Resolved)
    → Lockstep r
    → Lockstep (Evict.mark_found_offline seams now identifier terminal reason r res).1
unfolding Evict.mark_found_offline
mark_found_offline-Lockstep seams now identifier terminal reason r missing h =
    ground (arith, h, mark_offline-Lockstep seams now identifier true reason false r h)
mark_found_offline-Lockstep seams now identifier terminal reason r ambiguous h = h
mark_found_offline-Lockstep seams now identifier terminal reason r panic h = h
mark_found_offline-Lockstep seams now identifier terminal reason r (hit id ps) h =
    mark_offline-Lockstep seams now ps.peer.peer_id terminal reason false r h

pub mark_offline_by_name-Lockstep :
    (seams : Seams) (now : ℕ) (identifier : String) (terminal : Bool) (reason : String)
    (seen r : Registry)
    → Lockstep r
    → Lockstep (Evict.mark_offline_by_name seams now identifier terminal reason seen r).1
unfolding Evict.mark_offline_by_name
mark_offline_by_name-Lockstep seams now identifier terminal reason seen r h =
    mark_found_offline-Lockstep seams now identifier terminal reason r
      (resolve_peer seams.connected identifier none seen) h
