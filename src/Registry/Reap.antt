-- ===== src/Registry/Reap.antt =====
-- daemon-go/peer/registry.go: the maintenance passes on the peer table. `demote` is the last section
-- of demoteDisconnected, on the candidates that the first one collected; `reap` is the second section of
-- reapDangling, on the copies that the first one took; `evidence` is what the probe between them found.
-- The contradictions that daemon-go/peer/reconcile.go reports once, and the rows on lost replies, are left
-- out of the journal.
use repowire.Prelude.{
  ℕ, ◌+◌, Bool, true, false, not, ◌&&◌, ◌||◌, ◌==◌, Option, none, some, List, [], ◌∷◌, eqb, erase,
  insert, keep, leb, ltb, lookup, map, if◌then◌else◌,
}
use repowire.Json
use repowire.Json.{Fields}
use repowire.Proto.{PeerId, Peer}
use repowire.Fsm.{LifecycleState, online, busy, ghost_demote, reap, apply}
use repowire.Registry.Types.{
  PeerState, Entry, Retirement, Registry, Seams, close_transport, forget_peer, log_event, call,
  set_peer, set_mapping,
}
use repowire.Registry.Resolve.{non_empty, peer_of}
use repowire.Registry.Lifecycle.{contradict, move, retire}
use repowire.Registry.Edits.{is_offline_state}
use repowire.Registry.Names.{text_of}

abbrev pub is_live_state : LifecycleState → Bool
is_live_state online = true
is_live_state busy = true
is_live_state _ = false

abbrev pub is_set : Option Json.Json → Bool
is_set none = false
is_set (some Json.null) = false
is_set (some _) = true

-- `exempt`: brokered and in-process peers have no socket of their own.
unfoldable pub is_exempt : Bool → Option Fields → Bool
unfolding Json.at
is_exempt acp none = false
is_exempt acp (some m) = (acp && is_set (Json.at "acp" m)) || is_set (Json.at "in_process" m)

-- Live by the state machine, without a socket, and not exempt.
abbrev pub is_ghost : Seams → Bool → Entry → Bool
is_ghost seams acp e =
    is_live_state e.1.state && (not (seams.connected e.0) && not (is_exempt acp e.1.peer.metadata))

abbrev pub lacks_evidence : (PeerId → Bool) → Entry → Bool
lacks_evidence evidence e = not (non_empty e.1.peer.pane_id) || not (evidence e.1.peer.peer_id)

abbrev pub key_of_entry : Entry → PeerId
key_of_entry e = e.0

-- The candidates of `demoteDisconnected`: those without a pane, and those whose probe found nothing.
unfoldable pub demote_candidates : Seams → Bool → (PeerId → Bool) → Registry → List PeerId
unfolding is_exempt
demote_candidates seams acp evidence r =
    if seams.has_transport
    then map key_of_entry (keep (λ e. is_ghost seams acp e && lacks_evidence evidence e) r.peers)
    else []

unfoldable pub demote_known : ℕ → PeerId → PeerState → Option LifecycleState → Registry → Registry
unfolding move
demote_known now id ps none r = contradict id r
demote_known now id ps (some next) r =
    log_event "peer_offline" id (set_peer id (move next now ps) r)

unfoldable pub demote_one : ℕ → PeerId → Registry → Registry
unfolding lookup demote_known
demote_one now id r = elim (lookup id r.peers) [
  | none ↦ r
  | some ps ↦ demote_known now id ps (apply ps.state ghost_demote) r
]

-- The last section of `demoteDisconnected`
unfoldable pub demote : ℕ → List PeerId → Registry → Registry
unfolding demote_one
demote now [] r = r
demote now (id ∷ ids) r = demote now ids (demote_one now id r)

-- `LastSeen.Before(now - reapTTL)`
abbrev pub is_stale : ℕ → ℕ → Option ℕ → Bool
is_stale now ttl none = false
is_stale now ttl (some t) = ltb (t + ttl) now

abbrev pub is_dangling : ℕ → ℕ → PeerState → Bool
is_dangling now ttl ps = is_offline_state ps.state && is_stale now ttl ps.peer.last_seen

-- The copies that the first section takes.
unfoldable pub dangling_peers : ℕ → Registry → List Peer
dangling_peers now r = map peer_of (keep (λ (e : Entry). is_dangling now r.reap_ttl e.1) r.peers)

abbrev pub pid_of : Option ℕ → ℕ
pid_of none = 0
pid_of (some pid) = pid

-- `runtimeMarker` of daemon-go/peer/reconcile.go, compared
abbrev pub same_runtime : Peer → Peer → Bool
same_runtime p q =
    eqb (pid_of p.agent_pid) (pid_of q.agent_pid) && text_of p.pane_id == text_of q.pane_id

unfoldable pub remove_reaped : Seams → ℕ → PeerId → Registry → Registry
unfolding retire erase
remove_reaped seams now id r =
    let removed = record r { peers = erase id r.peers; mappings = erase id r.mappings } in
    let retired = retire now id false removed in
    let closed = if seams.has_transport then call (close_transport id) retired else retired in
    let forgotten = if seams.has_asks then call (forget_peer id) closed else closed in
    log_event "peer_reaped" id forgotten

unfoldable pub reap_known : Seams → ℕ → PeerId → Option LifecycleState → Registry → Registry
unfolding remove_reaped
reap_known seams now id none r = contradict id r
reap_known seams now id (some next) r = remove_reaped seams now id r

-- One copy, checked again against the table: it must still dangle, with the same runtime.
unfoldable pub reap_one : Seams → ℕ → (PeerId → Bool) → Peer → Registry → Registry
unfolding lookup reap_known
reap_one seams now evidence old r = elim (lookup old.peer_id r.peers) [
  | none ↦ r
  | some ps ↦
      if not (is_dangling now r.reap_ttl ps && same_runtime ps.peer old)
      then r
      else (if evidence old.peer_id
          then log_event "offline_peer_still_has_runtime_evidence" old.peer_id r
          else reap_known seams now old.peer_id (apply ps.state reap) r)
]

-- The second section of `reapDangling`
unfoldable pub reap_dangling : Seams → ℕ → (PeerId → Bool) → List Peer → Registry → Registry
unfolding reap_one
reap_dangling seams now evidence [] r = r
reap_dangling seams now evidence (p ∷ ps) r =
    reap_dangling seams now evidence ps (reap_one seams now evidence p r)

-- `pruneRetired`
unfoldable pub prune_retired : ℕ → Registry → Registry
prune_retired now r = record r {
  retired = keep (λ (e : PeerId × Retirement). ltb now (e.1.at + r.retired_ttl)) r.retired;
}

abbrev pub set_at_or : Option ℕ → ℕ → ℕ
set_at_or none now = now
set_at_or (some t) now = t

unfoldable pub clear_mapping_description : ℕ → PeerId → Registry → Registry
unfolding lookup insert
clear_mapping_description now id r = elim (lookup id r.mappings) [
  | none ↦ r
  | some m ↦ set_mapping id (record m { description = ""; updated_at = now }) r
]

unfoldable pub clear_description : ℕ → PeerId → PeerState → Registry → Registry
unfolding insert erase clear_mapping_description
clear_description now key ps r = clear_mapping_description now ps.peer.peer_id (record r {
  peers = insert key (record ps { peer = record ps.peer { description = "" } }) r.peers;
  description_set_at = erase ps.peer.peer_id r.description_set_at;
})

-- `applyDescriptionTTLLocked`, on the peer of a key
unfoldable pub apply_description_ttl : ℕ → PeerId → PeerState → Registry → Registry
unfolding lookup insert clear_description
apply_description_ttl now key ps r =
    if ps.peer.description == "" || leb r.description_ttl 0
    then r
    else elim (lookup ps.peer.peer_id r.description_set_at) [
      | none ↦ record r { description_set_at = insert ps.peer.peer_id now r.description_set_at }
      | some t ↦ if ltb now (t + r.description_ttl) then r else clear_description now key ps r
    ]

abbrev pub peer_at : Option PeerState → Option Peer
peer_at none = none
peer_at (some ps) = some ps.peer

-- `GetPeer`
unfoldable pub get_peer : ℕ → PeerId → Registry → Option Peer × Registry
unfolding lookup apply_description_ttl
get_peer now id r = elim (lookup id r.peers) [
  | none ↦ (none, r)
  | some ps ↦
      let after = apply_description_ttl now id ps r in (peer_at (lookup id after.peers), after)
]
