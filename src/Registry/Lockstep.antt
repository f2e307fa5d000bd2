-- ===== src/Registry/Lockstep.antt =====
-- The peer table keeps its keys and its wire statuses in step: what single operations preserve.
pub mod Passes
pub mod Allocation
pub mod Roles
pub mod Evictions
use repowire.Prelude.{
  ℕ, String, Bool, true, false, ◌==◌, ◌≡◌, refl, Option, none, some, All, All-insert, List, [], ◌∷◌,
  Bool-cases, Option-cases, inl, inr, insert, erase, keep, lookup, exists, if◌then◌else◌, is_some,
  arith, eq_iff, subst, sym, not, ap, ◌∙◌,
}
use repowire.Proto.{PeerId, PeerStatus}
use repowire.Fsm.{
  LifecycleState, LifecycleEvent, apply, to_status, ghost_demote, reap, pane_displaced,
}
use repowire.Registry.Types.{PeerState, Entry, Registry, Seams, set_peer, log_event}
use repowire.Registry.Resolve.{Resolved, missing, ambiguous, panic, hit, resolve_peer}
use repowire.Registry.Addressing.{Among, Resolution, keep-All, resolve_peer_lem}
use repowire.Registry.Lifecycle.{
  move, retire, went_offline, mark_known_offline, mark_offline, offline_event, update_known_status,
  update_status, status_to_event, schedule_redelivery, comes_back,
}
use repowire.Registry.Edits
use repowire.Registry.Pane.{
  displace, displaced_peer, displaced_row, is_displaced, release_peers, release_pane,
}
use repowire.Registry.Reap

-- The key is the peer's id, and the wire status is the projection of the lifecycle state.
abbrev pub Linked : Entry → Type 0
Linked e = (e.0 ≡ e.1.peer.peer_id) × (to_status e.1.state ≡ some e.1.peer.status)

abbrev pub Lockstep : Registry → Type 0
Lockstep r = All Linked r.peers

pub apply-to_status :
    (s : LifecycleState) (e : LifecycleEvent) (next : LifecycleState)
    → apply s e ≡ some next
    → is_some (to_status next) ≡ true
unfolding apply to_status
apply-to_status s e next h = ground (arith, h)

pub move-Linked :
    (next : LifecycleState) (now : ℕ) (id : PeerId) (ps : PeerState)
    → is_some (to_status next) ≡ true
    → Linked (id, ps)
    → Linked (id, move next now ps)
unfolding move
move-Linked next now id ps some_status (same, status) = ground (arith, same, some_status)

pub lookup-Linked :
    (id : PeerId) (ps : PeerState) (peers : List Entry)
    → All Linked peers
    → lookup id peers ≡ some ps
    → Linked (id, ps)
unfolding lookup
lookup-Linked id ps [] h here = ground (arith, here)
lookup-Linked id ps ((j, qs) ∷ peers) (l, h) here =
    ground (arith, here, l, eq_iff j id, lookup-Linked id ps peers h)

pub Among-Linked : (e : Entry) (peers : List Entry) → All Linked peers → Among e peers → Linked e
Among-Linked e [] h among = absurd among
Among-Linked e (x ∷ peers) (l, h) (inl same) = subst Linked same l
Among-Linked e (x ∷ peers) (l, h) (inr among) = Among-Linked e peers h among

pub erase-Lockstep :
    (id : PeerId) (peers : List Entry) → All Linked peers → All Linked (erase id peers)
unfolding erase
erase-Lockstep id [] h = tt
erase-Lockstep id ((j, ps) ∷ peers) (l, h) = elim (Bool-cases (j == id)) [
  | inl is ↦ rw is (erase-Lockstep id peers h)
  | inr is ↦ rw is (l, erase-Lockstep id peers h)
]

pub schedule_redelivery-peers :
    (seams : Seams) (id : PeerId) (r : Registry) → (schedule_redelivery seams id r).peers ≡ r.peers
schedule_redelivery-peers seams id r = ground arith

went_offline-peers :
    (seams : Seams) (now : ℕ) (id : PeerId) (terminal : Bool) (reason : String) (hard : Bool)
    (r : Registry)
    → (went_offline seams now id terminal reason hard r).peers ≡ r.peers
unfolding went_offline
went_offline-peers seams now id terminal reason hard r = ground arith

retired_if-peers :
    (now : ℕ) (id : PeerId) (terminal hard : Bool) (r : Registry)
    → (if terminal then retire now id hard r else r).peers ≡ r.peers
unfolding retire
retired_if-peers now id terminal hard r = ground arith

-- A transition of a known peer, whatever is done to the rest of the registry.
pub transition-Lockstep :
    (s : LifecycleState) (e : LifecycleEvent) (next : LifecycleState) (now : ℕ) (id : PeerId)
    (ps : PeerState) (r : Registry)
    → apply s e ≡ some next
    → lookup id r.peers ≡ some ps
    → Lockstep r
    → All Linked (insert id (move next now ps) r.peers)
transition-Lockstep s e next now id ps r legal here h =
    All-insert Linked id (move next now ps) r.peers
      (move-Linked next now id ps (apply-to_status s e next legal)
        (lookup-Linked id ps r.peers h here))
      h

pub mark_offline-Lockstep :
    (seams : Seams) (now : ℕ) (id : PeerId) (terminal : Bool) (reason : String) (hard : Bool)
    (r : Registry)
    → Lockstep r
    → Lockstep (mark_offline seams now id terminal reason hard r)
unfolding mark_offline mark_known_offline
mark_offline-Lockstep seams now id terminal reason hard r h =
    elim (Option-cases (lookup id r.peers)) [
      | inl gone ↦ rw (gone, mark_offline) (rw (retired_if-peers now id terminal hard r) h)
      | inr (ps, here) ↦ elim (Option-cases (apply ps.state (offline_event terminal))) [
        | inl illegal ↦ rw (here, mark_offline, illegal) h
        | inr (next, legal) ↦
            rw (here, mark_offline, legal)
              (rw
                (went_offline-peers seams now id terminal reason hard
                  (set_peer id (move next now ps) r))
                (transition-Lockstep ps.state (offline_event terminal) next now id ps r legal here
                  h))
      ]
    ]

redelivered_if-peers :
    (seams : Seams) (b : Bool) (id : PeerId) (r : Registry)
    → (if b then schedule_redelivery seams id r else r).peers ≡ r.peers
redelivered_if-peers seams b id r = ground (arith, schedule_redelivery-peers seams id r)

pub update_status-Lockstep :
    (seams : Seams) (now : ℕ) (id : PeerId) (status : PeerStatus) (r : Registry)
    → Lockstep r
    → Lockstep (update_status seams now id status r)
unfolding update_status update_known_status
update_status-Lockstep seams now id status r h = elim (Option-cases (lookup id r.peers)) [
  | inl gone ↦ rw (gone, update_status) h
  | inr (ps, here) ↦ elim (Option-cases (apply ps.state (status_to_event status))) [
    | inl illegal ↦ rw (here, update_status, illegal) h
    | inr (next, legal) ↦
        rw (here, update_status, legal)
          (rw
            (redelivered_if-peers seams (comes_back ps.state next) id
              (log_event "peer_status" id (set_peer id (move next now ps) r)))
            (transition-Lockstep ps.state (status_to_event status) next now id ps r legal here h))
  ]
]

-- A row of the mapping table never touches the peers.
pub mapping_edits-peers :
    (now : ℕ) (id : PeerId) (s : String) (r : Registry)
    → ((Edits.circle_of_mapping now id s r).peers ≡ r.peers)
      × ((Edits.name_of_mapping now id s r).peers ≡ r.peers)
      × ((Edits.description_of_mapping now id s r).peers ≡ r.peers)
unfolding Edits.circle_of_mapping Edits.name_of_mapping Edits.description_of_mapping
mapping_edits-peers now id s r = elim (Option-cases (lookup id r.mappings)) [
  | inl gone ↦
      rw (gone, Edits.circle_of_mapping, Edits.name_of_mapping, Edits.description_of_mapping)
        (refl, refl, refl)
  | inr (m, here) ↦
      rw (here, Edits.circle_of_mapping, Edits.name_of_mapping, Edits.description_of_mapping)
        (refl, refl, ground arith)
]

-- An edit that keeps the id, the status and the state.
pub edit-Lockstep :
    (id : PeerId) (ps : PeerState) (new : PeerState) (r : Registry)
    → (new.peer.peer_id ≡ ps.peer.peer_id)
      × (new.peer.status ≡ ps.peer.status)
      × (new.state ≡ ps.state)
    → Linked (id, ps)
    → Lockstep r
    → All Linked (insert id new r.peers)
edit-Lockstep id ps new r (same_id, same_status, same_state) (key, status) h =
    All-insert Linked id new r.peers
      (
        key ∙ sym same_id,
        ap to_status same_state ∙ status ∙ ap (λ (s : PeerStatus). some s) (sym same_status),
      )
      h

pub update_turn_state-Lockstep :
    (now : ℕ) (id : PeerId) (turn : String) (r : Registry)
    → Lockstep r
    → Lockstep (Edits.update_turn_state now id turn r)
unfolding Edits.update_turn_state
update_turn_state-Lockstep now id turn r h = elim (Option-cases (lookup id r.peers)) [
  | inl gone ↦ rw (gone, Edits.update_turn_state) h
  | inr (ps, here) ↦
      rw (here, Edits.update_turn_state)
        (edit-Lockstep id ps _ r (refl, refl, refl) (lookup-Linked id ps r.peers h here) h)
]

pub update_tmux_session-Lockstep :
    (id : PeerId) (session : String) (r : Registry)
    → Lockstep r
    → Lockstep (Edits.update_tmux_session id session r)
unfolding Edits.update_tmux_session
update_tmux_session-Lockstep id session r h = elim (Option-cases (lookup id r.peers)) [
  | inl gone ↦ rw (gone, Edits.update_tmux_session) h
  | inr (ps, here) ↦
      rw (here, Edits.update_tmux_session)
        (edit-Lockstep id ps _ r (refl, refl, refl) (lookup-Linked id ps r.peers h here) h)
]

pub set_circle-Lockstep :
    (now : ℕ) (id : PeerId) (circle : String) (r : Registry)
    → Lockstep r
    → Lockstep (Edits.set_circle now id circle r)
unfolding Edits.set_circle
set_circle-Lockstep now id circle r h = elim (Option-cases (lookup id r.peers)) [
  | inl gone ↦ rw (gone, Edits.set_circle) h
  | inr (ps, here) ↦
      rw (here, Edits.set_circle)
        (rw
          ((mapping_edits-peers now id circle
            (set_peer id (record ps { peer = record ps.peer { circle = circle } }) r)).0)
          (edit-Lockstep id ps _ r (refl, refl, refl) (lookup-Linked id ps r.peers h here) h))
]

renamed-Lockstep :
    (now : ℕ) (id : PeerId) (name : String) (ps : PeerState) (r : Registry)
    → Lockstep r
    → Linked (id, ps)
    → Lockstep (Edits.rename now id ps name r)
unfolding Edits.rename
renamed-Lockstep now id name ps r h l =
    let others = λ (e : Entry). not (Edits.is_namesake id name ps.peer.backend e) in
    let kept : Registry = record r { peers = keep others r.peers } in
    let new : PeerState = record ps { peer = record ps.peer { display_name = name } } in
    rw ((mapping_edits-peers now id name (set_peer id new kept)).1)
      (edit-Lockstep id ps new kept (refl, refl, refl) l (keep-All others Linked r.peers h))

pub update_display_name-Lockstep :
    (now : ℕ) (id : PeerId) (name : String) (r : Registry)
    → Lockstep r
    → Lockstep (Edits.update_display_name now id name r).1
unfolding Edits.update_display_name Edits.rename
update_display_name-Lockstep now id name r h = elim (Option-cases (lookup id r.peers)) [
  | inl gone ↦ rw (gone, Edits.update_display_name) h
  | inr (ps, here) ↦ elim (Bool-cases (Edits.is_taken id name ps.peer.backend r.peers)) [
    | inl taken ↦ rw (here, Edits.update_display_name, taken) h
    | inr free ↦
        rw (here, Edits.update_display_name, free)
          (renamed-Lockstep now id name ps r h (lookup-Linked id ps r.peers h here))
  ]
]
