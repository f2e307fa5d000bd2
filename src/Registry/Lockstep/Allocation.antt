-- ===== src/Registry/Lockstep/Allocation.antt =====
-- `Lockstep` for registrations, role claims and the updates by name.
use repowire.Prelude.{
  ℕ, String, Bool, true, ◌≡◌, refl, Option, none, some, All, All-insert, List, [], ◌∷◌, Bool-cases,
  Option-cases, inl, inr, first, lookup, is_some, arith, subst, sym,
}
use repowire.Proto.{PeerId, DisplayName}
use repowire.Fsm.{LifecycleState, to_status}
use repowire.Registry.Types.{PeerState, Entry, Registry, Seams, set_peer, log_event, set_mapping}
use repowire.Registry.Names.{AllocateParams, build_display_name}
use repowire.Registry.Gates.{GateFrom, gate-GateFrom}
use repowire.Registry.Allocate
use repowire.Registry.Lockstep.{
  Linked, Lockstep, lookup-Linked, edit-Lockstep, schedule_redelivery-peers,
}
use repowire.Registry.Lockstep.Passes.{release_pane-Lockstep}

pub first-All :
    (P : Entry → Type 0) (f : Entry → Bool) (xs : List Entry) (e : Entry)
    → All P xs
    → first f xs ≡ some e
    → P e × (f e ≡ true)
first-All P f [] e h found = ground (arith, found)
first-All P f (x ∷ xs) e (px, h) found = elim (Bool-cases (f x)) [
  | inl is ↦ hit_first x e px is (ground (arith, found, is))
  | inr is ↦ first-All P f xs e h (ground (arith, found, is))
]
  where
    hit_first : (x e : Entry) → P x → f x ≡ true → x ≡ e → P e × (f e ≡ true)
    hit_first x e px is same = (subst P same px, subst (λ y. f y ≡ true) same is)

-- Reconnections.
reconnect_state-to_status :
    (recovered : Bool) (s : LifecycleState)
    → is_some (to_status s) ≡ true
    → is_some (to_status (Allocate.reconnect_state recovered s)) ≡ true
unfolding Allocate.reconnect_state to_status
reconnect_state-to_status recovered s h = ground (arith, h)

reconnected-Linked :
    (now : ℕ) (p : AllocateParams) (recovered : Bool) (id : PeerId) (ps : PeerState)
    → Linked (id, ps)
    → Linked (id, Allocate.reconnected now p recovered ps)
unfolding Allocate.reconnected
reconnected-Linked now p recovered id ps (key, status) =
    ground (arith, key, status, reconnect_state-to_status recovered ps.state)

release_claimed-Lockstep :
    (now : ℕ) (pane : Option String) (id : PeerId) (r : Registry)
    → Lockstep r
    → Lockstep (Allocate.release_claimed now pane id r)
unfolding Allocate.release_claimed
release_claimed-Lockstep now none id r h = h
release_claimed-Lockstep now (some pane) id r h =
    ground (arith, release_pane-Lockstep now pane id r h)

pub refresh_mapping-peers :
    (now : ℕ) (p : AllocateParams) (id : PeerId) (r : Registry)
    → (Allocate.refresh_mapping now p id r).peers ≡ r.peers
unfolding Allocate.refresh_mapping
refresh_mapping-peers now p id r = elim (Option-cases (lookup id r.mappings)) [
  | inl gone ↦ rw (gone, Allocate.refresh_mapping) refl
  | inr (m, here) ↦ rw (here, Allocate.refresh_mapping) refl
]

reconnect_peer-Lockstep :
    (seams : Seams) (now : ℕ) (p : AllocateParams) (recovered : Bool) (id : PeerId) (ps : PeerState)
    (r : Registry)
    → Linked (id, ps)
    → Lockstep r
    → Lockstep (Allocate.reconnect_peer seams now p recovered id ps r).1
unfolding Allocate.reconnect_peer
reconnect_peer-Lockstep seams now p recovered id ps r l h =
    let updated = set_peer id (Allocate.reconnected now p recovered ps) r in
    let released = Allocate.release_claimed now p.pane_id id updated in
    rw
      (
        schedule_redelivery-peers seams id
            (log_event "peer_online" id (Allocate.refresh_mapping now p id released)),
        refresh_mapping-peers now p id released,
      )
      (release_claimed-Lockstep now p.pane_id id updated (
        All-insert Linked id (Allocate.reconnected now p recovered ps) r.peers
          (reconnected-Linked now p recovered id ps l) h))

store_fresh-Lockstep :
    (seams : Seams) (now : ℕ) (p : AllocateParams) (id : PeerId) (d : Allocate.Durable)
    (pane : Option String) (state : LifecycleState) (r : Registry)
    → is_some (to_status state) ≡ true
    → Lockstep r
    → Lockstep (Allocate.store_fresh seams now p id d pane state r).1
unfolding Allocate.store_fresh
store_fresh-Lockstep seams now p id d pane state r live h =
    let stored = set_peer id (Allocate.fresh_peer now p id d pane state) r in
    let mapped =
      set_mapping id (Allocate.fresh_mapping now p id d)
        (Allocate.release_claimed now pane id stored) in
    rw (schedule_redelivery-peers seams id (log_event "peer_online" id mapped)) (
      release_claimed-Lockstep now pane id stored
        (All-insert Linked id (Allocate.fresh_peer now p id d pane state) r.peers fresh h))
  where
    fresh : Linked (id, Allocate.fresh_peer now p id d pane state)
    fresh = unfold Allocate.fresh_peer in ground (arith, live)

connect_fresh-Lockstep :
    (seams : Seams) (now : ℕ) (p : AllocateParams) (name : DisplayName) (id : PeerId)
    (pane : Option String) (r : Registry)
    → Lockstep r
    → Lockstep (Allocate.connect_fresh seams now p name id pane r).1
unfolding Allocate.connect_fresh
connect_fresh-Lockstep seams now p name id pane r h =
    store_fresh-Lockstep seams now p id (Allocate.durable p name (lookup id r.mappings)) pane
      LifecycleState.online r online_status h
  where
    online_status : is_some (to_status LifecycleState.online) ≡ true
    online_status = unfold to_status in refl

register_gated-Lockstep :
    (seams : Seams) (now : ℕ) (p : AllocateParams) (name : DisplayName) (id : PeerId) (r : Registry)
    (g : Allocate.PaneGate)
    → Lockstep r
    → GateFrom r.peers g
    → Lockstep (Allocate.register_gated seams now p name id r g).1
unfolding Allocate.register_gated
register_gated-Lockstep seams now p name id r (Allocate.hijack holder) h from = h
register_gated-Lockstep seams now p name id r (Allocate.sticky key ps) h (f, found) =
    edit-Lockstep key ps _ r (refl, refl, refl) (first-All Linked f r.peers (key, ps) h found).0 h
register_gated-Lockstep seams now p name id r (Allocate.granted pane journalled) h from =
    connect_fresh-Lockstep seams now p name id pane journalled (subst (All Linked) (sym from) h)

register_as-Lockstep :
    (seams : Seams) (now : ℕ) (p : AllocateParams) (recovered : Bool) (name : DisplayName)
    (id : PeerId) (r : Registry)
    → Lockstep r
    → Lockstep (Allocate.register_as seams now p recovered name id r).1
unfolding Allocate.register_as
register_as-Lockstep seams now p recovered name id r h = elim (Option-cases (lookup id r.peers)) [
  | inl gone ↦
      rw (gone, Allocate.register_as)
        (register_gated-Lockstep seams now p name id r (Allocate.gate seams now p r p.pane_id) h
          (gate-GateFrom seams now p r p.pane_id))
  | inr (ps, here) ↦
      rw (here, Allocate.register_as)
        (reconnect_peer-Lockstep seams now p recovered id ps r (lookup-Linked id ps r.peers h here)
          h)
]

register_admitted-Lockstep :
    (seams : Seams) (decimal : ℕ → String) (token : String) (now : ℕ) (p : AllocateParams)
    (recovered : Bool) (r : Registry)
    → Lockstep r
    → Lockstep (Allocate.register_admitted seams decimal token now p recovered r).1
unfolding Allocate.register_admitted
register_admitted-Lockstep seams decimal token now p recovered r h =
    elim (Option-cases (build_display_name decimal p r)) [
      | inl endless ↦ rw (endless, Allocate.register_admitted) h
      | inr (name, built) ↦
          rw (built, Allocate.register_admitted)
            (register_as-Lockstep seams now p recovered name (Allocate.choose_id token p name r) r
              h)
    ]

-- A claim that the retirement guard admits leaves the peers alone.
pub admit_claim-peers :
    (seams : Seams) (p : AllocateParams) (r : Registry) (claim : Option PeerId) (b : Bool)
    (q : Registry)
    → Allocate.admit_claim seams p r claim ≡ some (b, q)
    → q.peers ≡ r.peers
unfolding Allocate.admit_claim Allocate.recover_claim
admit_claim-peers seams p r none b q h = ground (arith, h)
admit_claim-peers seams p r (some id) b q h = ground (arith, h)

pub allocate_and_register-Lockstep :
    (seams : Seams) (decimal : ℕ → String) (token : String) (now : ℕ) (p : AllocateParams)
    (r : Registry)
    → Lockstep r
    → Lockstep (Allocate.allocate_and_register seams decimal token now p r).1
unfolding Allocate.allocate_and_register
allocate_and_register-Lockstep seams decimal token now p r h =
    elim (Option-cases (Allocate.admit_claim seams p r p.claimed_peer_id)) [
      | inl refused ↦ rw (refused, Allocate.allocate_and_register) h
      | inr ((recovered, q), admitted) ↦
          rw (admitted, Allocate.allocate_and_register)
            (register_admitted-Lockstep seams decimal token now p recovered q
              (rw (admit_claim-peers seams p r p.claimed_peer_id recovered q admitted) h))
    ]
