-- ===== src/Registry/Lockstep/Passes.antt =====
-- `Lockstep` for the wrappers by name, the releases of panes and the maintenance passes.
use repowire.Prelude.{
  ℕ, String, Bool, ◌≡◌, refl, Option, none, some, All, List, [], ◌∷◌, Bool-cases, Option-cases, inl,
  inr, lookup, arith,
}
use repowire.Proto.{PeerId, Peer}
use repowire.Fsm.{LifecycleState, apply, ghost_demote, reap, pane_displaced}
use repowire.Registry.Types.{PeerState, Entry, Registry, Seams}
use repowire.Registry.Resolve.{Resolved, missing, ambiguous, panic, hit, resolve_peer}
use repowire.Registry.Addressing.{Resolution, resolve_peer_lem}
use repowire.Registry.Edits
use repowire.Registry.Pane.{
  displace, displaced_peer, displaced_row, is_displaced, release_peers, release_pane,
}
use repowire.Registry.Reap
use repowire.Registry.Lockstep.{
  Linked, Lockstep, apply-to_status, move-Linked, lookup-Linked, Among-Linked, erase-Lockstep,
  edit-Lockstep, transition-Lockstep, mapping_edits-peers,
}

module _ (seams : Seams) where
  remove_peer-Lockstep :
      (id : PeerId) (r : Registry) → Lockstep r → Lockstep (Edits.remove_peer seams id r)
  unfolding Edits.remove_peer
  remove_peer-Lockstep id r h = elim (Bool-cases seams.has_transport) [
    | inl is ↦ rw is (erase-Lockstep id r.peers h)
    | inr is ↦ rw is (erase-Lockstep id r.peers h)
  ]

  unregister_found-Lockstep :
      (r : Registry) (res : Resolved) → Lockstep r → Lockstep (Edits.unregister_found seams r res).1
  unfolding Edits.unregister_found
  unregister_found-Lockstep r missing h = h
  unregister_found-Lockstep r ambiguous h = h
  unregister_found-Lockstep r panic h = h
  unregister_found-Lockstep r (hit id ps) h = remove_peer-Lockstep ps.peer.peer_id r h

  pub unregister_peer-Lockstep :
      (identifier : String) (circle : Option String) (r : Registry)
      → Lockstep r
      → Lockstep (Edits.unregister_peer seams identifier circle r).1
  unfolding Edits.unregister_peer
  unregister_peer-Lockstep identifier circle r =
      unregister_found-Lockstep r (resolve_peer seams.connected identifier circle r)

-- A result of the resolver whose hit is in step.
abbrev pub HitLinked : Resolved → Type 0
HitLinked (hit id ps) = Linked (id, ps)
HitLinked _ = Unit

pub resolve_peer-HitLinked :
    (identifier : String) (circle : Option String) (r : Registry) (res : Resolved)
    → Lockstep r
    → Resolution identifier circle r res
    → HitLinked res
resolve_peer-HitLinked identifier circle r missing h x = tt
resolve_peer-HitLinked identifier circle r ambiguous h x = tt
resolve_peer-HitLinked identifier circle r panic h x = tt
resolve_peer-HitLinked identifier circle r (hit id ps) h (among, x) =
    Among-Linked (id, ps) r.peers h among

touch_found-Lockstep :
    (now : ℕ) (r : Registry) (res : Resolved)
    → Lockstep r
    → HitLinked res
    → Lockstep (Edits.touch_found now r res).1
unfolding Edits.touch_found
touch_found-Lockstep now r missing h l = h
touch_found-Lockstep now r ambiguous h l = h
touch_found-Lockstep now r panic h l = h
touch_found-Lockstep now r (hit id ps) h l = edit-Lockstep id ps _ r (refl, refl, refl) l h

pub touch_last_seen-Lockstep :
    (seams : Seams) (now : ℕ) (identifier : String) (circle : Option String) (r : Registry)
    → Lockstep r
    → Lockstep (Edits.touch_last_seen seams now identifier circle r).1
unfolding Edits.touch_last_seen
touch_last_seen-Lockstep seams now identifier circle r h =
    let res = resolve_peer seams.connected identifier circle r in
    touch_found-Lockstep now r res h (
      resolve_peer-HitLinked identifier circle r res h
        (resolve_peer_lem seams.connected identifier circle r))

describe_found-Lockstep :
    (now : ℕ) (description : String) (r : Registry) (res : Resolved)
    → Lockstep r
    → HitLinked res
    → Lockstep (Edits.describe_found now description r res).1
unfolding Edits.describe_found Edits.describe
describe_found-Lockstep now description r missing h l = h
describe_found-Lockstep now description r ambiguous h l = h
describe_found-Lockstep now description r panic h l = h
describe_found-Lockstep now description r (hit id ps) h l =
    rw ((mapping_edits-peers now ps.peer.peer_id description _).2)
      (edit-Lockstep id ps _ r (refl, refl, refl) l h)

pub update_description-Lockstep :
    (seams : Seams) (now : ℕ) (identifier description : String) (circle : Option String)
    (r : Registry)
    → Lockstep r
    → Lockstep (Edits.update_description seams now identifier description circle r).1
unfolding Edits.update_description
update_description-Lockstep seams now identifier description circle r h =
    let res = resolve_peer seams.connected identifier circle r in
    describe_found-Lockstep now description r res h (
      resolve_peer-HitLinked identifier circle r res h
        (resolve_peer_lem seams.connected identifier circle r))

displaced_peer-Linked :
    (now : ℕ) (id : PeerId) (ps : PeerState)
    → Linked (id, ps)
    → Linked (id, displaced_peer now (apply ps.state pane_displaced) ps)
unfolding displaced_peer displace
displaced_peer-Linked now id ps l = elim (Option-cases (apply ps.state pane_displaced)) [
  | inl illegal ↦ rw illegal l
  | inr (next, legal) ↦
      rw legal (move-Linked next now id ps (apply-to_status ps.state pane_displaced next legal) l)
]

release_peers-Lockstep :
    (now : ℕ) (pane : String) (new : PeerId) (xs : List Entry) (r : Registry)
    → All Linked xs
    → All Linked (release_peers now pane new xs r).0
unfolding release_peers
release_peers-Lockstep now pane new [] r h = tt
release_peers-Lockstep now pane new ((id, ps) ∷ xs) r (l, h) =
    elim (Bool-cases (is_displaced now pane new (id, ps))) [
      | inl is ↦ rw is (
        displaced_peer-Linked now id ps l,
        release_peers-Lockstep now pane new xs
            (displaced_row (apply ps.state pane_displaced) ps.peer.peer_id r) h,
      )
      | inr is ↦ rw is (l, release_peers-Lockstep now pane new xs r h)
    ]

pub release_pane-Lockstep :
    (now : ℕ) (pane : String) (new : PeerId) (r : Registry)
    → Lockstep r
    → Lockstep (release_pane now pane new r)
unfolding release_pane
release_pane-Lockstep now pane new r = release_peers-Lockstep now pane new r.peers r

demote_one-Lockstep :
    (now : ℕ) (id : PeerId) (r : Registry) → Lockstep r → Lockstep (Reap.demote_one now id r)
unfolding Reap.demote_one Reap.demote_known
demote_one-Lockstep now id r h = elim (Option-cases (lookup id r.peers)) [
  | inl gone ↦ rw (gone, Reap.demote_one) h
  | inr (ps, here) ↦ elim (Option-cases (apply ps.state ghost_demote)) [
    | inl illegal ↦ rw (here, Reap.demote_one, illegal) h
    | inr (next, legal) ↦
        rw (here, Reap.demote_one, legal)
          (transition-Lockstep ps.state ghost_demote next now id ps r legal here h)
  ]
]

pub demote-Lockstep :
    (now : ℕ) (ids : List PeerId) (r : Registry) → Lockstep r → Lockstep (Reap.demote now ids r)
unfolding Reap.demote
demote-Lockstep now [] r h = h
demote-Lockstep now (id ∷ ids) r h =
    demote-Lockstep now ids (Reap.demote_one now id r) (demote_one-Lockstep now id r h)

reap_known-Lockstep :
    (seams : Seams) (now : ℕ) (id : PeerId) (next : Option LifecycleState) (r : Registry)
    → Lockstep r
    → Lockstep (Reap.reap_known seams now id next r)
unfolding Reap.reap_known Reap.remove_reaped
reap_known-Lockstep seams now id none r h = h
reap_known-Lockstep seams now id (some next) r h = ground (arith, erase-Lockstep id r.peers h)

reap_one-Lockstep :
    (seams : Seams) (now : ℕ) (evidence : PeerId → Bool) (old : Peer) (r : Registry)
    → Lockstep r
    → Lockstep (Reap.reap_one seams now evidence old r)
unfolding Reap.reap_one
reap_one-Lockstep seams now evidence old r h = elim (Option-cases (lookup old.peer_id r.peers)) [
  | inl gone ↦ rw (gone, Reap.reap_one) h
  | inr (ps, here) ↦
      rw (here, Reap.reap_one)
        (ground (arith, reap_known-Lockstep seams now old.peer_id (apply ps.state reap) r h))
]

pub reap_dangling-Lockstep :
    (seams : Seams) (now : ℕ) (evidence : PeerId → Bool) (olds : List Peer) (r : Registry)
    → Lockstep r
    → Lockstep (Reap.reap_dangling seams now evidence olds r)
unfolding Reap.reap_dangling
reap_dangling-Lockstep seams now evidence [] r h = h
reap_dangling-Lockstep seams now evidence (p ∷ ps) r h =
    reap_dangling-Lockstep seams now evidence ps (Reap.reap_one seams now evidence p r)
      (reap_one-Lockstep seams now evidence p r h)

clear_mapping_description-peers :
    (now : ℕ) (id : PeerId) (r : Registry)
    → (Reap.clear_mapping_description now id r).peers ≡ r.peers
unfolding Reap.clear_mapping_description
clear_mapping_description-peers now id r = elim (Option-cases (lookup id r.mappings)) [
  | inl gone ↦ rw (gone, Reap.clear_mapping_description) refl
  | inr (m, here) ↦ rw (here, Reap.clear_mapping_description) refl
]

pub apply_description_ttl-Lockstep :
    (now : ℕ) (id : PeerId) (ps : PeerState) (r : Registry)
    → Lockstep r
    → Linked (id, ps)
    → Lockstep (Reap.apply_description_ttl now id ps r)
unfolding Reap.apply_description_ttl Reap.clear_description
apply_description_ttl-Lockstep now id ps r h l = ground (arith, cleared)
  where
    cleared : Lockstep (Reap.clear_description now id ps r)
    cleared =
        rw (clear_mapping_description-peers now ps.peer.peer_id _)
          (edit-Lockstep id ps _ r (refl, refl, refl) l h)

pub get_peer-Lockstep :
    (now : ℕ) (id : PeerId) (r : Registry) → Lockstep r → Lockstep (Reap.get_peer now id r).1
unfolding Reap.get_peer
get_peer-Lockstep now id r h = elim (Option-cases (lookup id r.peers)) [
  | inl gone ↦ rw (gone, Reap.get_peer) h
  | inr (ps, here) ↦
      rw (here, Reap.get_peer)
        (apply_description_ttl-Lockstep now id ps r h (lookup-Linked id ps r.peers h here))
]
