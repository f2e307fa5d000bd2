-- ===== src/Registry/Lockstep/Roles.antt =====
-- `Lockstep` for role claims and for the updates of models and metadata by name.
use repowire.Prelude.{
  ℕ, String, Bool, ◌≡◌, ◌∙◌, refl, Option, none, some, All, List, [], ◌∷◌, Bool-cases, Option-cases,
  inl, inr, insert, lookup, arith,
}
use repowire.Json.{Fields}
use repowire.Proto.{PeerId, PeerRole, agent, service, human, orchestrator}
use repowire.Registry.Types.{PeerState, Entry, Registry, set_peer}
use repowire.Registry.Resolve.{Resolved, missing, ambiguous, panic, hit, resolve_peer}
use repowire.Registry.Addressing.{resolve_peer_lem}
use repowire.Registry.Access
use repowire.Registry.Role
use repowire.Registry.Claims.{demote_mappings-peers, role_of_mapping-peers}
use repowire.Registry.Lockstep.{Linked, Lockstep, edit-Lockstep}
use repowire.Registry.Lockstep.Passes.{HitLinked, resolve_peer-HitLinked}

demote_peers-Lockstep :
    (now : ℕ) (target : PeerId) (circle : String) (xs : List Entry) (r : Registry)
    → All Linked xs
    → All Linked (Role.demote_peers now target circle xs r).0
unfolding Role.demote_peers Role.demote_peer
demote_peers-Lockstep now target circle [] r h = tt
demote_peers-Lockstep now target circle ((id, ps) ∷ xs) r (l, h) =
    elim (Bool-cases (Role.is_rival_peer target circle ps.peer)) [
      | inl is ↦ rw is (
        l,
        demote_peers-Lockstep now target circle xs (Role.demote_mapping now ps.peer.peer_id r) h,
      )
      | inr is ↦ rw is (l, demote_peers-Lockstep now target circle xs r h)
    ]

take_role-Lockstep :
    (now : ℕ) (id : PeerId) (ps : PeerState) (circle : String) (r : Registry)
    → Linked (id, ps)
    → Lockstep r
    → Lockstep (Role.take_role now id ps circle r).1
unfolding Role.take_role Role.promote
take_role-Lockstep now id ps circle r l h =
    let target = ps.peer.peer_id in
    let (peers, demoted, r1) = Role.demote_peers now target circle r.peers r in
    let r2 = Role.promote now id ps (record r1 { peers = peers }) in
    let crowned : PeerState = record ps {
      peer = record ps.peer { role = orchestrator; last_seen = some now };
    } in
    rw
      (demote_mappings-peers now target circle r2.mappings r2
        ∙ role_of_mapping-peers now target circle orchestrator target
            (record r1 { peers = insert id crowned peers }))
      (edit-Lockstep id ps crowned (record r1 { peers = peers }) (refl, refl, refl) l
        (demote_peers-Lockstep now target circle r.peers r h))

module _ (connected : PeerId → Bool) (now : ℕ) where
  claim_for-Lockstep :
      (id : PeerId) (ps : PeerState) (circle : String) (force : Bool) (r : Registry)
      → Linked (id, ps)
      → Lockstep r
      → Lockstep (Role.claim_for connected now id ps circle force r).1
  unfolding Role.claim_for
  claim_for-Lockstep id ps circle force r l h =
      elim (Option-cases (Role.blocker connected now r ps.peer.peer_id circle)) [
        | inl nobody ↦ rw (nobody, Role.claim_for) (take_role-Lockstep now id ps circle r l h)
        | inr (holder, blocks) ↦ rw (blocks, Role.claim_for) h
      ]

  claim_found-Lockstep :
      (circle : Option String) (force : Bool) (r : Registry) (res : Resolved)
      → Lockstep r
      → HitLinked res
      → Lockstep (Role.claim_found connected now circle force r res).1
  unfolding Role.claim_found
  claim_found-Lockstep circle force r missing h l = h
  claim_found-Lockstep circle force r ambiguous h l = h
  claim_found-Lockstep circle force r panic h l = h
  claim_found-Lockstep circle force r (hit id ps) h l =
      claim_for-Lockstep id ps (Role.claimed_circle circle ps.peer) force r l h

  pub claim_special_role-Lockstep :
      (name : String) (role : PeerRole) (circle : Option String) (force : Bool) (r : Registry)
      → Lockstep r
      → Lockstep (Role.claim_special_role connected now name role circle force r).1
  unfolding Role.claim_special_role
  claim_special_role-Lockstep name agent circle force r h = h
  claim_special_role-Lockstep name service circle force r h = h
  claim_special_role-Lockstep name human circle force r h = h
  claim_special_role-Lockstep name orchestrator circle force r h =
      let res = resolve_peer connected name circle r in
      claim_found-Lockstep circle force r res h
        (resolve_peer-HitLinked name circle r res h (resolve_peer_lem connected name circle r))

  model_of_mapping-peers :
      (model : String) (id : PeerId) (r : Registry)
      → (Access.model_of_mapping connected now model id r).peers ≡ r.peers
  unfolding Access.model_of_mapping
  model_of_mapping-peers model id r = elim (Option-cases (lookup id r.mappings)) [
    | inl gone ↦ rw (gone, Access.model_of_mapping) refl
    | inr (m, here) ↦ rw (here, Access.model_of_mapping) (ground arith)
  ]

  set_model-Lockstep :
      (model : String) (id : PeerId) (ps : PeerState) (r : Registry)
      → Linked (id, ps)
      → Lockstep r
      → Lockstep (Access.set_model connected now model id ps r)
  unfolding Access.set_model
  set_model-Lockstep model id ps r l h =
      elim (Bool-cases (Access.is_model connected model ps.peer.model)) [
        | inl same ↦ rw (same, Access.set_model) h
        | inr other ↦
            rw (other, Access.set_model)
              (rw
                (model_of_mapping-peers model ps.peer.peer_id (
                  set_peer id
                    (record ps {
                      peer = record ps.peer { model = some model; last_seen = some now };
                    })
                    r))
                (edit-Lockstep id ps _ r (refl, refl, refl) l h))
      ]

  model_found-Lockstep :
      (model : String) (r : Registry) (res : Resolved)
      → Lockstep r
      → HitLinked res
      → Lockstep (Access.model_found connected now model r res).1
  unfolding Access.model_found
  model_found-Lockstep model r missing h l = h
  model_found-Lockstep model r ambiguous h l = h
  model_found-Lockstep model r panic h l = h
  model_found-Lockstep model r (hit id ps) h l = set_model-Lockstep model id ps r l h

  pub update_model_by_name-Lockstep :
      (identifier model : String) (r : Registry)
      → Lockstep r
      → Lockstep (Access.update_model_by_name connected now identifier model r).1
  unfolding Access.update_model_by_name
  update_model_by_name-Lockstep identifier model r h =
      let res = resolve_peer connected identifier none r in
      model_found-Lockstep model r res h (
        resolve_peer-HitLinked identifier none r res h
          (resolve_peer_lem connected identifier none r))

  metadata_found-Lockstep :
      (metadata : Fields) (r : Registry) (res : Resolved)
      → Lockstep r
      → HitLinked res
      → Lockstep (Access.metadata_found connected now metadata r res).1
  unfolding Access.metadata_found Access.set_metadata
  metadata_found-Lockstep metadata r missing h l = h
  metadata_found-Lockstep metadata r ambiguous h l = h
  metadata_found-Lockstep metadata r panic h l = h
  metadata_found-Lockstep metadata r (hit id ps) h l =
      edit-Lockstep id ps _ r (refl, refl, refl) l h

  pub update_metadata_by_name-Lockstep :
      (identifier : String) (metadata : Fields) (r : Registry)
      → Lockstep r
      → Lockstep (Access.update_metadata_by_name connected now identifier metadata r).1
  unfolding Access.update_metadata_by_name
  update_metadata_by_name-Lockstep identifier metadata r h =
      let res = resolve_peer connected identifier none r in
      metadata_found-Lockstep metadata r res h (
        resolve_peer-HitLinked identifier none r res h
          (resolve_peer_lem connected identifier none r))
