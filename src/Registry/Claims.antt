-- ===== src/Registry/Claims.antt =====
-- Registry/Role: a claim of the orchestrator's role and what it leaves in the circle.
use repowire.Prelude.{
  ℕ, String, Bool, true, false, ◌≡◌, Option, none, some, All, List, [], ◌∷◌, Bool-cases,
  Option-cases, inl, inr, All-insert, insert, lookup, lookup-insert, keep, map, arith, refl,
  eq_refl, ◌∙◌,
}
use repowire.Proto.{PeerId, Peer, PeerRole, orchestrator, agent, service, human}
use repowire.Registry.Types.{PeerState, Entry, Registry, mark_mappings_dirty}
use repowire.Registry.Resolve.{
  Resolved, missing, ambiguous, panic, hit, resolve_peer, latest, last_seen_after, peer_of,
}
use repowire.Registry.Addressing.{Addressed, Resolution, namesakes, resolve_peer_lem}
use repowire.Registry.Role

abbrev pub NoRivalPeer : PeerId → String → Entry → Type 0
NoRivalPeer target circle e = Role.is_rival_peer target circle e.1.peer ≡ false

abbrev pub NoRivalMapping : PeerId → String → Role.Mapped → Type 0
NoRivalMapping target circle m = Role.is_rival_mapping target circle m ≡ false

module _ (now : ℕ) (target : PeerId) (circle : String) where
  demote_peers-NoRivalPeer :
      (xs : List Entry) (r : Registry)
      → All (NoRivalPeer target circle) (Role.demote_peers now target circle xs r).0
  unfolding Role.demote_peers Role.demote_peer
  demote_peers-NoRivalPeer [] r = tt
  demote_peers-NoRivalPeer ((k, ps) ∷ xs) r =
      elim (Bool-cases (Role.is_rival_peer target circle ps.peer)) [
        | inl is ↦
            rw is (
              ground arith,
              demote_peers-NoRivalPeer xs (Role.demote_mapping now ps.peer.peer_id r),
            )
        | inr is ↦ rw is (is, demote_peers-NoRivalPeer xs r)
      ]

  demote_mappings-NoRivalMapping :
      (xs : List Role.Mapped) (r : Registry)
      → All (NoRivalMapping target circle) (Role.demote_mappings now target circle xs r).0
  unfolding Role.demote_mappings
  demote_mappings-NoRivalMapping [] r = tt
  demote_mappings-NoRivalMapping ((k, m) ∷ xs) r =
      elim (Bool-cases (Role.is_rival_mapping target circle (k, m))) [
        | inl is ↦ rw is (ground arith, demote_mappings-NoRivalMapping xs (mark_mappings_dirty r))
        | inr is ↦ rw is (is, demote_mappings-NoRivalMapping xs r)
      ]

  pub demote_mappings-peers :
      (xs : List Role.Mapped) (r : Registry)
      → (Role.demote_mappings now target circle xs r).2.peers ≡ r.peers
  unfolding Role.demote_mappings
  demote_mappings-peers [] r = refl
  demote_mappings-peers ((k, m) ∷ xs) r =
      elim (Bool-cases (Role.is_rival_mapping target circle (k, m))) [
        | inl is ↦ rw is (demote_mappings-peers xs (mark_mappings_dirty r))
        | inr is ↦ rw is (demote_mappings-peers xs r)
      ]

  pub role_of_mapping-peers :
      (role : PeerRole) (id : PeerId) (r : Registry)
      → (Role.role_of_mapping now role id r).peers ≡ r.peers
  unfolding Role.role_of_mapping
  role_of_mapping-peers role id r = elim (Option-cases (lookup id r.mappings)) [
    | inl gone ↦ rw (gone, Role.role_of_mapping) refl
    | inr (m, here) ↦ rw (here, Role.role_of_mapping) refl
  ]

-- The target's entry after the claim.
abbrev pub crowned : ℕ → PeerState → PeerState
crowned now ps = record ps { peer = record ps.peer { role = orchestrator; last_seen = some now } }

-- One orchestrator at most is left in the circle, and it is the target.
abbrev pub SoleHolder : ℕ → PeerId → PeerState → String → Registry → Type 0
SoleHolder now id ps circle r =
    All (NoRivalPeer ps.peer.peer_id circle) r.peers
    × All (NoRivalMapping ps.peer.peer_id circle) r.mappings
    × (lookup id r.peers ≡ some (crowned now ps))

take_role-SoleHolder :
    (now : ℕ) (id : PeerId) (ps : PeerState) (circle : String) (r : Registry)
    → SoleHolder now id ps circle (Role.take_role now id ps circle r).1
unfolding Role.take_role Role.promote
take_role-SoleHolder now id ps circle r =
    let target = ps.peer.peer_id in
    let (peers, demoted, r1) = Role.demote_peers now target circle r.peers r in
    let r2 = Role.promote now id ps (record r1 { peers = peers }) in
    let crowned_peers = insert id (crowned now ps) peers in
    let same : (Role.demote_mappings now target circle r2.mappings r2).2.peers ≡ crowned_peers =
      demote_mappings-peers now target circle r2.mappings r2
      ∙ role_of_mapping-peers now target circle orchestrator target
          (record r1 { peers = crowned_peers }) in
    (
      rw same (
          All-insert (NoRivalPeer target circle) id (crowned now ps) peers
            (ground (arith, eq_refl target))
            (demote_peers-NoRivalPeer now target circle r.peers r)),
      demote_mappings-NoRivalMapping now target circle r2.mappings r2,
      rw same (lookup-insert id id (crowned now ps) peers ∙ rw (eq_refl id) refl),
    )

latest-some : (xs : List Peer) (b : Peer) → (p : Peer) × (latest (some b) xs ≡ some p)
unfolding latest
latest-some [] b = (b, refl)
latest-some (x ∷ xs) b = elim (Bool-cases (last_seen_after x b)) [
  | inl is ↦ rw is (latest-some xs x)
  | inr is ↦ rw is (latest-some xs b)
]

pub latest-none :
    (f : Peer → Bool) (xs : List Entry)
    → latest none (keep f (map peer_of xs)) ≡ none
    → All (λ e. f e.1.peer ≡ false) xs
unfolding latest
latest-none f [] h = tt
latest-none f (x ∷ xs) h = elim (Bool-cases (f x.1.peer)) [
  | inl is ↦ ground (arith, latest-some (keep f (map peer_of xs)) x.1.peer, h, is)
  | inr is ↦ ground (arith, latest-none f xs, h, is)
]

abbrev pub keep_some : Option Peer → List Peer
keep_some none = []
keep_some (some p) = p ∷ []

pub latest-keep :
    (f : Peer → Bool) (xs : List Entry) (o : Option Peer) (p : Peer)
    → All (λ q. f q ≡ true) (keep_some o)
    → latest o (keep f (map peer_of xs)) ≡ some p
    → f p ≡ true
unfolding latest
latest-keep f [] none p fb h = ground (arith, h)
latest-keep f [] (some b) p (fb, t) h = ground (arith, h, fb)
latest-keep f (x ∷ xs) none p t h = elim (Bool-cases (f x.1.peer)) [
  | inl is ↦ latest-keep f xs (some x.1.peer) p (is, tt) (ground (arith, h, is))
  | inr is ↦ latest-keep f xs none p tt (ground (arith, h, is))
]
latest-keep f (x ∷ xs) (some b) p (fb, t) h = elim (Bool-cases (f x.1.peer)) [
  | inl is ↦ elim (Bool-cases (last_seen_after x.1.peer b)) [
    | inl newer ↦ latest-keep f xs (some x.1.peer) p (is, tt) (ground (arith, h, is, newer))
    | inr older ↦ latest-keep f xs (some b) p (fb, tt) (ground (arith, h, is, older))
  ]
  | inr is ↦ latest-keep f xs (some b) p (fb, tt) (ground (arith, h, is))
]

module _ (connected : PeerId → Bool) (now : ℕ) where
  -- What a claim by name leaves: on success the entry claimed for, and on a conflict its blocker.
  abbrev pub Outcome : String → Option String → Registry → Role.Claim × Registry → Type 0
  Outcome name circle r (Role.claimed res, after) =
      (e : Entry) × Addressed name circle r e
      × (res.peer ≡ (crowned now e.1).peer)
      × All
          (λ x.
            Role.blocks connected now r e.1.peer.peer_id (Role.claimed_circle circle e.1.peer)
              x.1.peer
            ≡ false)
          r.peers
      × SoleHolder now e.0 e.1 (Role.claimed_circle circle e.1.peer) after
  Outcome name circle r (Role.conflict holder force, after) =
      (after ≡ r)
      × (e : Entry) × Addressed name circle r e
      × (Role.blocks connected now r e.1.peer.peer_id (Role.claimed_circle circle e.1.peer) holder
          ≡ true)
  Outcome name circle r (Role.no_peer, after) =
      (after ≡ r) × (lookup name r.peers ≡ none) × (namesakes name circle r ≡ [])
  Outcome name circle r (Role.ambiguous_name, after) = (after ≡ r) × (circle ≡ none)
  Outcome name circle r (Role.bad_role, after) = after ≡ r
  Outcome name circle r (Role.out_of_range, after) = ⊥

  claim_for-Outcome :
      (name : String) (circle : Option String) (id : PeerId) (ps : PeerState) (force : Bool)
      (r : Registry)
      → Addressed name circle r (id, ps)
      → Outcome name circle r
          (Role.claim_for connected now id ps (Role.claimed_circle circle ps.peer) force r)
  unfolding Role.claim_for Role.blocker Role.take_role
  claim_for-Outcome name circle id ps force r at =
      let c = Role.claimed_circle circle ps.peer in
      elim (Option-cases (Role.blocker connected now r ps.peer.peer_id c)) [
        | inl nobody ↦
            rw (nobody, Role.claim_for)
              (
                (id, ps),
                at,
                refl,
                latest-none (Role.blocks connected now r ps.peer.peer_id c) r.peers nobody,
                take_role-SoleHolder now id ps c r,
              )
        | inr (holder, blocks) ↦
            rw (blocks, Role.claim_for)
              (
                refl,
                (id, ps),
                at,
                latest-keep (Role.blocks connected now r ps.peer.peer_id c) r.peers none holder tt
                    blocks,
              )
      ]

  claim_found-Outcome :
      (name : String) (circle : Option String) (force : Bool) (r : Registry) (res : Resolved)
      → Resolution name circle r res
      → Outcome name circle r (Role.claim_found connected now circle force r res)
  unfolding Role.claim_found
  claim_found-Outcome name circle force r missing (gone, empty) = (refl, gone, empty)
  claim_found-Outcome name circle force r ambiguous (unscoped, gone, many) = (refl, unscoped)
  claim_found-Outcome name circle force r panic h = h
  claim_found-Outcome name circle force r (hit k ps) h =
      claim_for-Outcome name circle k ps force r h

  -- A claim always answers. When it succeeds, it was made for an entry that the name addresses; no
  -- other peer of the claimed circle (the circle given, or the target's own) was a live orchestrator
  -- before; and afterwards no peer and no mapping of that circle but the target's has the
  -- orchestrator's role, while the target's entry has it, seen now. A conflict names a live
  -- orchestrator of the circle that is not the target. Every answer but success leaves the registry as
  -- it was.
  pub claim_special_role_lem :
      (name : String) (role : PeerRole) (circle : Option String) (force : Bool) (r : Registry)
      → Outcome name circle r (Role.claim_special_role connected now name role circle force r)
  unfolding Role.claim_special_role
  claim_special_role_lem name agent circle force r = refl
  claim_special_role_lem name service circle force r = refl
  claim_special_role_lem name human circle force r = refl
  claim_special_role_lem name orchestrator circle force r =
      claim_found-Outcome name circle force r (resolve_peer connected name circle r)
        (resolve_peer_lem connected name circle r)
