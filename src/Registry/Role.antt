-- ===== src/Registry/Role.antt =====
-- daemon-go/peer/claim_role.go: claiming the singleton role of a circle's orchestrator. The two
-- demotion loops rebuild the map they range over, in the order of its list.
use repowire.Prelude.{
  ℕ, String, Bool, ◌&&◌, not, ◌==◌, Option, none, some, List, [], ◌∷◌, ◌++◌, insert, keep, lookup,
  map, if◌then◌else◌,
}
use repowire.Proto.{
  PeerId, PeerRole, agent, orchestrator, is_agent, is_orchestrator, Peer, SessionMapping,
}
use repowire.Registry.Types.{PeerState, Entry, Registry, heartbeat_tolerance, mark_mappings_dirty}
use repowire.Registry.Resolve.{
  Resolved, missing, ambiguous, panic, hit, resolve_peer, is_live_orchestrator, latest, peer_of,
}

pub record ClaimResult : Type 0 where
  pub peer : Peer
  pub already_held : Bool
  pub previous_holders : List PeerId

-- `conflict` has the holder and whether the message adds the note on force.
pub data Claim : Type 0 where
  bad_role ambiguous_name no_peer out_of_range : Claim
  conflict : Peer → Bool → Claim
  claimed : ClaimResult → Claim

abbrev pub Mapped : Type 0
Mapped = PeerId × SessionMapping

-- `targetCircle`
abbrev pub claimed_circle : Option String → Peer → String
claimed_circle none target = target.circle
claimed_circle (some c) target = if c == "" then target.circle else c

-- What both demotion loops skip: the target and whoever is no holder in the circle.
abbrev pub is_rival_peer : PeerId → String → Peer → Bool
is_rival_peer target circle p =
    not (p.peer_id == target) && (p.circle == circle && is_orchestrator p.role)

abbrev pub is_rival_mapping : PeerId → String → Mapped → Bool
is_rival_mapping target circle m =
    not (m.0 == target) && (m.1.circle == circle && is_orchestrator m.1.role)

unfoldable pub role_of_mapping : ℕ → PeerRole → PeerId → Registry → Registry
unfolding lookup insert
role_of_mapping now role id r = elim (lookup id r.mappings) [
  | none ↦ r
  | some m ↦
      mark_mappings_dirty
        (record r { mappings = insert id (record m { role = role; updated_at = now }) r.mappings })
]

-- A demoted holder's mapping, if it is not an agent's already.
unfoldable pub demote_mapping : ℕ → PeerId → Registry → Registry
unfolding lookup role_of_mapping
demote_mapping now id r = elim (lookup id r.mappings) [
  | none ↦ r
  | some m ↦ if is_agent m.role then r else role_of_mapping now agent id r
]

unfoldable pub demote_peer : Entry → Entry
demote_peer (id, ps) = (id, record ps { peer = record ps.peer { role = agent } })

-- The loop over `r.peers`: the peers, the ids demoted, and the registry with its mappings.
unfoldable pub demote_peers :
    ℕ → PeerId → String → List Entry → Registry → List Entry × List PeerId × Registry
unfolding demote_mapping demote_peer
demote_peers now target circle [] r = ([], [], r)
demote_peers now target circle (e ∷ rest) r =
    let rival = is_rival_peer target circle e.1.peer in
    let next = if rival then demote_mapping now e.1.peer.peer_id r else r in
    let (peers, previous, done) = demote_peers now target circle rest next in
    if rival
    then (demote_peer e ∷ peers, e.1.peer.peer_id ∷ previous, done)
    else (e ∷ peers, previous, done)

-- The loop over `r.mappings`.
unfoldable pub demote_mappings :
    ℕ → PeerId → String → List Mapped → Registry → List Mapped × List PeerId × Registry
demote_mappings now target circle [] r = ([], [], r)
demote_mappings now target circle (m ∷ rest) r =
    let rival = is_rival_mapping target circle m in
    let next = if rival then mark_mappings_dirty r else r in
    let (mappings, previous, done) = demote_mappings now target circle rest next in
    if rival
    then ((m.0, record m.1 { role = agent; updated_at = now }) ∷ mappings, m.0 ∷ previous, done)
    else (m ∷ mappings, previous, done)

-- Role and time of the target, in its peer record and its mapping.
unfoldable pub promote : ℕ → PeerId → PeerState → Registry → Registry
unfolding insert role_of_mapping
promote now id ps r = role_of_mapping now orchestrator ps.peer.peer_id (record r {
  peers =
      insert id (record ps { peer = record ps.peer { role = orchestrator; last_seen = some now } })
        r.peers;
})

-- From the demotions to the event, when nobody blocks the claim.
unfoldable pub take_role : ℕ → PeerId → PeerState → String → Registry → Claim × Registry
unfolding demote_peers promote demote_mappings
take_role now id ps circle r =
    let target = ps.peer.peer_id in
    let (peers, demoted, r1) = demote_peers now target circle r.peers r in
    let r2 = promote now id ps (record r1 { peers = peers }) in
    let (mappings, unmapped, r3) = demote_mappings now target circle r2.mappings r2 in
    let result : ClaimResult = record {
      peer = record ps.peer { role = orchestrator; last_seen = some now };
      already_held = is_orchestrator ps.peer.role;
      previous_holders = demoted ++ unmapped;
    } in
    (
      claimed result,
      record r3 {
        mappings = mappings;
        events = r3.events ++ (record { kind = "role_claimed"; peer_id = target } ∷ []);
      },
    )

module _ (connected : PeerId → Bool) (now : ℕ) where
  -- The live holders other than the target.
  abbrev pub blocks : Registry → PeerId → String → Peer → Bool
  blocks r target circle p =
      not (p.peer_id == target)
      && (p.circle == circle && is_live_orchestrator connected now (heartbeat_tolerance r) p)

  unfoldable pub blocker : Registry → PeerId → String → Option Peer
  unfolding is_live_orchestrator latest
  blocker r target circle = latest none (keep (blocks r target circle) (map peer_of r.peers))

  unfoldable pub claim_for : PeerId → PeerState → String → Bool → Registry → Claim × Registry
  unfolding blocker take_role
  claim_for id ps circle force r = elim (blocker r ps.peer.peer_id circle) [
    | some holder ↦ (conflict holder force, r)
    | none ↦ take_role now id ps circle r
  ]

  -- `ClaimSpecialRole` after the target is resolved
  unfoldable pub claim_found : Option String → Bool → Registry → Resolved → Claim × Registry
  unfolding claim_for
  claim_found circle force r ambiguous = (ambiguous_name, r)
  claim_found circle force r missing = (no_peer, r)
  claim_found circle force r panic = (out_of_range, r)
  claim_found circle force r (hit id ps) = claim_for id ps (claimed_circle circle ps.peer) force r

  unfoldable pub claim_special_role :
      String → PeerRole → Option String → Bool → Registry → Claim × Registry
  unfolding resolve_peer claim_found
  claim_special_role name orchestrator circle force r =
      claim_found circle force r (resolve_peer connected name circle r)
  claim_special_role name _ circle force r = (bad_role, r)
