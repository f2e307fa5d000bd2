-- ===== src/Registry/Resolve.antt =====
-- daemon-go/peer/registry_read.go: from an address (a peer id or a display name) to the peer. The
-- order of the range over the peers is that of the list. `connected` is the transport's answer,
-- false where there is no transport.
use repowire.Prelude.{
  ℕ, ◌+◌, String, Bool, true, false, ◌&&◌, ◌||◌, not, differs, ◌==◌, Option, none, some,
  if◌then◌else◌, List, [], ◌∷◌, keep, map, lookup, ltb, leb,
}
use repowire.Proto.{PeerId, bypasses_circles, is_orchestrator, is_offline, Peer}
use repowire.Registry.Types.{PeerState, Entry, Registry, heartbeat_tolerance}

-- The pointer that the resolver returns is an entry of the peer table. `panic` is an index out of
-- range.
pub data Resolved : Type 0 where
  missing ambiguous panic : Resolved
  hit : PeerId → PeerState → Resolved

abbrev pub has_name : String → Entry → Bool
has_name identifier e = e.1.peer.display_name == identifier

abbrev pub in_circle : String → Entry → Bool
in_circle circle e = e.1.peer.circle == circle

abbrev pub non_empty : Option String → Bool
non_empty none = false
non_empty (some s) = not (s == "")

abbrev pub has_pane : Entry → Bool
has_pane e = non_empty e.1.peer.pane_id

abbrev pub is_active : Entry → Bool
is_active e = not (is_offline e.1.peer.status)

-- `LastSeen.UnixNano()`, or 0
abbrev pub seen_at : Option ℕ → ℕ
seen_at none = 0
seen_at (some t) = t

pub record PreferenceKey : Type 0 where
  pub connected : Bool
  pub paned : Bool
  pub last_seen : ℕ

unfoldable pub greater : PreferenceKey → PreferenceKey → Bool
greater a b =
    if differs a.connected b.connected
    then a.connected
    else (if differs a.paned b.paned then a.paned else ltb b.last_seen a.last_seen)

module _ (connected : PeerId → Bool) where
  unfoldable pub preference_key : Entry → PreferenceKey
  preference_key e = record {
    connected = connected e.1.peer.peer_id;
    paned = has_pane e;
    last_seen = seen_at e.1.peer.last_seen;
  }

  -- The loop over `candidates[1:]`.
  unfoldable pub best_of : Entry → List Entry → Resolved
  unfolding preference_key greater
  best_of (id, ps) [] = hit id ps
  best_of best (e ∷ rest) =
      best_of (if greater (preference_key e) (preference_key best) then e else best) rest

  -- `active`, or all matches if none is active
  unfoldable pub or_all : List Entry → List Entry → List Entry
  or_all all [] = all
  or_all all (e ∷ rest) = e ∷ rest

  unfoldable pub sole_pane : List Entry → Resolved
  sole_pane ((id, ps) ∷ []) = hit id ps
  sole_pane _ = ambiguous

  unfoldable pub break_tie : Option String → List Entry → Resolved
  unfolding best_of sole_pane
  break_tie circle [] = panic
  break_tie none (e ∷ f ∷ rest) = sole_pane (keep has_pane (e ∷ f ∷ rest))
  break_tie circle (e ∷ rest) = best_of e rest

  unfoldable pub pick : Option String → List Entry → Resolved
  unfolding break_tie or_all
  pick circle ((id, ps) ∷ []) = hit id ps
  pick circle matches = break_tie circle (or_all matches (keep is_active matches))

  -- Nobody of that name is in the circle: a unique peer whose role bypasses circles still counts.
  unfoldable pub across_circles : List Entry → Resolved
  across_circles ((id, ps) ∷ []) = if bypasses_circles ps.peer.role then hit id ps else missing
  across_circles _ = missing

  unfoldable pub in_scope : Option String → List Entry → List Entry → Resolved
  unfolding pick across_circles
  in_scope circle matches [] = across_circles matches
  in_scope circle matches (e ∷ rest) = pick circle (e ∷ rest)

  unfoldable pub resolve_name : Option String → List Entry → Resolved
  unfolding in_scope pick
  resolve_name circle [] = missing
  resolve_name none (e ∷ rest) = pick none (e ∷ rest)
  resolve_name (some c) (e ∷ rest) = in_scope (some c) (e ∷ rest) (keep (in_circle c) (e ∷ rest))

  -- `resolvePeerLocked`
  unfoldable pub resolve_peer : String → Option String → Registry → Resolved
  unfolding resolve_name
  resolve_peer identifier circle r = elim (lookup identifier r.peers) [
    | some ps ↦ hit identifier ps
    | none ↦ resolve_name circle (keep (has_name identifier) r.peers)
  ]

-- The closure `inCircle` of `ResolvePeerStrict`.
abbrev pub fits : Option String → Entry → Bool
fits none e = true
fits (some c) e = in_circle c e

abbrev pub peer_of : Entry → Peer
peer_of e = e.1.peer

-- `ResolvePeerStrict`: all the matches.
unfoldable pub resolve_peer_strict : String → Option String → Registry → List Peer
resolve_peer_strict identifier circle r =
    let by_name = map peer_of (keep (λ e. has_name identifier e && fits circle e) r.peers) in
    elim (lookup identifier r.peers) [
      | some ps ↦ if fits circle (identifier, ps) then ps.peer ∷ [] else by_name
      | none ↦ by_name
    ]

-- `lastSeenAfter`
unfoldable pub last_seen_after : Peer → Peer → Bool
last_seen_after a b = elim a.last_seen [
  | none ↦ false
  | some x ↦ elim b.last_seen [ none ↦ true | some y ↦ ltb y x ]
]

-- `now.Sub(*p.LastSeen) <= tolerance`, for a recorded time
abbrev pub is_fresh : ℕ → ℕ → Option ℕ → Bool
is_fresh now tolerance none = false
is_fresh now tolerance (some t) = leb now (t + tolerance)

-- The loop that keeps the most recently seen.
unfoldable pub latest : Option Peer → List Peer → Option Peer
unfolding last_seen_after
latest best [] = best
latest none (p ∷ rest) = latest (some p) rest
latest (some b) (p ∷ rest) = latest (some (if last_seen_after p b then p else b)) rest

abbrev pub peers_of : Registry → List Peer
peers_of r = map peer_of r.peers

module _ (connected : PeerId → Bool) (now : ℕ) where
  -- Role, liveness and evidence, as `GetOrchestrator` and `ClaimSpecialRole` ask for them.
  unfoldable pub is_live_orchestrator : ℕ → Peer → Bool
  is_live_orchestrator tolerance p =
      is_orchestrator p.role
      && not (is_offline p.status)
      && (is_fresh now tolerance p.last_seen || connected p.peer_id)

  -- `GetOrchestrator`
  unfoldable pub get_orchestrator : String → Registry → Option Peer
  unfolding is_live_orchestrator latest
  get_orchestrator circle r = latest none (
      keep (λ p. p.circle == circle && is_live_orchestrator (heartbeat_tolerance r) p) (peers_of r))
