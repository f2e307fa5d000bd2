-- ===== src/Registry/Circles.antt =====
-- Registry/Access: who reaches whom across circles.
use repowire.Prelude.{
  String, Bool, true, false, ◌||◌, ◌==◌, ◌≡◌, Option, none, some, [], Bool-cases, inl, inr, lookup,
  arith, refl, keep, length, ◌⊎◌, ◌≤◌,
}
use repowire.Proto.{PeerId, bypasses_circles, Peer}
use repowire.Registry.Types.{PeerState, Entry, Registry}
use repowire.Registry.Resolve.{Resolved, missing, ambiguous, panic, hit, resolve_peer, has_name}
use repowire.Registry.Addressing.{Addressed, Resolution, namesakes, resolve_peer_lem}
use repowire.Registry.Access.{
  Access, ambiguous_target, unknown_target, out_of_range, granted, circle_boundary,
  check_circle_access, resolve_sender, found, admit, dispatch, check_access,
}

-- The rule that the circles express, as one test.
abbrev pub may_reach : Bool → Peer → Peer → Bool
may_reach bypass f t =
    bypass || (bypasses_circles f.role || (bypasses_circles t.role || f.circle == t.circle))

abbrev pub Permitted : Bool → Option Peer → Peer → Type 0
Permitted bypass none t = Unit
Permitted bypass (some f) t = may_reach bypass f t ≡ true

-- The address reaches that peer of the table.
abbrev pub Reaches : String → Option String → Registry → Peer → Type 0
Reaches address circle r p = (e : Entry) × Addressed address circle r e × (e.1.peer ≡ p)

-- Who the sender is: the peer that the address reaches in the target's circle, or else without a
-- circle. A nameless sender has an address that is no id, and that names nobody or several peers.
abbrev pub SentBy : String → String → Registry → Option Peer → Type 0
SentBy from circle r (some f) =
    Reaches from (some circle) r f
    ⊎ ((lookup from r.peers ≡ none) × (namesakes from (some circle) r ≡ []) × Reaches from none r f)
SentBy from circle r none =
    (lookup from r.peers ≡ none)
    × (namesakes from (some circle) r ≡ [])
    × ((namesakes from none r ≡ []) ⊎ (2 ≤ length (keep (has_name from) r.peers)))

abbrev pub Verdict : String → String → Bool → Option String → Registry → Access → Type 0
Verdict from to bypass circle r ambiguous_target =
    (circle ≡ none) × (lookup to r.peers ≡ none) × (2 ≤ length (keep (has_name to) r.peers))
Verdict from to bypass circle r unknown_target =
    (lookup to r.peers ≡ none) × (namesakes to circle r ≡ [])
Verdict from to bypass circle r out_of_range = ⊥
Verdict from to bypass circle r (granted sender t) =
    Reaches to circle r t × SentBy from t.circle r sender × Permitted bypass sender t
Verdict from to bypass circle r (circle_boundary none) = ⊥
Verdict from to bypass circle r (circle_boundary (some f)) =
    (e : Entry) × Addressed to circle r e
    × SentBy from e.1.peer.circle r (some f)
    × (may_reach bypass f e.1.peer ≡ false)

may_reach_lem :
    (bypass : Bool) (f t : Peer)
    → check_circle_access (some f) (some t) bypass ≡ may_reach bypass f t
unfolding check_circle_access
may_reach_lem bypass f t = ground arith

module _ (connected : PeerId → Bool) where
  -- The second search, once nobody is reached in the circle.
  anywhere-SentBy :
      (from circle : String) (r : Registry) (res : Resolved)
      → lookup from r.peers ≡ none
      → namesakes from (some circle) r ≡ []
      → Resolution from none r res
      → SentBy from circle r (found connected res)
  anywhere-SentBy from circle r missing gone empty (gone2, nobody) = (gone, empty, inl nobody)
  anywhere-SentBy from circle r ambiguous gone empty (unscoped, gone2, many) =
      (gone, empty, inr many)
  anywhere-SentBy from circle r panic gone empty h = absurd h
  anywhere-SentBy from circle r (hit k ps) gone empty h = inr (gone, empty, ((k, ps), h, refl))

  sender-SentBy :
      (from circle : String) (r : Registry) (res : Resolved)
      → Resolution from (some circle) r res
      → SentBy from circle r (elim (found connected res) [
        | some p ↦ some p
        | none ↦ found connected (resolve_peer connected from none r)
      ])
  sender-SentBy from circle r missing (gone, empty) =
      anywhere-SentBy from circle r (resolve_peer connected from none r) gone empty
        (resolve_peer_lem connected from none r)
  sender-SentBy from circle r ambiguous (unscoped, gone, many) = absurd (ground (arith, unscoped))
  sender-SentBy from circle r panic h = absurd h
  sender-SentBy from circle r (hit k ps) h = inl ((k, ps), h, refl)

  resolve_sender-SentBy :
      (from circle : String) (r : Registry)
      → SentBy from circle r (resolve_sender connected from circle r)
  unfolding resolve_sender
  resolve_sender-SentBy from circle r =
      sender-SentBy from circle r (resolve_peer connected from (some circle) r)
        (resolve_peer_lem connected from (some circle) r)

  admit-Verdict :
      (from to : String) (bypass : Bool) (circle : Option String) (r : Registry) (k : PeerId)
      (ps : PeerState) (sender : Option Peer)
      → Addressed to circle r (k, ps)
      → SentBy from ps.peer.circle r sender
      → Verdict from to bypass circle r (admit connected sender ps.peer bypass)
  unfolding admit check_circle_access
  admit-Verdict from to bypass circle r k ps none at by = (((k, ps), at, refl), by, tt)
  admit-Verdict from to bypass circle r k ps (some f) at by =
      elim (Bool-cases (may_reach bypass f ps.peer)) [
        | inl is ↦ rw (may_reach_lem bypass f ps.peer, is, admit) (((k, ps), at, refl), by, is)
        | inr is ↦ rw (may_reach_lem bypass f ps.peer, is, admit) ((k, ps), at, by, is)
      ]

  dispatch-Verdict :
      (from to : String) (bypass : Bool) (circle : Option String) (r : Registry) (res : Resolved)
      → Resolution to circle r res
      → Verdict from to bypass circle r (dispatch connected from bypass r res)
  unfolding dispatch
  dispatch-Verdict from to bypass circle r missing h = h
  dispatch-Verdict from to bypass circle r ambiguous h = h
  dispatch-Verdict from to bypass circle r panic h = h
  dispatch-Verdict from to bypass circle r (hit k ps) h =
      admit-Verdict from to bypass circle r k ps (resolve_sender connected from ps.peer.circle r) h
        (resolve_sender-SentBy from ps.peer.circle r)

  -- Access control always answers. It grants access only to a peer that the target address reaches,
  -- and only if the sender is unknown, the circles are waived, one of the two roles bypasses circles,
  -- or both peers are in the same circle; it refuses across circles only a known sender for whom none
  -- of these holds. The sender is the peer that the sender's address reaches in the target's circle,
  -- or else without a circle; it is unknown only if no peer has that id, none in the target's circle
  -- has that name, and in the whole table nobody or more than one has it. An ambiguous target has no
  -- circle given, no peer of that id, and at least two of that name; an unknown one has no peer of that
  -- id and none of that name in the circle.
  pub check_access_lem :
      (from to : String) (bypass : Bool) (circle : Option String) (r : Registry)
      → Verdict from to bypass circle r (check_access connected from to bypass circle r)
  unfolding check_access
  check_access_lem from to bypass circle r =
      dispatch-Verdict from to bypass circle r (resolve_peer connected to circle r)
        (resolve_peer_lem connected to circle r)
