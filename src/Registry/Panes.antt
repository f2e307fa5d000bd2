-- ===== src/Registry/Panes.antt =====
-- daemon-go/peer/registry.go: what the release of a pane leaves in the table.
use repowire.Prelude.{
  ℕ, String, Bool, true, not, ◌||◌, ◌==◌, ◌≡◌, refl, List, [], ◌∷◌, Bool-cases, Option-cases, All,
  inl, inr, lookup, is_some, if◌then◌else◌, arith,
}
use repowire.Proto.{PeerId}
use repowire.Fsm.{pane_displaced, apply}
use repowire.Registry.Types.{Entry, PeerState, Registry}
use repowire.Registry.Lifecycle.{move}
use repowire.Registry.Pane.{
  holds_pane, is_fresh_orchestrator, is_displaced, displaced_peer, displaced_row, displace,
  release_peers, release_pane,
}

-- The entry is the new holder's, or does not hold the pane, or it is the pane's live orchestrator, or
-- its state does not let it be displaced.
abbrev pub is_settled : ℕ → String → PeerId → Entry → Bool
is_settled now pane new e =
    e.0 == new
    || not (holds_pane pane e.1.peer)
    || is_fresh_orchestrator now e.1.peer
    || not (is_some (apply e.1.state pane_displaced))

module _ (now : ℕ) (pane : String) (new : PeerId) where
  settled_one :
      (id : PeerId) (ps : PeerState)
      → is_settled now pane new (
        id,
        if is_displaced now pane new (id, ps)
            then displaced_peer now (apply ps.state pane_displaced) ps
            else ps,
      )
        ≡ true
  unfolding displaced_peer displace move
  settled_one id ps = elim (Bool-cases (is_displaced now pane new (id, ps))) [
    | inl out ↦ elim (Option-cases (apply ps.state pane_displaced)) [
      | inl stuck ↦ rw (out, stuck, displaced_peer) ground (arith, stuck)
      | inr (next, goes) ↦ rw (out, goes, displaced_peer, displace) ground (arith, goes)
    ]
    | inr stays ↦ rw (stays) ground (arith, stays)
  ]

  release_peers-settled :
      (xs : List Entry) (r : Registry)
      → All (λ e. is_settled now pane new e ≡ true) (release_peers now pane new xs r).0
  unfolding release_peers
  release_peers-settled [] r = tt
  release_peers-settled ((id, ps) ∷ rest) r = (
    settled_one id ps,
    release_peers-settled rest (
        if is_displaced now pane new (id, ps)
        then displaced_row (apply ps.state pane_displaced) ps.peer.peer_id r
        else r),
  )

  release_peers-new :
      (xs : List Entry) (r : Registry)
      → lookup new (release_peers now pane new xs r).0 ≡ lookup new xs
  unfolding release_peers lookup
  release_peers-new [] r = refl
  release_peers-new ((id, ps) ∷ rest) r = ground (
    arith,
    release_peers-new rest (
        if is_displaced now pane new (id, ps)
        then displaced_row (apply ps.state pane_displaced) ps.peer.peer_id r
        else r),
  )

  -- After the release of a pane to a new holder, whoever else still holds it is an orchestrator that is
  -- not offline and was seen lately, or in a state that cannot be displaced; the new holder's own entry
  -- is as before.
  pub release_pane_lem :
      (r : Registry)
      → All (λ e. is_settled now pane new e ≡ true) (release_pane now pane new r).peers
        × (lookup new (release_pane now pane new r).peers ≡ lookup new r.peers)
  unfolding release_pane
  release_pane_lem r = (release_peers-settled r.peers r, release_peers-new r.peers r)
