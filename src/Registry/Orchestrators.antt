-- ===== src/Registry/Orchestrators.antt =====
-- Registry/Resolve's `get_orchestrator`: whom a circle's orchestrator is, and how that follows claims.
use repowire.Prelude.{
  ℕ, ◌⊎◌, String, Bool, false, ◌≡◌, ◌∙◌, Option, none, some, All, Option-cases, inl, inr, keep,
  arith, eq_iff, ap, sym, refl, subst,
}
use repowire.Proto.{PeerId, Peer, PeerRole}
use repowire.Registry.Addressing.{Among, All-Among, weaken-All}
use repowire.Registry.Types.{PeerState, Entry, Registry}
use repowire.Registry.Resolve.{latest, is_live_orchestrator, get_orchestrator, peers_of}
use repowire.Registry.Role
use repowire.Registry.Latest.{latest-All, latest-Newest, NoLater}
use repowire.Registry.Duty.{OnDuty, OffDuty, serves, serves-OnDuty, idle-OffDuty}
use repowire.Registry.Claims.{
  latest-keep, latest-none, NoRivalPeer, crowned, claim_special_role_lem, Outcome,
}

-- A peer of the table.
abbrev pub Present : Registry → Peer → Type 0
Present r p = (e : Entry) × Among e r.peers × (e.1.peer ≡ p)

latest-Present :
    (f : Peer → Bool) (r : Registry) (p : Peer)
    → latest none (keep f (peers_of r)) ≡ some p
    → Present r p
latest-Present f r p h =
    latest-All (Present r) f r.peers none p
      (weaken-All (λ e. Among e r.peers) (λ e. Present r e.1.peer) (λ e at. (e, at, refl)) r.peers
        (All-Among r.peers))
      tt h

module _ (connected : PeerId → Bool) (now : ℕ) where
  off_or_older :
      (circle : String) (r : Registry) (p : Peer) (e : Entry)
      → (serves connected now circle r e.1.peer ≡ false) ⊎ NoLater e.1.peer.last_seen p.last_seen
      → OffDuty connected now circle r e.1.peer ⊎ NoLater e.1.peer.last_seen p.last_seen
  off_or_older circle r p e (inl off) = inl (idle-OffDuty connected now circle r e.1.peer off)
  off_or_older circle r p e (inr older) = inr older

  -- Nobody, or a peer of the table that serves, and after whom no other that serves was seen.
  abbrev pub AnswerFor : String → Registry → Option Peer → Type 0
  AnswerFor circle r none = All (λ e. OffDuty connected now circle r e.1.peer) r.peers
  AnswerFor circle r (some p) =
      Present r p
      × OnDuty connected now circle r p
      × All (λ e. OffDuty connected now circle r e.1.peer ⊎ NoLater e.1.peer.last_seen p.last_seen)
          r.peers

  -- The answer to the question for a circle's orchestrator is a peer of the table, of that circle, with
  -- that role, online or busy, and seen within two heartbeat intervals or connected; no other peer of
  -- the table for whom all this holds was seen after it. There is no answer only when every entry of
  -- the table is in another circle, has another role, is offline, or is neither seen in time nor
  -- connected.
  pub get_orchestrator_lem :
      (circle : String) (r : Registry)
      → AnswerFor circle r (get_orchestrator connected now circle r)
  unfolding get_orchestrator
  get_orchestrator_lem circle r =
      elim (Option-cases (latest none (keep (serves connected now circle r) (peers_of r)))) [
        | inl nobody ↦ rw nobody (
            weaken-All (λ e. serves connected now circle r e.1.peer ≡ false)
              (λ e. OffDuty connected now circle r e.1.peer)
              (λ e. idle-OffDuty connected now circle r e.1.peer) r.peers
              (latest-none (serves connected now circle r) r.peers nobody))
        | inr (p, best) ↦ rw best (
          latest-Present (serves connected now circle r) r p best,
          serves-OnDuty connected now circle r p
              (latest-keep (serves connected now circle r) r.peers none p tt best),
          weaken-All
              (λ e.
                (serves connected now circle r e.1.peer ≡ false)
                ⊎ NoLater e.1.peer.last_seen p.last_seen)
              (λ e.
                OffDuty connected now circle r e.1.peer ⊎ NoLater e.1.peer.last_seen p.last_seen)
              (λ e. off_or_older circle r p e) r.peers
              (latest-Newest (serves connected now circle r) r.peers none p best).1,
        )
      ]

module _ (connected : PeerId → Bool) (now later : ℕ) where
  sole-get_orchestrator :
      (target : PeerId) (circle : String) (r : Registry) (p : Peer)
      → All (NoRivalPeer target circle) r.peers
      → get_orchestrator connected later circle r ≡ some p
      → p.peer_id ≡ target
  unfolding get_orchestrator is_live_orchestrator
  sole-get_orchestrator target circle r p sole h = ground (
    arith,
    eq_iff p.peer_id target,
    latest-All (λ q. Role.is_rival_peer target circle q ≡ false) (serves connected later circle r)
        r.peers none p sole tt h,
    latest-keep (serves connected later circle r) r.peers none p tt h,
  )

  claimed_circle-crowned :
      (circle : Option String) (ps : PeerState)
      → Role.claimed_circle circle (crowned now ps).peer ≡ Role.claimed_circle circle ps.peer
  claimed_circle-crowned none ps = refl
  claimed_circle-crowned (some c) ps = refl

  claimed-get_orchestrator :
      (name : String) (circle : Option String) (r after : Registry) (res : Role.ClaimResult)
      (p : Peer)
      → Outcome connected now name circle r (Role.claimed res, after)
      → get_orchestrator connected later (Role.claimed_circle circle res.peer) after ≡ some p
      → p.peer_id ≡ res.peer.peer_id
  claimed-get_orchestrator name circle r after res p (e, at, same, live, (sole, unmapped, own))
        asked =
      sole-get_orchestrator e.1.peer.peer_id (Role.claimed_circle circle e.1.peer) after p sole (
        subst (λ c. get_orchestrator connected later c after ≡ some p)
          (ap (Role.claimed_circle circle) same ∙ claimed_circle-crowned circle e.1) asked)
      ∙ ap (λ (q : Peer). q.peer_id) (sym same)

  -- After a successful claim whose result is the given one, whoever is named as the orchestrator of the
  -- claimed circle, then or later (by the clock, the registry unchanged), is the peer that claimed.
  pub claim-get_orchestrator :
      (name : String) (role : PeerRole) (circle : Option String) (force : Bool) (r after : Registry)
      (res : Role.ClaimResult) (p : Peer)
      → Role.claim_special_role connected now name role circle force r ≡ (Role.claimed res, after)
      → get_orchestrator connected later (Role.claimed_circle circle res.peer) after ≡ some p
      → p.peer_id ≡ res.peer.peer_id
  claim-get_orchestrator name role circle force r after res p made asked =
      claimed-get_orchestrator name circle r after res p
        (subst (λ o. Outcome connected now name circle r o) made
          (claim_special_role_lem connected now name role circle force r))
        asked
