-- ===== src/Registry/Duty.antt =====
-- Which peers are a circle's live orchestrators, in terms of the fields of the peer.
use repowire.Prelude.{
  ℕ, ◌+◌, ◌*◌, ◌≤◌, ◌<◌, ◌⊎◌, String, Bool, true, false, ◌&&◌, ◌==◌, ◌≡◌, Option, none, some,
  Bool-cases, inl, inr, arith, eq_iff, refl,
}
use repowire.Proto.{
  PeerId, Peer, PeerRole, agent, service, orchestrator, human, is_orchestrator, PeerStatus, online,
  busy, offline, is_offline,
}
use repowire.Registry.Types.{Registry, heartbeat_tolerance}
use repowire.Registry.Resolve.{is_fresh, is_live_orchestrator}

-- Any role but that of an orchestrator.
abbrev pub AnotherRole : PeerRole → Type 0
AnotherRole agent = Unit
AnotherRole service = Unit
AnotherRole orchestrator = ⊥
AnotherRole human = Unit

other_role : (role : PeerRole) → is_orchestrator role ≡ false → AnotherRole role
other_role agent h = tt
other_role service h = tt
other_role orchestrator h = absurd (ground (arith, h))
other_role human h = tt

module _ (connected : PeerId → Bool) (now : ℕ) where
  -- Two heartbeat intervals are tolerated.
  abbrev pub SeenLately : Registry → Option ℕ → Type 0
  SeenLately r none = ⊥
  SeenLately r (some seen) = now ≤ seen + r.heartbeat_interval * 2

  abbrev pub Unseen : Registry → Option ℕ → Type 0
  Unseen r none = Unit
  Unseen r (some seen) = seen + r.heartbeat_interval * 2 < now

  -- What makes a peer a circle's orchestrator, and what keeps it from being one.
  abbrev pub OnDuty : String → Registry → Peer → Type 0
  OnDuty circle r p =
      (p.circle ≡ circle)
      × (p.role ≡ orchestrator)
      × ((p.status ≡ online) ⊎ (p.status ≡ busy))
      × (SeenLately r p.last_seen ⊎ (connected p.peer_id ≡ true))

  abbrev pub OffDuty : String → Registry → Peer → Type 0
  OffDuty circle r p =
      ((p.circle == circle) ≡ false)
      ⊎ AnotherRole p.role
      ⊎ (p.status ≡ offline)
      ⊎ (Unseen r p.last_seen × (connected p.peer_id ≡ false))

  abbrev pub serves : String → Registry → Peer → Bool
  serves circle r p =
      p.circle == circle && is_live_orchestrator connected now (heartbeat_tolerance r) p

  status-cases : (s : PeerStatus) → (is_offline s ≡ false) → (s ≡ online) ⊎ (s ≡ busy)
  status-cases online h = inl refl
  status-cases busy h = inr refl
  status-cases offline h = absurd (ground (arith, h))

  role_is : (role : PeerRole) → is_orchestrator role ≡ true → role ≡ orchestrator
  role_is agent h = absurd (ground (arith, h))
  role_is service h = absurd (ground (arith, h))
  role_is orchestrator h = refl
  role_is human h = absurd (ground (arith, h))

  gone_offline : (s : PeerStatus) → is_offline s ≡ true → s ≡ offline
  gone_offline online h = absurd (ground (arith, h))
  gone_offline busy h = absurd (ground (arith, h))
  gone_offline offline h = refl

  is_fresh-SeenLately :
      (r : Registry) (seen : Option ℕ)
      → is_fresh now (heartbeat_tolerance r) seen ≡ true
      → SeenLately r seen
  unfolding heartbeat_tolerance
  is_fresh-SeenLately r none h = absurd (ground (arith, h))
  is_fresh-SeenLately r (some seen) h = ground (arith, h)

  stale-Unseen :
      (r : Registry) (seen : Option ℕ)
      → is_fresh now (heartbeat_tolerance r) seen ≡ false
      → Unseen r seen
  unfolding heartbeat_tolerance
  stale-Unseen r none h = tt
  stale-Unseen r (some seen) h = ground (arith, h)

  pub serves-OnDuty :
      (circle : String) (r : Registry) (p : Peer) → serves circle r p ≡ true → OnDuty circle r p
  unfolding is_live_orchestrator
  serves-OnDuty circle r p h = (
    ground (arith, h, eq_iff p.circle circle),
    role_is p.role (ground (arith, h)),
    status-cases p.status (ground (arith, h)),
    elim (Bool-cases (is_fresh now (heartbeat_tolerance r) p.last_seen)) [
      | inl lately ↦ inl (is_fresh-SeenLately r p.last_seen lately)
      | inr stale ↦ inr (ground (arith, h, stale))
    ],
  )

  pub idle-OffDuty :
      (circle : String) (r : Registry) (p : Peer) → serves circle r p ≡ false → OffDuty circle r p
  unfolding is_live_orchestrator
  idle-OffDuty circle r p h = elim (Bool-cases (p.circle == circle)) [
    | inr elsewhere ↦ inl elsewhere
    | inl here ↦ elim (Bool-cases (is_orchestrator p.role)) [
      | inr other ↦ inr (inl (other_role p.role other))
      | inl role ↦ elim (Bool-cases (is_offline p.status)) [
        | inl off ↦ inr (inr (inl (gone_offline p.status off)))
        | inr up ↦ inr (
            inr (
              inr (
                stale-Unseen r p.last_seen (ground (arith, h, here, role, up)),
                ground (arith, h, here, role, up),
              )))
      ]
    ]
  ]
