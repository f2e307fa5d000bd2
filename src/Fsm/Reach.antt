-- ===== src/Fsm/Reach.antt =====
-- Histories of a peer's lifecycle: event lists run through `Apply` of daemon-go/peer/fsm.go.
use mathlib.Core.List.{Memᴰ}
use repowire.Prelude.{◌≡◌, ◌≢◌, ◌⊎◌, inl, inr, refl, sym, none, some, List, [], ◌∷◌, arith}
use repowire.Fsm.{
  LifecycleState, unregistered, online, busy, offline, retired, LifecycleEvent, connect,
  user_prompt_submit, reconnect, reclaim_with_live_agent, apply, to_status,
}
use repowire.Proto.{PeerStatus}

-- A rejected event leaves the state as it is.
unfoldable pub after : LifecycleState → LifecycleEvent → LifecycleState
after s e = elim (apply s e) [ some t ↦ t | none ↦ s ]

unfoldable pub run : LifecycleState → List LifecycleEvent → LifecycleState
run s [] = s
run s (e ∷ es) = run (after s e) es

after_registered :
    (s : LifecycleState) (e : LifecycleEvent) → s ≢ unregistered → after s e ≢ unregistered
unfolding after apply
after_registered s e h = ground arith

to_status_registered :
    (s : LifecycleState) → s ≢ unregistered → (p : PeerStatus) × (to_status s ≡ some p)
unfolding to_status
to_status_registered unregistered h = absurd (h refl)
to_status_registered online _ = (PeerStatus.online, refl)
to_status_registered busy _ = (PeerStatus.busy, refl)
to_status_registered offline _ = (PeerStatus.offline, refl)
to_status_registered retired _ = (PeerStatus.offline, refl)

run_registered :
    (s : LifecycleState) (es : List LifecycleEvent) → s ≢ unregistered → run s es ≢ unregistered
unfolding run
run_registered s [] h = h
run_registered s (e ∷ es) h = run_registered (after s e) es (after_registered s e h)

-- After `Connect`, and then any events at all, legal or not, a peer has a wire status: it is never
-- reported as unregistered again.
pub connected_has_status :
    (es : List LifecycleEvent)
    → (p : PeerStatus) × (to_status (run unregistered (connect ∷ es)) ≡ some p)
unfolding run after apply
connected_has_status es = to_status_registered (run online es) (run_registered online es (λ e. cc))

-- Only the reclaim moves a retired peer.
leaves_retired : (e : LifecycleEvent) → (after retired e ≡ retired) ⊎ (e ≡ reclaim_with_live_agent)
unfolding after apply
leaves_retired e = ground arith

-- A retired peer leaves retirement only if some event of the history is a reclaim with a live
-- agent.
pub unretired_needs_reclaim :
    (es : List LifecycleEvent) → run retired es ≢ retired → Memᴰ reclaim_with_live_agent es
unfolding run
unretired_needs_reclaim [] h = absurd (h refl)
unretired_needs_reclaim (e ∷ es) h = elim (leaves_retired e) [
  | inl stays ↦ Memᴰ.tail (unretired_needs_reclaim es (rw stays at h))
  | inr reclaims ↦ Memᴰ.head (sym reclaims)
]

enters_busy :
    (s : LifecycleState) (e : LifecycleEvent)
    → s ≢ busy
    → (after s e ≢ busy) ⊎ (e ≡ user_prompt_submit)
unfolding after apply
enters_busy s user_prompt_submit h = inr refl
enters_busy online e h = ground arith
enters_busy s e h = ground arith

-- A peer that is not busy becomes busy only if some event of the history is a submitted prompt.
pub busy_needs_prompt :
    (s : LifecycleState) (es : List LifecycleEvent)
    → s ≢ busy
    → run s es ≡ busy
    → Memᴰ user_prompt_submit es
unfolding run
busy_needs_prompt s [] h b = absurd (h b)
busy_needs_prompt s (e ∷ es) h b = elim (enters_busy s e h) [
  | inl idle ↦ Memᴰ.tail (busy_needs_prompt (after s e) es idle b)
  | inr prompts ↦ Memᴰ.head (sym prompts)
]

-- The events that take a registered peer to `online`.
unfoldable pub revive : LifecycleState → List LifecycleEvent
revive offline = reconnect ∷ []
revive retired = reclaim_with_live_agent ∷ []
revive busy = LifecycleEvent.stop ∷ []
revive _ = []

-- No registered state is a dead end: each one has a history, given by `revive`, back to `online`.
pub run-revive : (s : LifecycleState) → s ≢ unregistered → run s (revive s) ≡ online
unfolding run revive after apply
run-revive s h = ground arith
