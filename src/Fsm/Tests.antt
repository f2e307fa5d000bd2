-- ===== src/Fsm/Tests.antt =====
-- Concrete lives of a peer (daemon-go/peer/fsm.go).
use mathlib.Core.List.{Memᴰ}
use repowire.Prelude.{◌≡◌, refl, some, [], ◌∷◌}
use repowire.Proto.{PeerStatus}
use repowire.Fsm.{
  unregistered, online, retired, connect, user_prompt_submit, terminal_offline, reconnect,
  reclaim_with_live_agent, apply, to_status,
}
use repowire.Fsm.Reach.{
  run, after, connected_has_status, unretired_needs_reclaim, busy_needs_prompt, revive, run-revive,
}

connected_has_status_example :
    (p : PeerStatus) × (to_status (run unregistered (connect ∷ terminal_offline ∷ reconnect ∷ []))
      ≡ some p)
connected_has_status_example = connected_has_status (terminal_offline ∷ reconnect ∷ [])

unretired_needs_reclaim_example :
    Memᴰ reclaim_with_live_agent (reconnect ∷ reclaim_with_live_agent ∷ [])
unfolding run after apply
unretired_needs_reclaim_example =
    unretired_needs_reclaim (reconnect ∷ reclaim_with_live_agent ∷ []) (λ e. cc)

busy_needs_prompt_example :
    Memᴰ user_prompt_submit (reclaim_with_live_agent ∷ user_prompt_submit ∷ [])
unfolding run after apply
busy_needs_prompt_example =
    busy_needs_prompt retired (reclaim_with_live_agent ∷ user_prompt_submit ∷ []) (λ e. cc) refl

run-revive_example : run retired (revive retired) ≡ online
run-revive_example = run-revive retired (λ e. cc)
