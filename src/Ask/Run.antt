-- ===== src/Ask/Run.antt =====
-- Histories of the ask tracker (daemon-go/service/ask_tracker.go): any interleaving of sections
-- under its mutex, receives and timeouts, as a list of calls with their clocks and tokens.

use repowire.Json.{Fields}
use repowire.Prelude.{ℕ, String, Bool, ◌≡◌, refl, Option, none, some, List, [], ◌∷◌, lookup}
use repowire.Proto.{PeerId}
use repowire.Ask.Types.{AskerIdentity, Answer, RegisterAskParams, AskTracker}
use repowire.Ask.Channel.{receive}
use repowire.Ask.Ops.{new_ask_tracker, register, close, answer, capture_reply}
use repowire.Ask.Replies.{
  set_pending_reply, mark_pending_reply_delivered, rebind_and_close, clear_pending_reply,
}
use repowire.Ask.Sweep.{
  forget_peer, evict_expired, claim_sweep, pending_for_peer, begin_quiesce, end_quiesce,
}
use repowire.Ask.Wait.{wait_for_answer, answer_timed_out, wait_for_resolution}
use repowire.Ask.Inv.{Inv}
use repowire.Ask.Inv.Waiters.{receive-Inv}
use repowire.Ask.Step.{Step, Steps}
use repowire.Ask.Step.Rules.{Step-asks_set}
use repowire.Ask.Step.Basic.{register-Step, close-Steps, answer-Steps, capture_reply-Step}
use repowire.Ask.Step.Stash.{
  set_pending_reply-Step, mark_pending_reply_delivered-Steps, rebind_and_close-Steps,
  clear_pending_reply-Step,
}
use repowire.Ask.Step.Rounds.{
  forget_peer-Steps, evict_expired-Steps, claim_sweep-Step, pending_for_peer-Steps,
  begin_quiesce-Step, end_quiesce-Step,
}
use repowire.Ask.Step.Waits.{wait_for_answer-Step, answer_timed_out-Steps, wait_for_resolution-Step}

pub data Call : Type 0 where
  register_call : String → ℕ → RegisterAskParams → Call
  close_call : String → String → Call
  answer_call : String → Answer → ℕ → Call
  capture_call : String → String → List Fields → ℕ → Call
  wait_answer_call : String → Option Answer → Call
  wait_resolution_call : String → Bool → Call
  receive_call : ℕ → Call
  timeout_call : String → Option Answer → ℕ → Call
  stash_call : String → String → Option AskerIdentity → Bool → ℕ → Call
  delivered_call : String → Option PeerId → String → Call
  rebind_call : String → PeerId → String → Call
  clear_call : String → Call
  sweep_call : ℕ → Call
  pending_call : ℕ → PeerId → Option ℕ → String → Call
  evict_call : ℕ → Bool → Call
  forget_call : PeerId → Call
  quiesce_call : PeerId → Call
  release_call : PeerId → Call

abbrev state_of : {A : Type 0} → Option (A × AskTracker) → Option AskTracker
state_of none = none
state_of (some (r, u)) = some u

-- The state after a call; `none` is a fault under the mutex.
unfoldable pub exec : Call → AskTracker → Option AskTracker
exec (register_call token now p) t = some (register token now p t).1
exec (close_call cid reason) t = state_of (close cid reason t)
exec (answer_call cid ans now) t = state_of (answer cid ans now t)
exec (capture_call cid reply files now) t = some (capture_reply cid reply files now t)
exec (wait_answer_call cid ans) t = some (wait_for_answer cid ans t).1
exec (wait_resolution_call cid pull) t = some (wait_for_resolution cid pull t).1
exec (receive_call w) t = some (receive w t).1
exec (timeout_call cid ans now) t = state_of (answer_timed_out cid ans now t)
exec (stash_call cid framed id allow now) t = some (set_pending_reply cid framed id allow now t).1
exec (delivered_call cid from reason) t = state_of (mark_pending_reply_delivered cid from reason t)
exec (rebind_call cid from reason) t = state_of (rebind_and_close cid from reason t)
exec (clear_call cid) t = some (clear_pending_reply cid t)
exec (sweep_call now) t = some (claim_sweep now t).1
exec (pending_call now id n d) t = state_of (pending_for_peer now id n d t)
exec (evict_call now stashed) t = state_of (evict_expired now stashed t)
exec (forget_call id) t = state_of (forget_peer id t)
exec (quiesce_call id) t = some (begin_quiesce id t).1
exec (release_call id) t = some (end_quiesce id t)

unfoldable pub run : List Call → AskTracker → Option AskTracker
run [] t = some t
run (c ∷ cs) t = elim (exec c t) [ none ↦ none | some u ↦ run cs u ]

abbrev Goes : AskTracker → Option AskTracker → Type 0
Goes t x = (u : AskTracker) × (x ≡ some u) × Step t u

goes : {A : Type 0} {t : AskTracker} {x : Option (A × AskTracker)} → Steps t x → Goes t (state_of x)
goes (r, u, e, s) = (u, rw e refl, s)

-- In a good state every call goes through, to a good state, and no closed ask changes its outcome:
-- it is gone from the table, or still closed with the same reason and answer.
pub exec-Goes :
    (c : Call) (t : AskTracker) → Inv t → (u : AskTracker) × (exec c t ≡ some u) × Step t u
unfolding exec
exec-Goes (register_call token now p) t h = (_, refl, register-Step token now p t h)
exec-Goes (close_call cid reason) t h = goes (close-Steps cid reason t h)
exec-Goes (answer_call cid ans now) t h = goes (answer-Steps cid ans now t h)
exec-Goes (capture_call cid reply files now) t h =
    (_, refl, capture_reply-Step cid reply files now t h)
exec-Goes (wait_answer_call cid ans) t h = (_, refl, wait_for_answer-Step cid ans t h)
exec-Goes (wait_resolution_call cid pull) t h = (_, refl, wait_for_resolution-Step cid pull t h)
exec-Goes (receive_call w) t h = (_, refl, Step-asks_set (receive-Inv w h) (unfold receive in refl))
exec-Goes (timeout_call cid ans now) t h = goes (answer_timed_out-Steps cid ans now t h)
exec-Goes (stash_call cid framed id allow now) t h =
    (_, refl, set_pending_reply-Step cid framed id allow now t h)
exec-Goes (delivered_call cid from reason) t h =
    goes (mark_pending_reply_delivered-Steps cid from reason t h)
exec-Goes (rebind_call cid from reason) t h = goes (rebind_and_close-Steps cid from reason t h)
exec-Goes (clear_call cid) t h = (_, refl, clear_pending_reply-Step cid t h)
exec-Goes (sweep_call now) t h = (_, refl, claim_sweep-Step now t h)
exec-Goes (pending_call now id n d) t h = goes (pending_for_peer-Steps now id n d t h)
exec-Goes (evict_call now stashed) t h = goes (evict_expired-Steps now stashed t h)
exec-Goes (forget_call id) t h = goes (forget_peer-Steps id t h)
exec-Goes (quiesce_call id) t h = (_, refl, begin_quiesce-Step id t h)
exec-Goes (release_call id) t h = (_, refl, end_quiesce-Step id t h)

pub run-Inv :
    (cs : List Call) (t : AskTracker) → Inv t → (u : AskTracker) × (run cs t ≡ some u) × Inv u
unfolding run
run-Inv [] t h = (t, refl, h)
run-Inv (c ∷ cs) t h =
    let (u, went, step) = exec-Goes c t h in rw (went, run) (run-Inv cs u step.inv)

pub new_ask_tracker-Inv : (ttl : ℕ) → Inv (new_ask_tracker ttl)
unfolding new_ask_tracker lookup
new_ask_tracker-Inv ttl = record {
  unique = tt;
  empty = λ c w p. cc;
  minted = λ c w p. cc;
  separate = λ c d w p q. cc;
  attached = λ c w p. cc;
  unanswered = λ c a p k. cc;
  barrier = λ c a p k. cc;
}
