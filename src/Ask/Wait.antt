-- ===== src/Ask/Wait.antt =====
-- The blocking waits of daemon-go/service/ask_tracker.go, cut where the mutex is released: a wait
-- begins in one section, and its `select` ends by a receive, by the context, or by the timer.
use repowire.Prelude.{ℕ, String, Bool, true, false, Option, none, some, if◌then◌else◌, lookup}
use repowire.Ask.Types.{ask_not_found, Answer, Ask, AskTracker}
use repowire.Ask.Channel.{cancelled, waiter_for}
use repowire.Ask.Ops.{Result, ok, err, store, get, validate_answer, answer}

-- How the first section of a wait ends: with a result, or blocked on a channel.
pub data Wait (A : Type 0) : Type 0 where
  done : Result A → Wait A
  blocked : ℕ → Wait A

abbrev pub timed_out : Answer
timed_out = record { outcome = "timed_out"; option_id = none; text = none; message = none }

-- `resolvedDefault`
abbrev pub resolved_default : Option Answer → Answer
resolved_default none = timed_out
resolved_default (some ans) = ans

abbrev block_on : {A : Type 0} → ℕ × AskTracker → Wait A × AskTracker
block_on (w, t) = (blocked w, t)

unfoldable pub begin_wait : String → Answer → Ask → AskTracker → Wait Answer × AskTracker
unfolding waiter_for
begin_wait cid fallback a t = elim a.answer [
  | some recorded ↦ (done (ok recorded), t)
  | none ↦
      if a.closed
      then (done (ok (cancelled (some a.close_reason))), t)
      else elim (validate_answer a.question fallback) [
        | some e ↦ (done (err e), t)
        | none ↦ block_on (waiter_for cid t)
      ]
]

-- `WaitForAnswer` up to its `select`
unfoldable pub wait_for_answer : String → Option Answer → AskTracker → Wait Answer × AskTracker
unfolding begin_wait
wait_for_answer cid default_answer t = elim (lookup cid t.asks) [
  | none ↦ (done (err ask_not_found), t)
  | some a ↦ begin_wait cid (resolved_default default_answer) a t
]

abbrev pub recorded_answer : Option Ask → Option Answer
recorded_answer none = none
recorded_answer (some a) = a.answer

abbrev pub or_default : Option Answer → Answer → Answer
or_default none fallback = fallback
or_default (some ans) fallback = ans

-- The timer's case of `WaitForAnswer`: the default goes through `Answer`, and if that is refused the
-- recorded answer is read by `Get`. These are two sections under the mutex, taken here in one step: no
-- other call comes between them.
unfoldable pub answer_timed_out :
    String → Option Answer → ℕ → AskTracker → Option (Answer × AskTracker)
answer_timed_out cid default_answer now t =
    let fallback = resolved_default default_answer in
    elim (answer cid fallback now t) [
      | none ↦ none
      | some (ok _, u) ↦ some (fallback, u)
      | some (err _, u) ↦ some (or_default (recorded_answer (get cid u)) fallback, u)
    ]

-- `if pull { ask.ReplyDelivery = "pull" }`
unfoldable pub switch_delivery : Bool → String → Ask → AskTracker → AskTracker
switch_delivery true cid a t = store cid (record a { reply_delivery = "pull" }) t
switch_delivery false cid a t = t

-- `WaitForResolution` up to its `select`. On its timer it changes nothing and returns nil; after a
-- receive it returns `get cid`.
unfoldable pub wait_for_resolution : String → Bool → AskTracker → Wait Ask × AskTracker
unfolding waiter_for
wait_for_resolution cid pull t = elim (lookup cid t.asks) [
  | none ↦ (done (err ask_not_found), t)
  | some a ↦
      if a.closed
      then (done (ok a), t)
      else block_on (waiter_for cid (switch_delivery pull cid a t))
]
