-- ===== src/Ask/Step/Waits.antt =====
-- `Step` for the waits of daemon-go/service/ask_tracker.go.
use repowire.Prelude.{
  ℕ, String, Bool, true, false, ◌≡◌, refl, inl, inr, Option, some, lookup, arith, Bool-cases,
  Option-cases, eq_iff, lookup-insert,
}
use repowire.Ask.Types.{Answer, Ask, AskTracker}
use repowire.Ask.Channel.{waiter_for}
use repowire.Ask.Ops.{Result, ok, err, store, get, validate_answer, answer}
use repowire.Ask.Wait.{
  begin_wait, wait_for_answer, switch_delivery, wait_for_resolution, answer_timed_out,
  resolved_default, recorded_answer, or_default,
}
use repowire.Ask.Inv.{Inv, is_open}
use repowire.Ask.Inv.Waiters.{waiter_for-Inv}
use repowire.Ask.Step.{Step, Steps}
use repowire.Ask.Step.Basic.{answer-Steps}
use repowire.Ask.Step.Rules.{Step-refl, Step-asks_set, touch-Step, Step-asks_then}

asks-waiter_for : (cid : String) (t : AskTracker) → (waiter_for cid t).1.asks ≡ t.asks
unfolding waiter_for
asks-waiter_for cid t = ground arith

waiter_for-Step :
    (cid : String) (t : AskTracker)
    → Inv t
    → is_open (lookup cid t.asks) ≡ true
    → Step t (waiter_for cid t).1
waiter_for-Step cid t h o = Step-asks_set (waiter_for-Inv cid h o) (asks-waiter_for cid t)

begin_wait-Step :
    (cid : String) (fallback : Answer) (a : Ask) (t : AskTracker)
    → Inv t
    → lookup cid t.asks ≡ some a
    → Step t (begin_wait cid fallback a t).1
unfolding begin_wait
begin_wait-Step cid fallback a t h here = elim (Option-cases a.answer) [
  | inr (recorded, e) ↦ rw (e, begin_wait) (Step-refl t h)
  | inl e ↦ elim (Bool-cases a.closed) [
    | inl k ↦ rw (e, begin_wait) (rw k (Step-refl t h))
    | inr o ↦ elim (Option-cases (validate_answer a.question fallback)) [
      | inr (bad, v) ↦ rw (e, begin_wait) (rw o (rw v (Step-refl t h)))
      | inl v ↦ rw (e, begin_wait) (rw o (rw v (waiter_for-Step cid t h (ground arith))))
    ]
  ]
]

pub wait_for_answer-Step :
    (cid : String) (default_answer : Option Answer) (t : AskTracker)
    → Inv t
    → Step t (wait_for_answer cid default_answer t).1
unfolding wait_for_answer
wait_for_answer-Step cid default_answer t h = elim (Option-cases (lookup cid t.asks)) [
  | inl gone ↦ rw (gone, wait_for_answer) (Step-refl t h)
  | inr (a, here) ↦
      rw (here, wait_for_answer) (begin_wait-Step cid (resolved_default default_answer) a t h here)
]

-- The switch to pull delivery, and then the wait.
block-Step :
    (cid : String) (pull : Bool) (a : Ask) (t : AskTracker)
    → Inv t
    → lookup cid t.asks ≡ some a
    → a.closed ≡ false
    → Step t (waiter_for cid (switch_delivery pull cid a t)).1
unfolding switch_delivery
block-Step cid true a t h here o =
    let a' = record a { reply_delivery = "pull" } in
    let u = store cid a' t in
    let s = touch-Step cid a' h here refl refl refl (λ _. (refl, refl)) in
    Step-asks_then s
      (waiter_for-Inv cid s.inv (ground (arith, lookup-insert cid cid a' t.asks, eq_iff cid cid)))
      (asks-waiter_for cid u)
block-Step cid false a t h here o = waiter_for-Step cid t h (ground arith)

pub wait_for_resolution-Step :
    (cid : String) (pull : Bool) (t : AskTracker)
    → Inv t
    → Step t (wait_for_resolution cid pull t).1
unfolding wait_for_resolution
wait_for_resolution-Step cid pull t h = elim (Option-cases (lookup cid t.asks)) [
  | inl gone ↦ rw (gone, wait_for_resolution) (Step-refl t h)
  | inr (a, here) ↦ elim (Bool-cases a.closed) [
    | inl k ↦ rw (here, wait_for_resolution) (rw k (Step-refl t h))
    | inr o ↦ rw (here, wait_for_resolution) (simp o (block-Step cid pull a t h here o))
  ]
]

timed_out_with :
    (cid : String) (default_answer : Option Answer) (now : ℕ) (t : AskTracker) (r : Result Ask)
    (u : AskTracker)
    → answer cid (resolved_default default_answer) now t ≡ some (r, u)
    → Step t u
    → Steps t (answer_timed_out cid default_answer now t)
unfolding answer_timed_out
timed_out_with cid default_answer now t (ok a) u went step =
    rw (went, answer_timed_out) (resolved_default default_answer, u, refl, step)
timed_out_with cid default_answer now t (err e) u went step =
    let fallback = resolved_default default_answer in
    rw (went, answer_timed_out) (or_default (recorded_answer (get cid u)) fallback, u, refl, step)

pub answer_timed_out-Steps :
    (cid : String) (default_answer : Option Answer) (now : ℕ) (t : AskTracker)
    → Inv t
    → Steps t (answer_timed_out cid default_answer now t)
answer_timed_out-Steps cid default_answer now t h =
    let fallback = resolved_default default_answer in
    let (r, u, went, step) = answer-Steps cid fallback now t h in
    timed_out_with cid default_answer now t r u went step
