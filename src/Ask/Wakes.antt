-- ===== src/Ask/Wakes.antt =====
-- What a blocked wait on the ask tracker (daemon-go/service/ask_tracker.go) gets.
use repowire.Prelude.{
  ℕ, String, true, ◌≡◌, ◌≢◌, inl, inr, Option, none, some, lookup, eq_iff, arith, Option-cases,
  update_at, update,
}
use repowire.Ask.Types.{Answer, Ask, AskTracker}
use repowire.Ask.Channel.{resolve_waiter, cancel_waiter, cancelled, receive}
use repowire.Ask.Ops.{Result, ok, err, store, get, close, answered, answer}
use repowire.Ask.Wait.{resolved_default, answer_timed_out}
use repowire.Ask.Inv.{Inv}
use repowire.Ask.Threads.{answer-ok, answer-answer}
use repowire.Ask.Step.Basic.{answer-Steps}

-- A resolved waiter's channel holds the value, and the table no longer has the channel.
resolve_waiter_sends :
    (cid : String) (ans : Answer) (w : ℕ) (t : AskTracker)
    → t.answer_waiters cid ≡ some w
    → t.buffer w ≡ none
    → (u : AskTracker) × (resolve_waiter cid ans t ≡ some u)
      × (u.buffer w ≡ some ans)
      × (u.answer_waiters cid ≡ none)
unfolding resolve_waiter
resolve_waiter_sends cid ans w t e free = (
  record t {
    answer_waiters = update t.answer_waiters cid none;
    buffer = update_at t.buffer w (some ans);
  },
  ground arith,
  ground arith,
  ground (arith, eq_iff cid cid),
)

-- An accepted answer wakes the wait on that ask: the value received is that very answer, and the
-- same as the one stored with the ask. The channel is then empty and gone from the table.
pub answer_wakes :
    (cid : String) (ans : Answer) (now w : ℕ) (t u : AskTracker) (b : Ask)
    → Inv t
    → t.answer_waiters cid ≡ some w
    → answer cid ans now t ≡ some (ok b, u)
    → ((receive w u).0 ≡ some ans)
      × (b.answer ≡ (receive w u).0)
      × ((receive w (receive w u).1).0 ≡ none)
      × (u.answer_waiters cid ≡ none)
unfolding receive answer
answer_wakes cid ans now w t u b h waits e =
    let (a, here, o, fine) = answer-ok cid ans now t u b e in
    let blank = h.unanswered cid a here o in
    let (v, step, sent, gone) =
      resolve_waiter_sends cid ans w (store cid (answered a ans now) t) waits
        (h.empty cid w waits) in
    (ground arith, ground arith, ground arith, ground arith)

-- Closing an open ask wakes the wait on it with a cancelled answer that names the reason.
pub close_wakes :
    (cid reason : String) (w : ℕ) (t : AskTracker)
    → Inv t
    → t.answer_waiters cid ≡ some w
    → (b : Ask) × (u : AskTracker) × (close cid reason t ≡ some (some b, u))
      × ((receive w u).0 ≡ some (cancelled (some reason)))
      × (u.answer_waiters cid ≡ none)
unfolding receive close cancel_waiter
close_wakes cid reason w t h waits = elim (Option-cases (lookup cid t.asks)) [
  | inl gone ↦ absurd (ground (arith, h.attached cid w waits))
  | inr (a, here) ↦
      let a' = record a { closed = true; close_reason = reason } in
      let (v, step, sent, gone) =
        resolve_waiter_sends cid (cancelled (some reason)) w (store cid a' t) waits
          (h.empty cid w waits) in
      (a', v, ground (arith, h.attached cid w waits), ground arith, gone)
]

timed_out_result :
    (cid : String) (default_answer : Option Answer) (now : ℕ) (t u v : AskTracker) (r : Answer)
    (a : Ask) (q : Result Ask)
    → Inv t
    → answer cid (resolved_default default_answer) now t ≡ some (q, v)
    → answer_timed_out cid default_answer now t ≡ some (r, u)
    → get cid u ≡ some a
    → a.answer ≢ none
    → a.answer ≡ some r
unfolding answer_timed_out
timed_out_result cid default_answer now t u v r a (ok b) h went e here recorded =
    let (stored, filled, _, _, _) =
      answer-answer cid (resolved_default default_answer) (resolved_default default_answer) now now
        t v b h went in
    ground arith
timed_out_result cid default_answer now t u v r a (err x) h went e here recorded =
    elim (Option-cases a.answer) [
      | inl blank ↦ absurd (recorded blank)
      | inr (ans, filled) ↦ ground arith
    ]

-- A wait that times out is truthful: where an answer is stored with the ask afterwards, the wait
-- returns that answer.
pub answer_timed_out_truthful :
    (cid : String) (default_answer : Option Answer) (now : ℕ) (t u : AskTracker) (r : Answer)
    (a : Ask)
    → Inv t
    → answer_timed_out cid default_answer now t ≡ some (r, u)
    → get cid u ≡ some a
    → a.answer ≢ none
    → a.answer ≡ some r
answer_timed_out_truthful cid default_answer now t u r a h e here recorded =
    let (q, v, went, _) = answer-Steps cid (resolved_default default_answer) now t h in
    timed_out_result cid default_answer now t u v r a q h went e here recorded
