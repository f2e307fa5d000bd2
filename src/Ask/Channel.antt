-- ===== src/Ask/Channel.antt =====
-- The answer channels of daemon-go/service/ask_tracker.go. A send happens under the tracker's
-- mutex, so a send to a full channel would block every caller for good: `none` is that fault, and
-- also a nil dereference.
use repowire.Prelude.{ℕ, ◌+◌, String, Option, none, some, update, update_at}
use repowire.Ask.Types.{Answer, AskTracker}

-- `w <- ans` on a channel of capacity 1
unfoldable pub send : ℕ → Answer → AskTracker → Option AskTracker
send w ans t = elim (t.buffer w) [
  | none ↦ some (record t { buffer = update_at t.buffer w (some ans) })
  | some _ ↦ none
]

-- `if w, ok := t.answerWaiters[cid]; ok { delete(t.answerWaiters, cid); w <- ans }`
unfoldable pub resolve_waiter : String → Answer → AskTracker → Option AskTracker
unfolding send
resolve_waiter cid ans t = elim (t.answer_waiters cid) [
  | none ↦ some t
  | some w ↦ send w ans (record t { answer_waiters = update t.answer_waiters cid none })
]

abbrev pub cancelled : Option String → Answer
cancelled message = record {
  outcome = "cancelled";
  option_id = none;
  text = none;
  message = message;
}

-- `cancelWaiter`
unfoldable pub cancel_waiter : String → Option String → AskTracker → Option AskTracker
unfolding resolve_waiter
cancel_waiter cid message t = resolve_waiter cid (cancelled message) t

-- `waiterFor`: the channel of `cid`, made if there is none.
unfoldable pub waiter_for : String → AskTracker → ℕ × AskTracker
waiter_for cid t = elim (t.answer_waiters cid) [
  | some w ↦ (w, t)
  | none ↦ (
    t.next_channel,
    record t {
      answer_waiters = update t.answer_waiters cid (some t.next_channel);
      buffer = update_at t.buffer t.next_channel none;
      next_channel = t.next_channel + 1;
    },
  )
]

-- `<-w`, when it is ready: the value, and the emptied channel.
unfoldable pub receive : ℕ → AskTracker → Option Answer × AskTracker
receive w t = (t.buffer w, record t { buffer = update_at t.buffer w none })
