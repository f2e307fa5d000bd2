-- ===== src/Ask/Tests.antt =====
-- Concrete runs of the ask tracker (daemon-go/service/ask_tracker.go): the theorems at threads that
-- meet their hypotheses.
use mathlib.Core.Option.{some-injective}
use mathlib.Core.Path.{subst}
use repowire.Prelude.{
  ◌≤◌, String, true, false, ◌≡◌, refl, sym, ap, ◌∙◌, update, update_at, none, some, List, [], ◌∷◌,
  lookup, insert, length, take,
}
use repowire.Ask.Types.{Answer, Ask, RegisterAskParams, AskTracker, already_answered}
use repowire.Ask.Channel.{receive, cancelled, cancel_waiter, resolve_waiter}
use repowire.Ask.Ops.{
  Result, ok, err, new_ask_tracker, store, register, get, close, answer, validate_answer,
}
use repowire.Ask.Replies.{involves, snapshot, set_pending_reply}
use repowire.Ask.Sweep.{inbound, list_pending, forget_peer, begin_quiesce, pending_for_peer}
use repowire.Ask.Wait.{timed_out, wait_for_answer, answer_timed_out}
use repowire.Ask.Inv.{Inv, is_open}
use repowire.Ask.Evict.{unless}
use repowire.Ask.Step.{SameOutcome}
use repowire.Ask.Step.Basic.{register-Step, answer-Steps}
use repowire.Ask.Step.Stash.{set_pending_reply-Step}
use repowire.Ask.Step.Waits.{wait_for_answer-Step}
use repowire.Ask.Run.{
  Call, register_call, close_call, wait_answer_call, quiesce_call, answer_call, exec, run,
  new_ask_tracker-Inv,
}
use repowire.Ask.Guarantees.{run_never_faults, switch_barrier, waiter_has_open_ask, outcome_final}
use repowire.Ask.Threads.{RegisterSpec, register_lem, answer-answer}
use repowire.Ask.Wakes.{answer_wakes, close_wakes, answer_timed_out_truthful}
use repowire.Ask.Reminders.{
  NewestFirst, list_pending_capped, forget_peer_lem, pending_for_peer_keeps_stash,
}

abbrev question : RegisterAskParams
question = record {
  from_peer_id = "a";
  from_peer_name = "alice";
  to_peer_id = "b";
  to_peer_name = "bob";
  text = "which endpoints?";
  reply_to = none;
  correlation_id = "ask-1";
  from_repowire_session_id = none;
  to_repowire_session_id = none;
  parent_id = none;
  question = none;
  reply_delivery = "";
}

abbrev the_ask : Ask
the_ask = record {
  correlation_id = "ask-1";
  from_peer_id = "a";
  from_peer_name = "alice";
  to_peer_id = "b";
  to_peer_name = "bob";
  text = "which endpoints?";
  from_repowire_session_id = none;
  to_repowire_session_id = none;
  reply_to = none;
  parent_id = none;
  created_at = 7;
  closed = false;
  close_reason = "";
  pending_reply = none;
  pending_reply_at = none;
  asker_identity = none;
  reply_text = none;
  replied_at = none;
  reply_delivery = "push";
  reply_attachments = [];
  question = none;
  answer = none;
}

abbrev reply : Answer
reply = record { outcome = "answered"; option_id = none; text = some "see docs"; message = none }

abbrev started : AskTracker
started = (register "0a" 7 question (new_ask_tracker 100)).1

started-Inv : Inv started
started-Inv = (register-Step "0a" 7 question (new_ask_tracker 100) (new_ask_tracker-Inv 100)).inv

abbrev waited : AskTracker
waited = (wait_for_answer "ask-1" none started).1

waited-Inv : Inv waited
waited-Inv = (wait_for_answer-Step "ask-1" none started started-Inv).inv

abbrev history : List Call
history = register_call "0a" 7 question ∷ wait_answer_call "ask-1" none ∷ quiesce_call "c" ∷ []

-- `BeginQuiesce` on a peer with no ask, beside an open ask and its waiter.
abbrev ahead : AskTracker
ahead = (begin_quiesce "c" waited).1

run-history : run history (new_ask_tracker 100) ≡ some ahead
unfolding run exec
run-history = refl

run_never_faults_example : (u : AskTracker) × (run history (new_ask_tracker 100) ≡ some u)
run_never_faults_example = run_never_faults 100 history

look_ahead : lookup "ask-1" ahead.asks ≡ some the_ask
unfolding register new_ask_tracker wait_for_answer begin_quiesce validate_answer lookup insert
look_ahead = refl

switch_barrier_example : (ahead.quiescing "b" ≡ false) × (ahead.quiescing "a" ≡ false)
switch_barrier_example = switch_barrier 100 history run-history "ask-1" the_ask look_ahead refl

channel_ahead : ahead.answer_waiters "ask-1" ≡ some 0
unfolding register new_ask_tracker wait_for_answer begin_quiesce validate_answer lookup insert
channel_ahead = refl

waiter_has_open_ask_example : (is_open (lookup "ask-1" ahead.asks) ≡ true) × (ahead.buffer 0 ≡ none)
waiter_has_open_ask_example = waiter_has_open_ask 100 history run-history "ask-1" 0 channel_ahead

-- The ask closed by a bare ack, with nobody waiting.
abbrev acked : Ask
acked = record the_ask { closed = true; close_reason = "ack" }

abbrev shut : AskTracker
shut = store "ask-1" acked started

abbrev closing : List Call
closing = register_call "0a" 7 question ∷ close_call "ask-1" "ack" ∷ []

run-closing : run closing (new_ask_tracker 100) ≡ some shut
unfolding run exec register new_ask_tracker close cancel_waiter lookup insert
run-closing = refl

too_late : exec (answer_call "ask-1" reply 9) shut ≡ some shut
unfolding exec answer register new_ask_tracker lookup insert
too_late = refl

look_shut : lookup "ask-1" shut.asks ≡ some acked
unfolding register new_ask_tracker lookup insert
look_shut = refl

outcome_final_example : SameOutcome acked (lookup "ask-1" shut.asks)
outcome_final_example =
    outcome_final 100 closing run-closing (answer_call "ask-1" reply 9) "ask-1" acked too_late
      look_shut refl

-- A first question, on an empty tracker.
register_lem_example :
    RegisterSpec "0a" 7 question
      (new_ask_tracker 100)
      (register "0a" 7 question (new_ask_tracker 100))
register_lem_example = register_lem "0a" 7 question (new_ask_tracker 100)

abbrev replied : Ask
replied = record the_ask {
  answer = some reply;
  reply_text = some "see docs";
  replied_at = some 9;
  closed = true;
  close_reason = "answered";
}

abbrev woken : AskTracker
woken = record waited {
  asks = insert "ask-1" replied waited.asks;
  answer_waiters = update waited.answer_waiters "ask-1" none;
  buffer = update_at waited.buffer 0 (some reply);
}

answer_run : answer "ask-1" reply 9 waited ≡ some (ok replied, woken)
unfolding answer resolve_waiter register new_ask_tracker wait_for_answer validate_answer lookup
    insert
answer_run = refl

waits : waited.answer_waiters "ask-1" ≡ some 0
unfolding register new_ask_tracker wait_for_answer validate_answer lookup insert
waits = refl

answer-answer_example :
    (get "ask-1" woken ≡ some replied)
    × (replied.answer ≡ some reply)
    × (replied.closed ≡ true)
    × (replied.close_reason ≡ "answered")
    × (answer "ask-1" timed_out 10 woken ≡ some (err already_answered, woken))
answer-answer_example =
    answer-answer "ask-1" reply timed_out 9 10 waited woken replied waited-Inv answer_run

answer_wakes_example :
    ((receive 0 woken).0 ≡ some reply)
    × (replied.answer ≡ (receive 0 woken).0)
    × ((receive 0 (receive 0 woken).1).0 ≡ none)
    × (woken.answer_waiters "ask-1" ≡ none)
answer_wakes_example =
    answer_wakes "ask-1" reply 9 0 waited woken replied waited-Inv waits answer_run

close_wakes_example :
    (b : Ask) × (u : AskTracker) × (close "ask-1" "ack" waited ≡ some (some b, u))
    × ((receive 0 u).0 ≡ some (cancelled (some "ack")))
    × (u.answer_waiters "ask-1" ≡ none)
close_wakes_example = close_wakes "ask-1" "ack" 0 waited waited-Inv waits

-- The timer fires after the answer: the wait returns what was answered, not its default.
timeout_run : answer_timed_out "ask-1" none 12 woken ≡ some (reply, woken)
unfolding answer_timed_out answer get register new_ask_tracker wait_for_answer validate_answer
    lookup insert
timeout_run = refl

woken-Inv : Inv woken
woken-Inv =
    let (r, u, went, step) = answer-Steps "ask-1" reply 9 waited waited-Inv in
    subst Inv
      (ap (λ (p : Result Ask × AskTracker). p.1)
        (some-injective (r, u) (ok replied, woken) (sym went ∙ answer_run)))
      step.inv

get-woken : get "ask-1" woken ≡ some replied
get-woken = answer-answer_example.0

answer_timed_out_truthful_example : replied.answer ≡ some reply
answer_timed_out_truthful_example =
    answer_timed_out_truthful "ask-1" none 12 woken woken reply replied woken-Inv timeout_run
      get-woken (λ e. cc)

list_pending_capped_example :
    NewestFirst (list_pending inbound "b" (some 1) waited)
    × (length (list_pending inbound "b" (some 1) waited) ≤ 1)
    × (list_pending inbound "b" (some 1) waited ≡ take 1 (list_pending inbound "b" none waited))
list_pending_capped_example = list_pending_capped inbound "b" 1 waited

forget_peer_lem_example :
    (u : AskTracker) × (forget_peer "b" waited ≡ some (length (snapshot (involves "b") waited), u))
    × ((c : String) → lookup c u.asks ≡ unless (involves "b") (lookup c waited.asks))
forget_peer_lem_example = forget_peer_lem "b" waited waited-Inv

abbrev stashed : AskTracker
stashed = (set_pending_reply "ask-1" "[reply] ok" none false 8 started).1

abbrev stashed_ask : Ask
stashed_ask = record the_ask { pending_reply = some "[reply] ok"; pending_reply_at = some 8 }

look_stashed : lookup "ask-1" stashed.asks ≡ some stashed_ask
unfolding set_pending_reply register new_ask_tracker lookup insert
look_stashed = refl

-- Long past the ttl of 100.
pending_for_peer_keeps_stash_example :
    (r : Result (List Ask)) × (u : AskTracker) × (pending_for_peer 900_000 "a"
        (some 5)
        "both"
        stashed
      ≡ some (r, u))
    × (lookup "ask-1" u.asks ≡ some stashed_ask)
pending_for_peer_keeps_stash_example =
    pending_for_peer_keeps_stash 900_000 "a" (some 5) "both" stashed "ask-1" stashed_ask
      (set_pending_reply-Step "ask-1" "[reply] ok" none false 8 started started-Inv).inv
      look_stashed refl
