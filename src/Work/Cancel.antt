-- ===== src/Work/Cancel.antt =====
-- `CancelWork` of daemon-go/state/work.go.
use repowire.Prelude.{
  String, Bool, true, false, ◌==◌, Option, none, some, insert, lookup, if◌then◌else◌,
}
use repowire.Work.Types.{
  queued, cancelled, WorkState, is_terminal_state, Time, TrackedWork, Works, or_opt,
}

abbrev pub cancel_reason : String → String
cancel_reason reason = if reason == "" then "cancel_requested" else reason

-- Terminal work: COALESCE keeps what an earlier request recorded.
unfoldable pub cancel_terminal : Time → Option String → String → TrackedWork → TrackedWork
cancel_terminal now by reason w = record w {
  cancel_requested = true;
  cancel_requested_at = or_opt w.cancel_requested_at (some now);
  cancel_requested_by_peer_id = or_opt w.cancel_requested_by_peer_id by;
  cancellation_reason = or_opt w.cancellation_reason (some reason);
  updated_at = now;
}

-- Work in flight.
unfoldable pub cancel_in_flight : Time → Option String → String → TrackedWork → TrackedWork
cancel_in_flight now by reason w = record w {
  state_reason = some reason;
  cancel_requested = true;
  cancel_requested_at = some now;
  cancel_requested_by_peer_id = by;
  cancellation_reason = some reason;
  updated_at = now;
}

unfoldable pub cancel_queued : Time → Option String → String → TrackedWork → TrackedWork
unfolding cancel_in_flight
cancel_queued now by reason w = record (cancel_in_flight now by reason w) {
  state = cancelled;
  completed_at = some now;
}

abbrev pub is_queued : WorkState → Bool
is_queued queued = true
is_queued _ = false

unfoldable pub cancel_row : Time → Option String → String → TrackedWork → TrackedWork
unfolding cancel_terminal cancel_queued cancel_in_flight is_terminal_state
cancel_row now by reason w =
    if is_terminal_state w.state
    then cancel_terminal now by reason w
    else (if is_queued w.state
        then cancel_queued now by reason w
        else cancel_in_flight now by reason w)

-- `CancelWork`
unfoldable pub cancel_work :
    Time → String → Option String → String → Works → Option TrackedWork × Works
unfolding lookup insert cancel_row
cancel_work now id by reason works = elim (lookup id works) [
  | none ↦ (none, works)
  | some w ↦ let row = cancel_row now by (cancel_reason reason) w in (some row, insert id row works)
]
