-- ===== src/Work/Update.antt =====
-- `UpdateWorkState` of daemon-go/state/work.go.
use repowire.Prelude.{
  String, Bool, true, false, ◌==◌, ◌&&◌, not, Option, none, some, insert, lookup, if◌then◌else◌,
}
use repowire.Json.{Items, end, field, obj, str}
use repowire.Work.Types.{
  WorkState, queued, dispatching, delivered, running, awaiting_input, completed, failed, cancelled,
  blocked, expired, unavailable, is_terminal_state, validate_work_state, Time, TrackedWork,
  WorkUpdate, Works, or_else, or_opt,
}
use repowire.Work.Runner.{append, text_or_null, runner_current_attempt}

abbrev pub state_name : WorkState → String
state_name queued = "queued"
state_name dispatching = "dispatching"
state_name delivered = "delivered"
state_name running = "running"
state_name awaiting_input = "awaiting_input"
state_name completed = "completed"
state_name failed = "failed"
state_name cancelled = "cancelled"
state_name blocked = "blocked"
state_name expired = "expired"
state_name unavailable = "unavailable"

pub data Updated : Type 0 where
  invalid_state unknown_work attempt_id_required stale_attempt terminal_fixed : Updated
  updated : TrackedWork → Updated

-- The states whose update a runner's attempt guards.
abbrev pub is_guarded : WorkState → Bool
is_guarded completed = true
is_guarded failed = true
is_guarded cancelled = true
is_guarded _ = false

unfoldable pub attempt_error : String → Option String → Option Updated
attempt_error current none = some attempt_id_required
attempt_error current (some a) =
    if a == ""
    then some attempt_id_required
    else (if a == current then none else some stale_attempt)

-- The two guards: of the runner's attempt and of terminal work.
unfoldable pub refusal : TrackedWork → WorkState → WorkUpdate → Option Updated
unfolding attempt_error runner_current_attempt is_terminal_state
refusal w s u =
    let current = runner_current_attempt w in
    let stale =
      if not (current == "") && is_guarded s then attempt_error current u.attempt_id else none in
    let fixed =
      if is_terminal_state w.state && not (state_name s == state_name w.state)
      then some terminal_fixed
      else none in
    or_opt stale fixed

abbrev pub is_note : Option String → Option String
is_note none = none
is_note (some s) = if s == "" then none else some s

-- `progressEvents`
unfoldable pub noted : Time → WorkState → TrackedWork → WorkUpdate → Items
unfolding append
noted now s w u = elim (is_note u.progress_note) [
  | none ↦ w.progress_events
  | some note ↦ append w.progress_events (
      obj (
        field "at" (str now) (
          field "note" (str note) (
            field "state" (str (state_name s))
              (field "phase" (text_or_null (or_opt u.phase w.phase)) end)))))
]

-- `completedAt`
abbrev pub completion : Time → WorkState → Option Time → Option Time
completion now s at = or_opt at (if is_terminal_state s then some now else none)

-- The row that the statement writes.
unfoldable pub revise : Time → WorkState → TrackedWork → WorkUpdate → TrackedWork
unfolding noted is_terminal_state
revise now s w u = record w {
  state = s;
  state_reason = u.state_reason;
  phase = u.phase;
  progress = or_else u.progress w.progress;
  progress_events = noted now s w u;
  result_summary = or_opt u.result_summary w.result_summary;
  result_data = or_else u.result_data w.result_data;
  error = or_else u.error w.error;
  artifacts = or_else u.artifacts w.artifacts;
  provenance = or_else u.provenance w.provenance;
  completed_at = completion now s w.completed_at;
  updated_at = now;
}

unfoldable pub update_row :
    Time → String → WorkState → WorkUpdate → TrackedWork → Works → Updated × Works
unfolding refusal revise insert
update_row now id s u w works = elim (refusal w s u) [
  | some error ↦ (error, works)
  | none ↦ (updated (revise now s w u), insert id (revise now s w u) works)
]

-- `UpdateWorkState`. Its read and its write are two statements without a transaction, taken here in one
-- step: no other writer comes between them.
unfoldable pub update_work_state : Time → String → WorkUpdate → Works → Updated × Works
unfolding validate_work_state lookup update_row
update_work_state now id u works = elim (validate_work_state u.state) [
  | none ↦ (invalid_state, works)
  | some s ↦ elim (lookup id works) [
    | none ↦ (unknown_work, works)
    | some w ↦ update_row now id s u w works
  ]
]
