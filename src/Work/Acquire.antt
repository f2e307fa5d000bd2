-- ===== src/Work/Acquire.antt =====
-- `AcquireForDispatch` of daemon-go/state/work.go. `parse` is Go's `time.Parse` for RFC 3339, as
-- `workParseISO` calls it (none where it fails), `clock` is the time of the call in the same unit, and the caller's `minted` is the id made
-- when the options have none.
use repowire.Prelude.{
  ℕ, String, Bool, true, false, ◌==◌, ◌&&◌, not, Option, none, some, insert, lookup, ltb,
  if◌then◌else◌,
}
use repowire.Json
use repowire.Json.{Json, Fields, Items, end, field, obj, arr, num, str, null}
use repowire.Work.Types.{
  WorkState, queued, dispatching, delivered, failed, unavailable, Time, TrackedWork, Works,
}
use repowire.Work.Runner.{
  append, count, attempts_of, text_or_null, runner_block, with_runner, request_due_at,
}

pub record AcquireOptions : Type 0 where
  pub runner_owner_id : String
  pub lease_until : String
  pub attempt_id : String
  pub ignore_due_at : Bool
  pub retry : Bool

abbrev pub is_allowed : Bool → WorkState → Bool
is_allowed retry failed = true
is_allowed retry unavailable = true
is_allowed retry queued = not retry
is_allowed retry delivered = retry
is_allowed retry _ = false

module _ (parse : String → Option ℕ) where
  unfoldable pub is_waiting : ℕ → AcquireOptions → TrackedWork → Bool
  unfolding request_due_at
  is_waiting clock opt w =
      let due = request_due_at w in
      not (due == "")
      && not opt.ignore_due_at
      && elim (parse due) [ none ↦ false | some t ↦ ltb clock t ]

  unfoldable pub may_acquire : ℕ → AcquireOptions → TrackedWork → Bool
  unfolding is_waiting
  may_acquire clock opt w =
      not w.cancel_requested && is_allowed opt.retry w.state && not (is_waiting clock opt w)

unfoldable pub new_attempt : Time → String → AcquireOptions → TrackedWork → Fields
new_attempt now attempt_id opt w = field "attempt_id" (str attempt_id) (
    field "status" (str "dispatching") (
      field "phase" (str "acquired") (
        field "started_at" (str now) (
          field "completed_at" null (
            field "runner_owner_id" (str opt.runner_owner_id) (
              field "lease_until" (str opt.lease_until) (
                field "assigned_peer_id" (text_or_null w.assigned_peer_id) (
                  field "assigned_peer_info" (obj end) (
                    field "tmux" (obj end) (
                      field "correlation_id" null
                        (field "delivery_state" null (field "error" (obj end) end))))))))))))

-- The runner's block with the new attempt.
unfoldable pub acquired_runner : Time → String → AcquireOptions → TrackedWork → Fields
unfolding runner_block new_attempt append count Json.set
acquired_runner now attempt_id opt w =
    let runner = runner_block w in
    let attempts = append (attempts_of runner) (obj (new_attempt now attempt_id opt w)) in
    Json.set "attempts" (arr attempts) (
      Json.set "lease_until" (str opt.lease_until) (
        Json.set "acquired_at" (str now) (
          Json.set "runner_owner_id" (str opt.runner_owner_id) (
            Json.set "current_attempt_id" (str attempt_id)
              (Json.set "attempt_count" (num (count attempts)) runner)))))

unfoldable pub acquire_row : Time → String → AcquireOptions → TrackedWork → TrackedWork
unfolding acquired_runner with_runner
acquire_row now attempt_id opt w = record w {
  state = dispatching;
  state_reason = some "dispatching";
  phase = some "acquired";
  provenance = with_runner (acquired_runner now attempt_id opt w) w;
  error = end;
  completed_at = none;
  updated_at = now;
}

abbrev pub attempt_of : String → AcquireOptions → String
attempt_of minted opt = if opt.attempt_id == "" then minted else opt.attempt_id

-- `AcquireForDispatch`
unfoldable pub acquire_for_dispatch :
    (String → Option ℕ)
    → ℕ
    → Time
    → String
    → String
    → AcquireOptions
    → Works
    → Option TrackedWork × Works
unfolding lookup insert may_acquire acquire_row
acquire_for_dispatch parse clock now minted id opt works = elim (lookup id works) [
  | none ↦ (none, works)
  | some w ↦
      let row = acquire_row now (attempt_of minted opt) opt w in
      if may_acquire parse clock opt w then (some row, insert id row works) else (none, works)
]
