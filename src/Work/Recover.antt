-- ===== src/Work/Recover.antt =====
-- `RecoverStaleDispatching` of daemon-go/state/work_runner.go, over the rows in the table's order.
-- `parse` is Go's `time.Parse` for RFC 3339, as `workParseISO` calls it, and `clock` the present time, which stands in where `now` does not parse.
use repowire.Prelude.{
  ℕ, String, Bool, true, false, ◌==◌, ◌&&◌, not, Option, none, some, List, [], ◌∷◌, ltb,
  if◌then◌else◌,
}
use repowire.Json
use repowire.Json.{Json, Fields, Items, end, field, obj, arr, str}
use repowire.Work.Types.{WorkState, dispatching, unavailable, Time, TrackedWork, Works, or_else}
use repowire.Work.Runner.{attempts_of, current_of, text_of, runner_block, with_runner}
use repowire.Work.Attempt.{revise_first}

abbrev pub interrupted : Fields
interrupted = field "reason" (str "runner_interrupted") end

abbrev pub is_dispatching : WorkState → Bool
is_dispatching dispatching = true
is_dispatching _ = false

-- The runner's lease lasts beyond the present.
unfoldable pub is_leased : (String → Option ℕ) → ℕ → TrackedWork → Bool
unfolding runner_block
is_leased parse current w =
    let lease = text_of (Json.as_text (Json.at "lease_until" (runner_block w))) in
    not (lease == "") && elim (parse lease) [ none ↦ false | some t ↦ ltb current t ]

unfoldable pub interrupt_attempt : Time → Fields → Fields
unfolding Json.set
interrupt_attempt now attempt = Json.set "error" (obj interrupted) (
    Json.set "completed_at" (str now)
      (Json.set "phase" (str "runner_interrupted") (Json.set "status" (str "unavailable") attempt)))

unfoldable pub interrupted_runner : Time → TrackedWork → Fields
unfolding runner_block revise_first interrupt_attempt Json.set
interrupted_runner now w =
    let runner = runner_block w in
    let attempt_id = current_of runner in
    let attempts =
      or_else (revise_first (interrupt_attempt now) attempt_id (attempts_of runner))
        (attempts_of runner) in
    Json.set "current_attempt_id" (str attempt_id)
      (Json.set "last_error" (obj interrupted) (Json.set "attempts" (arr attempts) runner))

unfoldable pub recover_row : Time → TrackedWork → TrackedWork
unfolding interrupted_runner with_runner
recover_row now w = record w {
  state = unavailable;
  state_reason = some "runner_interrupted";
  phase = some "runner_interrupted";
  provenance = with_runner (interrupted_runner now w) w;
  error = interrupted;
  completed_at = some now;
  updated_at = now;
}

abbrev pub is_stale : (String → Option ℕ) → ℕ → TrackedWork → Bool
is_stale parse current w = is_dispatching w.state && not (is_leased parse current w)

unfoldable pub recover_rows : (String → Option ℕ) → ℕ → Time → Works → List TrackedWork × Works
unfolding is_leased recover_row
recover_rows parse current now [] = ([], [])
recover_rows parse current now ((id, w) ∷ rest) =
    let (recovered, works) = recover_rows parse current now rest in
    if is_stale parse current w
    then (recover_row now w ∷ recovered, (id, recover_row now w) ∷ works)
    else (recovered, (id, w) ∷ works)

-- `RecoverStaleDispatching`
unfoldable pub recover_stale_dispatching :
    (String → Option ℕ) → ℕ → Time → Works → List TrackedWork × Works
unfolding recover_rows
recover_stale_dispatching parse clock now works =
    recover_rows parse (or_else (parse now) clock) now works
