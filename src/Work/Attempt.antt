-- ===== src/Work/Attempt.antt =====
-- `UpdateAttempt` of daemon-go/state/work_runner.go.
use repowire.Prelude.{
  String, Bool, true, false, ◌==◌, Option, none, some, insert, lookup, if◌then◌else◌,
}
use repowire.Json
use repowire.Json.{Json, Fields, Items, nil, cons, end, field, obj, arr, str}
use repowire.Work.Types.{
  WorkState, delivered, failed, cancelled, unavailable, Time, TrackedWork, Works, or_else, or_opt,
}
use repowire.Work.Runner.{attempts_of, current_of, text_of, runner_block, with_runner}

pub record AttemptUpdate : Type 0 where
  pub status : Option String
  pub phase : Option String
  pub assigned_peer_id : Option String
  pub assigned_peer_info : Option Fields
  pub tmux : Option Fields
  pub correlation_id : Option String
  pub delivery_state : Option String
  pub resume_plan : Option Fields
  pub operation_id : Option String
  pub acquisition_strategy : Option String
  pub acquisition : Option Fields
  pub error : Option Fields

-- `setStr` and `setMap`
unfoldable pub set_str : String → Option String → Fields → Fields
unfolding Json.set
set_str key none m = m
set_str key (some v) m = Json.set key (str v) m

unfoldable pub set_map : String → Option Fields → Fields → Fields
unfolding Json.set
set_map key none m = m
set_map key (some v) m = Json.set key (obj v) m

-- `attemptTerminalStatuses`
abbrev pub ends_attempt : String → Bool
ends_attempt s =
    if s == "delivered"
    then true
    else (if s == "completed"
        then true
        else (if s == "failed"
            then true
            else (if s == "unavailable"
                then true
                else (if s == "interrupted" then true else s == "cancelled"))))

unfoldable pub stamp_attempt : Time → Option String → Fields → Fields
unfolding Json.set
stamp_attempt now none attempt = attempt
stamp_attempt now (some status) attempt =
    if ends_attempt status then Json.set "completed_at" (str now) attempt else attempt

-- The body of the loop at the attempt found.
unfoldable pub revise_attempt : Time → AttemptUpdate → Fields → Fields
unfolding set_str set_map stamp_attempt
revise_attempt now u attempt =
    let named =
      set_str "assigned_peer_id" u.assigned_peer_id
        (set_str "phase" u.phase (set_str "status" u.status attempt)) in
    let placed = set_map "tmux" u.tmux (set_map "assigned_peer_info" u.assigned_peer_info named) in
    let sent =
      set_str "delivery_state" u.delivery_state
        (set_str "correlation_id" u.correlation_id placed) in
    let resumed =
      set_str "operation_id" u.operation_id (set_map "resume_plan" u.resume_plan sent) in
    let got =
      set_map "acquisition" u.acquisition
        (set_str "acquisition_strategy" u.acquisition_strategy resumed) in
    stamp_attempt now u.status (set_map "error" u.error got)

abbrev pub is_attempt : String → Json → Bool
is_attempt id (obj m) = text_of (Json.as_text (Json.at "attempt_id" m)) == id
is_attempt id _ = false

abbrev pub revise_object : (Fields → Fields) → Json → Json
revise_object f (obj m) = obj (f m)
revise_object f j = j

-- The loop: the first attempt of that id, and none where there is no such attempt.
unfoldable pub revise_first : (Fields → Fields) → String → Items → Option Items
revise_first f id nil = none
revise_first f id (cons j rest) =
    let later = revise_first f id rest in
    if is_attempt id j
    then some (cons (revise_object f j) rest)
    else elim later [ none ↦ none | some items ↦ some (cons j items) ]

-- `errReason`
unfoldable pub err_reason : Option Fields → String → String
err_reason none fallback = fallback
err_reason (some e) fallback = elim (Json.as_text (Json.at "reason" e)) [
  | none ↦ fallback
  | some r ↦ if r == "" then fallback else r
]

-- The state, reason and completion time that a status of the current attempt brings about.
pub record Cascade : Type 0 where
  pub state : WorkState
  pub reason : Option String
  pub completed_at : Option Time

unfoldable pub cascade : Time → AttemptUpdate → TrackedWork → Cascade
unfolding err_reason
cascade now u w =
    let status = text_of u.status in
    let stamped = or_opt w.completed_at (some now) in
    if status == "delivered"
    then record { state = delivered; reason = some "ask_delivered"; completed_at = w.completed_at }
    else (if status == "failed"
        then record {
          state = failed;
          reason = some (err_reason u.error "dispatch_failed");
          completed_at = stamped;
        }
        else (if status == "unavailable"
            then record {
              state = unavailable;
              reason = some (err_reason u.error "unavailable");
              completed_at = stamped;
            }
            else (if status == "cancelled"
                then record {
                  state = cancelled;
                  reason = some "cancel_requested";
                  completed_at = stamped;
                }
                else record {
                  state = w.state;
                  reason = w.state_reason;
                  completed_at = w.completed_at;
                })))

abbrev pub is_empty : Option Fields → Bool
is_empty none = true
is_empty (some end) = true
is_empty (some (field k v m)) = false

-- `runner["last_error"]`
unfoldable pub with_last_error : Option Fields → Fields → Fields
unfolding set_map
with_last_error e runner = if is_empty e then runner else set_map "last_error" e runner

-- The row when the attempt is the current one (`replaceWorkJSON`), and when it is not.
unfoldable pub cascade_row : Time → AttemptUpdate → Fields → TrackedWork → TrackedWork
unfolding cascade with_runner
cascade_row now u runner w =
    let c = cascade now u w in
    record w {
      state = c.state;
      state_reason = c.reason;
      phase = or_opt u.phase w.phase;
      assigned_peer_id = or_opt u.assigned_peer_id w.assigned_peer_id;
      correlation_id = or_opt u.correlation_id w.correlation_id;
      provenance = with_runner runner w;
      error = or_else u.error w.error;
      completed_at = c.completed_at;
      updated_at = now;
    }

unfoldable pub write_runner : Time → String → AttemptUpdate → Fields → TrackedWork → TrackedWork
unfolding cascade_row with_runner
write_runner now attempt_id u runner w =
    if current_of runner == attempt_id
    then cascade_row now u runner w
    else record w { provenance = with_runner runner w; updated_at = now }

unfoldable pub revised_runner : AttemptUpdate → Items → TrackedWork → Fields
unfolding runner_block with_last_error Json.set
revised_runner u attempts w =
    with_last_error u.error (Json.set "attempts" (arr attempts) (runner_block w))

unfoldable pub attempt_row : Time → String → AttemptUpdate → Items → TrackedWork → TrackedWork
unfolding revised_runner write_runner
attempt_row now attempt_id u attempts w =
    write_runner now attempt_id u (revised_runner u attempts w) w

-- `UpdateAttempt`
unfoldable pub update_attempt :
    Time → String → String → AttemptUpdate → Works → Option TrackedWork × Works
unfolding lookup insert attempt_row revise_first revise_attempt runner_block
update_attempt now id attempt_id u works = elim (lookup id works) [
  | none ↦ (none, works)
  | some w ↦ elim (revise_first (revise_attempt now u) attempt_id (attempts_of (runner_block w))) [
    | none ↦ (none, works)
    | some attempts ↦
        let row = attempt_row now attempt_id u attempts w in (some row, insert id row works)
  ]
]
