-- ===== src/Work/Types.antt =====
-- daemon-go/state/work.go: the states of tracked work, its row and the fields of an update. Of the
-- row's columns, those that only creation writes and nothing here reads are left out.
use repowire.Prelude.{String, Bool, true, false, ◌==◌, Option, none, some, List, if◌then◌else◌}
use repowire.Json.{Fields, Items}

pub data WorkState : Type 0 where
  queued dispatching delivered running awaiting_input completed failed : WorkState
  cancelled blocked expired unavailable : WorkState

-- `IsTerminalState`
unfoldable pub is_terminal_state : WorkState → Bool
is_terminal_state completed = true
is_terminal_state failed = true
is_terminal_state cancelled = true
is_terminal_state expired = true
is_terminal_state unavailable = true
is_terminal_state _ = false

-- `validateWorkState`
unfoldable pub validate_work_state : String → Option WorkState
validate_work_state s =
    if s == "queued"
    then some queued
    else (if s == "dispatching"
        then some dispatching
        else (if s == "delivered"
            then some delivered
            else (if s == "running"
                then some running
                else (if s == "awaiting_input"
                    then some awaiting_input
                    else (if s == "completed"
                        then some completed
                        else (if s == "failed"
                            then some failed
                            else (if s == "cancelled"
                                then some cancelled
                                else (if s == "blocked"
                                    then some blocked
                                    else (if s == "expired"
                                        then some expired
                                        else (if s == "unavailable"
                                            then some unavailable
                                            else none))))))))))

abbrev pub Time : Type 0
Time = String

pub record TrackedWork : Type 0 where
  pub work_id : String
  pub state : WorkState
  pub updated_at : Time
  pub state_reason : Option String
  pub phase : Option String
  pub progress : Fields
  pub progress_events : Items
  pub assigned_peer_id : Option String
  pub correlation_id : Option String
  pub request : Fields
  pub result_summary : Option String
  pub result_data : Fields
  pub error : Fields
  pub artifacts : Items
  pub provenance : Fields
  pub cancel_requested : Bool
  pub cancel_requested_at : Option Time
  pub cancel_requested_by_peer_id : Option String
  pub cancellation_reason : Option String
  pub completed_at : Option Time

pub record WorkUpdate : Type 0 where
  pub state : String
  pub state_reason : Option String
  pub phase : Option String
  pub progress : Option Fields
  pub progress_note : Option String
  pub result_summary : Option String
  pub result_data : Option Fields
  pub error : Option Fields
  pub artifacts : Option Items
  pub provenance : Option Fields
  pub attempt_id : Option String

-- The table `tracked_work`, by work id.
abbrev pub Works : Type 0
Works = List (String × TrackedWork)

-- `x != nil` chooses the new value, here and in SQL's COALESCE.
abbrev pub or_else {ℓ} : {A : Type ℓ} → Option A → A → A
or_else none old = old
or_else (some new) old = new

abbrev pub or_opt {ℓ} : {A : Type ℓ} → Option A → Option A → Option A
or_opt none old = old
or_opt (some new) old = some new
