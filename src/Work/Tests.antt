-- ===== src/Work/Tests.antt =====
-- Example data and the theorems of this component at concrete inputs.
use repowire.Prelude.{ℕ, String, true, false, ◌≡◌, refl, Option, none, some, List, [], ◌∷◌}
use repowire.Json
use repowire.Work.Types.{completed, validate_work_state, TrackedWork, WorkUpdate, Works}
use repowire.Work.Create.{WorkCreate, prepare_work}
use repowire.Work.Update.{update_work_state}
use repowire.Work.Acquire.{AcquireOptions, acquire_row, acquire_for_dispatch}
use repowire.Work.Stamps.{
  WorkOp, create, update, cancel, acquire, recover, Stamped, perform_all, perform_all-Stamped,
}
use repowire.Work.Terminal.{Verdict, update_work_state_lem}
use repowire.Work.Attempts.{acquired-update_work_state}

abbrev no_parse : String → Option ℕ
no_parse s = none

abbrev plain : WorkCreate
plain = record {
  assigned_peer_id = some "p1";
  correlation_id = none;
  request = none;
  provenance = none;
}

abbrev to_state : String → Option String → WorkUpdate
to_state s attempt_id = record {
  state = s;
  state_reason = none;
  phase = none;
  progress = none;
  progress_note = some "done";
  result_summary = none;
  result_data = none;
  error = none;
  artifacts = none;
  provenance = none;
  attempt_id = attempt_id;
}

abbrev by_runner : AcquireOptions
by_runner = record {
  runner_owner_id = "r1";
  lease_until = "t9";
  attempt_id = "a1";
  ignore_due_at = true;
  retry = false;
}

abbrev one_job : Works
one_job = ("w1", prepare_work "t0" "w1" plain) ∷ []

abbrev job_run : List WorkOp
job_run =
    create "t0" "w1" plain
    ∷ acquire 5 "t1" "a0" "w1" by_runner
    ∷ update "t2" "w1" (to_state "completed" (some "a1"))
    ∷ cancel "t3" "w1" none ""
    ∷ recover 9 "t4"
    ∷ []

perform_all-Stamped_example : Stamped (perform_all no_parse job_run [])
perform_all-Stamped_example = perform_all-Stamped no_parse job_run [] tt

update_work_state_lem_example :
    Verdict "w1"
      (to_state "completed" none)
      one_job
      (update_work_state "t1" "w1" (to_state "completed" none) one_job)
update_work_state_lem_example = update_work_state_lem "t1" "w1" (to_state "completed" none) one_job

abbrev held : TrackedWork
held = acquire_row "t1" "a1" by_runner (prepare_work "t0" "w1" plain)

abbrev one_held : Works
one_held = ("w1", held) ∷ []

acquired-held :
    acquire_for_dispatch no_parse 5 "t1" "a0" "w1" by_runner one_job ≡ (some held, one_held)
unfolding acquire_for_dispatch prepare_work Json.as_object Json.at
acquired-held = refl

late-validate_work_state : validate_work_state "completed" ≡ some completed
unfolding validate_work_state
late-validate_work_state = refl

acquired-update_work_state_example :
    (update_work_state "t2" "w1" (to_state "completed" (some "a0")) one_held).1 ≡ one_held
acquired-update_work_state_example =
    acquired-update_work_state no_parse 5 "t1" "t2" "a0" "w1" by_runner one_job one_held held
      (to_state "completed" (some "a0")) completed acquired-held refl late-validate_work_state refl
      refl
