-- ===== src/Work/Create.antt =====
-- `prepareWork`, `insertWork` and `CreateWork` of daemon-go/state/work.go. `minted` is the new id; the
-- table's primary key refuses one that is there.
use repowire.Prelude.{String, false, Option, none, some, insert, lookup}
use repowire.Json.{Fields, nil, end}
use repowire.Work.Types.{queued, Time, TrackedWork, Works, or_else}

pub record WorkCreate : Type 0 where
  pub assigned_peer_id : Option String
  pub correlation_id : Option String
  pub request : Option Fields
  pub provenance : Option Fields

unfoldable pub prepare_work : Time → String → WorkCreate → TrackedWork
prepare_work now minted spec = record {
  work_id = minted;
  state = queued;
  updated_at = now;
  state_reason = none;
  phase = none;
  progress = end;
  progress_events = nil;
  assigned_peer_id = spec.assigned_peer_id;
  correlation_id = spec.correlation_id;
  request = or_else spec.request end;
  result_summary = none;
  result_data = end;
  error = end;
  artifacts = nil;
  provenance = or_else spec.provenance end;
  cancel_requested = false;
  cancel_requested_at = none;
  cancel_requested_by_peer_id = none;
  cancellation_reason = none;
  completed_at = none;
}

unfoldable pub create_work : Time → String → WorkCreate → Works → Option TrackedWork × Works
unfolding lookup insert prepare_work
create_work now minted spec works = elim (lookup minted works) [
  | some w ↦ (none, works)
  | none ↦ (some (prepare_work now minted spec), insert minted (prepare_work now minted spec) works)
]
