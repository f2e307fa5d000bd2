-- ===== src/Work/Terminal.antt =====
-- `UpdateWorkState`: what its guards let through.
use repowire.Prelude.{
  String, Bool, true, false, ◌||◌, not, ◌==◌, ◌≡◌, ◌∙◌, refl, Option, none, some, Option-cases, inl,
  inr, lookup, lookup-insert, is_text, arith, eq_refl,
}
use repowire.Work.Types.{
  WorkState, is_terminal_state, validate_work_state, Time, TrackedWork, WorkUpdate, Works,
}
use repowire.Work.Runner.{runner_current_attempt}
use repowire.Work.Update.{
  Updated, invalid_state, unknown_work, attempt_id_required, stale_attempt, terminal_fixed, updated,
  attempt_error, state_name, is_guarded, revise, refusal, update_row, update_work_state,
}

-- Terminal work keeps its state.
abbrev pub keeps_terminal : TrackedWork → WorkState → Bool
keeps_terminal w s = not (is_terminal_state w.state) || state_name s == state_name w.state

-- An outcome of a runner's job comes with the runner's current attempt.
abbrev pub from_current : TrackedWork → WorkState → Option String → Bool
from_current w s attempt =
    runner_current_attempt w == ""
    || (not (is_guarded s) || is_text attempt (runner_current_attempt w))

abbrev pub Verdict : String → WorkUpdate → Works → Updated × Works → Type 0
Verdict id u works (updated row, after) =
    (w : TrackedWork) × (lookup id works ≡ some w)
    × (lookup id after ≡ some row)
    × (validate_work_state u.state ≡ some row.state)
    × (keeps_terminal w row.state ≡ true)
    × (from_current w row.state u.attempt_id ≡ true)
Verdict id u works (invalid_state, after) = (after ≡ works) × (validate_work_state u.state ≡ none)
Verdict id u works (unknown_work, after) = (after ≡ works) × (lookup id works ≡ none)
Verdict id u works (attempt_id_required, after) = after ≡ works
Verdict id u works (stale_attempt, after) = after ≡ works
Verdict id u works (terminal_fixed, after) = after ≡ works

refusal-none :
    (w : TrackedWork) (s : WorkState) (u : WorkUpdate)
    → refusal w s u ≡ none
    → (keeps_terminal w s ≡ true) × (from_current w s u.attempt_id ≡ true)
unfolding refusal attempt_error
refusal-none w s u h = ground (arith, h)

-- The answers that the guards give.
abbrev pub is_refusal : Updated → Bool
is_refusal attempt_id_required = true
is_refusal stale_attempt = true
is_refusal terminal_fixed = true
is_refusal _ = false

refusal-some :
    (w : TrackedWork) (s : WorkState) (u : WorkUpdate) (e : Updated)
    → refusal w s u ≡ some e
    → is_refusal e ≡ true
unfolding refusal attempt_error
refusal-some w s u e h = ground (arith, h)

refused-Verdict :
    (id : String) (u : WorkUpdate) (works : Works) (e : Updated)
    → is_refusal e ≡ true
    → Verdict id u works (e, works)
refused-Verdict id u works attempt_id_required h = refl
refused-Verdict id u works stale_attempt h = refl
refused-Verdict id u works terminal_fixed h = refl
refused-Verdict id u works invalid_state h = ground (arith, h)
refused-Verdict id u works unknown_work h = ground (arith, h)
refused-Verdict id u works (updated row) h = ground (arith, h)

-- An update of tracked work always answers. When it is made, the row was there and is in the state
-- asked for afterwards; if it was terminal, its state is the one it had; and if a runner has a current
-- attempt and the new state is completed, failed or cancelled, the update came with that attempt's id.
-- Every refusal leaves the table as it was; the state is called invalid only if it is none of the
-- eleven, and the work unknown only if its id is not in the table.
pub update_work_state_lem :
    (now : Time) (id : String) (u : WorkUpdate) (works : Works)
    → Verdict id u works (update_work_state now id u works)
unfolding update_work_state update_row revise
update_work_state_lem now id u works = elim (Option-cases (validate_work_state u.state)) [
  | inl bad ↦ rw (bad, update_work_state) (refl, bad)
  | inr (s, valid) ↦ elim (Option-cases (lookup id works)) [
    | inl gone ↦ rw (valid, gone, update_work_state) (refl, gone)
    | inr (w, here) ↦ elim (Option-cases (refusal w s u)) [
      | inl admitted ↦
          rw (valid, here, admitted, update_work_state, update_row)
            (
              w,
              here,
              lookup-insert id id (revise now s w u) works ∙ rw (eq_refl id) refl,
              valid,
              (refusal-none w s u admitted).0,
              (refusal-none w s u admitted).1,
            )
      | inr (e, refused) ↦
          rw (valid, here, refused, update_work_state, update_row)
            (refused-Verdict id u works e (refusal-some w s u e refused))
    ]
  ]
]
