-- ===== src/Work/Attempts.antt =====
-- An acquired row's current attempt, and the updates that come without it.
use repowire.Prelude.{
  ℕ, String, true, false, ◌==◌, ◌≡◌, ◌∙◌, refl, Option, some, Option-cases, inl, inr, lookup,
  lookup-insert, is_text, if◌then◌else◌, arith, eq_iff, eq_refl,
}
use repowire.Json
use repowire.Json.{Json, Fields, end, field, obj, arr, num, str}
use repowire.Work.Types.{WorkState, validate_work_state, Time, TrackedWork, WorkUpdate, Works}
use repowire.Work.Runner.{
  runner_current_attempt, with_runner, append, count, attempts_of, runner_block, current_of,
}
use repowire.Work.Update.{
  Updated, invalid_state, unknown_work, attempt_id_required, stale_attempt, terminal_fixed, updated,
  is_guarded, update_work_state,
}
use repowire.Work.Acquire.{
  AcquireOptions, acquire_row, acquired_runner, new_attempt, attempt_of, acquire_for_dispatch,
}
use repowire.Work.Terminal.{Verdict, from_current, update_work_state_lem}

at-set :
    (written read : String) (v : Json) (m : Fields)
    → Json.at read (Json.set written v m) ≡ (if written == read then some v else Json.at read m)
unfolding Json.at Json.set
at-set written read v end = refl
at-set written read v (field key here later) =
    ground
      (arith, at-set written read v later, eq_iff key read, eq_iff key written, eq_iff written read)

acquired-current :
    (now : Time) (id : String) (opt : AcquireOptions) (w : TrackedWork)
    → current_of (acquired_runner now id opt w) ≡ id
unfolding acquired_runner Json.as_text
acquired-current now id opt w =
    let runner = runner_block w in
    let attempts = append (attempts_of runner) (obj (new_attempt now id opt w)) in
    let counted = Json.set "attempt_count" (num (count attempts)) runner in
    let named = Json.set "current_attempt_id" (str id) counted in
    let owned = Json.set "runner_owner_id" (str opt.runner_owner_id) named in
    let dated = Json.set "acquired_at" (str now) owned in
    let leased = Json.set "lease_until" (str opt.lease_until) dated in
    let key : String = "current_attempt_id" in
    rw
      (at-set "attempts" key (arr attempts) leased
        ∙ at-set "lease_until" key (str opt.lease_until) dated
        ∙ at-set "acquired_at" key (str now) owned
        ∙ at-set "runner_owner_id" key (str opt.runner_owner_id) named
        ∙ at-set key key (str id) counted)
      refl

acquire_row-current :
    (now : Time) (id : String) (opt : AcquireOptions) (w : TrackedWork)
    → runner_current_attempt (acquire_row now id opt w) ≡ id
unfolding acquire_row with_runner runner_current_attempt Json.as_object
acquire_row-current now id opt w =
    rw
      (
        at-set "runner" "runner" (obj (acquired_runner now id opt w)) w.provenance,
        runner_current_attempt,
      )
      (acquired-current now id opt w)

-- A verdict on an update that has an outcome but not the current attempt.
Verdict-without_attempt :
    (id : String) (u : WorkUpdate) (works : Works) (row : TrackedWork) (s : WorkState)
    (o : Updated × Works)
    → lookup id works ≡ some row
    → validate_work_state u.state ≡ some s
    → from_current row s u.attempt_id ≡ false
    → Verdict id u works o
    → o.1 ≡ works
Verdict-without_attempt id u works row s (invalid_state, after) here valid stale (same, h) = same
Verdict-without_attempt id u works row s (unknown_work, after) here valid stale (same, h) = same
Verdict-without_attempt id u works row s (attempt_id_required, after) here valid stale h = h
Verdict-without_attempt id u works row s (stale_attempt, after) here valid stale h = h
Verdict-without_attempt id u works row s (terminal_fixed, after) here valid stale h = h
Verdict-without_attempt id u works row s (updated new, after) here valid stale
      (w, there, kept, same, fixed, current) =
    ground (arith, here, there, valid, same, stale, current)

acquired-lookup :
    (parse : String → Option ℕ) (clock : ℕ) (now : Time) (minted id : String) (opt : AcquireOptions)
    (works after : Works) (row : TrackedWork)
    → acquire_for_dispatch parse clock now minted id opt works ≡ (some row, after)
    → (lookup id after ≡ some row) × (runner_current_attempt row ≡ attempt_of minted opt)
unfolding acquire_for_dispatch
acquired-lookup parse clock now minted id opt works after row made =
    elim (Option-cases (lookup id works)) [
      | inl gone ↦ ground (arith, gone, made)
      | inr (w, here) ↦ ground (
        arith,
        here,
        made,
        eq_refl id,
        lookup-insert id id (acquire_row now (attempt_of minted opt) opt w) works,
        acquire_row-current now (attempt_of minted opt) opt w,
      )
    ]

-- After work has been acquired for an attempt of a non-empty id, an update to completed, failed or
-- cancelled that does not come with that id changes nothing in the table.
pub acquired-update_work_state :
    (parse : String → Option ℕ) (clock : ℕ) (now later : Time) (minted id : String)
    (opt : AcquireOptions) (works after : Works) (row : TrackedWork) (u : WorkUpdate)
    (s : WorkState)
    → acquire_for_dispatch parse clock now minted id opt works ≡ (some row, after)
    → (attempt_of minted opt == "") ≡ false
    → validate_work_state u.state ≡ some s
    → is_guarded s ≡ true
    → is_text u.attempt_id (attempt_of minted opt) ≡ false
    → (update_work_state later id u after).1 ≡ after
acquired-update_work_state parse clock now later minted id opt works after row u s made named valid
      guarded other =
    let (here, current) = acquired-lookup parse clock now minted id opt works after row made in
    Verdict-without_attempt id u after row s (update_work_state later id u after) here valid
      (rw (current, named, guarded, other) refl) (update_work_state_lem later id u after)
