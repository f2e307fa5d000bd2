-- ===== src/Work/Stamps.antt =====
-- The completion time of finished work, over all the operations on tracked work.
use repowire.Prelude.{
  ℕ, String, Bool, true, ◌||◌, not, ◌≡◌, ◌==◌, refl, Option, some, All, All-insert, List, [], ◌∷◌,
  Bool-cases, Option-cases, inl, inr, lookup, insert, is_some, arith,
}
use repowire.Json.{Fields, Items}
use repowire.Work.Types.{
  WorkState, is_terminal_state, validate_work_state, Time, TrackedWork, WorkUpdate, Works, or_else,
}
use repowire.Work.Runner.{current_of, attempts_of, runner_block}
use repowire.Work.Create.{WorkCreate, prepare_work, create_work}
use repowire.Work.Update.{revise, refusal, update_row, update_work_state}
use repowire.Work.Cancel.{
  cancel_row, cancel_terminal, cancel_queued, cancel_in_flight, cancel_reason, cancel_work,
}
use repowire.Work.Acquire.{
  AcquireOptions, acquire_row, attempt_of, may_acquire, acquire_for_dispatch,
}
use repowire.Work.Attempt.{
  AttemptUpdate, cascade, cascade_row, attempt_row, write_runner, revised_runner, revise_first,
  revise_attempt, update_attempt,
}
use repowire.Work.Recover.{recover_row, recover_rows, is_stale, recover_stale_dispatching}

-- Terminal work has its completion time.
abbrev pub is_stamped : TrackedWork → Bool
is_stamped w = not (is_terminal_state w.state) || is_some w.completed_at

abbrev pub Stamped : Works → Type 0
Stamped works = All (λ row. is_stamped row.1 ≡ true) works

lookup-is_stamped :
    (id : String) (w : TrackedWork) (works : Works)
    → Stamped works
    → lookup id works ≡ some w
    → is_stamped w ≡ true
unfolding lookup
lookup-is_stamped id w [] h here = ground (arith, here)
lookup-is_stamped id w ((j, v) ∷ works) (hv, h) here =
    ground (arith, here, hv, lookup-is_stamped id w works h)

insert-Stamped :
    (id : String) (w : TrackedWork) (works : Works)
    → is_stamped w ≡ true
    → Stamped works
    → Stamped (insert id w works)
insert-Stamped id w works = All-insert (λ row. is_stamped row.1 ≡ true) id w works

revise-stamped :
    (now : Time) (s : WorkState) (w : TrackedWork) (u : WorkUpdate)
    → is_stamped (revise now s w u) ≡ true
unfolding revise
revise-stamped now s w u = elim (Bool-cases (is_terminal_state s)) [
  | inl is ↦ elim (Option-cases w.completed_at) [
    | inl gone ↦ rw (is, gone) refl
    | inr (t, at) ↦ rw (is, at) refl
  ]
  | inr is ↦ rw is refl
]

cancel_row-stamped :
    (now : Time) (by : Option String) (reason : String) (w : TrackedWork)
    → is_stamped w ≡ true
    → is_stamped (cancel_row now by reason w) ≡ true
unfolding cancel_row cancel_terminal cancel_queued cancel_in_flight
cancel_row-stamped now by reason w h = ground (arith, h)

cascade_row-stamped :
    (now : Time) (u : AttemptUpdate) (runner : Fields) (w : TrackedWork)
    → is_stamped w ≡ true
    → is_stamped (cascade_row now u runner w) ≡ true
unfolding cascade_row cascade is_terminal_state
cascade_row-stamped now u runner w h = ground (arith, h)

acquire_row-stamped :
    (now : Time) (id : String) (opt : AcquireOptions) (w : TrackedWork)
    → is_stamped (acquire_row now id opt w) ≡ true
unfolding acquire_row is_terminal_state
acquire_row-stamped now id opt w = refl

update_work_state-Stamped :
    (now : Time) (id : String) (u : WorkUpdate) (works : Works)
    → Stamped works
    → Stamped (update_work_state now id u works).1
unfolding update_work_state update_row
update_work_state-Stamped now id u works h = elim (Option-cases (validate_work_state u.state)) [
  | inl bad ↦ rw (bad, update_work_state, update_row) h
  | inr (s, valid) ↦ elim (Option-cases (lookup id works)) [
    | inl gone ↦ rw (valid, gone, update_work_state, update_row) h
    | inr (w, here) ↦ elim (Option-cases (refusal w s u)) [
      | inl admitted ↦
          rw (valid, here, admitted, update_work_state, update_row)
            (insert-Stamped id (revise now s w u) works (revise-stamped now s w u) h)
      | inr (e, refused) ↦ rw (valid, here, refused, update_work_state, update_row) h
    ]
  ]
]

prepare_work-stamped :
    (now : Time) (id : String) (spec : WorkCreate) → is_stamped (prepare_work now id spec) ≡ true
unfolding prepare_work is_terminal_state
prepare_work-stamped now id spec = refl

create_work-Stamped :
    (now : Time) (id : String) (spec : WorkCreate) (works : Works)
    → Stamped works
    → Stamped (create_work now id spec works).1
unfolding create_work
create_work-Stamped now id spec works h = elim (Option-cases (lookup id works)) [
  | inl gone ↦
      rw (gone, create_work)
        (insert-Stamped id (prepare_work now id spec) works (prepare_work-stamped now id spec) h)
  | inr (w, here) ↦ rw (here, create_work) h
]

cancel_work-Stamped :
    (now : Time) (id : String) (by : Option String) (reason : String) (works : Works)
    → Stamped works
    → Stamped (cancel_work now id by reason works).1
unfolding cancel_work
cancel_work-Stamped now id by reason works h = elim (Option-cases (lookup id works)) [
  | inl gone ↦ rw (gone, cancel_work) h
  | inr (w, here) ↦
      rw (here, cancel_work)
        (insert-Stamped id (cancel_row now by (cancel_reason reason) w) works
          (cancel_row-stamped now by (cancel_reason reason) w (lookup-is_stamped id w works h here))
          h)
]

acquire_for_dispatch-Stamped :
    (parse : String → Option ℕ) (clock : ℕ) (now : Time) (minted id : String) (opt : AcquireOptions)
    (works : Works)
    → Stamped works
    → Stamped (acquire_for_dispatch parse clock now minted id opt works).1
unfolding acquire_for_dispatch
acquire_for_dispatch-Stamped parse clock now minted id opt works h =
    elim (Option-cases (lookup id works)) [
      | inl gone ↦ rw (gone, acquire_for_dispatch) h
      | inr (w, here) ↦ elim (Bool-cases (may_acquire parse clock opt w)) [
        | inl may ↦
            rw (here, may, acquire_for_dispatch)
              (insert-Stamped id (acquire_row now (attempt_of minted opt) opt w) works
                (acquire_row-stamped now (attempt_of minted opt) opt w) h)
        | inr may ↦ rw (here, may, acquire_for_dispatch) h
      ]
    ]

write_runner-stamped :
    (now : Time) (attempt_id : String) (u : AttemptUpdate) (runner : Fields) (w : TrackedWork)
    → is_stamped w ≡ true
    → is_stamped (write_runner now attempt_id u runner w) ≡ true
unfolding write_runner
write_runner-stamped now attempt_id u runner w h =
    elim (Bool-cases (current_of runner == attempt_id)) [
      | inl is ↦ rw is (cascade_row-stamped now u runner w h)
      | inr is ↦ rw is h
    ]

attempt_row-stamped :
    (now : Time) (attempt_id : String) (u : AttemptUpdate) (attempts : Items) (w : TrackedWork)
    → is_stamped w ≡ true
    → is_stamped (attempt_row now attempt_id u attempts w) ≡ true
unfolding attempt_row
attempt_row-stamped now attempt_id u attempts w h =
    write_runner-stamped now attempt_id u (revised_runner u attempts w) w h

update_attempt-Stamped :
    (now : Time) (id attempt_id : String) (u : AttemptUpdate) (works : Works)
    → Stamped works
    → Stamped (update_attempt now id attempt_id u works).1
unfolding update_attempt
update_attempt-Stamped now id attempt_id u works h = elim (Option-cases (lookup id works)) [
  | inl gone ↦ rw (gone, update_attempt) h
  | inr (w, here) ↦
      elim (Option-cases
        (revise_first (revise_attempt now u) attempt_id (attempts_of (runner_block w)))) [
          | inl absent ↦ rw (here, absent, update_attempt) h
          | inr (attempts, there) ↦
              rw (here, there, update_attempt)
                (insert-Stamped id (attempt_row now attempt_id u attempts w) works
                  (attempt_row-stamped now attempt_id u attempts w
                    (lookup-is_stamped id w works h here))
                  h)
        ]
]

recover_rows-Stamped :
    (parse : String → Option ℕ) (current : ℕ) (now : Time) (works : Works)
    → Stamped works
    → Stamped (recover_rows parse current now works).1
unfolding recover_rows recover_row
recover_rows-Stamped parse current now [] h = tt
recover_rows-Stamped parse current now ((id, w) ∷ rest) (hw, h) =
    elim (Bool-cases (is_stale parse current w)) [
      | inl stale ↦ rw stale (ground arith, recover_rows-Stamped parse current now rest h)
      | inr live ↦ rw live (hw, recover_rows-Stamped parse current now rest h)
    ]

-- The operations on the table, with their arguments.
pub data WorkOp : Type 0 where
  create : Time → String → WorkCreate → WorkOp
  update : Time → String → WorkUpdate → WorkOp
  cancel : Time → String → Option String → String → WorkOp
  acquire : ℕ → Time → String → String → AcquireOptions → WorkOp
  attempt : Time → String → String → AttemptUpdate → WorkOp
  recover : ℕ → Time → WorkOp

module _ (parse : String → Option ℕ) where
  unfoldable pub perform : WorkOp → Works → Works
  unfolding create_work update_work_state cancel_work acquire_for_dispatch update_attempt
      recover_stale_dispatching
  perform (create now id spec) works = (create_work now id spec works).1
  perform (update now id u) works = (update_work_state now id u works).1
  perform (cancel now id by reason) works = (cancel_work now id by reason works).1
  perform (acquire clock now minted id opt) works =
      (acquire_for_dispatch parse clock now minted id opt works).1
  perform (attempt now id a u) works = (update_attempt now id a u works).1
  perform (recover clock now) works = (recover_stale_dispatching parse clock now works).1

  unfoldable pub perform_all : List WorkOp → Works → Works
  unfolding perform
  perform_all [] works = works
  perform_all (op ∷ ops) works = perform_all ops (perform op works)

  perform-Stamped : (op : WorkOp) (works : Works) → Stamped works → Stamped (perform op works)
  unfolding perform recover_stale_dispatching
  perform-Stamped (create now id spec) works = create_work-Stamped now id spec works
  perform-Stamped (update now id u) works = update_work_state-Stamped now id u works
  perform-Stamped (cancel now id by reason) works = cancel_work-Stamped now id by reason works
  perform-Stamped (acquire clock now minted id opt) works =
      acquire_for_dispatch-Stamped parse clock now minted id opt works
  perform-Stamped (attempt now id a u) works = update_attempt-Stamped now id a u works
  perform-Stamped (recover clock now) works =
      recover_rows-Stamped parse (or_else (parse now) clock) now works

  -- Through every sequence of creations, updates, cancellations, acquisitions, attempt updates and
  -- recoveries, from a table in which it holds (the empty one among them), every row of tracked work in
  -- a terminal state has its completion time.
  pub perform_all-Stamped :
      (ops : List WorkOp) (works : Works) → Stamped works → Stamped (perform_all ops works)
  unfolding perform_all
  perform_all-Stamped [] works h = h
  perform_all-Stamped (op ∷ ops) works h =
      perform_all-Stamped ops (perform op works) (perform-Stamped op works h)
