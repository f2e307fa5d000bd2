-- ===== src/Scheduler/Firing.antt =====
-- What `fire` of daemon-go/service/scheduler.go sends and leaves in the table.
use Prim.Native.Nat.{◌/◌}
use repowire.Prelude.{
  ℕ, ◌+◌, ◌*◌, ◌<◌, ◌≤◌, String, true, false, ◌==◌, ◌≡◌, refl, ap, ◌∙◌, Option, none, some, List,
  [], ◌∷◌, map, is_some, if◌then◌else◌, Bool-cases, inl, inr, arith, eq_iff, subst,
}
use repowire.Cron.Text.{codes}
use repowire.Cron.Field.{Result, err, ok}
use repowire.Cron.Fire.{Civil, Schedule as CronSchedule, next_fire_after}
use repowire.Cron.Search.{Firing, schedule_of, next_fire_after_lem}
use repowire.Scheduler.Store.{
  Schedule, Table, get_schedule, moved_to, delete_schedule, reschedule_next,
}
use repowire.Scheduler.Round.{delivery_of, minute, advance_to, advance, fire}

get-delete_schedule :
    (id j : String) (t : Table)
    → get_schedule j (delete_schedule id t).1 ≡ (if id == j then none else get_schedule j t)
unfolding get_schedule delete_schedule
get-delete_schedule id j [] = ground arith
get-delete_schedule id j (s ∷ t) = ground (
  arith,
  get-delete_schedule id j t,
  eq_iff s.schedule_id id,
  eq_iff s.schedule_id j,
  eq_iff id j,
)

abbrev moved_if : String → String → Option Schedule → Option Schedule
moved_if id at none = none
moved_if id at (some s) = some (moved_to id at s)

get-moved_to :
    (id j at : String) (t : Table)
    → get_schedule j (map (moved_to id at) t) ≡ moved_if id at (get_schedule j t)
unfolding get_schedule
get-moved_to id j at [] = refl
get-moved_to id j at (s ∷ t) =
    ground (arith, get-moved_to id j at t, eq_iff s.schedule_id id, eq_iff s.schedule_id j)

get-named : (j : String) (t : Table) (s : Schedule) → get_schedule j t ≡ some s → s.schedule_id ≡ j
unfolding get_schedule
get-named j [] s h = ground (arith, h)
get-named j (x ∷ t) s h = elim (Bool-cases (x.schedule_id == j)) [
  | inl is ↦ ground (arith, h, is, eq_iff x.schedule_id j)
  | inr other ↦ get-named j t s (ground (arith, h, other))
]

stays :
    (id j at : String) (t : Table) (found : Option Schedule)
    → get_schedule j t ≡ found
    → (id == j) ≡ false
    → moved_if id at found ≡ found
stays id j at t none h other = refl
stays id j at t (some s) h other =
    ground (arith, other, get-named j t s h, eq_iff id j, eq_iff s.schedule_id id)

-- The next time in nanoseconds, where a schedule has one.
abbrev pub time_of : Result ℕ → Option ℕ
time_of (err e) = none
time_of (ok m) = some (m * minute)

module _ (civil : ℕ → Civil) (format : ℕ → String) where
  abbrev pub next_of : ℕ → Option String → Option ℕ
  next_of now none = none
  next_of now (some cron) = time_of (next_fire_after civil (codes cron) (now / minute))

  abbrev pub row_after : Option ℕ → Schedule → Option Schedule
  row_after none s = none
  row_after (some at) s = some (record s { fire_at = format at })

  abbrev pub IsLater : ℕ → Option ℕ → Type 0
  IsLater now none = Unit
  IsLater now (some at) = now < at

  minutes_on : (now m : ℕ) → now / minute + 1 ≤ m → now < m * minute
  minutes_on now m le = omega (arith, le)

  next-IsLater :
      (now : ℕ) (expr : List ℕ) → IsLater now (time_of (next_fire_after civil expr (now / minute)))
  next-IsLater now expr =
      from (schedule_of expr) (next_fire_after civil expr (now / minute))
        (next_fire_after_lem civil expr (now / minute))
    where
      from :
          (parsed : Result CronSchedule) (answer : Result ℕ)
          → Firing civil (now / minute) parsed answer
          → IsLater now (time_of answer)
      from (err e) (err d) h = tt
      from (err e) (ok m) h = ground (arith, h)
      from (ok s) (err d) h = tt
      from (ok s) (ok m) (skipped, (at, lt, on, quiet)) = minutes_on now m (omega (arith, at))

  moved_row :
      (id j : String) (at : ℕ) (s : Schedule) (t : Table)
      → get_schedule id t ≡ some s
      → s.schedule_id ≡ id
      → moved_if id (format at) (get_schedule j t)
        ≡ (if id == j then row_after (some at) s else get_schedule j t)
  moved_row id j at s t here named = elim (Bool-cases (id == j)) [
    | inl same ↦ rw (same) (
        subst (λ k. moved_if id (format at) (get_schedule k t) ≡ row_after (some at) s)
          ((eq_iff id j).0 same) (rw (here) (ground (arith, named, eq_iff s.schedule_id id))))
    | inr other ↦ rw (other) (stays id j (format at) t (get_schedule j t) refl other)
  ]

  advance_to-row :
      (id j : String) (s : Schedule) (answer : Result ℕ) (t : Table)
      → get_schedule id t ≡ some s
      → s.schedule_id ≡ id
      → is_some s.cron ≡ true
      → get_schedule j (advance_to civil format id answer t)
        ≡ (if id == j then row_after (time_of answer) s else get_schedule j t)
  unfolding advance_to
  advance_to-row id j s (err e) t here named recurring = get-delete_schedule id j t
  advance_to-row id j s (ok m) t here named recurring =
      ap (get_schedule j) (rescheduled id (format (m * minute)) s t here recurring)
      ∙ get-moved_to id j (format (m * minute)) t
      ∙ moved_row id j (m * minute) s t here named
    where
      rescheduled :
          (id : String) (at : String) (s : Schedule) (t : Table)
          → get_schedule id t ≡ some s
          → is_some s.cron ≡ true
          → (reschedule_next format id (m * minute) t).1 ≡ map (moved_to id (format (m * minute))) t
      rescheduled id at s t here recurring =
          unfold reschedule_next in rw (here) (rw (recurring) refl)

  advance-row :
      (now : ℕ) (s : Schedule) (cron : Option String) (t : Table) (j : String)
      → get_schedule s.schedule_id t ≡ some s
      → s.cron ≡ cron
      → get_schedule j (advance civil format now s.schedule_id cron t)
        ≡ (if s.schedule_id == j then row_after (next_of now cron) s else get_schedule j t)
  unfolding advance
  advance-row now s none t j here is = get-delete_schedule s.schedule_id j t
  advance-row now s (some cron) t j here is =
      advance_to-row s.schedule_id j s (next_fire_after civil (codes cron) (now / minute)) t here
        refl (rw (is) refl)

  -- Firing a schedule of the table: one call on the delivery seam, whatever its result; a schedule with a
  -- cron expression that has a next time stays with this time, which is later than now; any other
  -- schedule leaves the table; and every row of another id is as before.
  pub fire_lem :
      (now : ℕ) (s : Schedule) (t : Table) (j : String)
      → get_schedule s.schedule_id t ≡ some s
      → IsLater now (next_of now s.cron)
        × ((fire civil format now s t).0 ≡ delivery_of s ∷ [])
        × (get_schedule j (fire civil format now s t).1
            ≡ (if s.schedule_id == j then row_after (next_of now s.cron) s else get_schedule j t))
  unfolding fire
  fire_lem now s t j here = (later s.cron, refl, advance-row now s s.cron t j here refl)
    where
      later : (cron : Option String) → IsLater now (next_of now cron)
      later none = tt
      later (some cron) = next-IsLater now (codes cron)
