-- ===== src/Scheduler/Round.antt =====
-- daemon-go/service/scheduler.go: one round of the loop. `before` is the table when the round looks for
-- the next schedule, and `after` the table when it checks it again: other calls may have changed it
-- while the round slept. Times are nanoseconds; `parse` is Go's parser of them.
use Prim.Native.Nat.{◌/◌, min}
use repowire.Prelude.{
  ℕ, ◌-◌, ◌*◌, String, Bool, ◌==◌, Option, none, some, List, [], ◌∷◌, ltb, if◌then◌else◌,
}
use repowire.Cron.Text.{codes}
use repowire.Cron.Field.{Result, err, ok}
use repowire.Cron.Fire.{Civil, next_fire_after}
use repowire.Scheduler.Store.{
  Schedule, Table, get_schedule, next_due_schedule, reschedule_next, delete_schedule,
}

-- A call on the delivery seam; how it ends does not matter to the scheduler.
pub data Delivery : Type 0 where
  scheduled_ask notify : String → String → String → Option String → Delivery

-- `maxSchedulerSleep`, an hour
abbrev pub max_scheduler_sleep : ℕ
max_scheduler_sleep = 3_600_000_000_000

abbrev pub minute : ℕ
minute = 60_000_000_000

abbrev pub delivery_of : Schedule → Delivery
delivery_of s =
    if s.kind == "ask"
    then scheduled_ask s.from_peer s.to_peer s.text s.circle
    else notify s.from_peer s.to_peer s.text s.circle

-- What ends the sleep of a round.
pub data Signal : Type 0 where
  timer woken stopped : Signal

-- What a round is going to do.
pub data Plan : Type 0 where
  idle : Plan
  drop_broken : String → Plan
  sleep_for : ℕ → String → Plan
  due : String → Plan

unfoldable pub plan_for : (String → Option ℕ) → ℕ → Option Schedule → Plan
plan_for parse now none = idle
plan_for parse now (some s) = elim (parse s.fire_at) [
  | none ↦ drop_broken s.schedule_id
  | some at ↦
      if ltb now at
      then sleep_for (min (at - now) max_scheduler_sleep) s.schedule_id
      else due s.schedule_id
]

module _ (civil : ℕ → Civil) (format : ℕ → String) where
  unfoldable pub advance_to : String → Result ℕ → Table → Table
  unfolding reschedule_next delete_schedule
  advance_to id (err e) t = (delete_schedule id t).1
  advance_to id (ok next) t = (reschedule_next format id (next * minute) t).1

  -- The end of `fire`: a recurring schedule moves on, any other goes.
  unfoldable pub advance : ℕ → String → Option String → Table → Table
  unfolding advance_to delete_schedule next_fire_after
  advance now id none t = (delete_schedule id t).1
  advance now id (some cron) t = advance_to id (next_fire_after civil (codes cron) (now / minute)) t

  -- `fire`
  unfoldable pub fire : ℕ → Schedule → Table → List Delivery × Table
  unfolding advance
  fire now s t = (delivery_of s ∷ [], advance now s.schedule_id s.cron t)

  unfoldable pub fire_if_there : ℕ → String → Table → List Delivery × Table
  unfolding fire get_schedule
  fire_if_there now id t = elim (get_schedule id t) [ none ↦ ([], t) | some s ↦ fire now s t ]

  unfoldable pub finish : Signal → ℕ → Table → Plan → List Delivery × Table
  unfolding fire_if_there delete_schedule
  finish signal wake after idle = ([], after)
  finish signal wake after (drop_broken id) = ([], (delete_schedule id after).1)
  finish timer wake after (sleep_for delay id) = fire_if_there wake id after
  finish woken wake after (sleep_for delay id) = ([], after)
  finish stopped wake after (sleep_for delay id) = ([], after)
  finish signal wake after (due id) = fire_if_there wake id after

  -- One round of `run`
  unfoldable pub run_round :
      (String → String → Bool)
      → (String → Option ℕ)
      → ℕ
      → Signal
      → ℕ
      → Table
      → Table
      → List Delivery × Table
  unfolding plan_for finish next_due_schedule
  run_round le parse now signal wake before after =
      finish signal wake after (plan_for parse now (next_due_schedule le before))
