-- ===== src/Scheduler/Tests.antt =====
-- A small table of schedules, and the theorems of this component at it.
use repowire.Prelude.{ℕ, String, ◌≡◌, ◌==◌, refl, Option, none, some, [], ◌∷◌, if◌then◌else◌}
use repowire.Samples.{tally, by_length}
use repowire.Cron.Fire.{Civil}
use repowire.Scheduler.Store.{Schedule, Table, get_schedule, next_due_schedule}
use repowire.Scheduler.Round.{delivery_of, fire}
use repowire.Scheduler.Firing.{IsLater, next_of, row_after, fire_lem}

abbrev every_minute : ℕ → Civil
every_minute n = record { minute = 0; hour = 0; day = 1; month = 1; weekday = 1 }

abbrev check_in : Schedule
check_in = record {
  schedule_id = "sched-1";
  from_peer = "p1";
  to_peer = "p2";
  text = "status?";
  fire_at = "later";
  kind = "ask";
  circle = none;
  cron = some "* * * * *";
  created_at = "";
}

abbrev one_schedule : Table
one_schedule = check_in ∷ []

-- Two hours.
abbrev two_hours : ℕ
two_hours = 7_200_000_000_000

abbrev read_time : String → Option ℕ
read_time s = if s == "later" then some two_hours else none

found : get_schedule "sched-1" one_schedule ≡ some check_in
unfolding get_schedule
found = refl

first_due : next_due_schedule by_length one_schedule ≡ some check_in
unfolding next_due_schedule
first_due = refl

fire_lem_example :
    IsLater every_minute tally 0 (next_of every_minute tally 0 (some "* * * * *"))
    × ((fire every_minute tally 0 check_in one_schedule).0 ≡ delivery_of check_in ∷ [])
    × (get_schedule "sched-1" (fire every_minute tally 0 check_in one_schedule).1
        ≡ row_after every_minute tally (next_of every_minute tally 0 (some "* * * * *")) check_in)
fire_lem_example = fire_lem every_minute tally 0 check_in one_schedule "sched-1" found
