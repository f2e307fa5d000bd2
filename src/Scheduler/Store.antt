-- ===== src/Scheduler/Store.antt =====
-- daemon-go/state/schedules.go. The table is the list of its rows; `le` is the database's order of texts
-- and `format` Go's format of a time in nanoseconds. updated_at, which nothing reads, is left out, and so
-- are the database's failures.
use Prim.Native.String.{◌++◌}
use repowire.Prelude.{
  ℕ, String, Bool, true, false, not, ◌||◌, ◌==◌, Option, none, some, List, [], ◌∷◌, first, keep,
  map, is_some, if◌then◌else◌,
}

pub record Schedule : Type 0 where
  pub schedule_id : String
  pub from_peer : String
  pub to_peer : String
  pub text : String
  pub fire_at : String
  pub kind : String
  pub circle : Option String
  pub cron : Option String
  pub created_at : String

abbrev pub Table : Type 0
Table = List Schedule

-- What `CreateSchedule` is called with; no time is Go's zero time.
pub record NewSchedule : Type 0 where
  pub from_peer : String
  pub to_peer : String
  pub text : String
  pub fire_at : Option ℕ
  pub kind : String
  pub circle : Option String
  pub cron : Option String

pub data Created : Type 0 where
  bad_kind fire_at_unset : Created
  created : Schedule → Created

abbrev pub is_schedule : String → Schedule → Bool
is_schedule id s = s.schedule_id == id

-- `upsertSchedule`: INSERT OR REPLACE
unfoldable pub upsert_schedule : Schedule → Table → Table
upsert_schedule s t = s ∷ keep (λ old. not (is_schedule s.schedule_id old)) t

abbrev pub kind_or_notify : String → String
kind_or_notify kind = if kind == "" then "notify" else kind

-- `GetSchedule`
unfoldable pub get_schedule : String → Table → Option Schedule
get_schedule id t = first (is_schedule id) t

abbrev pub moved_to : String → String → Schedule → Schedule
moved_to id at s = if is_schedule id s then record s { fire_at = at } else s

abbrev pub recurs : Option Schedule → Bool
recurs none = false
recurs (some s) = is_some s.cron

-- `DeleteSchedule`
unfoldable pub delete_schedule : String → Table → Option Schedule × Table
unfolding get_schedule
delete_schedule id t = (get_schedule id t, keep (λ s. not (is_schedule id s)) t)

module _ (format : ℕ → String) where
  -- `CreateSchedule`; `token` is the random part of the id.
  unfoldable pub create_schedule : String → ℕ → NewSchedule → Table → Created × Table
  unfolding upsert_schedule
  create_schedule token now n t =
      let kind = kind_or_notify n.kind in
      if not (kind == "ask" || kind == "notify") then (bad_kind, t) else elim n.fire_at [
        | none ↦ (fire_at_unset, t)
        | some at ↦
            let s : Schedule = record {
              schedule_id = "sched-" ++ token;
              from_peer = n.from_peer;
              to_peer = n.to_peer;
              text = n.text;
              fire_at = format at;
              kind = kind;
              circle = n.circle;
              cron = n.cron;
              created_at = format now;
            } in
            (created s, upsert_schedule s t)
      ]

  -- `RescheduleNext`
  unfoldable pub reschedule_next : String → ℕ → Table → Bool × Table
  unfolding get_schedule
  reschedule_next id next t =
      if recurs (get_schedule id t) then (true, map (moved_to id (format next)) t) else (false, t)

module _ (le : String → String → Bool) where
  abbrev pub insert_by_fire : Schedule → Table → Table
  insert_by_fire new [] = new ∷ []
  insert_by_fire new (s ∷ t) =
      let rest = insert_by_fire new t in if le new.fire_at s.fire_at then new ∷ s ∷ t else s ∷ rest

  abbrev pub sort_by_fire : Table → Table
  sort_by_fire [] = []
  sort_by_fire (s ∷ t) = insert_by_fire s (sort_by_fire t)

  abbrev pub is_from : Option String → Schedule → Bool
  is_from none s = true
  is_from (some peer) s = s.from_peer == peer

  -- `ListSchedules`
  unfoldable pub list_schedules : Option String → Table → List Schedule
  list_schedules peer t = sort_by_fire (keep (is_from peer) t)

  -- `NextDueSchedule`
  unfoldable pub next_due_schedule : Table → Option Schedule
  next_due_schedule t = first (λ s. true) (sort_by_fire t)
