-- ===== src/Scheduler/Timing.antt =====
-- When a round of daemon-go/service/scheduler.go fires.
use Prim.Native.Nat.{min}
use repowire.Prelude.{
  ℕ, ◌+◌, ◌≤◌, ◌<◌, String, Bool, false, ◌≡◌, Option, none, some, List, [], ◌∷◌, ◌⊎◌, ◌==◌,
}
use repowire.Cron.Fire.{Civil}
use repowire.Scheduler.Store.{Schedule, Table, get_schedule}
use repowire.Scheduler.Earliest.{IsEarliest}
use repowire.Scheduler.Round.{
  Delivery, scheduled_ask, notify, max_scheduler_sleep, Signal, timer, woken, stopped, Plan,
  sleep_for,
}

module _ (civil : ℕ → Civil) (format : ℕ → String) (parse : String → Option ℕ) where
  -- A timer ends the sleep of a plan no earlier than it was set to.
  abbrev pub OnTime : ℕ → ℕ → Signal → Plan → Type 0
  OnTime now wake timer (sleep_for delay id) = now + delay ≤ wake
  OnTime now wake signal plan = now ≤ wake

  -- A delivery says what the row says: an ask for the kind "ask", a notification for any other.
  abbrev pub Carries : Schedule → Delivery → Type 0
  Carries row (scheduled_ask from to text circle) =
      (row.kind ≡ "ask")
      × (from ≡ row.from_peer)
      × (to ≡ row.to_peer)
      × (text ≡ row.text)
      × (circle ≡ row.circle)
  Carries row (notify from to text circle) =
      ((row.kind == "ask") ≡ false)
      × (from ≡ row.from_peer)
      × (to ≡ row.to_peer)
      × (text ≡ row.text)
      × (circle ≡ row.circle)

  -- What was sent for a schedule: the row that then had its id, or nothing if there was none.
  abbrev pub SentOf : Schedule → Table → List Delivery → Type 0
  SentOf s after [] = get_schedule s.schedule_id after ≡ none
  SentOf s after (d ∷ []) =
      (row : Schedule) × (get_schedule s.schedule_id after ≡ some row) × Carries row d
  SentOf s after (d ∷ e ∷ ds) = ⊥

  abbrev pub Roused : Signal → Type 0
  Roused timer = ⊥
  Roused woken = Unit
  Roused stopped = Unit

  -- Why a round sends nothing for the schedule that is next.
  abbrev pub Silent : Signal → ℕ → Schedule → Table → Type 0
  Silent signal now s after =
      (parse s.fire_at ≡ none)
      ⊎ (get_schedule s.schedule_id after ≡ none)
      ⊎ ((at : ℕ) × (parse s.fire_at ≡ some at) × (now < at) × Roused signal)

  -- What is known after a round: why nothing was sent, or the schedule that was next, its time, that
  -- the round woke at this time or later, or after an hour, and what was sent.
  abbrev SentFor : Signal → ℕ → ℕ → Schedule → Table → List Delivery → Type 0
  SentFor signal now wake s after [] = Silent signal now s after
  SentFor signal now wake s after (d ∷ ds) =
      (at : ℕ) × ((parse s.fire_at ≡ some at)
        × (min at (now + max_scheduler_sleep) ≤ wake)
        × SentOf s after (d ∷ ds))

  -- What a round did: nothing on an empty table, and otherwise what is said of the schedule that was
  -- next, which is earliest by the stored times.
  abbrev pub Timely :
      (String → String → Bool) → Signal → ℕ → ℕ → Table → Table → List Delivery → Type 0
  Timely le signal now wake before after [] =
      (before ≡ []) ⊎ ((s : Schedule) × (IsEarliest le s before × Silent signal now s after))
  Timely le signal now wake before after (d ∷ ds) =
      (s : Schedule) × ((at : ℕ) × (IsEarliest le s before
          × (parse s.fire_at ≡ some at)
          × (min at (now + max_scheduler_sleep) ≤ wake)
          × SentOf s after (d ∷ ds)))
