-- ===== src/Cron/Tests.antt =====
-- Cron expressions at concrete inputs.
use repowire.Prelude.{ℕ, ◌≤◌, ◌≡◌, ◌↔◌, refl, List, [], ◌∷◌, true, arith}
use repowire.Cron.Text.{codes, is_space, fields, join}
use repowire.Cron.Field.{ok, parse_cron_field, values_between}
use repowire.Cron.Fire.{Civil, has, validate_cron, next_fire_after}
use repowire.Cron.Words.{AllWords, fields-join}
use repowire.Cron.Normal.{validate_cron-next_fire_after}
use repowire.Cron.Search.{Firing, schedule_of, next_fire_after_lem}
use repowire.Cron.Values.{Answered, parse_cron_field-Answered}
use repowire.Cron.Progress.{IsStep, values_between_lem}

a_step : parse_cron_field 0 59 (codes "1-5/2,50") ≡ ok (1 ∷ 3 ∷ 5 ∷ 50 ∷ [])
unfolding parse_cron_field
a_step = refl

-- A step near the greatest int wraps around, and adds a minute before the start of its range.
a_wrap :
    parse_cron_field 0 59 (codes "2-59/9223372036854775807")
    ≡ ok (2 ∷ 9_223_372_036_854_775_809 ∷ 0 ∷ [])
unfolding parse_cron_field
a_wrap = refl

an_alias : validate_cron (codes "  @Daily ") ≡ ok (codes "0 0 * * *")
unfolding validate_cron
an_alias = refl

-- Hours only.
abbrev an_hour : ℕ → Civil
an_hour n = record { minute = 0; hour = n; day = 1; month = 1; weekday = 1 }

fires_at_nine : next_fire_after an_hour (codes "0 9 * * 1-5") 3 ≡ ok 9
unfolding next_fire_after
fires_at_nine = refl

validate_cron-next_fire_after_example :
    (validate_cron (codes "0 9 * * 1-5") ≡ ok (codes "0 9 * * 1-5"))
    × (next_fire_after an_hour (codes "0 9 * * 1-5") 3
        ≡ next_fire_after an_hour (codes " 0 9  * * 1-5") 3)
unfolding validate_cron
validate_cron-next_fire_after_example =
    validate_cron-next_fire_after an_hour (codes " 0 9  * * 1-5") (codes "0 9 * * 1-5") 3 refl

next_fire_after_lem_example :
    Firing an_hour 3
      (schedule_of (codes "0 9 * * 1-5"))
      (next_fire_after an_hour (codes "0 9 * * 1-5") 3)
next_fire_after_lem_example = next_fire_after_lem an_hour (codes "0 9 * * 1-5") 3

parse_cron_field-Answered_example :
    Answered (λ (vs : List ℕ). Unit) (parse_cron_field 0 59 (codes "2-59/9223372036854775807"))
parse_cron_field-Answered_example =
    parse_cron_field-Answered 0 59 (omega arith) (omega arith) (codes "2-59/9223372036854775807")

fields-join_example : fields (join (codes "0" ∷ codes "9" ∷ [])) ≡ codes "0" ∷ codes "9" ∷ []
fields-join_example = fields-join (codes "0" ∷ codes "9" ∷ []) two_words
  where
    two_words : AllWords (codes "0" ∷ codes "9" ∷ [])
    two_words = unfold is_space in (refl, (refl, tt))

values_between_lem_example : (0 ≤ 1) × (5 ≤ 59) × ((has (1 ∷ 3 ∷ 5 ∷ []) 3 ≡ true) ↔ IsStep 1 5 2 3)
values_between_lem_example =
    values_between_lem 0 59 2 1 5 (1 ∷ 3 ∷ 5 ∷ []) 3 (omega arith) (omega arith) (omega arith)
      (omega arith) stepped
  where
    stepped : values_between 0 59 2 (1, 5) ≡ ok (1 ∷ 3 ∷ 5 ∷ [])
    stepped = unfold values_between in refl
