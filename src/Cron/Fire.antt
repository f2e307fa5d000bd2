-- ===== src/Cron/Fire.antt =====
-- The rest of daemon-go/service/cron.go. A time is its number of minutes; what Go's calendar says of it
-- is an argument.
use repowire.Prelude.{
  ℕ, zero, suc, ◌+◌, ◌*◌, Bool, true, false, not, ◌&&◌, ◌||◌, Option, none, some, List, [], ◌∷◌,
  eqb, exists, keep, map, if◌then◌else◌,
}
use repowire.Cron.Text.{Text, codes, fields, join, trim_space, to_lower}
use repowire.Cron.Field.{
  field_count, no_match, Result, err, ok, and_then, or_err, parse_cron_field, is_star,
}

abbrev pub same_text : Text → Text → Bool
same_text [] [] = true
same_text [] (d ∷ t) = false
same_text (c ∷ s) [] = false
same_text (c ∷ s) (d ∷ t) = eqb c d && same_text s t

-- `cronAliases`
abbrev pub cron_aliases : List (Text × Text)
cron_aliases =
    (codes "@hourly", codes "0 * * * *")
    ∷ (codes "@daily", codes "0 0 * * *")
    ∷ (codes "@midnight", codes "0 0 * * *")
    ∷ (codes "@weekly", codes "0 0 * * 0")
    ∷ (codes "@monthly", codes "0 0 1 * *")
    ∷ []

abbrev pub alias_or : Text → Text → List (Text × Text) → Text
alias_or raw key [] = raw
alias_or raw key ((name, alias) ∷ rest) =
    if same_text name key then alias else alias_or raw key rest

-- `NormalizeCron`
unfoldable pub normalize_cron : Text → Text
unfolding fields join trim_space
normalize_cron expr =
    let raw = join (fields (trim_space expr)) in alias_or raw (map to_lower raw) cron_aliases

-- The sets of the five fields, and whether the two day fields are "*".
pub record Schedule : Type 0 where
  pub minutes : List ℕ
  pub hours : List ℕ
  pub days : List ℕ
  pub months : List ℕ
  pub weekdays : List ℕ
  pub dom_any : Bool
  pub dow_any : Bool

abbrev pub has : List ℕ → ℕ → Bool
has values v = exists (eqb v) values

-- Sunday is 0, also when it is written 7.
abbrev pub sunday_as_zero : List ℕ → List ℕ
sunday_as_zero values = if has values 7 then 0 ∷ keep (λ v. not (eqb v 7)) values else values

unfoldable pub parse_fields : List Text → Result Schedule
unfolding parse_cron_field
parse_fields (minute ∷ hour ∷ day ∷ month ∷ weekday ∷ []) =
    and_then (parse_cron_field 0 59 minute) (λ minutes.
      and_then (parse_cron_field 0 23 hour) (λ hours. and_then (parse_cron_field 1 31 day) (λ days.
        and_then (parse_cron_field 1 12 month) (λ months.
          and_then (parse_cron_field 0 7 weekday) (λ weekdays. ok (record {
            minutes = minutes;
            hours = hours;
            days = days;
            months = months;
            weekdays = sunday_as_zero weekdays;
            dom_any = is_star day;
            dow_any = is_star weekday;
          }))))))
parse_fields _ = err field_count

-- `ValidateCron`
unfoldable pub validate_cron : Text → Result Text
unfolding normalize_cron parse_fields fields
validate_cron expr =
    let norm = normalize_cron expr in and_then (parse_fields (fields norm)) (λ schedule. ok norm)

-- `cronDayMatches`
unfoldable pub cron_day_matches : ℕ → ℕ → List ℕ → List ℕ → Bool → Bool → Bool
cron_day_matches day weekday days weekdays true true = true
cron_day_matches day weekday days weekdays true false = has weekdays weekday
cron_day_matches day weekday days weekdays false true = has days day
cron_day_matches day weekday days weekdays false false = has days day || has weekdays weekday

-- The parts of a UTC time.
pub record Civil : Type 0 where
  pub minute : ℕ
  pub hour : ℕ
  pub day : ℕ
  pub month : ℕ
  pub weekday : ℕ

unfoldable pub fires : Schedule → Civil → Bool
unfolding cron_day_matches
fires s t =
    has s.minutes t.minute
    && has s.hours t.hour
    && has s.months t.month
    && cron_day_matches t.day t.weekday s.days s.weekdays s.dom_any s.dow_any

-- `deadline`: 366 days later
abbrev pub horizon : ℕ
horizon = 366 * 24 * 60

-- A round for each minute up to the deadline, which counts.
unfoldable pub search_from : (ℕ → Civil) → Schedule → ℕ → ℕ → Option ℕ
unfolding fires
search_from civil s zero candidate = none
search_from civil s (suc left) candidate = elim (fires s (civil candidate)) [
  | true ↦ some candidate
  | false ↦ search_from civil s left (candidate + 1)
]

-- `NextFireAfter`; `after` is cut to its minute.
unfoldable pub next_fire_after : (ℕ → Civil) → Text → ℕ → Result ℕ
unfolding validate_cron parse_fields fields search_from
next_fire_after civil expr after = and_then (validate_cron expr) (λ norm.
    and_then (parse_fields (fields norm))
      (λ s. or_err no_match (search_from civil s (suc horizon) (after + 1))))
