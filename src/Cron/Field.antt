-- ===== src/Cron/Field.antt =====
-- `parseCronField` of daemon-go/service/cron.go. A set of values is a list of words; the loop over a
-- range has fuel, and `endless` is that it ran out.
use repowire.Prelude.{
  ℕ, zero, suc, ◌+◌, Bool, false, ◌||◌, Option, none, some, List, [], ◌∷◌, ◌++◌, eqb, if◌then◌else◌,
}
use repowire.Cron.Text.{Text, is_empty, trim_space, split, cut, atoi, word, signed_lt}

pub data CronError : Type 0 where
  empty_field step_not_integer step_too_small value_not_integer : CronError
  range_reversed out_of_range field_count no_match endless : CronError

pub data Result {ℓ} (A : Type ℓ) : Type ℓ where
  err : CronError → Result A
  ok : A → Result A

abbrev pub and_then {ℓ κ} : {A : Type ℓ} {B : Type κ} → Result A → (A → Result B) → Result B
and_then (err e) next = err e
and_then (ok a) next = next a

abbrev pub or_err {ℓ} : {A : Type ℓ} → CronError → Option A → Result A
or_err e none = err e
or_err e (some a) = ok a

-- `parseCronInt`
unfoldable pub parse_cron_int : Text → Result ℕ
unfolding trim_space atoi
parse_cron_int raw = or_err value_not_integer (atoi (trim_space raw))

-- A part is its range, before the step, and the step.
abbrev pub checked_step : Text → ℕ → Result (Text × ℕ)
checked_step part step = if signed_lt step 1 then err step_too_small else ok (part, step)

unfoldable pub part_step : Text → Option (Text × Text) → Result (Text × ℕ)
unfolding atoi
part_step part none = ok (part, 1)
part_step part (some (range, raw)) =
    and_then (or_err step_not_integer (atoi raw)) (checked_step range)

abbrev pub checked_range : ℕ → ℕ → Result (ℕ × ℕ)
checked_range start end = if signed_lt end start then err range_reversed else ok (start, end)

unfoldable pub part_range : ℕ → ℕ → Text → Option (Text × Text) → Result (ℕ × ℕ)
unfolding parse_cron_int
part_range low high part (some (first, last)) =
    and_then (parse_cron_int first) (λ start. and_then (parse_cron_int last) (checked_range start))
part_range low high part none = and_then (parse_cron_int part) (λ v. ok (v, v))

-- `part == "*"`
abbrev pub is_star : Text → Bool
is_star [] = false
is_star (c ∷ []) = eqb c b'*'
is_star (c ∷ d ∷ s) = false

unfoldable pub parse_range : ℕ → ℕ → Text → Result (ℕ × ℕ)
unfolding part_range cut
parse_range low high part =
    if is_star part then ok (low, high) else part_range low high part (cut b'-' part)

abbrev pub add_value : ℕ → Option (List ℕ) → Option (List ℕ)
add_value v none = none
add_value v (some vs) = some (v ∷ vs)

-- `for v := start; v <= end; v += step`
unfoldable pub step_through : ℕ → ℕ → ℕ → ℕ → Option (List ℕ)
step_through zero end step v = none
step_through (suc fuel) end step v =
    let later = step_through fuel end step (word (v + step)) in
    if signed_lt end v then some [] else add_value v later

unfoldable pub values_between : ℕ → ℕ → ℕ → ℕ × ℕ → Result (List ℕ)
unfolding step_through
values_between low high step (start, end) =
    if signed_lt start low || signed_lt high end
    then err out_of_range
    else or_err endless (step_through (end + 4) end step start)

unfoldable pub parse_part : ℕ → ℕ → Text → Result (List ℕ)
unfolding part_step parse_range values_between cut
parse_part low high part =
    if is_empty part
    then err empty_field
    else and_then (part_step part (cut b'/' part))
        (λ p. and_then (parse_range low high p.0) (values_between low high p.1))

unfoldable pub parse_parts : ℕ → ℕ → List Text → Result (List ℕ)
unfolding parse_part trim_space
parse_parts low high [] = ok []
parse_parts low high (part ∷ parts) =
    and_then (parse_part low high (trim_space part))
      (λ vs. and_then (parse_parts low high parts) (λ ws. ok (vs ++ ws)))

-- `parseCronField`
unfoldable pub parse_cron_field : ℕ → ℕ → Text → Result (List ℕ)
unfolding parse_parts split
parse_cron_field low high raw = parse_parts low high (split b',' raw)
