-- ===== src/Cron/Search.antt =====
-- The search for the next minute finds the first one.
use repowire.Prelude.{
  ℕ, zero, suc, ◌+◌, ◌<◌, true, false, ◌≡◌, refl, sym, Option, none, some, Bool-cases, ◌⊎◌, inl,
  inr, subst, arith,
}
use repowire.Cron.Text.{Text, fields}
use repowire.Cron.Field.{no_match, CronError, or_err, Result, err, ok}
use repowire.Cron.Fire.{
  Schedule, Civil, normalize_cron, validate_cron, parse_fields, next_fire_after, fires, search_from,
  horizon,
}

module _ (civil : ℕ → Civil) (s : Schedule) where
  -- None of so many minutes from the first on fires.
  abbrev pub Quiet : ℕ → ℕ → Type 0
  Quiet from zero = Unit
  Quiet from (suc count) = (fires s (civil from) ≡ false) × Quiet (from + 1) count

  -- The answer of a search among so many minutes: the first that fires, or none.
  abbrev pub FirstFire : ℕ → ℕ → Option ℕ → Type 0
  FirstFire from count none = Quiet from count
  FirstFire from count (some n) =
      (skipped : ℕ) × ((n ≡ from + skipped)
        × (skipped < count)
        × (fires s (civil n) ≡ true)
        × Quiet from skipped)

  FirstFire-suc :
      (from count : ℕ) (found : Option ℕ)
      → fires s (civil from) ≡ false
      → FirstFire (from + 1) count found
      → FirstFire from (suc count) found
  FirstFire-suc from count none off quiet = (off, quiet)
  FirstFire-suc from count (some n) off (skipped, (at, lt, on, quiet)) =
      (suc skipped, (omega (arith, at), omega (arith, lt), on, (off, quiet)))

  pub search_from-FirstFire :
      (count from : ℕ) → FirstFire from count (search_from civil s count from)
  unfolding search_from
  search_from-FirstFire zero from = tt
  search_from-FirstFire (suc count) from = elim (Bool-cases (fires s (civil from))) [
    | inl on ↦ rw (on, search_from) (0, (omega arith, omega arith, on, tt))
    | inr off ↦
        rw (off, search_from)
          (FirstFire-suc from count (search_from civil s count (from + 1)) off
            (search_from-FirstFire count (from + 1)))
  ]

-- An expression that does not parse is refused with its error; of one that does, the answer is the
-- first of the minutes after the given one and up to 366 days later, or that there is none.
abbrev pub Firing : (ℕ → Civil) → ℕ → Result Schedule → Result ℕ → Type 0
Firing civil after (err e) answer = answer ≡ err e
Firing civil after (ok s) (err e) = (e ≡ no_match) × Quiet civil s (after + 1) (suc horizon)
Firing civil after (ok s) (ok n) = FirstFire civil s (after + 1) (suc horizon) (some n)

abbrev pub schedule_of : Text → Result Schedule
schedule_of expr = parse_fields (fields (normalize_cron expr))

found-Firing :
    (civil : ℕ → Civil) (s : Schedule) (after : ℕ) (found : Option ℕ)
    → FirstFire civil s (after + 1) (suc horizon) found
    → Firing civil after (ok s) (or_err no_match found)
found-Firing civil s after none quiet = (refl, quiet)
found-Firing civil s after (some n) first = first

refused :
    (civil : ℕ → Civil) (expr : Text) (after : ℕ) (e : CronError)
    → schedule_of expr ≡ err e
    → next_fire_after civil expr after ≡ err e
unfolding next_fire_after validate_cron
refused civil expr after e h = rw (h) refl

searched :
    (civil : ℕ → Civil) (expr : Text) (after : ℕ) (s : Schedule)
    → schedule_of expr ≡ ok s
    → next_fire_after civil expr after
      ≡ or_err no_match (search_from civil s (suc horizon) (after + 1))
unfolding next_fire_after validate_cron
searched civil expr after s h = rw (h) (rw (h) refl)

result-cases :
    {A : Type 0} (r : Result A) → ((e : CronError) × (r ≡ err e)) ⊎ ((a : A) × (r ≡ ok a))
result-cases (err e) = inl (e, refl)
result-cases (ok a) = inr (a, refl)

-- The next time of an expression: one that does not parse is refused with its error; of one that does,
-- the first minute that fires of those after the given one and up to 366 days later, and an error when
-- none of them does.
pub next_fire_after_lem :
    (civil : ℕ → Civil) (expr : Text) (after : ℕ)
    → Firing civil after (schedule_of expr) (next_fire_after civil expr after)
next_fire_after_lem civil expr after = elim (result-cases (schedule_of expr)) [
  | inl (e, h) ↦
      subst (λ r. Firing civil after r (next_fire_after civil expr after)) (sym h)
        (refused civil expr after e h)
  | inr (s, h) ↦
      subst (λ r. Firing civil after r (next_fire_after civil expr after)) (sym h)
        (subst (Firing civil after (ok s)) (sym (searched civil expr after s h)) (
          found-Firing civil s after (search_from civil s (suc horizon) (after + 1))
            (search_from-FirstFire civil s (suc horizon) (after + 1))))
]
