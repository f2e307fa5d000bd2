-- ===== src/Cron/Steps.antt =====
-- The loop over a range ends for every step, and without a wrap-around it keeps to the range.
use repowire.Prelude.{
  ℕ, zero, suc, ◌+◌, ◌-◌, ◌≤◌, ◌<◌, true, false, ◌≡◌, refl, ap, ◌∙◌, Option, none, some, List,
  is_some, leb, ltb, Bool-cases, inl, inr, arith,
}
use repowire.Cron.Text.{word, signed_lt}
use repowire.Cron.Field.{step_through, add_value}

pub word-small : (n : ℕ) → n < 18_446_744_073_709_551_616 → word n ≡ n
word-small n lt = omega (arith, lt)

pub word-wraps :
    (n : ℕ)
    → 18_446_744_073_709_551_616 ≤ n
    → n < 36_893_488_147_419_103_232
    → word n ≡ n - 18_446_744_073_709_551_616
word-wraps n le lt = omega (arith, le, lt)

-- Two words below 2 ^ 63 compare as they are.
pub signed_lt-small :
    (m n : ℕ)
    → m < 9_223_372_036_854_775_808
    → n < 9_223_372_036_854_775_808
    → signed_lt m n ≡ ltb m n
signed_lt-small m n lm ln = ground (arith, lm, ln)

-- A word of 2 ^ 63 or more is negative.
pub signed_lt-negative :
    (m n : ℕ)
    → m < 9_223_372_036_854_775_808
    → 9_223_372_036_854_775_808 ≤ n
    → n < 18_446_744_073_709_551_616
    → signed_lt m n ≡ false
signed_lt-negative m n lm le ln = ground (arith, lm, le, ln)

module _ (end step : ℕ) where
  goes_on :
      (fuel v : ℕ)
      → signed_lt end v ≡ false
      → is_some (step_through (suc fuel) end step v)
        ≡ is_some (step_through fuel end step (word (v + step)))
  unfolding step_through
  goes_on fuel v h = rw (h) (added (step_through fuel end step (word (v + step))))
    where
      added : (x : Option (List ℕ)) → is_some (add_value v x) ≡ is_some x
      added none = refl
      added (some vs) = refl

  stops :
      (fuel v : ℕ) → signed_lt end v ≡ true → is_some (step_through (suc fuel) end step v) ≡ true
  unfolding step_through
  stops fuel v h = rw (h) refl

  -- Steps that do not wrap around reach the end.
  small_ends :
      (fuel v : ℕ)
      → 0 < step
      → end + step < 9_223_372_036_854_775_808
      → v < 9_223_372_036_854_775_808
      → end + 1 < fuel + v
      → 0 < fuel
      → is_some (step_through fuel end step v) ≡ true
  small_ends zero v pos small lv enough some_fuel = absurd (omega (arith, some_fuel))
  small_ends (suc fuel) v pos small lv enough some_fuel = elim (Bool-cases (signed_lt end v)) [
    | inl past ↦ stops fuel v past
    | inr inside ↦
        let le : v ≤ end =
          ground (arith, inside, signed_lt-small end v (omega (arith, small)) lv) in
        let next : word (v + step) ≡ v + step = word-small (v + step) (omega (arith, le, small)) in
        goes_on fuel v inside
        ∙ ap (λ w. is_some (step_through fuel end step w)) next
        ∙ small_ends fuel (v + step) pos small (omega (arith, le, small))
            (omega (arith, enough, pos, le)) (omega (arith, enough, le))
  ]

  -- From a negative value a great step leads past the end.
  last_two :
      (fuel w : ℕ)
      → 2 ≤ fuel
      → signed_lt end w ≡ false
      → signed_lt end (word (w + step)) ≡ true
      → is_some (step_through fuel end step w) ≡ true
  last_two zero w two negative past = absurd (omega (arith, two))
  last_two (suc zero) w two negative past = absurd (omega (arith, two))
  last_two (suc (suc fuel)) w two negative past =
      goes_on (suc fuel) w negative ∙ stops fuel (word (w + step)) past

  past_end : (w : ℕ) → end < w → w < 9_223_372_036_854_775_808 → signed_lt end w ≡ true
  past_end w lt small = ground (arith, lt, signed_lt-small end w (omega (arith, lt, small)) small)

  past_wrapped :
      (w : ℕ)
      → 18_446_744_073_709_551_616 ≤ w
      → w < 27_670_116_110_564_327_424
      → end + 18_446_744_073_709_551_616 < w
      → signed_lt end (word w) ≡ true
  past_wrapped w le lt past =
      ap (signed_lt end) (word-wraps w le (omega (arith, lt)))
      ∙ past_end (w - 18_446_744_073_709_551_616) (omega (arith, le, past)) (omega (arith, le, lt))

  -- After a wrap-around the value is less by two, or the loop is two rounds from its end.
  falls_back :
      (fuel v : ℕ)
      → end < 1_152_921_504_606_846_976
      → 9_223_372_036_854_775_808 ≤ end + step
      → step < 9_223_372_036_854_775_808
      → v ≤ end
      → 2 ≤ fuel
      → 9_223_372_036_854_775_808 ≤ v + step
      → ((w : ℕ) → w + 2 ≤ v → is_some (step_through fuel end step w) ≡ true)
      → is_some (step_through (suc fuel) end step (v + step)) ≡ true
  falls_back fuel v small large ls le two negative again =
      goes_on fuel (v + step) (
        signed_lt-negative end (v + step) (omega (arith, small)) negative
          (omega (arith, le, small, ls)))
      ∙ elim (Bool-cases (leb 18_446_744_073_709_551_616 (v + step + step))) [
        | inl round ↦
            ap (λ w. is_some (step_through fuel end step w))
              (word-wraps (v + step + step) (ground (arith, round)) (omega (arith, le, small, ls)))
            ∙ again (v + step + step - 18_446_744_073_709_551_616) (ground (arith, ls, round))
        | inr below ↦
            let still : v + step + step < 18_446_744_073_709_551_616 = ground (arith, below) in
            ap (λ w. is_some (step_through fuel end step w)) (word-small (v + step + step) still)
            ∙ last_two fuel (v + step + step) two
                (signed_lt-negative end (v + step + step) (omega (arith, small))
                  (omega (arith, large, small)) still)
                (past_wrapped (v + step + step + step) (omega (arith, large, small))
                  (omega (arith, still, ls)) (omega (arith, large, small)))
      ]

  -- A step near 2 ^ 63 falls back by at least two every other round.
  large_ends :
      (fuel v : ℕ)
      → end < 1_152_921_504_606_846_976
      → 9_223_372_036_854_775_808 ≤ end + step
      → step < 9_223_372_036_854_775_808
      → v ≤ end
      → v + 4 ≤ fuel
      → is_some (step_through fuel end step v) ≡ true
  large_ends zero v small large ls le enough = absurd (omega (arith, enough))
  large_ends (suc zero) v small large ls le enough = absurd (omega (arith, enough))
  large_ends (suc (suc fuel)) v small large ls le enough =
      goes_on (suc fuel) v (
        ground (
          arith,
          le,
          small,
          signed_lt-small end v (omega (arith, small)) (omega (arith, le, small)),
        ))
      ∙ ap (λ w. is_some (step_through (suc fuel) end step w))
          (word-small (v + step) (omega (arith, le, small, ls)))
      ∙ elim (Bool-cases (ltb (v + step) 9_223_372_036_854_775_808)) [
        | inl positive ↦
            stops fuel (v + step)
              (past_end (v + step) (omega (arith, small, large)) (ground (arith, positive)))
        | inr negative ↦
            falls_back fuel v small large ls le (omega (arith, enough)) (ground (arith, negative))
              (λ w lt.
                large_ends fuel w small large ls (omega (arith, lt, le))
                  (omega (arith, lt, enough)))
      ]

  -- For every step and range the loop ends within its rounds.
  pub step_through-ends :
      (start : ℕ)
      → end < 1_152_921_504_606_846_976
      → 0 < step
      → step < 9_223_372_036_854_775_808
      → start ≤ end
      → is_some (step_through (end + 4) end step start) ≡ true
  step_through-ends start small pos ls le =
      elim (Bool-cases (ltb (end + step) 9_223_372_036_854_775_808)) [
        | inl calm ↦
            small_ends (end + 4) start pos (ground (arith, calm)) (omega (arith, le, small))
              (omega arith) (omega arith)
        | inr wraps ↦
            large_ends (end + 4) start small (ground (arith, wraps)) ls le (omega (arith, le))
      ]
