-- ===== src/Cron/Progress.antt =====
-- The values of a range whose steps do not wrap around.
use repowire.Prelude.{
  ℕ, zero, suc, ◌+◌, ◌*◌, ◌≤◌, ◌<◌, true, false, ◌||◌, ◌≡◌, ◌↔◌, refl, sym, ap, ◌∙◌, subst, Option,
  none, some, List, [], ◌∷◌, eqb, ltb, Bool-cases, inl, inr, arith, if◌then◌else◌,
}
use repowire.Cron.Text.{signed_lt}
use repowire.Cron.Steps.{signed_lt-small, word-small}
use repowire.Cron.Field.{ok, or_err, endless, add_value, step_through, values_between}
use repowire.Cron.Fire.{has}

-- The value is some number of steps after the start, and not after the end.
abbrev pub IsStep : ℕ → ℕ → ℕ → ℕ → Type 0
IsStep start end step x = (k : ℕ) × ((x ≡ start + k * step) × (x ≤ end))

module _ (end step : ℕ) (calm : end + step < 9_223_372_036_854_775_808) where
  one_round :
      (fuel v : ℕ)
      → v < 9_223_372_036_854_775_808
      → step_through (suc fuel) end step v
        ≡ (if ltb end v then some [] else add_value v (step_through fuel end step (v + step)))
  unfolding step_through
  one_round fuel v lv = elim (Bool-cases (ltb end v)) [
    | inl past ↦ rw (past, signed_lt-small end v (omega (arith, calm)) lv ∙ past) refl
    | inr inside ↦
        rw (inside, signed_lt-small end v (omega (arith, calm)) lv ∙ inside)
          (ap (λ w. add_value v (step_through fuel end step w))
            (word-small (v + step) (ground (arith, inside, calm))))
  ]

  cons_value :
      (v : ℕ) (x : Option (List ℕ)) (vs : List ℕ)
      → add_value v x ≡ some vs
      → (ws : List ℕ) × ((x ≡ some ws) × (vs ≡ v ∷ ws))
  cons_value v none vs h = ground (arith, h)
  cons_value v (some ws) vs h = (ws, (refl, ground (arith, h)))

  past_round :
      (fuel v : ℕ) (vs : List ℕ)
      → v < 9_223_372_036_854_775_808
      → ltb end v ≡ true
      → step_through (suc fuel) end step v ≡ some vs
      → vs ≡ []
  past_round fuel v vs lv past h = ground (arith, h, past, one_round fuel v lv)

  inside_round :
      (fuel v : ℕ) (vs : List ℕ)
      → v < 9_223_372_036_854_775_808
      → ltb end v ≡ false
      → step_through (suc fuel) end step v ≡ some vs
      → (ws : List ℕ) × ((step_through fuel end step (v + step) ≡ some ws) × (vs ≡ v ∷ ws))
  inside_round fuel v vs lv inside h =
      cons_value v (step_through fuel end step (v + step)) vs
        (ground (arith, h, inside, one_round fuel v lv))

  ltb_lt : (m n : ℕ) → ltb m n ≡ true → m < n
  ltb_lt m n h = ground (arith, h)

  later : (v x : ℕ) → IsStep (v + step) end step x → IsStep v end step x
  later v x (k, (at, le)) = (suc k, (omega (arith, at), le))

  sound :
      (fuel v : ℕ) (vs : List ℕ) (x : ℕ)
      → v < 9_223_372_036_854_775_808
      → step_through fuel end step v ≡ some vs
      → has vs x ≡ true
      → IsStep v end step x
  unfolding step_through
  sound zero v vs x lv h is = ground (arith, h)
  sound (suc fuel) v vs x lv h is = elim (Bool-cases (ltb end v)) [
    | inl past ↦ ground (arith, is, past_round fuel v vs lv past h)
    | inr inside ↦
        let (ws, (rest, cons)) = inside_round fuel v vs lv inside h in
        elim (Bool-cases (eqb x v)) [
          | inl first ↦ (0, (ground (arith, first), ground (arith, first, inside)))
          | inr other ↦ later v x (
              sound fuel (v + step) ws x (ground (arith, inside, calm)) rest
                (ground (arith, is, cons, other)))
        ]
  ]

  behind :
      (v k : ℕ) (ws : List ℕ)
      → ((j : ℕ) → v + step + j * step ≤ end → has ws (v + step + j * step) ≡ true)
      → v + k * step ≤ end
      → has (v ∷ ws) (v + k * step) ≡ true
  behind v zero ws again le = ground arith
  behind v (suc k) ws again le =
      let next : v + suc k * step ≡ v + step + k * step = omega arith in
      ground (arith, subst (λ x. has ws x ≡ true) (sym next) (again k (omega (arith, le, next))))

  complete :
      (fuel v k : ℕ) (vs : List ℕ)
      → v < 9_223_372_036_854_775_808
      → step_through fuel end step v ≡ some vs
      → v + k * step ≤ end
      → has vs (v + k * step) ≡ true
  unfolding step_through
  complete zero v k vs lv h le = ground (arith, h)
  complete (suc fuel) v k vs lv h le = elim (Bool-cases (ltb end v)) [
    | inl past ↦ absurd (omega (arith, le, ltb_lt end v past))
    | inr inside ↦
        let (ws, (rest, cons)) = inside_round fuel v vs lv inside h in
        subst (λ all. has all (v + k * step) ≡ true) (sym cons)
          (behind v k ws
            (λ j lej. complete fuel (v + step) j ws (ground (arith, inside, calm)) rest lej) le)
  ]

or_err-ok : (x : Option (List ℕ)) (vs : List ℕ) → or_err endless x ≡ ok vs → x ≡ some vs
or_err-ok none vs h = ground (arith, h)
or_err-ok (some ws) vs h = ground (arith, h)

passed :
    (low high step start end : ℕ) (vs : List ℕ)
    → values_between low high step (start, end) ≡ ok vs
    → ((signed_lt start low || signed_lt high end) ≡ false)
      × (step_through (end + 4) end step start ≡ some vs)
unfolding values_between
passed low high step start end vs h =
    elim (Bool-cases (signed_lt start low || signed_lt high end)) [
      | inl outside ↦ ground (arith, h, outside)
      | inr inside ↦
          (inside, or_err-ok (step_through (end + 4) end step start) vs (ground (arith, h, inside)))
    ]

-- For bounds below 2 ^ 63 and a step that cannot wrap around past the upper one: the values of a range
-- in order are exactly those that are some number of steps after its start and not after its end, and
-- the range lies between the bounds.
pub values_between_lem :
    (low high step start end : ℕ) (vs : List ℕ) (x : ℕ)
    → low < 9_223_372_036_854_775_808
    → high + step < 9_223_372_036_854_775_808
    → start ≤ end
    → end < 9_223_372_036_854_775_808
    → values_between low high step (start, end) ≡ ok vs
    → (low ≤ start) × (end ≤ high) × ((has vs x ≡ true) ↔ IsStep start end step x)
values_between_lem low high step start end vs x ll calm order le h =
    let (inside, looped) = passed low high step start end vs h in
    let below : end ≤ high =
      ground (arith, inside, signed_lt-small high end (omega (arith, calm)) le) in
    let above : low ≤ start =
      ground (arith, inside, signed_lt-small start low (omega (arith, order, le)) ll) in
    let quiet : end + step < 9_223_372_036_854_775_808 = omega (arith, calm, below) in
    (
      above,
      below,
      (
        sound end step quiet (end + 4) start vs x (omega (arith, order, le)) looped,
        λ reached.
            let (k, (at, within)) = reached in
            subst (λ y. has vs y ≡ true) (sym at)
              (complete end step quiet (end + 4) start k vs (omega (arith, order, le)) looped
                (omega (arith, at, within))),
      ),
    )
