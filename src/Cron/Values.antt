-- ===== src/Cron/Values.antt =====
-- What a cron field parses to: the parser always answers, and values without a wrap-around are the
-- steps within the range.
use repowire.Prelude.{
  ℕ, ◌+◌, ◌≤◌, ◌<◌, Bool, true, false, ◌||◌, ◌≡◌, refl, Option, none, some, List, [], ◌∷◌, ◌++◌,
  is_some, leb, eqb, Bool-cases, inl, inr, arith,
}
use repowire.Cron.Text.{
  Text, signed_lt, is_empty, trim_space, split, cut, atoi, at_most, negate, unsigned, digits,
}
use repowire.Cron.Steps.{signed_lt-small, step_through-ends}
use repowire.Cron.Field.{
  CronError, endless, Result, err, ok, and_then, or_err, parse_cron_int, checked_step, part_step,
  checked_range, part_range, is_star, parse_range, step_through, values_between, parse_part,
  parse_parts, parse_cron_field, step_not_integer, value_not_integer,
}

abbrev is_endless : CronError → Bool
is_endless endless = true
is_endless _ = false

-- A result that is not the end of the fuel.
abbrev pub Answered {ℓ} : {A : Type ℓ} → (A → Type 0) → Result A → Type 0
Answered P (err e) = is_endless e ≡ false
Answered P (ok a) = P a

and_then-Answered :
    {A B : Type 0} (P : A → Type 0) (Q : B → Type 0) (r : Result A) (next : A → Result B)
    → Answered P r
    → ((a : A) → P a → Answered Q (next a))
    → Answered Q (and_then r next)
and_then-Answered P Q (err e) next h k = h
and_then-Answered P Q (ok a) next h k = k a h

-- What Atoi returns is a word.
abbrev IsWord : ℕ → Type 0
IsWord n = n < 18_446_744_073_709_551_616

abbrev WordIfAny : Option ℕ → Type 0
WordIfAny none = Unit
WordIfAny (some n) = IsWord n

at_most-WordIfAny : (limit : ℕ) (x : Option ℕ) → IsWord limit → WordIfAny (at_most limit x)
at_most-WordIfAny limit none h = tt
at_most-WordIfAny limit (some n) h = elim (Bool-cases (leb n limit)) [
  | inl le ↦ rw (le) (ground (arith, le, h))
  | inr gt ↦ rw (gt) tt
]

unsigned-WordIfAny : (limit : ℕ) (s : Text) → IsWord limit → WordIfAny (unsigned limit s)
unsigned-WordIfAny limit [] h = tt
unsigned-WordIfAny limit (c ∷ s) h = at_most-WordIfAny limit (digits 0 (c ∷ s)) h

negate-WordIfAny : (x : Option ℕ) → WordIfAny (negate x)
negate-WordIfAny none = tt
negate-WordIfAny (some n) = omega arith

atoi-WordIfAny : (s : Text) → WordIfAny (atoi s)
unfolding atoi
atoi-WordIfAny [] = tt
atoi-WordIfAny (c ∷ s) = elim (Bool-cases (eqb c b'-')) [
  | inl minus ↦ rw (minus) (negate-WordIfAny (unsigned 9_223_372_036_854_775_808 s))
  | inr rest ↦ elim (Bool-cases (eqb c b'+')) [
    | inl plus ↦ rw (rest, plus) (unsigned-WordIfAny 9_223_372_036_854_775_807 s (omega arith))
    | inr bare ↦
        rw (rest, bare) (unsigned-WordIfAny 9_223_372_036_854_775_807 (c ∷ s) (omega arith))
  ]
]

or_err-Answered :
    (e : CronError) (x : Option ℕ)
    → is_endless e ≡ false
    → WordIfAny x
    → Answered IsWord (or_err e x)
or_err-Answered e none h w = h
or_err-Answered e (some n) h w = w

parse_cron_int-Answered : (raw : Text) → Answered IsWord (parse_cron_int raw)
unfolding parse_cron_int
parse_cron_int-Answered raw =
    or_err-Answered value_not_integer (atoi (trim_space raw)) refl (atoi-WordIfAny (trim_space raw))

-- The step of a part is a positive int.
abbrev PositiveStep : Text × ℕ → Type 0
PositiveStep p = (0 < p.1) × (p.1 < 9_223_372_036_854_775_808)

checked_step-Answered :
    (range : Text) (n : ℕ) → IsWord n → Answered PositiveStep (checked_step range n)
checked_step-Answered range n w = elim (Bool-cases (signed_lt n 1)) [
  | inl low ↦ rw (low) refl
  | inr fits ↦ rw (fits) (ground (arith, fits, w), ground (arith, fits, w))
]

part_step-Answered :
    (part : Text) (cutting : Option (Text × Text)) → Answered PositiveStep (part_step part cutting)
unfolding part_step
part_step-Answered part none = (omega arith, omega arith)
part_step-Answered part (some (range, raw)) =
    and_then-Answered IsWord PositiveStep (or_err step_not_integer (atoi raw)) (checked_step range)
      (or_err-Answered step_not_integer (atoi raw) refl (atoi-WordIfAny raw))
      (checked_step-Answered range)

-- The bounds of a range are words in their signed order.
abbrev SignedRange : ℕ × ℕ → Type 0
SignedRange r = IsWord r.0 × IsWord r.1 × (signed_lt r.1 r.0 ≡ false)

checked_range-Answered :
    (start end : ℕ) → IsWord start → IsWord end → Answered SignedRange (checked_range start end)
checked_range-Answered start end ws we = elim (Bool-cases (signed_lt end start)) [
  | inl back ↦ rw (back) refl
  | inr fits ↦ rw (fits) (ws, we, fits)
]

part_range-Answered :
    (low high : ℕ) (part : Text) (cutting : Option (Text × Text))
    → Answered SignedRange (part_range low high part cutting)
unfolding part_range
part_range-Answered low high part none =
    and_then-Answered IsWord SignedRange (parse_cron_int part) (λ v. ok (v, v))
      (parse_cron_int-Answered part) (λ v w. (w, w, ground arith))
part_range-Answered low high part (some (first, last)) =
    and_then-Answered IsWord SignedRange (parse_cron_int first)
      (λ start. and_then (parse_cron_int last) (checked_range start))
      (parse_cron_int-Answered first)
      (λ start ws.
        and_then-Answered IsWord SignedRange (parse_cron_int last) (checked_range start)
          (parse_cron_int-Answered last) (λ end we. checked_range-Answered start end ws we))

module _ (low high : ℕ) (ordered : low ≤ high) (small : high < 1_152_921_504_606_846_976) where
  parse_range-Answered : (part : Text) → Answered SignedRange (parse_range low high part)
  unfolding parse_range
  parse_range-Answered part = elim (Bool-cases (is_star part)) [
    | inl star ↦ rw (star) (
      omega (arith, ordered, small),
      omega (arith, small),
      ground (
        arith,
        signed_lt-small high low (omega (arith, small)) (omega (arith, ordered, small)),
        ordered,
      ),
    )
    | inr plain ↦ rw (plain) (part_range-Answered low high part (cut b'-' part))
  ]

  -- A range that passes the check on its bounds.
  in_bounds :
      (start end : ℕ)
      → IsWord start
      → IsWord end
      → signed_lt end start ≡ false
      → (signed_lt start low || signed_lt high end) ≡ false
      → (low ≤ start) × (start ≤ end) × (end ≤ high)
  in_bounds start end ws we fits inside = (
    ground (arith, ws, inside, small, ordered),
    ground (arith, ws, we, fits, inside, small, ordered),
    ground (arith, ws, we, fits, inside, small, ordered),
  )

  values_between-Answered :
      (step : ℕ) (r : ℕ × ℕ)
      → (0 < step) × (step < 9_223_372_036_854_775_808)
      → SignedRange r
      → Answered (λ (vs : List ℕ). Unit) (values_between low high step r)
  unfolding values_between
  values_between-Answered step (start, end) (pos, bound) (ws, we, fits) =
      elim (Bool-cases (signed_lt start low || signed_lt high end)) [
        | inl outside ↦ rw (outside) refl
        | inr inside ↦
            let (above, order, below) = in_bounds start end ws we fits inside in
            rw (inside) (
              found (step_through (end + 4) end step start)
                (step_through-ends end step start (omega (arith, below, small)) pos bound order))
      ]
    where
      found :
          (x : Option (List ℕ))
          → is_some x ≡ true
          → Answered (λ (vs : List ℕ). Unit) (or_err endless x)
      found none h = ground (arith, h)
      found (some vs) h = tt

  parse_part-Answered : (part : Text) → Answered (λ (vs : List ℕ). Unit) (parse_part low high part)
  unfolding parse_part
  parse_part-Answered part = elim (Bool-cases (is_empty part)) [
    | inl empty ↦ rw (empty) refl
    | inr full ↦ rw (full) (
        and_then-Answered PositiveStep (λ vs. Unit) (part_step part (cut b'/' part))
          (λ p. and_then (parse_range low high p.0) (values_between low high p.1))
          (part_step-Answered part (cut b'/' part))
          (λ p pos.
            and_then-Answered SignedRange (λ vs. Unit) (parse_range low high p.0)
              (values_between low high p.1) (parse_range-Answered p.0)
              (λ r signed. values_between-Answered p.1 r pos signed)))
  ]

  parse_parts-Answered :
      (parts : List Text) → Answered (λ (vs : List ℕ). Unit) (parse_parts low high parts)
  unfolding parse_parts
  parse_parts-Answered [] = tt
  parse_parts-Answered (part ∷ parts) =
      and_then-Answered (λ vs. Unit) (λ vs. Unit) (parse_part low high (trim_space part))
        (λ vs. and_then (parse_parts low high parts) (λ ws. ok (vs ++ ws)))
        (parse_part-Answered (trim_space part))
        (λ vs done.
          and_then-Answered (λ ws. Unit) (λ ws. Unit) (parse_parts low high parts)
            (λ ws. ok (vs ++ ws)) (parse_parts-Answered parts) (λ ws also. tt))

  -- For bounds in order and below 2 ^ 60: on every text the parser of a field returns values or one of
  -- the errors of the code; its loops never run out of rounds, whatever the steps are.
  pub parse_cron_field-Answered :
      (raw : Text) → Answered (λ (vs : List ℕ). Unit) (parse_cron_field low high raw)
  unfolding parse_cron_field
  parse_cron_field-Answered raw = parse_parts-Answered (split b',' raw)
