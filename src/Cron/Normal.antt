-- ===== src/Cron/Normal.antt =====
-- Normalized cron expressions are in normal form.
use repowire.Prelude.{
  ℕ, true, ◌&&◌, ◌≡◌, refl, sym, ap, ◌∙◌, List, [], ◌∷◌, ◌⊎◌, inl, inr, All, Bool-cases, map,
  if◌then◌else◌, arith,
}
use repowire.Cron.Text.{
  Text, is_empty, is_space, split_words, emit, fields, join, trim_left, trim_right, trim_space,
  to_lower,
}
use repowire.Cron.Words.{fields-join, fields-AllWords}
use repowire.Cron.Field.{Result, ok, err, and_then}
use repowire.Cron.Fire.{
  Civil, Schedule, normalize_cron, alias_or, same_text, cron_aliases, validate_cron, parse_fields,
  next_fire_after,
}

cons_words :
    (c : ℕ) (s t : Text) → split_words s ≡ split_words t → split_words (c ∷ s) ≡ split_words (c ∷ t)
unfolding split_words
cons_words c s t same =
    ap (λ (r : Text × List Text). if is_space c then ([], emit r.0 r.1) else (c ∷ r.0, r.1)) same

space_words : (c : ℕ) (s : Text) → is_space c ≡ true → split_words (c ∷ s) ≡ ([], fields s)
unfolding split_words fields
space_words c s is = rw (is) refl

fields-space : (c : ℕ) (s : Text) → is_space c ≡ true → fields (c ∷ s) ≡ fields s
unfolding fields
fields-space c s is = rw (space_words c s is) refl

space_alone : (c : ℕ) → is_space c ≡ true → split_words (c ∷ []) ≡ split_words []
unfolding split_words
space_alone c is = rw (is) refl

fields-of : (s t : Text) → split_words s ≡ split_words t → fields s ≡ fields t
unfolding fields
fields-of s t same = ap (λ (r : Text × List Text). emit r.0 r.1) same

fields-trim_left : (s : Text) → fields (trim_left s) ≡ fields s
fields-trim_left [] = refl
fields-trim_left (c ∷ s) = elim (Bool-cases (is_space c)) [
  | inl is ↦
      let shorter : trim_left (c ∷ s) ≡ trim_left s = rw (is) refl in
      ap fields shorter ∙ fields-trim_left s ∙ sym (fields-space c s is)
  | inr is ↦ let same : trim_left (c ∷ s) ≡ c ∷ s = rw (is) refl in ap fields same
]

empty_is : (s : Text) → is_empty s ≡ true → s ≡ []
empty_is [] h = refl
empty_is (c ∷ s) h = ground (arith, h)

split_words-trim_right : (s : Text) → split_words (trim_right s) ≡ split_words s
split_words-trim_right [] = refl
split_words-trim_right (c ∷ s) = elim (Bool-cases (is_empty (trim_right s) && is_space c)) [
  | inl bare ↦
      let cut_off : trim_right (c ∷ s) ≡ [] = rw (bare) refl in
      let nothing : split_words s ≡ split_words [] =
        sym (split_words-trim_right s)
        ∙ ap split_words (empty_is (trim_right s) (ground (arith, bare))) in
      ap split_words cut_off
      ∙ sym (space_alone c (ground (arith, bare)))
      ∙ sym (cons_words c s [] nothing)
  | inr kept ↦
      let same : trim_right (c ∷ s) ≡ c ∷ trim_right s = rw (kept) refl in
      ap split_words same ∙ cons_words c (trim_right s) s (split_words-trim_right s)
]

fields-trim_space : (s : Text) → fields (trim_space s) ≡ fields s
unfolding trim_space
fields-trim_space s =
    fields-of (trim_right (trim_left s)) (trim_left s) (split_words-trim_right (trim_left s))
    ∙ fields-trim_left s

abbrev pub IsNormal : Text → Type 0
IsNormal s = normalize_cron s ≡ s

alias-cases :
    (raw key : Text) (aliases : List (Text × Text))
    → All (λ (a : Text × Text). IsNormal a.1) aliases
    → (alias_or raw key aliases ≡ raw) ⊎ IsNormal (alias_or raw key aliases)
alias-cases raw key [] h = inl refl
alias-cases raw key ((name, alias) ∷ rest) (normal, h) = elim (Bool-cases (same_text name key)) [
  | inl is ↦ rw (is) (inr normal)
  | inr is ↦ rw (is) (alias-cases raw key rest h)
]

aliases-IsNormal : All (λ (a : Text × Text). IsNormal a.1) cron_aliases
unfolding normalize_cron
aliases-IsNormal = (refl, (refl, (refl, (refl, (refl, tt)))))

join-fields : (s : Text) → join (fields (trim_space (join (fields s)))) ≡ join (fields s)
join-fields s =
    ap join (fields-trim_space (join (fields s)) ∙ fields-join (fields s) (fields-AllWords s))

pub normalize_cron-IsNormal : (expr : Text) → IsNormal (normalize_cron expr)
unfolding normalize_cron
normalize_cron-IsNormal expr =
    let raw = join (fields (trim_space expr)) in
    elim (alias-cases raw (map to_lower raw) cron_aliases aliases-IsNormal) [
      | inl plain ↦
          ap normalize_cron plain
          ∙ ap (λ r. alias_or r (map to_lower r) cron_aliases) (join-fields (trim_space expr))
          ∙ plain
          ∙ sym plain
      | inr normal ↦ normal
    ]

validated : (expr norm : Text) → validate_cron expr ≡ ok norm → normalize_cron expr ≡ norm
unfolding validate_cron
validated expr norm h = parsed (parse_fields (fields (normalize_cron expr))) h
  where
    parsed :
        (r : Result Schedule)
        → and_then r (λ schedule. ok (normalize_cron expr)) ≡ ok norm
        → normalize_cron expr ≡ norm
    parsed (err e) h = ground (arith, h)
    parsed (ok s) h = ground (arith, h)

-- What is stored of an accepted expression is accepted as it is, and fires when the expression does.
pub validate_cron-next_fire_after :
    (civil : ℕ → Civil) (expr norm : Text) (after : ℕ)
    → validate_cron expr ≡ ok norm
    → (validate_cron norm ≡ ok norm)
      × (next_fire_after civil norm after ≡ next_fire_after civil expr after)
unfolding next_fire_after
validate_cron-next_fire_after civil expr norm after h = (again, rw (again, h) refl)
  where
    same : normalize_cron norm ≡ normalize_cron expr
    same = sym (ap normalize_cron (validated expr norm h)) ∙ normalize_cron-IsNormal expr

    again : validate_cron norm ≡ ok norm
    again =
        (unfold validate_cron in
          ap (λ (n : Text). and_then (parse_fields (fields n)) (λ schedule. ok n)) same)
        ∙ h
