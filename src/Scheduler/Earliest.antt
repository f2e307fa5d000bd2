-- ===== src/Scheduler/Earliest.antt =====
-- The next due schedule is the earliest by its stored time.
use repowire.Prelude.{
  IsTotal, IsTransitive, String, Bool, true, ◌≡◌, refl, ◌⊎◌, none, some, List, [], ◌∷◌, All, first,
  Bool-cases, inl, inr, arith, subst,
}
use repowire.Scheduler.Store.{Schedule, Table, insert_by_fire, sort_by_fire, next_due_schedule}

-- A row of the table.
abbrev pub Listed : Schedule → Table → Type 0
Listed s [] = ⊥
Listed s (x ∷ t) = (x ≡ s) ⊎ Listed s t

module _ (le : String → String → Bool) where
  abbrev NoneBefore : Schedule → Table → Type 0
  NoneBefore s t = All (λ x. le s.fire_at x.fire_at ≡ true) t

  -- The schedule is a row of the table, and no row is before it.
  abbrev pub IsEarliest : Schedule → Table → Type 0
  IsEarliest s t = Listed s t × NoneBefore s t

  -- The first of the sorted rows is earliest in the table.
  abbrev FirstEarliest : Table → List Schedule → Type 0
  FirstEarliest t [] = t ≡ []
  FirstEarliest t (s ∷ rest) = IsEarliest s t

  module _ (total : IsTotal le) (trans : IsTransitive le) where
    earlier :
        (s h : Schedule) (t : Table)
        → le s.fire_at h.fire_at ≡ true
        → NoneBefore h t
        → NoneBefore s t
    earlier s h [] le_h all = tt
    earlier s h (x ∷ t) le_h (first_le, all) =
        (trans s.fire_at h.fire_at x.fire_at le_h first_le, earlier s h t le_h all)

    itself : (s : Schedule) → le s.fire_at s.fire_at ≡ true
    itself s = ground (arith, total s.fire_at s.fire_at)

    insert-FirstEarliest :
        (s : Schedule) (t : Table) (sorted : List Schedule)
        → FirstEarliest t sorted
        → FirstEarliest (s ∷ t) (insert_by_fire le s sorted)
    insert-FirstEarliest s t [] none_left = rw (none_left) (inl refl, (itself s, tt))
    insert-FirstEarliest s t (h ∷ rest) least = elim (Bool-cases (le s.fire_at h.fire_at)) [
      | inl before ↦ rw (before) (inl refl, (itself s, earlier s h t before least.1))
      | inr after ↦
          rw (after) (inr least.0, (ground (arith, after, total s.fire_at h.fire_at), least.1))
    ]

    sort-FirstEarliest : (t : Table) → FirstEarliest t (sort_by_fire le t)
    sort-FirstEarliest [] = refl
    sort-FirstEarliest (s ∷ t) = insert-FirstEarliest s t (sort_by_fire le t) (sort-FirstEarliest t)

    head-IsEarliest :
        (s : Schedule) (t : Table) (sorted : List Schedule)
        → FirstEarliest t sorted
        → first (λ x. true) sorted ≡ some s
        → IsEarliest s t
    head-IsEarliest s t [] least h = ground (arith, h)
    head-IsEarliest s t (x ∷ rest) least h =
        let same : x ≡ s = ground (arith, h) in subst (λ y. IsEarliest y t) same least

    pub next_due_schedule-IsEarliest :
        (s : Schedule) (t : Table) → next_due_schedule le t ≡ some s → IsEarliest s t
    unfolding next_due_schedule
    next_due_schedule-IsEarliest s t h =
        head-IsEarliest s t (sort_by_fire le t) (sort-FirstEarliest t) h

    empty-next_due :
        (t : Table) (sorted : List Schedule)
        → FirstEarliest t sorted
        → first (λ x. true) sorted ≡ none
        → t ≡ []
    empty-next_due t [] least h = least
    empty-next_due t (x ∷ rest) least h = absurd (ground (arith, h))

    pub none-next_due_schedule : (t : Table) → next_due_schedule le t ≡ none → t ≡ []
    unfolding next_due_schedule
    none-next_due_schedule t h = empty-next_due t (sort_by_fire le t) (sort-FirstEarliest t) h
