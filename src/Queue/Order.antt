-- ===== src/Queue/Order.antt =====
-- The table stays in the order of (created_at, delivery_id), each id once.
use repowire.Prelude.{
  IsTotal, IsTransitive, String, Bool, true, false, ◌||◌, ◌≡◌, refl, [], ◌∷◌, All, exists, keep,
  if◌then◌else◌, arith, eq_iff, Bool-cases, inl, inr,
}
use repowire.Queue.Store.{QueuedDelivery, Table, has_id, row_le, insert_row}
use repowire.Queue.Rows.{UniqueIds}

module _ (le : String → String → Bool) where
  abbrev pub IsOrdered : Table → Type 0
  IsOrdered [] = Unit
  IsOrdered (row ∷ t) = All (λ later. row_le le row later ≡ true) t × IsOrdered t

  abbrev pub WellFormed : Table → Type 0
  WellFormed t = IsOrdered t × UniqueIds t

  pub row_le_trans :
      IsTransitive le
      → (a b c : QueuedDelivery) → row_le le a b ≡ true
      → row_le le b c ≡ true
      → row_le le a c ≡ true
  row_le_trans trans a b c h k = ground (
    arith,
    h,
    k,
    trans a.created_at b.created_at c.created_at,
    trans c.created_at a.created_at b.created_at,
    trans b.created_at c.created_at a.created_at,
    trans a.delivery_id b.delivery_id c.delivery_id,
  )

  row_le-total : IsTotal le → (a b : QueuedDelivery) → row_le le a b ≡ false → row_le le b a ≡ true
  row_le-total total a b h =
      ground (arith, h, total a.created_at b.created_at, total a.delivery_id b.delivery_id)

  All-keep :
      (P : QueuedDelivery → Type 0) (f : QueuedDelivery → Bool) (t : Table)
      → All P t
      → All P (keep f t)
  All-keep P f [] h = tt
  All-keep P f (row ∷ t) (p, h) = elim (Bool-cases (f row)) [
    | inl is ↦ rw (is) (p, All-keep P f t h)
    | inr is ↦ rw (is) (All-keep P f t h)
  ]

  All-weaken :
      (P Q : QueuedDelivery → Type 0)
      → ((row : QueuedDelivery) → P row → Q row)
      → (t : Table) → All P t
      → All Q t
  All-weaken P Q imp [] h = tt
  All-weaken P Q imp (row ∷ t) (p, h) = (imp row p, All-weaken P Q imp t h)

  pub keep-IsOrdered : (f : QueuedDelivery → Bool) (t : Table) → IsOrdered t → IsOrdered (keep f t)
  keep-IsOrdered f [] h = tt
  keep-IsOrdered f (row ∷ t) (first, h) = elim (Bool-cases (f row)) [
    | inl is ↦
        rw (is) (All-keep (λ later. row_le le row later ≡ true) f t first, keep-IsOrdered f t h)
    | inr is ↦ rw (is) (keep-IsOrdered f t h)
  ]

  All-insert_row :
      (P : QueuedDelivery → Type 0) (new : QueuedDelivery) (t : Table)
      → P new
      → All P t
      → All P (insert_row le new t)
  unfolding insert_row
  All-insert_row P new [] p h = (p, tt)
  All-insert_row P new (row ∷ t) p (q, h) = elim (Bool-cases (row_le le row new)) [
    | inl before ↦ rw (before) (q, All-insert_row P new t p h)
    | inr after ↦ rw (after) (p, (q, h))
  ]

  module _ (total : IsTotal le) (trans : IsTransitive le) where
    pub insert_row-IsOrdered :
        (new : QueuedDelivery) (t : Table) → IsOrdered t → IsOrdered (insert_row le new t)
    unfolding insert_row
    insert_row-IsOrdered new [] h = (tt, tt)
    insert_row-IsOrdered new (row ∷ t) (first, h) = elim (Bool-cases (row_le le row new)) [
      | inl before ↦ rw (before) (
        All-insert_row (λ later. row_le le row later ≡ true) new t before first,
        insert_row-IsOrdered new t h,
      )
      | inr after ↦ rw (after) (
          let less = row_le-total total row new after in
          (
            (
              less,
              All-weaken (λ later. row_le le row later ≡ true) (λ later. row_le le new later ≡ true)
                  (λ later le_row. row_le_trans trans new row later less le_row) t first,
            ),
            (first, h),
          ))
    ]

  -- A new row goes before rows that are all greater.
  insert_row-front :
      (new : QueuedDelivery) (t : Table)
      → All (λ row. row_le le row new ≡ false) t
      → insert_row le new t ≡ new ∷ t
  unfolding insert_row
  insert_row-front new [] h = refl
  insert_row-front new (row ∷ t) (after, h) = rw (after) refl

  exists-insert_row :
      (id : String) (new : QueuedDelivery) (t : Table)
      → exists (has_id id) (insert_row le new t) ≡ (has_id id new || exists (has_id id) t)
  unfolding insert_row
  exists-insert_row id new [] = ground arith
  exists-insert_row id new (row ∷ t) = ground (arith, exists-insert_row id new t)

  pub insert_row-UniqueIds :
      (new : QueuedDelivery) (t : Table)
      → exists (has_id new.delivery_id) t ≡ false
      → UniqueIds t
      → UniqueIds (insert_row le new t)
  unfolding insert_row
  insert_row-UniqueIds new [] fresh u = (refl, tt)
  insert_row-UniqueIds new (row ∷ t) fresh (first, u) = ground (
    arith,
    fresh,
    first,
    u,
    insert_row-UniqueIds new t,
    exists-insert_row row.delivery_id new t,
    eq_iff new.delivery_id row.delivery_id,
    eq_iff row.delivery_id new.delivery_id,
  )

  keep-front :
      (f : QueuedDelivery → Bool) (new : QueuedDelivery) (t : Table)
      → All (λ row. row_le le row new ≡ false) t
      → keep f (new ∷ t) ≡ (if f new then insert_row le new (keep f t) else keep f t)
  keep-front f new t h =
      ground
        (arith, insert_row-front new (keep f t) (All-keep (λ row. row_le le row new ≡ false) f t h))

  not_before :
      IsTransitive le
      → (row later new : QueuedDelivery) → row_le le row later ≡ true
      → row_le le row new ≡ false
      → row_le le later new ≡ false
  not_before trans row later new h after = ground (arith, after, row_le_trans trans row later new h)

  -- Selecting rows and inserting one commute in a table that is in order.
  pub keep-insert_row :
      IsTransitive le
      → (f : QueuedDelivery → Bool) (new : QueuedDelivery) (t : Table) → IsOrdered t
      → keep f (insert_row le new t) ≡ (if f new then insert_row le new (keep f t) else keep f t)
  unfolding insert_row
  keep-insert_row trans f new [] h = ground arith
  keep-insert_row trans f new (row ∷ t) (first, h) = elim (Bool-cases (row_le le row new)) [
    | inl before ↦ rw (before) (ground (arith, before, keep-insert_row trans f new t h))
    | inr after ↦
        let greater : All (λ later. row_le le later new ≡ false) t =
          All-weaken (λ later. row_le le row later ≡ true) (λ later. row_le le later new ≡ false)
            (λ later le_row. not_before trans row later new le_row after) t first in
        rw (after) (keep-front f new (row ∷ t) (after, greater))
  ]
