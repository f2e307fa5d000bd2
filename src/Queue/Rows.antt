-- ===== src/Queue/Rows.antt =====
-- Tables as lists of rows: deletions are filters, and ids that are not repeated are deleted alone.
use repowire.Prelude.{
  eq_iff, subst, Bool-cases, ◌==◌, inl, inr, ℕ, zero, suc, ◌-◌, String, Bool, true, false, not,
  ◌&&◌, ◌||◌, ◌≡◌, refl, sym, ap, ◌∙◌, List, [], ◌∷◌, ◌++◌, leb, All, exists, keep, map, take, drop,
  length, if◌then◌else◌, arith, eq_refl, fun_ext,
}
use repowire.Queue.Store.{
  QueuedDelivery, Table, has_id, of_peer, id_of, delete_row, delete_rows, rows_reversed,
  enforce_cap,
}

-- A row's id is among the ids.
abbrev pub is_among : List String → QueuedDelivery → Bool
is_among ids row = exists (λ id. has_id id row) ids

abbrev pub outside : List String → QueuedDelivery → Bool
outside ids row = not (is_among ids row)

abbrev pub UniqueIds : Table → Type 0
UniqueIds [] = Unit
UniqueIds (row ∷ t) = (exists (has_id row.delivery_id) t ≡ false) × UniqueIds t

module _ {ℓ} {A : Type ℓ} (f g : A → Bool) where
  pub keep-keep : (xs : List A) → keep f (keep g xs) ≡ keep (λ x. f x && g x) xs
  keep-keep [] = refl
  keep-keep (x ∷ xs) = ground (arith, keep-keep xs)

  pub keep_comm : (xs : List A) → keep f (keep g xs) ≡ keep g (keep f xs)
  keep_comm [] = refl
  keep_comm (x ∷ xs) = ground (arith, keep_comm xs)

module _ {ℓ} {A : Type ℓ} (f : A → Bool) where
  pub keep-append : (xs ys : List A) → keep f (xs ++ ys) ≡ keep f xs ++ keep f ys
  keep-append [] ys = refl
  keep-append (x ∷ xs) ys = ground (arith, keep-append xs ys)

  pub keep_twice : (xs : List A) → keep f (keep f xs) ≡ keep f xs
  keep_twice [] = refl
  keep_twice (x ∷ xs) = ground (arith, keep_twice xs)

module _ {ℓ} {A : Type ℓ} where
  pub take-drop : (n : ℕ) (xs : List A) → take n xs ++ drop n xs ≡ xs
  take-drop zero xs = refl
  take-drop (suc n) [] = refl
  take-drop (suc n) (x ∷ xs) = ap (λ ys. x ∷ ys) (take-drop n xs)

  pub length-drop : (n : ℕ) (xs : List A) → length (drop n xs) ≡ length xs - n
  length-drop zero xs = omega arith
  length-drop (suc n) [] = omega arith
  length-drop (suc n) (x ∷ xs) = omega (arith, length-drop n xs)

  pub length-snoc : (xs : List A) (z : A) → length (xs ++ z ∷ []) ≡ suc (length xs)
  length-snoc [] z = refl
  length-snoc (x ∷ xs) z = omega (arith, length-snoc xs z)

  drop-snoc :
      (n : ℕ) (xs : List A) (z : A)
      → drop n (xs ++ z ∷ []) ≡ (if leb n (length xs) then drop n xs ++ z ∷ [] else [])
  drop-snoc zero xs z = ground arith
  drop-snoc (suc zero) [] z = ground arith
  drop-snoc (suc (suc n)) [] z = ground arith
  drop-snoc (suc n) (x ∷ xs) z = ground (arith, drop-snoc n xs z)

length-rows_reversed : (t : Table) → length (rows_reversed t) ≡ length t
length-rows_reversed [] = refl
length-rows_reversed (row ∷ t) = length-snoc (rows_reversed t) row ∙ ap suc (length-rows_reversed t)

module _ {ℓ} {A : Type ℓ} where
  drop-nil : (n : ℕ) → drop {A = A} n [] ≡ []
  drop-nil zero = refl
  drop-nil (suc n) = refl

  take-nil : (n : ℕ) → take {A = A} n [] ≡ []
  take-nil zero = refl
  take-nil (suc n) = refl

-- What is over the limit, newest first, are the oldest rows.
drop-rows_reversed :
    (most : ℕ) (t : Table) (k : ℕ)
    → k ≡ length t - most
    → drop most (rows_reversed t) ≡ rows_reversed (take k t)
drop-rows_reversed most [] k e = rw (take-nil {A = QueuedDelivery} k) (drop-nil most)
drop-rows_reversed most (row ∷ t) zero e =
    ground (arith, e, drop-snoc most (rows_reversed t) row, length-rows_reversed t)
drop-rows_reversed most (row ∷ t) (suc k) e = ground (
  arith,
  e,
  drop-snoc most (rows_reversed t) row,
  length-rows_reversed t,
  drop-rows_reversed most t k,
)

pub keep-outside-nil : (xs : Table) → keep (outside []) xs ≡ xs
keep-outside-nil [] = refl
keep-outside-nil (x ∷ xs) = ap (λ ys. x ∷ ys) (keep-outside-nil xs)

pub delete_rows-keep : (ids : List String) (t : Table) → delete_rows ids t ≡ keep (outside ids) t
unfolding delete_rows delete_row
delete_rows-keep [] t = sym (keep-outside-nil t)
delete_rows-keep (id ∷ ids) t =
    delete_rows-keep ids (keep (λ row. not (has_id id row)) t)
    ∙ keep-keep (outside ids) (λ row. not (has_id id row)) t
    ∙ ap (λ f. keep f t) (fun_ext (λ row. ground arith))

is_among-append :
    (xs ys : List String) (row : QueuedDelivery)
    → is_among (xs ++ ys) row ≡ (is_among xs row || is_among ys row)
is_among-append [] ys row = refl
is_among-append (x ∷ xs) ys row = ground (arith, is_among-append xs ys row)

map-append : (xs ys : Table) → map id_of (xs ++ ys) ≡ map id_of xs ++ map id_of ys
map-append [] ys = refl
map-append (x ∷ xs) ys = ap (λ zs. id_of x ∷ zs) (map-append xs ys)

is_among-rows_reversed :
    (t : Table) (row : QueuedDelivery)
    → is_among (map id_of (rows_reversed t)) row ≡ is_among (map id_of t) row
is_among-rows_reversed [] row = refl
is_among-rows_reversed (x ∷ t) row =
    ap (λ ids. is_among ids row) (map-append (rows_reversed t) (x ∷ []))
    ∙ ground (
      arith,
      is_among-append (map id_of (rows_reversed t)) (id_of x ∷ []) row,
      is_among-rows_reversed t row,
    )

pub keep-outside-cons :
    (id : String) (ids : List String) (t : Table)
    → exists (has_id id) t ≡ false
    → keep (outside (id ∷ ids)) t ≡ keep (outside ids) t
keep-outside-cons id ids [] h = refl
keep-outside-cons id ids (row ∷ t) h = ground (arith, h, keep-outside-cons id ids t)

-- The rows whose ids are those of the first k go, and only they.
pub keep-take :
    (k : ℕ) (t : Table) → UniqueIds t → keep (outside (map id_of (take k t))) t ≡ drop k t
keep-take zero t u = keep-outside-nil t
keep-take (suc k) [] u = refl
keep-take (suc k) (row ∷ t) (new, u) =
    rw (eq_refl row.delivery_id)
      (keep-outside-cons row.delivery_id (map id_of (take k t)) t new ∙ keep-take k t u)

module _ (f : QueuedDelivery → Bool) where
  exists-keep :
      (id : String) (t : Table)
      → exists (has_id id) t ≡ false
      → exists (has_id id) (keep f t) ≡ false
  exists-keep id [] h = refl
  exists-keep id (row ∷ t) h = ground (arith, h, exists-keep id t)

  pub keep-UniqueIds : (t : Table) → UniqueIds t → UniqueIds (keep f t)
  keep-UniqueIds [] u = tt
  keep-UniqueIds (row ∷ t) (new, u) =
      ground (arith, keep-UniqueIds t u, exists-keep row.delivery_id t new)

-- No row of the first table has its id in the second.
abbrev Disjoint : Table → Table → Type 0
Disjoint xs ys = All (λ x. exists (has_id x.delivery_id) ys ≡ false) xs

Disjoint-cons :
    (xs : Table) (row : QueuedDelivery) (ys : Table)
    → exists (has_id row.delivery_id) xs ≡ false
    → Disjoint xs ys
    → Disjoint xs (row ∷ ys)
Disjoint-cons [] row ys new h = tt
Disjoint-cons (x ∷ xs) row ys new (hx, h) = (
  ground
      (arith, hx, new, eq_iff row.delivery_id x.delivery_id, eq_iff x.delivery_id row.delivery_id),
  Disjoint-cons xs row ys (ground (arith, new)) h,
)

Disjoint-take : (k : ℕ) (xs ys : Table) → Disjoint xs ys → Disjoint (take k xs) ys
Disjoint-take zero xs ys h = tt
Disjoint-take (suc k) [] ys h = tt
Disjoint-take (suc k) (x ∷ xs) ys (hx, h) = (hx, Disjoint-take k xs ys h)

Disjoint-keep : (xs ys : Table) → Disjoint xs ys → keep (outside (map id_of xs)) ys ≡ ys
Disjoint-keep [] ys h = keep-outside-nil ys
Disjoint-keep (x ∷ xs) ys (hx, h) =
    keep-outside-cons x.delivery_id (map id_of xs) ys hx ∙ Disjoint-keep xs ys h

keep-skip :
    (g : QueuedDelivery → Bool) (row : QueuedDelivery) (t : Table)
    → g row ≡ false
    → keep g (row ∷ t) ≡ keep g t
keep-skip g row t h = rw (h) refl

module _ (f g : QueuedDelivery → Bool)
    (apart : (row : QueuedDelivery) → f row ≡ true → g row ≡ false) where
  keep-Disjoint : (t : Table) → UniqueIds t → Disjoint (keep f t) (keep g t)
  keep-Disjoint [] u = tt
  keep-Disjoint (row ∷ t) (new, u) = elim (Bool-cases (f row)) [
    | inl mine ↦
        subst (Disjoint (keep f (row ∷ t))) (sym (keep-skip g row t (apart row mine)))
          (rw (mine) (exists-keep g row.delivery_id t new, keep-Disjoint t u))
    | inr other ↦ elim (Bool-cases (g row)) [
      | inl theirs ↦
          rw (other, theirs)
            (Disjoint-cons (keep f t) row (keep g t) (exists-keep f row.delivery_id t new)
              (keep-Disjoint t u))
      | inr neither ↦ rw (other, neither) (keep-Disjoint t u)
    ]
  ]

abbrev pub queue : String → Table → Table
queue peer t = keep (of_peer peer) t

-- The deletion of the first k rows of a peer.
abbrev pub delete_front : String → ℕ → Table → Table
delete_front peer k t = delete_rows (map id_of (take k (queue peer t))) t

pub delete_front-mine :
    (peer : String) (k : ℕ) (t : Table)
    → UniqueIds t
    → queue peer (delete_front peer k t) ≡ drop k (queue peer t)
delete_front-mine peer k t u =
    let ids : List String = map id_of (take k (queue peer t)) in
    ap (queue peer) (delete_rows-keep ids t)
    ∙ keep_comm (of_peer peer) (outside ids) t
    ∙ keep-take k (queue peer t) (keep-UniqueIds (of_peer peer) t u)

pub delete_front-other :
    (peer q : String) (k : ℕ) (t : Table)
    → UniqueIds t
    → (peer == q) ≡ false
    → queue q (delete_front peer k t) ≡ queue q t
delete_front-other peer q k t u differ =
    let ids : List String = map id_of (take k (queue peer t)) in
    ap (queue q) (delete_rows-keep ids t)
    ∙ keep_comm (of_peer q) (outside ids) t
    ∙ Disjoint-keep (take k (queue peer t)) (queue q t) (
        Disjoint-take k (queue peer t) (queue q t) (
          keep-Disjoint (of_peer peer) (of_peer q)
            (λ row is.
              ground
                (arith, is, differ, eq_iff row.peer_id peer, eq_iff row.peer_id q, eq_iff peer q))
            t u))

-- The cap evicts the oldest rows of the peer.
pub enforce_cap-front :
    (peer : String) (most : ℕ) (t : Table)
    → enforce_cap peer most t ≡ delete_front peer (length (queue peer t) - most) t
unfolding enforce_cap
enforce_cap-front peer most t =
    let mine : Table = queue peer t in
    let k = length mine - most in
    delete_rows-keep (map id_of (drop most (rows_reversed mine))) t
    ∙ ap (λ rows. keep (outside (map id_of rows)) t) (drop-rows_reversed most mine k refl)
    ∙ ap (λ f. keep f t) (fun_ext (λ row. ap not (is_among-rows_reversed (take k mine) row)))
    ∙ sym (delete_rows-keep (map id_of (take k mine)) t)
