-- ===== src/Registry/Naming.antt =====
-- Registry/Names: the search for a display name ends. How fmt prints numbers is a parameter; what is
-- used of it is that two numbers do not print alike.
use Prim.Native.String.{◌++◌}
use repowire.Prelude.{
  ℕ, zero, ◌+◌, ◌≤◌, ◌<◌, String, Bool, true, false, not, ◌==◌, ◌≡◌, ◌∙◌, sym, refl, Option, none,
  some, List, [], ◌∷◌, Bool-cases, Option-cases, inl, inr, first, is_some, keep, suc, length,
  length-keep, arith, eq_iff,
}
use text.Mathlib.TextLemmas.{append_cancel_left, append_cancel_right}
use repowire.Proto.{DisplayName, agent_name}
use repowire.Registry.Types.{Entry, Registry}
use repowire.Registry.Names.{
  AllocateParams, text_of, folder_of, base_name, numbered_name, name_loop, build_display_name,
  blocks_name, yields,
}

module _ (f g : Entry → Bool) where
  first-keep :
      (xs : List Entry)
      → ((e : Entry) → f e ≡ true → g e ≡ true)
      → is_some (first f xs) ≡ true
      → is_some (first f (keep g xs)) ≡ true
  first-keep [] imp h = h
  first-keep (x ∷ xs) imp h = ground (arith, first-keep xs imp, imp x, h)

first-shrinks :
    (f : Entry → Bool) (xs : List Entry)
    → is_some (first f xs) ≡ true
    → length (keep (λ e. not (f e)) xs) < length xs
first-shrinks f [] h = ground (arith, h)
first-shrinks f (x ∷ xs) h = ground (arith, h, first-shrinks f xs, length-keep (λ e. not (f e)) xs)

-- Nobody has the name in the circle, or the first who has it gives it up.
abbrev pub is_free : AllocateParams → List Entry → DisplayName → Bool
is_free p peers name = elim (first (blocks_name name p.circle) peers) [
  | none ↦ true
  | some e ↦ yields p e
]

module _ (decimal : ℕ → String) (inj : (m n : ℕ) → decimal m ≡ decimal n → m ≡ n) where
  derived_name :
      (p : AllocateParams) (n : ℕ)
      → (text_of p.preferred_display_name == "") ≡ true
      → numbered_name decimal p n
        ≡ folder_of decimal p ++ ("-" ++ (decimal n ++ ("-" ++ agent_name p.backend)))
  unfolding numbered_name
  derived_name p n is = rw (is, numbered_name) refl

  given_name :
      (p : AllocateParams) (n : ℕ)
      → (text_of p.preferred_display_name == "") ≡ false
      → numbered_name decimal p n ≡ text_of p.preferred_display_name ++ ("-" ++ decimal n)
  unfolding numbered_name
  given_name p n is = rw (is, numbered_name) refl

  numbered_name-inj :
      (p : AllocateParams) (m n : ℕ) → numbered_name decimal p m ≡ numbered_name decimal p n → m ≡ n
  numbered_name-inj p m n h = elim (Bool-cases (text_of p.preferred_display_name == "")) [
    | inl is ↦ inj m n (
        append_cancel_right (decimal m) (decimal n) ("-" ++ agent_name p.backend) (
          append_cancel_left "-" _ _ (
            append_cancel_left (folder_of decimal p) _ _
              (sym (derived_name p m is) ∙ h ∙ derived_name p n is))))
    | inr is ↦ inj m n (
        append_cancel_left "-" _ _ (
          append_cancel_left (text_of p.preferred_display_name) _ _
            (sym (given_name p m is) ∙ h ∙ given_name p n is)))
  ]

  abbrev is_blocked : AllocateParams → ℕ → List Entry → Bool
  is_blocked p n xs = is_some (first (blocks_name (numbered_name decimal p n) p.circle) xs)

  -- Who has one numbered name has no other.
  other_name :
      (p : AllocateParams) (k n : ℕ) (e : Entry)
      → k < n
      → blocks_name (numbered_name decimal p n) p.circle e ≡ true
      → not (blocks_name (numbered_name decimal p k) p.circle e) ≡ true
  other_name p k n e lt named = ground (
    arith,
    named,
    lt,
    eq_iff e.1.peer.display_name (numbered_name decimal p n),
    eq_iff e.1.peer.display_name (numbered_name decimal p k),
    numbered_name-inj p k n,
  )

  abbrev other_than : AllocateParams → ℕ → List Entry → List Entry
  other_than p k left = keep (λ e. not (blocks_name (numbered_name decimal p k) p.circle e)) left

  cover_rest :
      (p : AllocateParams) (k n : ℕ) (left : List Entry)
      → k < n
      → is_blocked p n left ≡ true
      → is_blocked p n (other_than p k left) ≡ true
  cover_rest p k n left lt h =
      first-keep (blocks_name (numbered_name decimal p n) p.circle)
        (λ e. not (blocks_name (numbered_name decimal p k) p.circle e)) left
        (λ e named. other_name p k n e lt named) h

  shrinks :
      (p : AllocateParams) (k : ℕ) (left : List Entry) (fuel : ℕ)
      → length left < suc fuel
      → is_blocked p k left ≡ true
      → length (other_than p k left) < fuel
  shrinks p k left fuel lt h =
      ground (arith, lt, first-shrinks (blocks_name (numbered_name decimal p k) p.circle) left h)

  abbrev Found : AllocateParams → List Entry → Option DisplayName → Type 0
  Found p peers found = (name : DisplayName) × (found ≡ some name × is_free p peers name ≡ true)

  -- One round: the candidate is free, or the rounds after it are to find a name.
  round_ends :
      (p : AllocateParams) (peers : List Entry) (fuel k : ℕ) (candidate : DisplayName)
      → (is_some (first (blocks_name candidate p.circle) peers) ≡ true
          → Found p peers (name_loop decimal p peers fuel (k + 1) (numbered_name decimal p k)))
      → Found p peers (name_loop decimal p peers (suc fuel) k candidate)
  unfolding name_loop
  round_ends p peers fuel k candidate later =
      elim (Option-cases (first (blocks_name candidate p.circle) peers)) [
        | inl nobody ↦ (candidate, (rw (nobody, name_loop) refl, rw (nobody, is_free) refl))
        | inr (e, holder) ↦ elim (Bool-cases (yields p e)) [
          | inl gives ↦
              (candidate, (rw (holder, name_loop, gives) refl, rw (holder, gives, is_free) refl))
          | inr stays ↦
              let (name, (found, free)) = later (rw (holder) refl) in
              (name, (rw (holder, name_loop, stays) found, free))
        ]
      ]

  -- The names from the k-th on are blocked within the entries that are left.
  loop_ends :
      (p : AllocateParams) (peers : List Entry) (fuel k : ℕ) (left : List Entry)
      → ((n : ℕ) → k ≤ n → is_blocked p n peers ≡ true → is_blocked p n left ≡ true)
      → length left < fuel
      → Found p peers (name_loop decimal p peers fuel (k + 1) (numbered_name decimal p k))
  loop_ends p peers zero k left cover lt = absurd (omega arith)
  loop_ends p peers (suc fuel) k left cover lt =
      round_ends p peers fuel (k + 1) (numbered_name decimal p k) (λ held.
        loop_ends p peers fuel (k + 1) (other_than p k left)
          (λ n le h. cover_rest p k n left (omega arith) (cover n (omega arith) h))
          (shrinks p k left fuel lt (cover k (omega arith) held)))

  -- When two numbers never print alike, the search for a display name ends within its rounds: with a
  -- name that no peer has in the circle, or whose first holder there gives it up, being offline or of
  -- the same runtime session.
  pub build_display_name_lem :
      (p : AllocateParams) (r : Registry)
      → (name : DisplayName) × (build_display_name decimal p r ≡ some name
          × is_free p r.peers name ≡ true)
  unfolding build_display_name
  build_display_name_lem p r =
      round_ends p r.peers (suc (length r.peers)) 2 (base_name decimal p)
        (λ held. loop_ends p r.peers (suc (length r.peers)) 2 r.peers (λ n le h. h) (omega arith))
