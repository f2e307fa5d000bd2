-- ===== src/Prelude/Maps.antt =====
-- Go maps with text keys: an association list where the code ranges over the map, and a function
-- where it only reads, writes and deletes single keys.
use Prim.Native.Nat.{ℕ}
use Prim.Native.String.{String}
use mathlib.Core.Path.{◌≡◌, refl}
use mathlib.Core.Logic.{inl, inr}
use mathlib.Core.Option.{Option, none, some}
use mathlib.Core.List.{List, [], ◌∷◌}
use native.Mathlib.Omega.{arith}
use text.Mathlib.Text.{◌==◌}
use text.Mathlib.TextEquality.{eq_iff}
use repowire.Prelude.Tests.{if◌then◌else◌, eqb, Bool-cases}
use repowire.Prelude.Lists.{All}

module _ {ℓ} {V : Type ℓ} where
  -- `m[wanted]` in its comma-ok form
  unfoldable pub lookup : String → List (String × V) → Option V
  lookup wanted [] = none
  lookup wanted ((key, here) ∷ later) = if key == wanted then some here else lookup wanted later

  -- `m[wanted] = new`
  unfoldable pub insert : String → V → List (String × V) → List (String × V)
  insert wanted new [] = (wanted, new) ∷ []
  insert wanted new ((key, here) ∷ later) =
      if key == wanted then (wanted, new) ∷ later else (key, here) ∷ insert wanted new later

  -- `delete(m, k)`
  unfoldable pub erase : String → List (String × V) → List (String × V)
  erase k [] = []
  erase k ((j, v) ∷ m) = let rest = erase k m in if j == k then rest else (j, v) ∷ rest

  pub lookup-insert :
      (written read : String) (new : V) (entries : List (String × V))
      → lookup read (insert written new entries)
        ≡ (if written == read then some new else lookup read entries)
  unfolding lookup insert
  lookup-insert written read new [] = refl
  lookup-insert written read new ((key, here) ∷ later) = ground (
    arith,
    lookup-insert written read new later,
    eq_iff key read,
    eq_iff key written,
    eq_iff written read,
  )

  pub lookup-erase :
      (k j : String) (m : List (String × V))
      → lookup j (erase k m) ≡ (if k == j then none else lookup j m)
  unfolding lookup erase
  lookup-erase k j [] = ground arith
  lookup-erase k j ((i, w) ∷ m) =
      ground (arith, eq_iff k j, eq_iff i k, eq_iff i j, lookup-erase k j m)

  -- No key stands twice, as in a Go map.
  abbrev pub UniqueKeys : List (String × V) → Type ℓ
  UniqueKeys [] = Unit
  UniqueKeys ((k, v) ∷ m) = (lookup k m ≡ none) × UniqueKeys m

  pub insert-UniqueKeys :
      (k : String) (v : V) (m : List (String × V)) → UniqueKeys m → UniqueKeys (insert k v m)
  unfolding insert lookup
  insert-UniqueKeys k v [] h = (refl, tt)
  insert-UniqueKeys k v ((j, w) ∷ m) h =
      ground (arith, insert-UniqueKeys k v m, lookup-insert k j v m, eq_iff k j, eq_iff j k)

  pub erase-UniqueKeys :
      (k : String) (m : List (String × V)) → UniqueKeys m → UniqueKeys (erase k m)
  unfolding erase
  erase-UniqueKeys k [] h = h
  erase-UniqueKeys k ((j, w) ∷ m) h =
      ground (arith, erase-UniqueKeys k m, lookup-erase k j m, eq_iff k j)

  -- A map that is never ranged over.
  abbrev pub update : (String → V) → String → V → String → V
  update f k v j = if k == j then v else f j

pub All-insert :
    {V : Type 0} (P : String × V → Type 0) (k : String) (v : V) (m : List (String × V))
    → P (k, v)
    → All P m
    → All P (insert k v m)
unfolding insert
All-insert P k v [] pk h = (pk, tt)
All-insert P k v ((j, w) ∷ m) pk (pj, h) = elim (Bool-cases (j == k)) [
  | inl is ↦ rw is (pk, h)
  | inr is ↦ rw is (pj, All-insert P k v m pk h)
]

abbrev pub update_at {ℓ} : {V : Type ℓ} → (ℕ → V) → ℕ → V → ℕ → V
update_at f k v j = if eqb k j then v else f j
