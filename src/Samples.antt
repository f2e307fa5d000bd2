-- ===== src/Samples.antt =====
-- Concrete functions for what the definitions take as arguments: a way to print numbers, and an order
-- of texts.

use repowire.Prelude.{ℕ, zero, suc, String, Bool, ◌||◌, true, ◌≡◌, refl, sym, ap, ◌∙◌, leb, arith}

-- A number as so many strokes.
abbrev pub tally : ℕ → String
tally zero = String.[]
tally (suc n) = String.◌∷◌ "|" (tally n)

abbrev pub strokes : String → ℕ
strokes String.[] = 0
strokes (String.◌∷◌ c s) = suc (strokes s)

strokes-tally : (n : ℕ) → strokes (tally n) ≡ n
strokes-tally zero = refl
strokes-tally (suc n) = ap suc (strokes-tally n)

pub tally-inj : (m n : ℕ) → tally m ≡ tally n → m ≡ n
tally-inj m n same = sym (strokes-tally m) ∙ ap strokes same ∙ strokes-tally n

abbrev pub by_length : String → String → Bool
by_length s t = leb (strokes s) (strokes t)

pub by_length-total : (s t : String) → (by_length s t || by_length t s) ≡ true
by_length-total s t = ground arith

pub by_length-trans :
    (s t u : String) → by_length s t ≡ true → by_length t u ≡ true → by_length s u ≡ true
by_length-trans s t u h k = ground (arith, h, k)
