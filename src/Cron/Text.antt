-- ===== src/Cron/Text.antt =====
-- What daemon-go/service/cron.go uses of Go's strings and strconv. A text is the list of its code points;
-- an int is its 64-bit word.
use Prim.Native.Char.{code}
use Prim.Native.Nat.{◌%◌}
use repowire.Prelude.{
  ℕ, ◌+◌, ◌-◌, ◌*◌, String, Bool, true, false, ◌&&◌, ◌||◌, Option, none, some, List, [], ◌∷◌, ◌++◌,
  eqb, leb, ltb, if◌then◌else◌,
}

abbrev pub Text : Type 0
Text = List ℕ

abbrev pub codes : String → Text
codes String.[] = []
codes (String.◌∷◌ c s) = code c ∷ codes s

abbrev pub is_empty {ℓ} : {A : Type ℓ} → List A → Bool
is_empty [] = true
is_empty (x ∷ xs) = false

abbrev pub between : ℕ → ℕ → ℕ → Bool
between low high c = leb low c && leb c high

-- `unicode.IsSpace`
unfoldable pub is_space : ℕ → Bool
is_space c =
    between 9 13 c
    || eqb c 32
    || eqb c 133
    || eqb c 160
    || eqb c 5760
    || between 8192 8202 c
    || eqb c 8232
    || eqb c 8233
    || eqb c 8239
    || eqb c 8287
    || eqb c 12288

-- A word before the words that follow it, if it is one.
abbrev pub emit : Text → List Text → List Text
emit [] ws = ws
emit (c ∷ w) ws = (c ∷ w) ∷ ws

-- The text up to the first space, and the words after it.
unfoldable pub split_words : Text → Text × List Text
split_words [] = ([], [])
split_words (c ∷ s) =
    let rest = split_words s in
    if is_space c then ([], emit rest.0 rest.1) else (c ∷ rest.0, rest.1)

-- `strings.Fields`
unfoldable pub fields : Text → List Text
unfolding split_words
fields s = emit (split_words s).0 (split_words s).1

-- `strings.Join(…, " ")`
unfoldable pub join : List Text → Text
join [] = []
join (w ∷ []) = w
join (w ∷ v ∷ ws) = w ++ 32 ∷ join (v ∷ ws)

abbrev pub trim_left : Text → Text
trim_left [] = []
trim_left (c ∷ s) = let rest = trim_left s in if is_space c then rest else c ∷ s

abbrev pub trim_right : Text → Text
trim_right [] = []
trim_right (c ∷ s) = let rest = trim_right s in if is_empty rest && is_space c then [] else c ∷ rest

-- `strings.TrimSpace`
unfoldable pub trim_space : Text → Text
unfolding is_space
trim_space s = trim_right (trim_left s)

-- `strings.Split` at a single character: the first part, and the others.
abbrev pub split_at : ℕ → Text → Text × List Text
split_at sep [] = ([], [])
split_at sep (c ∷ s) =
    let rest = split_at sep s in if eqb c sep then ([], rest.0 ∷ rest.1) else (c ∷ rest.0, rest.1)

unfoldable pub split : ℕ → Text → List Text
split sep s = (split_at sep s).0 ∷ (split_at sep s).1

abbrev pub extend : ℕ → Option (Text × Text) → Option (Text × Text)
extend c none = none
extend c (some (before, after)) = some (c ∷ before, after)

-- The text before the first such character and the text after it.
unfoldable pub cut : ℕ → Text → Option (Text × Text)
cut sep [] = none
cut sep (c ∷ s) = let rest = cut sep s in if eqb c sep then some ([], s) else extend c rest

-- Lower case, as far as it decides whether the result is an ASCII letter: two letters outside ASCII
-- have one.
abbrev pub to_lower : ℕ → ℕ
to_lower c =
    if between b'A' b'Z' c
    then c + 32
    else (if eqb c 304 then b'i' else (if eqb c 8490 then b'k' else c))

-- Words of 64 bits and their signed order
abbrev pub word : ℕ → ℕ
word n = n % 18_446_744_073_709_551_616

abbrev pub offset : ℕ → ℕ
offset n = word (n + 9_223_372_036_854_775_808)

abbrev pub signed_lt : ℕ → ℕ → Bool
signed_lt m n = ltb (offset m) (offset n)

abbrev pub negated : ℕ → ℕ
negated n = word (18_446_744_073_709_551_616 - n)

unfoldable pub digits : ℕ → Text → Option ℕ
digits acc [] = some acc
digits acc (c ∷ s) =
    let rest = digits (acc * 10 + (c - b'0')) s in if between b'0' b'9' c then rest else none

abbrev pub at_most : ℕ → Option ℕ → Option ℕ
at_most limit none = none
at_most limit (some n) = if leb n limit then some n else none

abbrev pub negate : Option ℕ → Option ℕ
negate none = none
negate (some n) = some (negated n)

abbrev pub unsigned : ℕ → Text → Option ℕ
unsigned limit [] = none
unsigned limit (c ∷ s) = at_most limit (digits 0 (c ∷ s))

-- `strconv.Atoi`
unfoldable pub atoi : Text → Option ℕ
unfolding digits
atoi [] = none
atoi (c ∷ s) =
    if eqb c b'-'
    then negate (unsigned 9_223_372_036_854_775_808 s)
    else (if eqb c b'+'
        then unsigned 9_223_372_036_854_775_807 s
        else unsigned 9_223_372_036_854_775_807 (c ∷ s))
