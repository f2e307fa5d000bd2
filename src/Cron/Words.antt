-- ===== src/Cron/Words.antt =====
-- Words and their join; a validated cron expression is in normal form.
use repowire.Prelude.{
  Bool, true, false, not, ◌&&◌, ◌≡◌, refl, ap, ◌∙◌, List, [], ◌∷◌, ◌++◌, All, Bool-cases, inl, inr,
  arith, exists,
}
use repowire.Cron.Text.{Text, is_empty, is_space, split_words, emit, fields, join}

-- No spaces, and not empty.
abbrev pub is_word : Text → Bool
is_word w = not (is_empty w) && not (exists is_space w)

abbrev pub AllWords : List Text → Type 0
AllWords ws = All (λ w. is_word w ≡ true) ws

space_is : is_space 32 ≡ true
unfolding is_space
space_is = refl

split_words-word : (w : Text) → exists is_space w ≡ false → split_words w ≡ (w, [])
unfolding split_words
split_words-word [] h = refl
split_words-word (c ∷ w) h = ground (arith, h, split_words-word w)

split_words-append :
    (w s : Text) → exists is_space w ≡ false → split_words (w ++ 32 ∷ s) ≡ (w, fields s)
unfolding split_words fields
split_words-append [] s h = rw (space_is) refl
split_words-append (c ∷ w) s h = ground (arith, h, split_words-append w s)

emit-word : (w : Text) (ws : List Text) → is_word w ≡ true → emit w ws ≡ w ∷ ws
emit-word [] ws h = ground (arith, h)
emit-word (c ∷ w) ws h = refl

no_space : (w : Text) → is_word w ≡ true → exists is_space w ≡ false
no_space w h = ground (arith, h)

-- The words of a joined text are the words that were joined.
pub fields-join : (ws : List Text) → AllWords ws → fields (join ws) ≡ ws
unfolding fields join
fields-join [] h = unfold split_words in refl
fields-join (w ∷ []) (hw, h) = rw (split_words-word w (no_space w hw)) (emit-word w [] hw)
fields-join (w ∷ v ∷ ws) (hw, h) =
    rw (split_words-append w (join (v ∷ ws)) (no_space w hw))
      (emit-word w (fields (join (v ∷ ws))) hw ∙ ap (λ rest. w ∷ rest) (fields-join (v ∷ ws) h))

emit-AllWords :
    (w : Text) (ws : List Text) → exists is_space w ≡ false → AllWords ws → AllWords (emit w ws)
emit-AllWords [] ws h all = all
emit-AllWords (c ∷ w) ws h all = (ground (arith, h), all)

split_words-AllWords :
    (s : Text) → (exists is_space (split_words s).0 ≡ false) × AllWords (split_words s).1
unfolding split_words
split_words-AllWords [] = (refl, tt)
split_words-AllWords (c ∷ s) =
    let (clear, all) = split_words-AllWords s in
    elim (Bool-cases (is_space c)) [
      | inl is ↦ rw (is) (refl, emit-AllWords (split_words s).0 (split_words s).1 clear all)
      | inr is ↦ rw (is) (ground (arith, is, clear), all)
    ]

pub fields-AllWords : (s : Text) → AllWords (fields s)
unfolding fields
fields-AllWords s =
    let (clear, all) = split_words-AllWords s in
    emit-AllWords (split_words s).0 (split_words s).1 clear all
