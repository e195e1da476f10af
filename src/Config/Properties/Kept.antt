-- ===== src/Config/Properties/Kept.antt =====
-- The words of a value: what they mean, and that no trim touches them.
use operator_go.Prelude.{
  ℕ, zero, suc, false, List, [], ◌∷◌, ◌++◌, map, ◌≡◌, refl, sym, ap, ◌∙◌, inl, inr, All, All-append,
  arith, eqb, eqb_iff, Bool-cases,
}
use mathlib.Core.List.{
  append_assoc, append-nil, reverse, reverse-append, reverse-reverse, map-append,
}
use mathlib.Core.Path.{subst}
use operator_go.Config.Text.{Text}
use operator_go.Config.Properties.{spaces, after_spaces, trim_end}
use operator_go.Config.Properties.Words.{
  Word, spell, spell_all, meaning, value_word, IsWord, value_word-IsWord, meaning-value_word,
  map-IsWord, map-meaning,
}
use operator_go.Config.Properties.Trims.{
  IsKept, pending, pending-append, pending-spell_all, trim_end-spell,
}
use operator_go.Config.Properties.Edges.{space_words, inner_text, value_words}

blanks : ℕ → Text
blanks zero = []
blanks (suc n) = b' ' ∷ blanks n

blanks-after : (s : Text) → blanks (spaces s) ++ after_spaces s ≡ s
unfolding blanks spaces after_spaces
blanks-after [] = refl
blanks-after (c ∷ s) = elim (Bool-cases (eqb c b' ')) [
  | inl same ↦ rw ((eqb_iff c b' ').0 same) (ap (λ (t : Text). b' ' ∷ t) (blanks-after s))
  | inr other ↦ rw other refl
]

blanks-snoc : (n : ℕ) → blanks n ++ b' ' ∷ [] ≡ b' ' ∷ blanks n
unfolding blanks
blanks-snoc zero = refl
blanks-snoc (suc n) = ap (λ (t : Text). b' ' ∷ t) (blanks-snoc n)

reverse-blanks : (n : ℕ) → reverse (blanks n) ≡ blanks n
unfolding blanks
reverse-blanks zero = refl
reverse-blanks (suc n) =
    reverse-append (b' ' ∷ []) (blanks n)
    ∙ ap (λ (t : Text). t ++ b' ' ∷ []) (reverse-blanks n)
    ∙ blanks-snoc n

-- Behind the leading spaces stand the inner text and the spaces at the end.
inner-blanks :
    (v : Text) → inner_text v ++ blanks (spaces (reverse (after_spaces v))) ≡ after_spaces v
unfolding inner_text
inner-blanks v =
    let r = reverse (after_spaces v) in
    ap (λ (t : Text). reverse (after_spaces r) ++ t) (sym (reverse-blanks (spaces r)))
    ∙ sym (reverse-append (blanks (spaces r)) (after_spaces r))
    ∙ ap reverse (blanks-after r)
    ∙ reverse-reverse (after_spaces v)

meaning-space_words : (n : ℕ) → map meaning (space_words n) ≡ blanks n
unfolding space_words blanks meaning
meaning-space_words zero = refl
meaning-space_words (suc n) = ap (λ (t : Text). b' ' ∷ t) (meaning-space_words n)

pub meaning-value_words : (v : Text) → map meaning (value_words v) ≡ v
unfolding value_words
meaning-value_words v =
    map-append meaning (space_words (spaces v)) _
    ∙ ap
        (λ (t : Text).
          t
          ++ map meaning
              (map value_word (inner_text v) ++ space_words (spaces (reverse (after_spaces v)))))
        (meaning-space_words (spaces v))
    ∙ ap (λ (t : Text). blanks (spaces v) ++ t)
        (map-append meaning (map value_word (inner_text v)) _
          ∙ ap (λ (t : Text). t ++ map meaning (space_words (spaces (reverse (after_spaces v)))))
              (map-meaning value_word meaning-value_word (inner_text v))
          ∙ ap (λ (t : Text). inner_text v ++ t)
              (meaning-space_words (spaces (reverse (after_spaces v))))
          ∙ inner-blanks v)
    ∙ blanks-after v

space_words-IsWord : (n : ℕ) → All IsWord (space_words n)
unfolding space_words
space_words-IsWord zero = tt
space_words-IsWord (suc n) = (refl, space_words-IsWord n)

pub value_words-IsWord : (v : Text) → All IsWord (value_words v)
unfolding value_words
value_words-IsWord v =
    All-append IsWord (space_words (spaces v)) _ (space_words-IsWord (spaces v)) (
      All-append IsWord (map value_word (inner_text v)) _
        (map-IsWord value_word IsWord value_word-IsWord (inner_text v))
        (space_words-IsWord (spaces (reverse (after_spaces v)))))

-- The first word, or the last, is none that a trim drops.
abbrev pub FirstKept : List Word → Type 0
FirstKept [] = Unit
FirstKept (w ∷ ws) = IsKept w

abbrev pub LastKept : List Word → Type 0
LastKept [] = Unit
LastKept (w ∷ []) = IsKept w
LastKept (w ∷ v ∷ ws) = LastKept (v ∷ ws)

FirstKept-append : (us ws : List Word) → FirstKept us → FirstKept ws → FirstKept (us ++ ws)
FirstKept-append [] ws h k = k
FirstKept-append (u ∷ us) ws h k = h

LastKept-append : (us ws : List Word) → LastKept us → LastKept ws → LastKept (us ++ ws)
LastKept-append [] ws h k = k
LastKept-append (u ∷ []) [] h k = h
LastKept-append (u ∷ []) (w ∷ ws) h k = k
LastKept-append (u ∷ v ∷ us) ws h k = LastKept-append (v ∷ us) ws h k

space_words-FirstKept : (n : ℕ) → FirstKept (space_words n)
unfolding space_words
space_words-FirstKept zero = tt
space_words-FirstKept (suc n) = tt

space_words-LastKept : (n : ℕ) → LastKept (space_words n)
unfolding space_words
space_words-LastKept zero = tt
space_words-LastKept (suc zero) = tt
space_words-LastKept (suc (suc n)) = space_words-LastKept (suc n)

value_word-IsKept : (c : ℕ) → eqb c b' ' ≡ false → IsKept (value_word c)
unfolding value_word
value_word-IsKept c h = ground arith

-- A text that does not begin with a space.
abbrev NotSpaced : Text → Type 0
NotSpaced [] = Unit
NotSpaced (c ∷ s) = eqb c b' ' ≡ false

after_spaces-NotSpaced : (s : Text) → NotSpaced (after_spaces s)
unfolding after_spaces
after_spaces-NotSpaced [] = tt
after_spaces-NotSpaced (c ∷ s) = elim (Bool-cases (eqb c b' ')) [
  | inl same ↦ rw same (after_spaces-NotSpaced s)
  | inr other ↦ rw other other
]

inner-FirstKept : (w t : Text) → NotSpaced (w ++ t) → FirstKept (map value_word w)
inner-FirstKept [] t h = tt
inner-FirstKept (c ∷ w) t h = value_word-IsKept c h

LastKept-snoc : (us : List Word) (w : Word) → IsKept w → LastKept (us ++ w ∷ [])
LastKept-snoc [] w h = h
LastKept-snoc (u ∷ []) w h = h
LastKept-snoc (u ∷ v ∷ us) w h = LastKept-snoc (v ∷ us) w h

inner-LastKept : (r : Text) → NotSpaced r → LastKept (map value_word (reverse r))
inner-LastKept [] h = tt
inner-LastKept (c ∷ r) h =
    subst (λ (t : Text). LastKept (map value_word t)) (sym (reverse-append (c ∷ []) r))
      (subst LastKept (sym (map-append value_word (reverse r) (c ∷ [])))
        (LastKept-snoc (map value_word (reverse r)) (value_word c) (value_word-IsKept c h)))

pub value_words-FirstKept : (v : Text) → FirstKept (value_words v)
unfolding value_words
value_words-FirstKept v =
    FirstKept-append (space_words (spaces v)) _ (space_words-FirstKept (spaces v)) (
      FirstKept-append (map value_word (inner_text v)) _
        (inner-FirstKept (inner_text v) (blanks (spaces (reverse (after_spaces v))))
          (subst NotSpaced (sym (inner-blanks v)) (after_spaces-NotSpaced v)))
        (space_words-FirstKept (spaces (reverse (after_spaces v)))))

pub value_words-LastKept : (v : Text) → LastKept (value_words v)
unfolding value_words
value_words-LastKept v =
    LastKept-append (space_words (spaces v)) _ (space_words-LastKept (spaces v)) (
      LastKept-append (map value_word (inner_text v)) _
        (unfold inner_text in
          inner-LastKept (after_spaces (reverse (after_spaces v)))
            (after_spaces-NotSpaced (reverse (after_spaces v))))
        (space_words-LastKept (spaces (reverse (after_spaces v)))))

pending-word :
    (a : Text) (w : Word)
    → pending false a ≡ false
    → IsWord w
    → pending false (a ++ spell w) ≡ false
pending-word a w p h =
    pending-append false a (spell w)
    ∙ ap (λ b. pending b (spell w)) p
    ∙ ap (pending false) (sym (append-nil (spell w)))
    ∙ unfold spell_all in pending-spell_all (w ∷ []) (h, tt)

-- The words stand at the end of a line.
pub trim_end-spell_all :
    (a : Text) (w : Word) (ws : List Word)
    → pending false a ≡ false
    → All IsWord (w ∷ ws)
    → LastKept (w ∷ ws)
    → trim_end (a ++ spell_all (w ∷ ws)) ≡ a ++ spell_all (w ∷ ws)
unfolding spell_all
trim_end-spell_all a w [] p h k = rw (append-nil (spell w)) (trim_end-spell a w p k)
trim_end-spell_all a w (v ∷ ws) p h k =
    let next = trim_end-spell_all (a ++ spell w) v ws (pending-word a w p h.0) h.1 k in
    rw (append_assoc a (spell w) (spell v ++ spell_all ws)) at next
