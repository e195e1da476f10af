-- ===== src/Config/Properties/Edges.antt =====
-- The edge spaces of a value of pkg/config/properties_adapter.go, and the words it is written in.
use operator_go.Prelude.{
  ℕ, zero, suc, false, ◌&&◌, List, [], ◌∷◌, ◌++◌, map, ◌≡◌, refl, sym, ap, ◌∙◌, inl, inr, arith,
  eqb, eqb_iff, if◌then◌else◌, Bool-cases,
}
use mathlib.Core.List.{append_assoc, append-nil, reverse, reverse-append, reverse-reverse}
use operator_go.Config.Text.{Text}
use operator_go.Config.Properties.{
  spaces, after_spaces, escaped_spaces, escape_edge_spaces, escape_properties_value,
}
use operator_go.Config.Properties.Words.{
  Word, escaped, spell, spell_all, spell_all-append, value_word, escape_inner-words,
}

-- Each character written by `f`.
flat : (ℕ → Text) → Text → Text
flat f [] = []
flat f (c ∷ s) = f c ++ flat f s

-- A text that begins with something else than a space.
abbrev StartsElse : Text → Type 0
StartsElse [] = ⊥
StartsElse (d ∷ t) = eqb d b' ' ≡ false

spaces-else : (t s : Text) → StartsElse t → spaces (t ++ s) ≡ 0
unfolding spaces
spaces-else [] s h = absurd h
spaces-else (d ∷ t) s h = rw h refl

after_spaces-else : (t s : Text) → StartsElse t → after_spaces (t ++ s) ≡ t ++ s
unfolding after_spaces
after_spaces-else [] s h = absurd h
after_spaces-else (d ∷ t) s h = rw h refl

module _ (f : ℕ → Text) (space : f b' ' ≡ b' ' ∷ [])
    (other : (c : ℕ) → eqb c b' ' ≡ false → StartsElse (f c)) where
  spaces-flat : (s : Text) → spaces (flat f s) ≡ spaces s
  unfolding spaces flat
  spaces-flat [] = refl
  spaces-flat (c ∷ s) = elim (Bool-cases (eqb c b' ')) [
    | inl same ↦ rw ((eqb_iff c b' ').0 same, space, spaces-flat s) refl
    | inr differs ↦ rw differs (spaces-else (f c) (flat f s) (other c differs))
  ]

  after_spaces-flat : (s : Text) → after_spaces (flat f s) ≡ flat f (after_spaces s)
  unfolding after_spaces flat
  after_spaces-flat [] = refl
  after_spaces-flat (c ∷ s) = elim (Bool-cases (eqb c b' ')) [
    | inl same ↦ rw ((eqb_iff c b' ').0 same, space, after_spaces-flat s) refl
    | inr differs ↦ rw differs (after_spaces-else (f c) (flat f s) (other c differs))
  ]

forward : ℕ → Text
forward c = spell (value_word c)

backward : ℕ → Text
backward c = reverse (forward c)

forward-StartsElse : (c : ℕ) → eqb c b' ' ≡ false → StartsElse (forward c)
unfolding forward value_word
forward-StartsElse c h = ground arith

backward-StartsElse : (c : ℕ) → eqb c b' ' ≡ false → StartsElse (backward c)
unfolding backward forward value_word
backward-StartsElse c h = ground arith

forward-flat : (s : Text) → spell_all (map value_word s) ≡ flat forward s
unfolding spell_all flat forward
forward-flat [] = refl
forward-flat (c ∷ s) = ap (λ (t : Text). spell (value_word c) ++ t) (forward-flat s)

flat-append : (f : ℕ → Text) (a b : Text) → flat f (a ++ b) ≡ flat f a ++ flat f b
unfolding flat
flat-append f [] b = refl
flat-append f (c ∷ a) b =
    ap (λ (t : Text). f c ++ t) (flat-append f a b) ∙ sym (append_assoc (f c) (flat f a) (flat f b))

-- Read from its end, a text is written backward.
reverse-flat : (r : Text) → reverse (flat forward (reverse r)) ≡ flat backward r
unfolding flat backward
reverse-flat [] = refl
reverse-flat (c ∷ r) =
    ap (λ (t : Text). reverse (flat forward t)) (reverse-append (c ∷ []) r)
    ∙ ap reverse (flat-append forward (reverse r) (c ∷ []))
    ∙ reverse-append (flat forward (reverse r)) (forward c ++ [])
    ∙ ap (λ (t : Text). reverse t ++ reverse (flat forward (reverse r))) (append-nil (forward c))
    ∙ ap (λ (t : Text). reverse (forward c) ++ t) (reverse-flat r)

unfoldable pub space_words : ℕ → List Word
space_words zero = []
space_words (suc n) = escaped b' ' ∷ space_words n

space_words-spell : (n : ℕ) → spell_all (space_words n) ≡ escaped_spaces n
unfolding space_words spell_all escaped_spaces
space_words-spell zero = refl
space_words-spell (suc n) = ap (λ (t : Text). b'\\' ∷ b' ' ∷ t) (space_words-spell n)

-- The words of a value: its inner text, between its edge spaces.
unfoldable pub inner_text : Text → Text
inner_text v = reverse (after_spaces (reverse (after_spaces v)))

unfoldable pub value_words : Text → List Word
unfolding inner_text
value_words v =
    space_words (spaces v)
    ++ (map value_word (inner_text v) ++ space_words (spaces (reverse (after_spaces v))))

pub spaces-nil : (s : Text) → spaces s ≡ 0 → after_spaces s ≡ s
unfolding spaces after_spaces
spaces-nil [] h = refl
spaces-nil (c ∷ s) h = ground arith

fw_spaces : (s : Text) → spaces (flat forward s) ≡ spaces s
fw_spaces = spaces-flat forward (unfold forward value_word in refl) forward-StartsElse

fw_after : (s : Text) → after_spaces (flat forward s) ≡ flat forward (after_spaces s)
fw_after = after_spaces-flat forward (unfold forward value_word in refl) forward-StartsElse

bw_spaces : (s : Text) → spaces (flat backward s) ≡ spaces s
bw_spaces = spaces-flat backward (unfold backward forward value_word in refl) backward-StartsElse

bw_after : (s : Text) → after_spaces (flat backward s) ≡ flat backward (after_spaces s)
bw_after =
    after_spaces-flat backward (unfold backward forward value_word in refl) backward-StartsElse

-- The text from the end, as the code reads it.
from_end-flat :
    (v : Text) → reverse (after_spaces (flat forward v)) ≡ flat backward (reverse (after_spaces v))
from_end-flat v =
    ap reverse (fw_after v)
    ∙ ap (λ (t : Text). reverse (flat forward t)) (sym (reverse-reverse (after_spaces v)))
    ∙ reverse-flat (reverse (after_spaces v))

middle-flat : (q : Text) → reverse (flat backward q) ≡ flat forward (reverse q)
middle-flat q = ap reverse (sym (reverse-flat q)) ∙ reverse-reverse (flat forward (reverse q))

middle_text :
    (v : Text)
    → reverse (flat backward (after_spaces (reverse (after_spaces v))))
      ≡ flat forward (inner_text v)
unfolding inner_text
middle_text v = middle-flat (after_spaces (reverse (after_spaces v)))

edged : Text → ℕ → Text → ℕ → Text
edged s lead middle trail =
    if eqb lead 0 && eqb trail 0 then s else escaped_spaces lead ++ (middle ++ escaped_spaces trail)

inner_text-same :
    (v : Text) → spaces v ≡ 0 → spaces (reverse (after_spaces v)) ≡ 0 → inner_text v ≡ v
unfolding inner_text
inner_text-same v h k =
    ap reverse (spaces-nil (reverse (after_spaces v)) k)
    ∙ reverse-reverse (after_spaces v)
    ∙ spaces-nil v h

suc_ne_zero : (n : ℕ) → eqb (suc n) 0 ≡ false
suc_ne_zero n = ground arith

edged-same :
    (v : Text) (lead trail : ℕ)
    → (lead ≡ 0 → trail ≡ 0 → inner_text v ≡ v)
    → edged (flat forward v) lead (flat forward (inner_text v)) trail
      ≡ escaped_spaces lead ++ (flat forward (inner_text v) ++ escaped_spaces trail)
unfolding edged escaped_spaces
edged-same v zero zero h =
    ap (flat forward) (sym (h refl refl)) ∙ sym (append-nil (flat forward (inner_text v)))
edged-same v zero (suc n) h = rw (suc_ne_zero n) refl
edged-same v (suc n) trail h = rw (suc_ne_zero n) refl

escape_edge_spaces-flat :
    (v : Text)
    → escape_edge_spaces (flat forward v)
      ≡ escaped_spaces (spaces v)
        ++ (flat forward (inner_text v) ++ escaped_spaces (spaces (reverse (after_spaces v))))
unfolding escape_edge_spaces
escape_edge_spaces-flat v =
    unfold edged in
    (ap
      (λ (t : Text).
        edged (flat forward v) (spaces (flat forward v)) (reverse (after_spaces t)) (spaces t))
      (from_end-flat v))
    ∙ ap
        (λ n.
          edged (flat forward v) n
            (reverse (after_spaces (flat backward (reverse (after_spaces v)))))
            (spaces (flat backward (reverse (after_spaces v)))))
        (fw_spaces v)
    ∙ ap
        (λ n.
          edged (flat forward v) (spaces v)
            (reverse (after_spaces (flat backward (reverse (after_spaces v))))) n)
        (bw_spaces (reverse (after_spaces v)))
    ∙ ap (λ t. edged (flat forward v) (spaces v) t (spaces (reverse (after_spaces v))))
        (ap reverse (bw_after (reverse (after_spaces v))) ∙ middle_text v)
    ∙ edged-same v (spaces v) (spaces (reverse (after_spaces v))) (inner_text-same v)

-- A value is written in its words.
pub escape_properties_value-words :
    (v : Text) → escape_properties_value v ≡ spell_all (value_words v)
unfolding escape_properties_value value_words
escape_properties_value-words v =
    ap escape_edge_spaces (escape_inner-words v ∙ forward-flat v)
    ∙ escape_edge_spaces-flat v
    ∙ sym (
        spell_all-append (space_words (spaces v)) _
        ∙ ap
            (λ (t : Text).
              t
              ++ spell_all (
                  map value_word (inner_text v) ++ space_words (spaces (reverse (after_spaces v)))))
            (space_words-spell (spaces v))
        ∙ ap (λ (t : Text). escaped_spaces (spaces v) ++ t)
            (spell_all-append (map value_word (inner_text v))
                (space_words (spaces (reverse (after_spaces v))))
              ∙ ap (λ (t : Text). t ++ spell_all (space_words (spaces (reverse (after_spaces v)))))
                  (forward-flat (inner_text v))
              ∙ ap (λ (t : Text). flat forward (inner_text v) ++ t)
                  (space_words-spell (spaces (reverse (after_spaces v))))))
