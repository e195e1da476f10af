-- ===== src/Config/Properties/Trims.antt =====
-- Trimming keeps what pkg/config/properties_adapter.go writes: an escaped space at the end is not
-- layout.
use operator_go.Prelude.{
  ℕ, suc, Bool, true, false, not, ◌&&◌, List, [], ◌∷◌, ◌++◌, ◌≡◌, refl, sym, ap, ◌∙◌, inl, inr, All,
  arith, eqb, if◌then◌else◌, Bool-cases,
}
use mathlib.Core.List.{reverse, reverse-append, reverse-reverse}
use operator_go.Config.Text.{Text}
use operator_go.Config.Properties.{
  is_properties_space, leading_backslashes, trailing_backslashes, is_odd, trim_from_end, trim_end,
}
use operator_go.Config.Properties.Words.{Word, plain, escaped, spell, spell_all, IsWord}

and_false : (b : Bool) → (b && false) ≡ false
and_false true = refl
and_false false = refl

-- Whether a text ends in a backslash that is not escaped itself, read from its start.
unfoldable pub pending : Bool → Text → Bool
pending b [] = b
pending b (x ∷ s) = pending (eqb x b'\\' && not b) s

pub pending-append : (b : Bool) (s t : Text) → pending b (s ++ t) ≡ pending (pending b s) t
unfolding pending
pending-append b [] t = refl
pending-append b (x ∷ s) t = pending-append (eqb x b'\\' && not b) s t

pub pending-spell_all : (ws : List Word) → All IsWord ws → pending false (spell_all ws) ≡ false
unfolding pending spell_all
pending-spell_all [] h = refl
pending-spell_all (plain c ∷ ws) h =
    let out : eqb c b'\\' ≡ false = ground (arith, h.0) in rw out (pending-spell_all ws h.1)
pending-spell_all (escaped c ∷ ws) h =
    ap (λ b. pending b (spell_all ws)) (and_false (eqb c b'\\')) ∙ pending-spell_all ws h.1

reverse-cons : (x : ℕ) (s : Text) → reverse (x ∷ s) ≡ reverse s ++ x ∷ []
reverse-cons x s = reverse-append (x ∷ []) s

reverse-snoc : (s : Text) (x : ℕ) → reverse (s ++ x ∷ []) ≡ x ∷ reverse s
reverse-snoc s x = reverse-append s (x ∷ [])

odd-next :
    (x n : ℕ) (b : Bool)
    → is_odd n ≡ b
    → is_odd (if eqb x b'\\' then suc n else 0) ≡ pending b (x ∷ [])
unfolding pending
odd-next x n b h = elim (Bool-cases (eqb x b'\\')) [
  | inl back ↦ rw back (ap not h)
  | inr other ↦ rw other refl
]

odd-leading : (r : Text) → is_odd (leading_backslashes r) ≡ pending false (reverse r)
unfolding leading_backslashes
odd-leading [] = unfold pending in refl
odd-leading (x ∷ r) =
    odd-next x (leading_backslashes r) (pending false (reverse r)) (odd-leading r)
    ∙ sym (ap (pending false) (reverse-cons x r) ∙ pending-append false (reverse r) (x ∷ []))

-- An odd number of backslashes ends a text exactly when the last is not escaped.
pub odd-trailing : (s : Text) → is_odd (trailing_backslashes s) ≡ pending false s
unfolding trailing_backslashes
odd-trailing s = odd-leading (reverse s) ∙ ap (pending false) (reverse-reverse s)

-- A word that a trim from the end does not touch.
abbrev pub IsKept : Word → Type 0
IsKept (plain c) = is_properties_space c ≡ false
IsKept (escaped c) = Unit

trim_from_end-kept :
    (x : ℕ) (r : Text)
    → (is_properties_space x && not (is_odd (leading_backslashes r))) ≡ false
    → trim_from_end (x ∷ r) ≡ x ∷ r
unfolding trim_from_end
trim_from_end-kept x r h = rw h refl

odd-backslash :
    (a : Text) → pending false a ≡ false → is_odd (leading_backslashes (b'\\' ∷ reverse a)) ≡ true
unfolding leading_backslashes
odd-backslash a h = ap not (odd-leading (reverse a) ∙ ap (pending false) (reverse-reverse a) ∙ h)

pub trim_end-spell :
    (a : Text) (w : Word)
    → pending false a ≡ false
    → IsKept w
    → trim_end (a ++ spell w) ≡ a ++ spell w
unfolding trim_end
trim_end-spell a (plain c) h k =
    ap (λ r. reverse (trim_from_end r)) (reverse-snoc a c)
    ∙ ap reverse (trim_from_end-kept c (reverse a) (rw k refl))
    ∙ ap reverse (sym (reverse-snoc a c))
    ∙ reverse-reverse (a ++ c ∷ [])
trim_end-spell a (escaped c) h k =
    ap (λ r. reverse (trim_from_end r)) back
    ∙ ap reverse (
        trim_from_end-kept c (b'\\' ∷ reverse a) (
          ap (λ b. is_properties_space c && not b) (odd-backslash a h)
          ∙ and_false (is_properties_space c)))
    ∙ ap reverse (sym back)
    ∙ reverse-reverse (a ++ b'\\' ∷ c ∷ [])
  where
    back : reverse (a ++ b'\\' ∷ c ∷ []) ≡ c ∷ b'\\' ∷ reverse a
    back = reverse-append a (b'\\' ∷ c ∷ [])
