-- ===== src/Config/Text/Laws.antt =====
-- Laws of the text helpers.
use operator_go.Prelude.{
  ℕ, Bool, true, false, none, some, [], ◌∷◌, ◌++◌, ◌≡◌, refl, ap, All, is_empty, eqb, eqb_iff,
  if◌then◌else◌,
}
use mathlib.Core.List.{append_assoc}
use operator_go.Config.Text.{
  Text, replace_char, trim_left, trim_right, is_space, trim_space, split_on, after_prefix,
  trim_prefix, cut_at,
}

-- No character passes the test.
abbrev pub Lacks : (ℕ → Bool) → Text → Type 0
Lacks p = All (λ c. p c ≡ false)

pub replace_char-append :
    (c : ℕ) (by a b : Text)
    → replace_char c by (a ++ b) ≡ replace_char c by a ++ replace_char c by b
unfolding replace_char
replace_char-append c by [] b = refl
replace_char-append c by (x ∷ a) b = rw (replace_char-append c by a b) (
    rw (append_assoc (if eqb x c then by else x ∷ []) (replace_char c by a) (replace_char c by b))
      refl)

-- A text that is not all blank, with its last character kept.
abbrev pub EndsWith : (ℕ → Bool) → Text → Type 0
EndsWith p s = (trim_right p s ≡ s) × (is_empty s ≡ false)

pub EndsWith-append : (p : ℕ → Bool) (a b : Text) → EndsWith p b → EndsWith p (a ++ b)
unfolding trim_right
EndsWith-append p [] b h = h
EndsWith-append p (x ∷ a) b h = let ih = EndsWith-append p a b h in (rw (ih.0, ih.1) refl, refl)

pub EndsWith-single : (p : ℕ → Bool) (c : ℕ) → p c ≡ false → EndsWith p (c ∷ [])
unfolding trim_right
EndsWith-single p c h = (rw h refl, refl)

pub EndsWith-Lacks : (p : ℕ → Bool) (c : ℕ) (s : Text) → Lacks p (c ∷ s) → EndsWith p (c ∷ s)
EndsWith-Lacks p c [] h = EndsWith-single p c h.0
EndsWith-Lacks p c (d ∷ s) h = EndsWith-append p (c ∷ []) (d ∷ s) (EndsWith-Lacks p d s h.1)

-- Nothing is trimmed of a text that begins and ends outside the blanks.
pub trim_space_lem :
    (c : ℕ) (s : Text) → is_space c ≡ false → EndsWith is_space (c ∷ s) → trim_space (c ∷ s) ≡ c ∷ s
unfolding trim_space trim_left
trim_space_lem c s h e = rw h (e.0)

pub split_on-append :
    (c : ℕ) (a b : Text) → Lacks (λ x. eqb x c) a → split_on c (a ++ c ∷ b) ≡ a ∷ split_on c b
unfolding split_on
split_on-append c [] b h = rw ((eqb_iff c c).1 refl) refl
split_on-append c (x ∷ a) b h = rw (h.0, split_on-append c a b h.1) refl

pub cut_at-append :
    (p : ℕ → Bool) (a : Text) (c : ℕ) (b : Text)
    → Lacks p a
    → p c ≡ true
    → cut_at p (a ++ c ∷ b) ≡ some (a, b)
unfolding cut_at
cut_at-append p [] c b h hc = rw hc refl
cut_at-append p (x ∷ a) c b h hc = rw (h.0, cut_at-append p a c b h.1 hc) refl

after_prefix-append : (pre s : Text) → after_prefix pre (pre ++ s) ≡ some s
unfolding after_prefix
after_prefix-append [] s = refl
after_prefix-append (p ∷ pre) s = rw ((eqb_iff p p).1 refl) (after_prefix-append pre s)

pub trim_prefix-append : (pre s : Text) → trim_prefix pre (pre ++ s) ≡ s
unfolding trim_prefix
trim_prefix-append pre s =
    ap (λ o. elim o as (λ x. Text) [ none ↦ pre ++ s | some rest ↦ rest ])
      (after_prefix-append pre s)
