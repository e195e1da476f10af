-- ===== src/Config/Text/Order.antt =====
-- Go's order of strings is a strict total order.
use operator_go.Prelude.{true, false, [], ◌∷◌, ◌≡◌, ◌⊎◌, inl, inr, refl, arith}
use operator_go.Prelude.Eq.{text_beq}
use operator_go.Config.Text.{Text, text_less}

pub text_less_irrefl : (a : Text) → text_less a a ≡ false
unfolding text_less
text_less_irrefl [] = refl
text_less_irrefl (x ∷ xs) = ground (arith, text_less_irrefl xs)

pub text_less_trans :
    (a b c : Text) → text_less a b ≡ true → text_less b c ≡ true → text_less a c ≡ true
unfolding text_less
text_less_trans [] [] c p q = cc
text_less_trans [] (y ∷ ys) [] p q = q
text_less_trans [] (y ∷ ys) (z ∷ zs) p q = refl
text_less_trans (x ∷ xs) [] c p q = cc
text_less_trans (x ∷ xs) (y ∷ ys) [] p q = q
text_less_trans (x ∷ xs) (y ∷ ys) (z ∷ zs) p q = ground (arith, p, q, text_less_trans xs ys zs)

pub text_less_total :
    (a b : Text) → text_beq a b ≡ false → (text_less a b ≡ true) ⊎ (text_less b a ≡ true)
unfolding text_less
text_less_total [] [] h = cc
text_less_total [] (y ∷ ys) h = inl refl
text_less_total (x ∷ xs) [] h = inr refl
text_less_total (x ∷ xs) (y ∷ ys) h = ground (arith, h, text_less_total xs ys)
