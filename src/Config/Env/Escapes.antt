-- ===== src/Config/Env/Escapes.antt =====
-- The escapes of pkg/config/env_adapter.go, one character at a time.
use operator_go.Prelude.{
  ℕ, zero, Bool, true, false, ◌||◌, some, [], ◌∷◌, ◌++◌, ◌≡◌, refl, ap, ◌∙◌, inl, inr, arith, eqb,
  eqb_iff, if◌then◌else◌, Bool-cases,
}
use operator_go.Config.Text.{Text, replace_char}
use operator_go.Config.Text.Laws.{Lacks, replace_char-append}
use operator_go.Config.Env.{
  all_pass, is_bare_char, is_bare_value, backslash_all, escape_env_value, unescape_env_from,
  unescape_env_value, between, before_last, unquote, env_value,
}

-- What one character is written as.
unfoldable pub env_escaped : ℕ → Text
env_escaped c =
    if eqb c b'\\'
    then b'\\' ∷ b'\\' ∷ []
    else if eqb c 34
    then b'\\' ∷ 34 ∷ []
    else if eqb c b'$'
    then b'\\' ∷ b'$' ∷ []
    else if eqb c b'`'
    then b'\\' ∷ b'`' ∷ []
    else if eqb c 10
    then b'\\' ∷ b'n' ∷ []
    else if eqb c 13
    then b'\\' ∷ b'r' ∷ []
    else if eqb c 9
    then b'\\' ∷ b't' ∷ []
    else c ∷ []

backslash_all-append : (a b : Text) → backslash_all (a ++ b) ≡ backslash_all a ++ backslash_all b
unfolding backslash_all
backslash_all-append a b = simp (replace_char-append)

backslash_all-single : (c : ℕ) → backslash_all (c ∷ []) ≡ env_escaped c
unfolding backslash_all replace_char env_escaped
backslash_all-single c = ground arith

-- The chain of replacements writes each character on its own.
pub backslash_all-cons :
    (c : ℕ) (s : Text) → backslash_all (c ∷ s) ≡ env_escaped c ++ backslash_all s
backslash_all-cons c s =
    backslash_all-append (c ∷ []) s
    ∙ ap (λ (t : Text). t ++ backslash_all s) (backslash_all-single c)

pub backslash_all-nil : backslash_all [] ≡ []
unfolding backslash_all replace_char
backslash_all-nil = refl

unescape_env_from-escaped :
    (c : ℕ) (rest : Text)
    → unescape_env_from zero (env_escaped c ++ rest) ≡ c ∷ unescape_env_from zero rest
unfolding env_escaped unescape_env_from
unescape_env_from-escaped c [] = ground arith
unescape_env_from-escaped c (d ∷ rest) = ground arith

unescape-backslash_all : (s : Text) → unescape_env_value (backslash_all s) ≡ s
unfolding unescape_env_value
unescape-backslash_all [] = rw backslash_all-nil (unfold unescape_env_from in refl)
unescape-backslash_all (c ∷ s) = rw (backslash_all-cons c s) (
    unescape_env_from-escaped c (backslash_all s)
    ∙ ap (λ (t : Text). c ∷ t) (unescape-backslash_all s))

unescape_env_from-plain :
    (c : ℕ) (s : Text)
    → eqb c b'\\' ≡ false
    → unescape_env_from zero (c ∷ s) ≡ c ∷ unescape_env_from zero s
unfolding unescape_env_from
unescape_env_from-plain c [] h = refl
unescape_env_from-plain c (d ∷ s) h = ground arith

unescape-Lacks : (s : Text) → Lacks (λ c. eqb c b'\\') s → unescape_env_value s ≡ s
unfolding unescape_env_value
unescape-Lacks [] h = unfold unescape_env_from in refl
unescape-Lacks (c ∷ s) h =
    unescape_env_from-plain c s h.0 ∙ ap (λ (t : Text). c ∷ t) (unescape-Lacks s h.1)

pub all_pass-Lacks :
    (p q : ℕ → Bool)
    → ((c : ℕ) → p c ≡ true → q c ≡ false)
    → (s : Text) → all_pass p s ≡ true
    → Lacks q s
all_pass-Lacks p q f [] h = tt
all_pass-Lacks p q f (x ∷ s) h = (f x (ground arith), all_pass-Lacks p q f s (ground arith))

before_last-append : (q : ℕ) (s : Text) → before_last q (s ++ q ∷ []) ≡ some s
unfolding before_last
before_last-append q [] = ground arith
before_last-append q (x ∷ []) = ground arith
before_last-append q (x ∷ y ∷ s) = rw (before_last-append q (y ∷ s)) refl

bare-Lacks_backslash : (c : ℕ) → is_bare_char c ≡ true → eqb c b'\\' ≡ false
bare-Lacks_backslash c h = ground arith

bare_ne_quote : (c : ℕ) → is_bare_char c ≡ true → (eqb c 34 || eqb c b'\'') ≡ false
bare_ne_quote c h = ground arith

bare_value : (s : Text) → is_bare_value s ≡ true → env_value s ≡ s
unfolding is_bare_value env_value between unquote
bare_value [] h = cc
bare_value (x ∷ s) h =
    let first : (eqb x 34 || eqb x b'\'') ≡ false = bare_ne_quote x (ground arith) in
    let plain : Lacks (λ c. eqb c b'\\') (x ∷ s) =
      all_pass-Lacks is_bare_char (λ c. eqb c b'\\') bare-Lacks_backslash (x ∷ s) h in
    let same : unescape_env_value (x ∷ s) ≡ x ∷ s = unescape-Lacks (x ∷ s) plain in
    ground (arith, same)

between-quoted : (q : ℕ) (s : Text) → between q (q ∷ (s ++ q ∷ [])) ≡ some s
unfolding between
between-quoted q s = rw ((eqb_iff q q).1 refl) (before_last-append q s)

quoted_value : (s : Text) → env_value (34 ∷ (backslash_all s ++ 34 ∷ [])) ≡ s
unfolding env_value unquote
quoted_value s =
    ap
      (λ o.
        unquote (34 ∷ (backslash_all s ++ 34 ∷ [])) o
          (between b'\'' (34 ∷ (backslash_all s ++ 34 ∷ []))))
      (between-quoted 34 (backslash_all s))
    ∙ unescape-backslash_all s

-- Unquoting undoes quoting.
pub env_value-escape : (s : Text) → env_value (escape_env_value s) ≡ s
unfolding escape_env_value
env_value-escape s = elim (Bool-cases (is_bare_value s)) [
  | inl bare ↦ rw bare (bare_value s bare)
  | inr other ↦ rw other (quoted_value s)
]
