-- ===== src/Config/Env/Shell.antt =====
-- How a POSIX shell reads the right-hand side of an assignment that pkg/config/env_adapter.go writes.
use operator_go.Prelude.{
  ℕ, Bool, true, false, ◌&&◌, ◌||◌, Option, none, some, [], ◌∷◌, ◌++◌, ◌≡◌, refl, sym, ap, ◌∙◌, inl,
  inr, arith, is_empty, eqb, eqb_iff, if◌then◌else◌, Bool-cases,
}
use mathlib.Core.List.{append_assoc}
use operator_go.Config.Text.{Text}
use operator_go.Config.Text.Laws.{Lacks}
use operator_go.Config.Env.{
  all_pass, is_bare_char, is_bare_value, backslash_all, escape_env_value, onto_some,
}
use operator_go.Config.Env.Escapes.{
  env_escaped, backslash_all-cons, backslash_all-nil, all_pass-Lacks,
}

-- The characters that have a meaning of their own outside quotes.
abbrev is_special : ℕ → Bool
is_special c =
    eqb c b'|'
    || eqb c b'&'
    || eqb c b';'
    || eqb c b'<'
    || eqb c b'>'
    || eqb c b'('
    || eqb c b')'
    || eqb c b'$'
    || eqb c b'`'
    || eqb c b'\\'
    || eqb c 34
    || eqb c b'\''
    || eqb c b' '
    || eqb c 9
    || eqb c 10
    || eqb c b'*'
    || eqb c b'?'
    || eqb c b'['
    || eqb c b'#'
    || eqb c b'~'
    || eqb c b'!'
    || eqb c b'{'
    || eqb c b'}'

-- A word without quotes. `none` stands for an expansion, a second word, or an operator.
unfoldable pub shell_unquoted : Text → Option Text
shell_unquoted [] = some []
shell_unquoted (c ∷ s) =
    let rest = shell_unquoted s in if is_special c then none else onto_some c rest

-- Between double quotes, after a backslash or not, up to the quote that ends the word.
unfoldable pub shell_quoted : Bool → Text → Option Text
shell_quoted after_backslash [] = none
shell_quoted true (c ∷ s) =
    let rest = shell_quoted false s in
    if eqb c b'$' || eqb c b'`' || eqb c 34 || eqb c b'\\'
    then onto_some c rest
    else if eqb c 10
    then rest
    else onto_some b'\\' (onto_some c rest)
shell_quoted false (c ∷ s) =
    let escaped = shell_quoted true s in
    let rest = shell_quoted false s in
    if eqb c b'\\'
    then escaped
    else if eqb c 34
    then if is_empty s then some [] else none
    else if eqb c b'$' || eqb c b'`'
    then none
    else onto_some c rest

unfoldable pub shell_word : Text → Option Text
unfolding shell_unquoted shell_quoted
shell_word [] = some []
shell_word (c ∷ s) = if eqb c 34 then shell_quoted false s else shell_unquoted (c ∷ s)

-- A value with its line breaks and tabs spelled out.
unfoldable pub spelled_out : Text → Text
spelled_out [] = []
spelled_out (c ∷ s) =
    (if eqb c 10
      then b'\\' ∷ b'n' ∷ []
      else if eqb c 13
      then b'\\' ∷ b'r' ∷ []
      else if eqb c 9
      then b'\\' ∷ b't' ∷ []
      else c ∷ [])
    ++ spelled_out s

abbrev onto_all : Text → Option Text → Option Text
onto_all a none = none
onto_all a (some s) = some (a ++ s)

shell_quoted-escaped :
    (c : ℕ) (s : Text)
    → shell_quoted false (env_escaped c ++ s)
      ≡ onto_all
          (if eqb c 10
            then b'\\' ∷ b'n' ∷ []
            else if eqb c 13
            then b'\\' ∷ b'r' ∷ []
            else if eqb c 9
            then b'\\' ∷ b't' ∷ []
            else c ∷ [])
          (shell_quoted false s)
unfolding shell_quoted env_escaped
shell_quoted-escaped c s = ground arith

shell_quoted-backslash_all :
    (v : Text) → shell_quoted false (backslash_all v ++ 34 ∷ []) ≡ some (spelled_out v)
unfolding spelled_out
shell_quoted-backslash_all [] = rw backslash_all-nil (unfold shell_quoted in refl)
shell_quoted-backslash_all (c ∷ v) =
    ap (λ (t : Text). shell_quoted false (t ++ 34 ∷ [])) (backslash_all-cons c v)
    ∙ ap (shell_quoted false) (append_assoc (env_escaped c) (backslash_all v) (34 ∷ []))
    ∙ shell_quoted-escaped c (backslash_all v ++ 34 ∷ [])
    ∙ rw (shell_quoted-backslash_all v) refl

both_true : (a b : Bool) → (a && b) ≡ true → (a ≡ true) × (b ≡ true)
both_true true b h = (refl, h)
both_true false b h = cc

outside_bare : (c x : ℕ) → is_bare_char c ≡ true → is_bare_char x ≡ false → eqb c x ≡ false
outside_bare c x h hx = elim (Bool-cases (eqb c x)) [
  | inl same ↦ let e : c ≡ x = (eqb_iff c x).0 same in cc (ap is_bare_char e, h, hx)
  | inr other ↦ other
]

bare_ne_special : (c : ℕ) → is_bare_char c ≡ true → is_special c ≡ false
bare_ne_special c h =
    rw
      (
        outside_bare c b'|' h refl,
        outside_bare c b'&' h refl,
        outside_bare c b';' h refl,
        outside_bare c b'<' h refl,
        outside_bare c b'>' h refl,
        outside_bare c b'(' h refl,
        outside_bare c b')' h refl,
        outside_bare c b'$' h refl,
        outside_bare c b'`' h refl,
        outside_bare c b'\\' h refl,
        outside_bare c 34 h refl,
        outside_bare c b'\'' h refl,
        outside_bare c b' ' h refl,
        outside_bare c 9 h refl,
        outside_bare c 10 h refl,
        outside_bare c b'*' h refl,
        outside_bare c b'?' h refl,
        outside_bare c b'[' h refl,
        outside_bare c b'#' h refl,
        outside_bare c b'~' h refl,
        outside_bare c b'!' h refl,
        outside_bare c b'{' h refl,
        outside_bare c b'}' h refl,
      )
      refl

shell_unquoted-Lacks : (v : Text) → Lacks is_special v → shell_unquoted v ≡ some v
unfolding shell_unquoted
shell_unquoted-Lacks [] h = refl
shell_unquoted-Lacks (c ∷ v) h = rw (h.0, shell_unquoted-Lacks v h.1) refl

bare_spelled : (v : Text) → all_pass is_bare_char v ≡ true → spelled_out v ≡ v
unfolding spelled_out
bare_spelled [] h = refl
bare_spelled (c ∷ v) h =
    let both = both_true (is_bare_char c) (all_pass is_bare_char v) h in
    rw (outside_bare c 10 both.0 refl, outside_bare c 13 both.0 refl, outside_bare c 9 both.0 refl)
      (ap (λ (t : Text). c ∷ t) (bare_spelled v both.1))

bare_word : (v : Text) → is_bare_value v ≡ true → shell_word v ≡ some (spelled_out v)
unfolding is_bare_value shell_word
bare_word [] h = cc
bare_word (c ∷ v) h =
    let both = both_true (is_bare_char c) (all_pass is_bare_char v) h in
    ap (λ b. if b then shell_quoted false v else shell_unquoted (c ∷ v))
      (outside_bare c 34 both.0 refl)
    ∙ shell_unquoted-Lacks (c ∷ v)
        (all_pass-Lacks is_bare_char is_special bare_ne_special (c ∷ v) h)
    ∙ ap some (sym (bare_spelled (c ∷ v) h))

-- A shell reads any value that is written as one word, with no expansion and no command in it: the
-- value itself, but for line breaks, carriage returns and tabs, which it sees as `\n`, `\r` and `\t`.
pub shell_word-escape_env_value :
    (v : Text) → shell_word (escape_env_value v) ≡ some (spelled_out v)
unfolding escape_env_value
shell_word-escape_env_value v = elim (Bool-cases (is_bare_value v)) [
  | inl bare ↦ rw bare (bare_word v bare)
  | inr other ↦ rw other (unfold shell_word in shell_quoted-backslash_all v)
]
