-- ===== src/Config/Properties/Lines.antt =====
-- One line of a .properties file: what is written is what is read.
use operator_go.Prelude.{
  ℕ, Bool, true, false, ◌&&◌, ◌||◌, some, List, [], ◌∷◌, ◌++◌, map, ◌≡◌, refl, sym, ap, ◌∙◌, All,
  All-append, arith, is_empty, eqb,
}
use mathlib.Core.List.{append_assoc}
use mathlib.Core.Path.{subst}
use operator_go.Prelude.Eq.{text_eq}
use operator_go.Prelude.Maps.{GoMap, insert}
use operator_go.Config.Text.{Text, trim_left, starts_with}
use operator_go.Config.Text.Laws.{Lacks}
use operator_go.Config.Properties.{
  escape_properties_value, properties_line, is_properties_space, is_odd, trailing_backslashes,
  trim_end, trim_properties_space, cut_at_separator, store_cut, parse_trimmed,
  parse_properties_line,
}
use operator_go.Config.Properties.Words.{
  Word, plain, escaped, spell, spell_all, meaning, key_word, IsWord, IsKeyWord, key_word-IsWord,
  key_word-IsKeyWord, meaning-key_word, map-IsWord, map-meaning, escape_properties_key-words,
  unescape-spell_all, cut_at_separator-spell_all,
}
use operator_go.Config.Properties.Trims.{
  IsKept, pending, pending-append, pending-spell_all, odd-trailing, trim_end-spell,
}
use operator_go.Config.Properties.Edges.{value_words, escape_properties_value-words}
use operator_go.Config.Properties.Kept.{
  FirstKept, LastKept, meaning-value_words, value_words-IsWord, value_words-FirstKept,
  value_words-LastKept, trim_end-spell_all,
}

key_word-IsKept : (c : ℕ) → IsKept (key_word c)
unfolding key_word
key_word-IsKept c = ground arith

key-FirstKept : (k : Text) → FirstKept (map key_word k)
key-FirstKept [] = tt
key-FirstKept (c ∷ k) = key_word-IsKept c

key-LastKept : (k : Text) → LastKept (map key_word k)
key-LastKept [] = tt
key-LastKept (c ∷ []) = key_word-IsKept c
key-LastKept (c ∷ d ∷ k) = key-LastKept (d ∷ k)

-- Layout is not dropped from the front either.
trim_left-spell :
    (w : Word) (rest : Text)
    → IsKept w
    → trim_left is_properties_space (spell w ++ rest) ≡ spell w ++ rest
unfolding trim_left
trim_left-spell (plain c) rest h = rw h refl
trim_left-spell (escaped c) rest h = refl

front-spell_all :
    (w : Word) (ws : List Word)
    → IsKept w
    → trim_left is_properties_space (spell_all (w ∷ ws)) ≡ spell_all (w ∷ ws)
unfolding spell_all
front-spell_all w ws h = trim_left-spell w (spell_all ws) h

trim-spell_all :
    (ws : List Word)
    → All IsWord ws
    → FirstKept ws
    → LastKept ws
    → trim_properties_space (spell_all ws) ≡ spell_all ws
unfolding trim_properties_space
trim-spell_all [] h f l = unfold spell_all trim_left trim_end in refl
trim-spell_all (w ∷ ws) h f l =
    ap trim_end (front-spell_all w ws f) ∙ trim_end-spell_all [] w ws (unfold pending in refl) h l

-- A line break, or a carriage return that could be taken for part of one.
abbrev pub is_break : ℕ → Bool
is_break c = eqb c 10 || eqb c 13

spell-Lacks : (w : Word) → IsWord w → Lacks is_break (spell w)
spell-Lacks (plain c) h = ground (arith, h)
spell-Lacks (escaped c) h = ground (arith, h)

spell_all-Lacks : (ws : List Word) → All IsWord ws → Lacks is_break (spell_all ws)
unfolding spell_all
spell_all-Lacks [] h = tt
spell_all-Lacks (w ∷ ws) h =
    All-append (λ x. is_break x ≡ false) (spell w) (spell_all ws) (spell-Lacks w h.0)
      (spell_all-Lacks ws h.1)

module _ (c : ℕ) (sep : (eqb c b'=' || eqb c b':') ≡ true) where
  -- The words of a line, its separator in the middle.
  abbrev line_of : List Word → List Word → Text
  line_of ks vs = spell_all ks ++ c ∷ spell_all vs

  sep-IsKept : is_properties_space c ≡ false
  sep-IsKept = ground (arith, sep)

  sep_ne_backslash : eqb c b'\\' ≡ false
  sep_ne_backslash = ground (arith, sep)

  pending-separator : (vs : List Word) → All IsWord vs → pending false (c ∷ spell_all vs) ≡ false
  unfolding pending
  pending-separator vs h =
      ap (λ b. pending (b && true) (spell_all vs)) sep_ne_backslash ∙ pending-spell_all vs h

  pending-key : (ks : List Word) → All IsWord ks → pending false (spell_all ks ++ c ∷ []) ≡ false
  pending-key ks h =
      pending-append false (spell_all ks) (c ∷ [])
      ∙ ap (λ b. pending b (c ∷ [])) (pending-spell_all ks h)
      ∙ unfold pending in rw sep_ne_backslash refl

  trim_end-line :
      (ks vs : List Word)
      → All IsWord ks
      → All IsWord vs
      → LastKept vs
      → trim_end (line_of ks vs) ≡ line_of ks vs
  trim_end-line ks [] hk hv l =
      unfold spell_all in
      trim_end-spell (spell_all ks) (plain c) (pending-spell_all ks hk) sep-IsKept
  trim_end-line ks (v ∷ vs) hk hv l =
      rw (append_assoc (spell_all ks) (c ∷ []) (spell_all (v ∷ vs))) at
        (trim_end-spell_all (spell_all ks ++ c ∷ []) v vs (pending-key ks hk) hv l)

  trim_left-line :
      (ks vs : List Word)
      → FirstKept ks
      → trim_left is_properties_space (line_of ks vs) ≡ line_of ks vs
  unfolding spell_all
  trim_left-line [] vs f = unfold trim_left in rw sep-IsKept refl
  trim_left-line (k ∷ ks) vs f =
      rw (append_assoc (spell k) (spell_all ks) (c ∷ spell_all vs))
        (trim_left-spell k (spell_all ks ++ c ∷ spell_all vs) f)

  not_comment :
      (ks vs : List Word)
      → All IsKeyWord ks
      → (is_empty (line_of ks vs)
          || starts_with b'#' (line_of ks vs)
          || starts_with b'!' (line_of ks vs))
        ≡ false
  unfolding spell_all
  not_comment [] vs h = ground (arith, sep)
  not_comment (plain x ∷ ks) vs h = ground (arith, h.0)
  not_comment (escaped x ∷ ks) vs h = refl

  module _ (ks vs : List Word) (hk : All IsWord ks) (hs : All IsKeyWord ks) (fk : FirstKept ks)
      (lk : LastKept ks) (hv : All IsWord vs) (fv : FirstKept vs) (lv : LastKept vs)
      (m : GoMap Text Text) where
    trim_line : trim_properties_space (line_of ks vs) ≡ line_of ks vs
    unfolding trim_properties_space
    trim_line = ap trim_end (trim_left-line ks vs fk) ∙ trim_end-line ks vs hk hv lv

    parse_trimmed-line :
        parse_trimmed (line_of ks vs) m
        ≡ store_cut (line_of ks vs) (cut_at_separator false true (line_of ks vs)) m
    unfolding parse_trimmed
    parse_trimmed-line = rw (not_comment ks vs hs) refl

    store_line :
        store_cut (line_of ks vs) (some (spell_all ks, spell_all vs)) m
        ≡ insert (map meaning ks) (map meaning vs) m
    unfolding store_cut
    store_line =
        rw
          (
            trim-spell_all ks hk fk lk,
            trim-spell_all vs hv fv lv,
            unescape-spell_all ks hk,
            unescape-spell_all vs hv,
          )
          refl

    parse_line-words :
        parse_properties_line (line_of ks vs) m ≡ insert (map meaning ks) (map meaning vs) m
    unfolding parse_properties_line
    parse_line-words =
        ap (λ (t : Text). parse_trimmed t m) trim_line
        ∙ parse_trimmed-line
        ∙ ap (λ o. store_cut (line_of ks vs) o m)
            (cut_at_separator-spell_all ks true c (spell_all vs) hk hs sep)
        ∙ store_line

  line-words :
      (k v : Text) → properties_line (c ∷ []) k v ≡ line_of (map key_word k) (value_words v)
  unfolding properties_line
  line-words k v =
      ap (λ (t : Text). t ++ c ∷ escape_properties_value v) (escape_properties_key-words k)
      ∙ ap (λ (t : Text). spell_all (map key_word k) ++ c ∷ t) (escape_properties_value-words v)

  -- A line stores the entry it was written for.
  pub parse-properties_line :
      (k v : Text) (m : GoMap Text Text)
      → parse_properties_line (properties_line (c ∷ []) k v) m ≡ insert k v m
  parse-properties_line k v m =
      ap (λ (t : Text). parse_properties_line t m) (line-words k v)
      ∙ parse_line-words (map key_word k) (value_words v)
          (map-IsWord key_word IsWord key_word-IsWord k)
          (map-IsWord key_word IsKeyWord key_word-IsKeyWord k) (key-FirstKept k) (key-LastKept k)
          (value_words-IsWord v) (value_words-FirstKept v) (value_words-LastKept v) m
      ∙ ap (λ (t : Text). insert t (map meaning (value_words v)) m)
          (map-meaning key_word meaning-key_word k)
      ∙ ap (λ (t : Text). insert k t m) (meaning-value_words v)

  -- No line continues on the next one, and none holds a line break.
  pub properties_line-ends :
      (k v : Text) → is_odd (trailing_backslashes (properties_line (c ∷ []) k v)) ≡ false
  properties_line-ends k v =
      odd-trailing (properties_line (c ∷ []) k v)
      ∙ ap (pending false) (line-words k v)
      ∙ pending-append false (spell_all (map key_word k)) (c ∷ spell_all (value_words v))
      ∙ ap (λ b. pending b (c ∷ spell_all (value_words v)))
          (pending-spell_all (map key_word k) (map-IsWord key_word IsWord key_word-IsWord k))
      ∙ pending-separator (value_words v) (value_words-IsWord v)

  pub properties_line-Lacks : (k v : Text) → Lacks is_break (properties_line (c ∷ []) k v)
  properties_line-Lacks k v = subst (Lacks is_break) (sym (line-words k v)) (
      All-append (λ x. is_break x ≡ false) (spell_all (map key_word k))
        (c ∷ spell_all (value_words v))
        (spell_all-Lacks (map key_word k) (map-IsWord key_word IsWord key_word-IsWord k))
        (ground (arith, sep), spell_all-Lacks (value_words v) (value_words-IsWord v)))
