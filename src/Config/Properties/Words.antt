-- ===== src/Config/Properties/Words.antt =====
-- What pkg/config/properties_adapter.go writes, as a list of words: a character, or a backslash and
-- a character.
use operator_go.Prelude.{
  ℕ, zero, Bool, true, false, ◌||◌, some, List, [], ◌∷◌, ◌++◌, map, ◌≡◌, refl, sym, ap, ◌∙◌, All,
  arith, eqb, if◌then◌else◌,
}
use mathlib.Core.List.{append_assoc}
use operator_go.Config.Text.{Text, replace_char}
use operator_go.Config.Text.Laws.{replace_char-append}
use operator_go.Config.Properties.{
  escape_properties_key, escape_inner, unescape_from, unescape_properties, cut_at_separator,
}

pub data Word : Type 0 where
  plain : ℕ → Word
  escaped : ℕ → Word

abbrev pub spell : Word → Text
spell (plain c) = c ∷ []
spell (escaped c) = b'\\' ∷ c ∷ []

unfoldable pub spell_all : List Word → Text
spell_all [] = []
spell_all (w ∷ ws) = spell w ++ spell_all ws

pub spell_all-append : (us ws : List Word) → spell_all (us ++ ws) ≡ spell_all us ++ spell_all ws
unfolding spell_all
spell_all-append [] ws = refl
spell_all-append (u ∷ us) ws =
    ap (λ (t : Text). spell u ++ t) (spell_all-append us ws)
    ∙ sym (append_assoc (spell u) (spell_all us) (spell_all ws))

-- The character that a word stands for.
unfoldable pub meaning : Word → ℕ
meaning (plain c) = c
meaning (escaped c) =
    if eqb c b'n' then 10 else if eqb c b'r' then 13 else if eqb c b't' then 9 else c

unfoldable pub key_word : ℕ → Word
key_word c =
    if eqb c b'\\' || eqb c b'=' || eqb c b':' || eqb c b' ' || eqb c b'#' || eqb c b'!'
    then escaped c
    else if eqb c 10
    then escaped b'n'
    else if eqb c 13
    then escaped b'r'
    else if eqb c 9
    then escaped b't'
    else plain c

unfoldable pub value_word : ℕ → Word
value_word c =
    if eqb c b'\\'
    then escaped c
    else if eqb c 10
    then escaped b'n'
    else if eqb c 13
    then escaped b'r'
    else if eqb c 9
    then escaped b't'
    else plain c

-- The words of either kind.
abbrev pub is_layout : ℕ → Bool
is_layout c = eqb c b'\\' || eqb c 10 || eqb c 13 || eqb c 9

abbrev pub is_escape : ℕ → Bool
is_escape c =
    eqb c b'n'
    || eqb c b'r'
    || eqb c b't'
    || eqb c b'\\'
    || eqb c b'='
    || eqb c b':'
    || eqb c b' '
    || eqb c b'#'
    || eqb c b'!'

abbrev pub IsWord : Word → Type 0
IsWord (plain c) = is_layout c ≡ false
IsWord (escaped c) = is_escape c ≡ true

-- The words of a key, whose separators are escaped.
abbrev pub IsKeyWord : Word → Type 0
IsKeyWord (plain c) = (eqb c b'=' || eqb c b':' || eqb c b' ' || eqb c b'#' || eqb c b'!') ≡ false
IsKeyWord (escaped c) = Unit

pub key_word-IsWord : (c : ℕ) → IsWord (key_word c)
unfolding key_word
key_word-IsWord c = ground arith

pub key_word-IsKeyWord : (c : ℕ) → IsKeyWord (key_word c)
unfolding key_word
key_word-IsKeyWord c = ground arith

pub value_word-IsWord : (c : ℕ) → IsWord (value_word c)
unfolding value_word
value_word-IsWord c = ground arith

pub meaning-key_word : (c : ℕ) → meaning (key_word c) ≡ c
unfolding key_word meaning
meaning-key_word c = ground arith

pub meaning-value_word : (c : ℕ) → meaning (value_word c) ≡ c
unfolding value_word meaning
meaning-value_word c = ground arith

module _ (word : ℕ → Word) where
  pub map-IsWord : (P : Word → Type 0) → ((c : ℕ) → P (word c)) → (s : Text) → All P (map word s)
  map-IsWord P h [] = tt
  map-IsWord P h (c ∷ s) = (h c, map-IsWord P h s)

  pub map-meaning : ((c : ℕ) → meaning (word c) ≡ c) → (s : Text) → map meaning (map word s) ≡ s
  map-meaning h [] = refl
  map-meaning h (c ∷ s) = rw (h c) (ap (λ (t : Text). c ∷ t) (map-meaning h s))

  -- A chain of replacements that goes through a text character by character.
  pub chain-spell_all :
      (chain : Text → Text)
      → ((a b : Text) → chain (a ++ b) ≡ chain a ++ chain b)
      → (chain [] ≡ [])
      → ((c : ℕ) → chain (c ∷ []) ≡ spell (word c))
      → (s : Text) → chain s ≡ spell_all (map word s)
  unfolding spell_all
  chain-spell_all chain join nil single [] = nil
  chain-spell_all chain join nil single (c ∷ s) =
      join (c ∷ []) s
      ∙ ap (λ (t : Text). t ++ chain s) (single c)
      ∙ ap (λ (t : Text). spell (word c) ++ t) (chain-spell_all chain join nil single s)

key-append :
    (a b : Text)
    → escape_properties_key (a ++ b) ≡ escape_properties_key a ++ escape_properties_key b
unfolding escape_properties_key
key-append a b = simp (replace_char-append)

inner-append : (a b : Text) → escape_inner (a ++ b) ≡ escape_inner a ++ escape_inner b
unfolding escape_inner
inner-append a b = simp (replace_char-append)

key-single : (c : ℕ) → escape_properties_key (c ∷ []) ≡ spell (key_word c)
unfolding escape_properties_key replace_char key_word
key-single c = ground arith

inner-single : (c : ℕ) → escape_inner (c ∷ []) ≡ spell (value_word c)
unfolding escape_inner replace_char value_word
inner-single c = ground arith

pub escape_properties_key-words : (s : Text) → escape_properties_key s ≡ spell_all (map key_word s)
escape_properties_key-words =
    chain-spell_all key_word escape_properties_key key-append
      (unfold escape_properties_key replace_char in refl) key-single

pub escape_inner-words : (s : Text) → escape_inner s ≡ spell_all (map value_word s)
escape_inner-words =
    chain-spell_all value_word escape_inner inner-append (unfold escape_inner replace_char in refl)
      inner-single

-- A word is read back as the character it stands for.
unescape_from-spell :
    (w : Word) (rest : Text)
    → IsWord w
    → unescape_from zero (spell w ++ rest) ≡ meaning w ∷ unescape_from zero rest
unfolding unescape_from meaning
unescape_from-spell (plain c) rest h = ground arith
unescape_from-spell (escaped c) rest h = ground arith

pub unescape-spell_all :
    (ws : List Word) → All IsWord ws → unescape_properties (spell_all ws) ≡ map meaning ws
unfolding unescape_properties spell_all
unescape-spell_all [] h = unfold unescape_from in refl
unescape-spell_all (w ∷ ws) h =
    unescape_from-spell w (spell_all ws) h.0
    ∙ ap (λ (t : Text). meaning w ∷ t) (unescape-spell_all ws h.1)

-- No separator is found inside a key.
pub cut_at_separator-spell_all :
    (ws : List Word) (first : Bool) (c : ℕ) (rest : Text)
    → All IsWord ws
    → All IsKeyWord ws
    → (eqb c b'=' || eqb c b':') ≡ true
    → cut_at_separator false first (spell_all ws ++ c ∷ rest) ≡ some (spell_all ws, rest)
unfolding cut_at_separator spell_all
cut_at_separator-spell_all [] first c rest h k e = ground arith
cut_at_separator-spell_all (plain x ∷ ws) first c rest h k e =
    ground (arith, cut_at_separator-spell_all ws false c rest h.1 k.1 e, h.0, k.0)
cut_at_separator-spell_all (escaped x ∷ ws) first c rest h k e =
    rw (cut_at_separator-spell_all ws false c rest h.1 k.1 e) refl
