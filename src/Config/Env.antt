-- ===== src/Config/Env.antt =====
-- pkg/config/env_adapter.go. An error's message leaves out the texts that it quotes.
pub mod Escapes
pub mod Lines
pub mod RoundTrip
pub mod Shell
use operator_go.Prelude.{
  ℕ, zero, suc, Bool, true, false, not, ◌&&◌, ◌||◌, Option, none, some, List, [], ◌∷◌, ◌++◌,
  is_empty, eqb, leb, if◌then◌else◌,
}
use operator_go.Prelude.Eq.{text_eq}
use operator_go.Prelude.Maps.{GoMap, insert}
use operator_go.Common.Errors.{Result, ok, fail, Err, wrapped, opaque, formatted}
use operator_go.Config.Text.{
  Text, codes, replace_char, trim_space, split_on, starts_with, trim_prefix, cut_at,
}
use operator_go.Config.Text.Entries.{sorted_keys, value_at}

abbrev pub is_letter : ℕ → Bool
is_letter c = (leb b'A' c && leb c b'Z') || (leb b'a' c && leb c b'z')

abbrev pub is_digit : ℕ → Bool
is_digit c = leb b'0' c && leb c b'9'

abbrev pub all_pass : (ℕ → Bool) → Text → Bool
all_pass p [] = true
all_pass p (x ∷ s) = p x && all_pass p s

abbrev pub is_key_start : ℕ → Bool
is_key_start c = is_letter c || eqb c b'_'

abbrev pub is_key_char : ℕ → Bool
is_key_char c = is_letter c || is_digit c || eqb c b'_'

-- `envKeyPattern`
unfoldable pub is_env_key : Text → Bool
is_env_key [] = false
is_env_key (x ∷ s) = is_key_start x && all_pass is_key_char s

abbrev pub env_key_error : Err
env_key_error =
    wrapped (formatted "failed to serialize env configuration")
      (opaque "invalid environment variable name")

unfoldable pub validate_env_key : Text → Option Err
unfolding is_env_key
validate_env_key s = if not (is_env_key s) then some env_key_error else none

abbrev pub is_bare_char : ℕ → Bool
is_bare_char c =
    is_letter c
    || is_digit c
    || eqb c b'_'
    || eqb c b'@'
    || eqb c b'%'
    || eqb c b'+'
    || eqb c b'='
    || eqb c b':'
    || eqb c b','
    || eqb c b'.'
    || eqb c b'/'
    || eqb c b'-'

-- `envBareValuePattern`
unfoldable pub is_bare_value : Text → Bool
is_bare_value s = not (is_empty s) && all_pass is_bare_char s

-- The replacements of `escapeEnvValue`, in their order.
unfoldable pub backslash_all : Text → Text
unfolding replace_char
backslash_all s =
    let s1 = replace_char b'\\' (b'\\' ∷ b'\\' ∷ []) s in
    let s2 = replace_char 34 (b'\\' ∷ 34 ∷ []) s1 in
    let s3 = replace_char b'$' (b'\\' ∷ b'$' ∷ []) s2 in
    let s4 = replace_char b'`' (b'\\' ∷ b'`' ∷ []) s3 in
    let s5 = replace_char 10 (b'\\' ∷ b'n' ∷ []) s4 in
    let s6 = replace_char 13 (b'\\' ∷ b'r' ∷ []) s5 in replace_char 9 (b'\\' ∷ b't' ∷ []) s6

unfoldable pub escape_env_value : Text → Text
unfolding is_bare_value backslash_all
escape_env_value s = if is_bare_value s then s else 34 ∷ (backslash_all s ++ 34 ∷ [])

-- One entry, without its line break.
unfoldable pub env_line : Bool → Text → Text → Text
unfolding escape_env_value
env_line export_prefix key value =
    (if export_prefix then codes "export " else []) ++ (key ++ b'=' ∷ escape_env_value value)

abbrev pub onto_text : Text → Result Text → Result Text
onto_text s (ok rest) = ok (s ++ rest)
onto_text s (fail err) = fail err

-- An entry before the rest, unless its key is refused.
abbrev pub write_entry : Option Err → Text → Result Text → Result Text
write_entry (some err) line rest = fail err
write_entry none line rest = onto_text line rest

-- The loop over the sorted keys.
unfoldable pub write_entries : Bool → GoMap Text Text → List Text → Result Text
unfolding validate_env_key env_line
write_entries export_prefix m [] = ok []
write_entries export_prefix m (key ∷ keys) =
    write_entry (validate_env_key key) (env_line export_prefix key (value_at m key) ++ 10 ∷ [])
      (write_entries export_prefix m keys)

unfoldable pub marshal : Bool → GoMap Text Text → Result Text
unfolding write_entries sorted_keys
marshal export_prefix m = write_entries export_prefix m (sorted_keys m)

-- The character that a backslash before it stands for.
abbrev pub env_escape : ℕ → Option ℕ
env_escape d =
    if eqb d b'n'
    then some 10
    else if eqb d b'r'
    then some 13
    else if eqb d b't'
    then some 9
    else if eqb d b'\\' || eqb d 34 || eqb d b'\'' || eqb d b'$' || eqb d b'`'
    then some d
    else none

-- The escape that starts at a character, given those after it.
abbrev pub env_escape_at : ℕ → Text → Option ℕ
env_escape_at c [] = none
env_escape_at c (d ∷ s) = if eqb c b'\\' then env_escape d else none

-- The loop, with the characters that it still skips.
unfoldable pub unescape_env_from : ℕ → Text → Text
unescape_env_from n [] = []
unescape_env_from (suc n) (c ∷ s) = unescape_env_from n s
unescape_env_from zero (c ∷ s) = elim (env_escape_at c s) [
  | none ↦ c ∷ unescape_env_from zero s
  | some d ↦ d ∷ unescape_env_from 1 s
]

unfoldable pub unescape_env_value : Text → Text
unfolding unescape_env_from
unescape_env_value s = unescape_env_from zero s

abbrev pub onto_some : ℕ → Option Text → Option Text
onto_some x none = none
onto_some x (some s) = some (x ∷ s)

-- The text before a last character, if that is `q`.
unfoldable pub before_last : ℕ → Text → Option Text
before_last q [] = none
before_last q (x ∷ []) = if eqb x q then some [] else none
before_last q (x ∷ y ∷ s) = onto_some x (before_last q (y ∷ s))

-- What stands between two quotes `q`.
unfoldable pub between : ℕ → Text → Option Text
unfolding before_last
between q [] = none
between q (x ∷ s) = if eqb x q then before_last q s else none

-- A value, given what stands between double and between single quotes.
unfoldable pub unquote : Text → Option Text → Option Text → Text
unfolding unescape_env_value
unquote v (some body) single = unescape_env_value body
unquote v none (some body) = body
unquote v none none = unescape_env_value v

unfoldable pub env_value : Text → Text
unfolding between unquote
env_value v = unquote v (between 34 v) (between b'\'' v)

-- The entry of a line that is cut at its separator.
unfoldable pub read_assignment : Option (Text × Text) → Option (Text × Text)
unfolding trim_space env_value
read_assignment none = none
read_assignment (some (key, value)) = some (trim_space key, env_value (trim_space value))

-- What a line stores, once trimmed.
unfoldable pub read_trimmed : Text → Option (Text × Text)
unfolding trim_space trim_prefix cut_at read_assignment
read_trimmed line =
    if is_empty line || starts_with b'#' line
    then none
    else read_assignment
        (cut_at (λ c. eqb c b'=') (trim_space (trim_prefix (codes "export ") line)))

unfoldable pub read_env_line : Text → Option (Text × Text)
unfolding trim_space read_trimmed
read_env_line line = read_trimmed (trim_space line)

abbrev pub store : Option (Text × Text) → GoMap Text Text → GoMap Text Text
store none m = m
store (some (k, v)) m = insert k v m

unfoldable pub read_env_lines : List Text → GoMap Text Text → GoMap Text Text
unfolding read_env_line
read_env_lines [] m = m
read_env_lines (line ∷ lines) m = read_env_lines lines (store (read_env_line line) m)

-- It returns no error.
unfoldable pub unmarshal : Text → GoMap Text Text
unfolding read_env_lines split_on
unmarshal content = read_env_lines (split_on 10 content) []
