-- ===== src/Config/Properties.antt =====
-- pkg/config/properties_adapter.go.
pub mod Escapes
pub mod Words
pub mod Trims
pub mod Edges
pub mod Kept
pub mod Lines
pub mod RoundTrip
use operator_go.Prelude.{
  ℕ, zero, suc, ◌+◌, Bool, true, false, not, ◌&&◌, ◌||◌, Option, none, some, List, [], ◌∷◌, ◌++◌,
  is_empty, eqb, if◌then◌else◌,
}
use mathlib.Core.List.{reverse}
use operator_go.Prelude.Eq.{text_eq}
use operator_go.Prelude.Maps.{GoMap, insert}
use operator_go.Common.Errors.{Result, ok, fail, wrapped, formatted}
use operator_go.Config.Text.{Text, replace_char, trim_left, starts_with, onto_fst, scan_lines}
use operator_go.Config.Text.Entries.{sorted_keys, value_at}
unfoldable pub use operator_go.Config.Properties.Escapes.{
  hex_digit, hex_number, parse_hex_quad, is_surrogate, decode_pair, with_width, low_surrogate,
  decode_unit, decode_properties_unicode, properties_escape, unescape_from, unescape_properties,
}

unfoldable pub escape_properties_key : Text → Text
unfolding replace_char
escape_properties_key s =
    let s1 = replace_char b'\\' (b'\\' ∷ b'\\' ∷ []) s in
    let s2 = replace_char b'=' (b'\\' ∷ b'=' ∷ []) s1 in
    let s3 = replace_char b':' (b'\\' ∷ b':' ∷ []) s2 in
    let s4 = replace_char b' ' (b'\\' ∷ b' ' ∷ []) s3 in
    let s5 = replace_char b'#' (b'\\' ∷ b'#' ∷ []) s4 in
    let s6 = replace_char b'!' (b'\\' ∷ b'!' ∷ []) s5 in
    let s7 = replace_char 10 (b'\\' ∷ b'n' ∷ []) s6 in
    let s8 = replace_char 13 (b'\\' ∷ b'r' ∷ []) s7 in replace_char 9 (b'\\' ∷ b't' ∷ []) s8

-- The spaces that a text begins with, and what follows them.
unfoldable pub spaces : Text → ℕ
spaces [] = 0
spaces (x ∷ s) = let n = suc (spaces s) in if eqb x b' ' then n else 0

unfoldable pub after_spaces : Text → Text
after_spaces [] = []
after_spaces (x ∷ s) = let rest = after_spaces s in if eqb x b' ' then rest else x ∷ s

-- `strings.Repeat(escapeSpace, n)`
unfoldable pub escaped_spaces : ℕ → Text
escaped_spaces zero = []
escaped_spaces (suc n) = b'\\' ∷ b' ' ∷ escaped_spaces n

unfoldable pub escape_edge_spaces : Text → Text
unfolding spaces after_spaces escaped_spaces
escape_edge_spaces s =
    let lead = spaces s in
    let from_end = reverse (after_spaces s) in
    let trail = spaces from_end in
    if eqb lead 0 && eqb trail 0
    then s
    else escaped_spaces lead ++ (reverse (after_spaces from_end) ++ escaped_spaces trail)

-- The replacements of `escapePropertiesValue`, before its edge spaces.
unfoldable pub escape_inner : Text → Text
unfolding replace_char
escape_inner s =
    let s1 = replace_char b'\\' (b'\\' ∷ b'\\' ∷ []) s in
    let s2 = replace_char 10 (b'\\' ∷ b'n' ∷ []) s1 in
    let s3 = replace_char 13 (b'\\' ∷ b'r' ∷ []) s2 in replace_char 9 (b'\\' ∷ b't' ∷ []) s3

unfoldable pub escape_properties_value : Text → Text
unfolding escape_inner escape_edge_spaces
escape_properties_value s = escape_edge_spaces (escape_inner s)

-- One entry, without its line break.
unfoldable pub properties_line : Text → Text → Text → Text
unfolding escape_properties_key escape_properties_value
properties_line separator key value =
    escape_properties_key key ++ (separator ++ escape_properties_value value)

unfoldable pub write_properties : Text → GoMap Text Text → List Text → Text
unfolding properties_line
write_properties separator m [] = []
write_properties separator m (key ∷ keys) =
    properties_line separator key (value_at m key) ++ 10 ∷ write_properties separator m keys

-- It returns no error.
unfoldable pub marshal : Text → GoMap Text Text → Text
unfolding write_properties sorted_keys
marshal separator m = write_properties separator m (sorted_keys m)

abbrev pub is_properties_space : ℕ → Bool
is_properties_space c = eqb c b' ' || eqb c 9

unfoldable pub leading_backslashes : Text → ℕ
leading_backslashes [] = 0
leading_backslashes (x ∷ s) = let n = suc (leading_backslashes s) in if eqb x b'\\' then n else 0

-- The loop from the end of the text.
unfoldable pub trailing_backslashes : Text → ℕ
unfolding leading_backslashes
trailing_backslashes s = leading_backslashes (reverse s)

-- `n % 2 == 1`
abbrev pub is_odd : ℕ → Bool
is_odd zero = false
is_odd (suc n) = not (is_odd n)

-- The loop of `trimPropertiesSpace` from the end, on the text read from there.
unfoldable pub trim_from_end : Text → Text
unfolding leading_backslashes
trim_from_end [] = []
trim_from_end (x ∷ before) =
    let rest = trim_from_end before in
    if is_properties_space x && not (is_odd (leading_backslashes before)) then rest else x ∷ before

unfoldable pub trim_end : Text → Text
unfolding trim_from_end
trim_end s = reverse (trim_from_end (reverse s))

unfoldable pub trim_properties_space : Text → Text
unfolding trim_left trim_end
trim_properties_space s = trim_end (trim_left is_properties_space s)

-- The texts before and after the separator at `propertiesSeparatorIndex`. The flags: after a
-- backslash, and at the first character.
unfoldable pub cut_at_separator : Bool → Bool → Text → Option (Text × Text)
cut_at_separator escaped first [] = none
cut_at_separator true first (c ∷ s) = onto_fst c (cut_at_separator false false s)
cut_at_separator false first (c ∷ s) =
    let escape = cut_at_separator true false s in
    let rest = cut_at_separator false false s in
    if eqb c b'\\'
    then onto_fst c escape
    else if eqb c b'=' || eqb c b':'
    then some ([], s)
    else if eqb c b' ' && not first
    then some ([], s)
    else onto_fst c rest

-- An entry, or a key with no value.
unfoldable pub store_cut : Text → Option (Text × Text) → GoMap Text Text → GoMap Text Text
unfolding unescape_properties trim_properties_space
store_cut line none m = insert (unescape_properties line) [] m
store_cut line (some (key, value)) m =
    insert (unescape_properties (trim_properties_space key))
      (unescape_properties (trim_properties_space value)) m

unfoldable pub parse_trimmed : Text → GoMap Text Text → GoMap Text Text
unfolding store_cut cut_at_separator
parse_trimmed line m =
    if is_empty line || starts_with b'#' line || starts_with b'!' line
    then m
    else store_cut line (cut_at_separator false true line) m

unfoldable pub parse_properties_line : Text → GoMap Text Text → GoMap Text Text
unfolding trim_properties_space parse_trimmed
parse_properties_line line m = parse_trimmed (trim_properties_space line) m

abbrev pub continued_text : Option Text → Text
continued_text none = []
continued_text (some t) = t

-- `line[:len(line)-1]`
abbrev pub without_last : Text → Text
without_last [] = []
without_last (x ∷ []) = []
without_last (x ∷ y ∷ s) = x ∷ without_last (y ∷ s)

-- A natural line without the indentation of a continuation.
abbrev pub unindented : Option Text → Text → Text
unindented none line = line
unindented (some t) line = trim_left is_properties_space line

-- One turn of the loop, given whether a backslash continues the line: what the other lines do
-- takes the text so far, if they continue it, and the map.
abbrev pub next_line :
    Bool
    → Text
    → Text
    → (Option Text → GoMap Text Text → GoMap Text Text)
    → GoMap Text Text
    → GoMap Text Text
next_line true so_far line others m = others (some (so_far ++ without_last line)) m
next_line false so_far line others m = others none (parse_properties_line (so_far ++ line) m)

-- The loop over the natural lines, with the text that they continue.
unfoldable pub read_natural_lines : List Text → Option Text → GoMap Text Text → GoMap Text Text
unfolding trim_left trailing_backslashes parse_properties_line
read_natural_lines [] none m = m
read_natural_lines [] (some t) m = parse_properties_line t m
read_natural_lines (natural ∷ lines) continued m =
    let line = unindented continued natural in
    next_line (is_odd (trailing_backslashes line)) (continued_text continued) line
      (read_natural_lines lines) m

unfoldable pub read_scanned : Result (List Text) → Result (GoMap Text Text)
unfolding read_natural_lines
read_scanned (ok lines) = ok (read_natural_lines lines none [])
read_scanned (fail err) = fail (
    wrapped (formatted "failed to parse properties configuration")
      (wrapped (formatted "failed to scan properties") err))

unfoldable pub unmarshal : Text → Result (GoMap Text Text)
unfolding read_scanned scan_lines
unmarshal content = read_scanned (scan_lines content)
