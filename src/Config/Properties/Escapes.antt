-- ===== src/Config/Properties/Escapes.antt =====
-- The escapes of pkg/config/properties_adapter.go that reading undoes, those of UTF-16 among them.
use operator_go.Prelude.{
  ℕ, zero, suc, ◌+◌, ◌*◌, ◌-◌, Bool, not, ◌&&◌, ◌||◌, Option, none, some, [], ◌∷◌, eqb, ltb, leb,
  if◌then◌else◌,
}
use operator_go.Prelude.Eq.{text_eq}
use operator_go.Config.Text.{Text}

abbrev pub hex_digit : ℕ → Option ℕ
hex_digit c =
    if leb b'0' c && leb c b'9'
    then some (c - b'0')
    else if leb b'a' c && leb c b'f'
    then some (c - b'a' + 10)
    else if leb b'A' c && leb c b'F'
    then some (c - b'A' + 10)
    else none

abbrev pub hex_number : Option ℕ → Option ℕ → Option ℕ → Option ℕ → Option ℕ
hex_number (some a) (some b) (some c) (some d) = some (((a * 16 + b) * 16 + c) * 16 + d)
hex_number a b c d = none

unfoldable pub parse_hex_quad : Text → Option ℕ
parse_hex_quad (u ∷ a ∷ b ∷ c ∷ d ∷ s) =
    if eqb u b'u' then hex_number (hex_digit a) (hex_digit b) (hex_digit c) (hex_digit d) else none
parse_hex_quad s = none

abbrev pub is_surrogate : ℕ → Bool
is_surrogate c = leb 55296 c && ltb c 57344

-- `utf16.DecodeRune`, none for U+FFFD
unfoldable pub decode_pair : ℕ → Option ℕ → Option ℕ
decode_pair high none = none
decode_pair high (some low) =
    if leb 55296 high && ltb high 56320 && leb 56320 low && ltb low 57344
    then some ((high - 55296) * 1024 + (low - 56320) + 65536)
    else none

abbrev pub with_width : ℕ → Option ℕ → Option (ℕ × ℕ)
with_width n none = none
with_width n (some c) = some (c, n)

-- The second half of a surrogate pair.
unfoldable pub low_surrogate : Text → Option ℕ
unfolding parse_hex_quad
low_surrogate (u ∷ a ∷ b ∷ c ∷ d ∷ e ∷ s) = if eqb e b'\\' then parse_hex_quad s else none
low_surrogate s = none

unfoldable pub decode_unit : Text → Option ℕ → Option (ℕ × ℕ)
unfolding decode_pair low_surrogate
decode_unit runes none = none
decode_unit runes (some unit) =
    if not (is_surrogate unit)
    then some (unit, 5)
    else with_width 11 (decode_pair unit (low_surrogate runes))

-- The character of an escape, and the width to skip.
unfoldable pub decode_properties_unicode : Text → Option (ℕ × ℕ)
unfolding decode_unit parse_hex_quad
decode_properties_unicode runes = decode_unit runes (parse_hex_quad runes)

-- The escape after a backslash.
unfoldable pub properties_escape : Text → Option (ℕ × ℕ)
unfolding decode_properties_unicode
properties_escape [] = none
properties_escape (d ∷ s) =
    if eqb d b'n'
    then some (10, 1)
    else if eqb d b'r'
    then some (13, 1)
    else if eqb d b't'
    then some (9, 1)
    else if eqb d b'u'
    then decode_properties_unicode (d ∷ s)
    else if eqb d b'\\' || eqb d b'=' || eqb d b':' || eqb d b' ' || eqb d b'#' || eqb d b'!'
    then some (d, 1)
    else none

-- The loop, with the characters that it still skips.
unfoldable pub unescape_from : ℕ → Text → Text
unfolding properties_escape
unescape_from n [] = []
unescape_from (suc n) (c ∷ s) = unescape_from n s
unescape_from zero (c ∷ s) = elim (if eqb c b'\\' then properties_escape s else none) [
  | none ↦ c ∷ unescape_from zero s
  | some (d, width) ↦ d ∷ unescape_from width s
]

unfoldable pub unescape_properties : Text → Text
unfolding unescape_from
unescape_properties s = unescape_from zero s
