-- ===== src/Config/Text.antt =====
-- Go's `strings` and `sort` over texts as lists of code points. Go compares the bytes of UTF-8,
-- which order as the code points do.
pub mod Laws
pub mod Entries
pub mod Order
use Prim.Native.Char.{code}
use operator_go.Prelude.{
  ℕ, String, Bool, true, false, ◌&&◌, ◌||◌, Option, none, some, List, [], ◌∷◌, ◌++◌, is_empty, eqb,
  ltb, leb, ◌+◌, if◌then◌else◌,
}
use operator_go.Common.Errors.{Result, ok, fail, opaque}

abbrev pub Text : Type 0
Text = List ℕ

abbrev pub codes : String → Text
codes String.[] = []
codes (String.◌∷◌ c s) = code c ∷ codes s

-- `a < b`
unfoldable pub text_less : Text → Text → Bool
text_less [] [] = false
text_less [] (y ∷ ys) = true
text_less (x ∷ xs) [] = false
text_less (x ∷ xs) (y ∷ ys) = ltb x y || (eqb x y && text_less xs ys)

-- `strings.ReplaceAll` of one character
unfoldable pub replace_char : ℕ → Text → Text → Text
replace_char c by [] = []
replace_char c by (x ∷ s) = (if eqb x c then by else x ∷ []) ++ replace_char c by s

-- `strings.TrimLeftFunc`
unfoldable pub trim_left : (ℕ → Bool) → Text → Text
trim_left p [] = []
trim_left p (x ∷ s) = let rest = trim_left p s in if p x then rest else x ∷ s

-- `strings.TrimRightFunc`
unfoldable pub trim_right : (ℕ → Bool) → Text → Text
trim_right p [] = []
trim_right p (x ∷ s) = let rest = trim_right p s in if is_empty rest && p x then [] else x ∷ rest

-- `unicode.IsSpace`
abbrev pub is_space : ℕ → Bool
is_space c =
    (leb 9 c && leb c 13)
    || eqb c 32
    || eqb c 133
    || eqb c 160
    || eqb c 5760
    || (leb 8192 c && leb c 8202)
    || eqb c 8232
    || eqb c 8233
    || eqb c 8239
    || eqb c 8287
    || eqb c 12288

-- `strings.TrimSpace`
unfoldable pub trim_space : Text → Text
unfolding trim_left trim_right
trim_space s = trim_right is_space (trim_left is_space s)

-- The head of a list of lines grows.
abbrev pub onto_first : ℕ → List Text → List Text
onto_first x [] = (x ∷ []) ∷ []
onto_first x (l ∷ ls) = (x ∷ l) ∷ ls

-- `strings.Split` at one character
unfoldable pub split_on : ℕ → Text → List Text
split_on c [] = [] ∷ []
split_on c (x ∷ s) = let rest = split_on c s in if eqb x c then [] ∷ rest else onto_first x rest

-- What follows a prefix, if the text has it.
unfoldable pub after_prefix : Text → Text → Option Text
after_prefix [] s = some s
after_prefix (p ∷ ps) [] = none
after_prefix (p ∷ ps) (x ∷ s) = let rest = after_prefix ps s in if eqb p x then rest else none

-- `strings.HasPrefix` of one character
abbrev pub starts_with : ℕ → Text → Bool
starts_with c [] = false
starts_with c (x ∷ s) = eqb x c

-- `strings.TrimPrefix`
unfoldable pub trim_prefix : Text → Text → Text
unfolding after_prefix
trim_prefix pre s = elim (after_prefix pre s) [ none ↦ s | some rest ↦ rest ]

abbrev pub onto_fst : ℕ → Option (Text × Text) → Option (Text × Text)
onto_fst x none = none
onto_fst x (some (a, b)) = some (x ∷ a, b)

-- The texts before and after the first character that passes a test.
unfoldable pub cut_at : (ℕ → Bool) → Text → Option (Text × Text)
cut_at p [] = none
cut_at p (x ∷ s) = let rest = cut_at p s in if p x then some ([], s) else onto_fst x rest

-- The bytes of a text in UTF-8.
unfoldable pub utf8_size : Text → ℕ
utf8_size [] = 0
utf8_size (c ∷ s) =
    (if ltb c 128 then 1 else if ltb c 2048 then 2 else if ltb c 65536 then 3 else 4) + utf8_size s

-- `bufio.ScanLines` drops one carriage return before a line break.
unfoldable pub drop_cr : Text → Text
drop_cr [] = []
drop_cr (x ∷ []) = if eqb x 13 then [] else x ∷ []
drop_cr (x ∷ y ∷ s) = x ∷ drop_cr (y ∷ s)

-- `bufio.MaxScanTokenSize`
abbrev pub max_scan_token_size : ℕ
max_scan_token_size = 65536

abbrev pub onto_lines : Text → Result (List Text) → Result (List Text)
onto_lines line (ok lines) = ok (line ∷ lines)
onto_lines line (fail err) = fail err

-- The lines of a `bufio.Scanner`, given those between line breaks; a last one that is empty is none.
unfoldable pub scan_split : List Text → Result (List Text)
unfolding utf8_size drop_cr
scan_split [] = ok []
scan_split ([] ∷ []) = ok []
scan_split ((c ∷ s) ∷ []) =
    if ltb (utf8_size (c ∷ s)) max_scan_token_size
    then ok (drop_cr (c ∷ s) ∷ [])
    else fail (opaque "bufio.Scanner: token too long")
scan_split (line ∷ next ∷ lines) =
    let rest = scan_split (next ∷ lines) in
    if ltb (utf8_size line) max_scan_token_size
    then onto_lines (drop_cr line) rest
    else fail (opaque "bufio.Scanner: token too long")

unfoldable pub scan_lines : Text → Result (List Text)
unfolding scan_split split_on
scan_lines content = scan_split (split_on 10 content)
