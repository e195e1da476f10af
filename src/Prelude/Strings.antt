-- ===== src/Prelude/Strings.antt =====
-- Go's string helpers over native texts: joining, sorting, decimal rendering. Cluster, role and
-- group names are RFC 1123 labels, so bytes and characters agree on them.
use Prim.Native.Char.{code}
use Prim.Native.Nat.{ℕ, zero, suc, ◌/◌, ◌%◌, Ordering}
use Prim.Native.String.{String, compare, ◌++◌}
use mathlib.Core.Bool.{Bool, true, false, ◌&&◌}
use mathlib.Core.List.{List, [], ◌∷◌}
use operator_go.Prelude.Tests.{eqb, if◌then◌else◌}
use operator_go.Prelude.Sort.{sort_by}

-- Concatenation.
infixr 60 ◌<>◌
abbrev pub ◌<>◌ : String → String → String
s <> t = s ++ t

-- `a < b`, as Go compares strings
abbrev pub str_less : String → String → Bool
str_less a b = elim (compare a b) [ Ordering.lt ↦ true | _ ↦ false ]

-- `sort.Strings`
unfoldable pub sort_strings : List String → List String
unfolding sort_by
sort_strings = sort_by str_less

-- `strings.Join`
unfoldable pub join_strings : String → List String → String
join_strings sep [] = ""
join_strings sep (x ∷ []) = x
join_strings sep (x ∷ y ∷ xs) = x <> sep <> join_strings sep (y ∷ xs)

abbrev pub size : String → ℕ
size String.[] = 0
size (String.◌∷◌ c s) = suc (size s)

abbrev pub take_chars : ℕ → String → String
take_chars zero s = String.[]
take_chars (suc n) String.[] = String.[]
take_chars (suc n) (String.◌∷◌ c s) = String.◌∷◌ c (take_chars n s)

abbrev pub is_empty_string : String → Bool
is_empty_string String.[] = true
is_empty_string (String.◌∷◌ c s) = false

-- `strings.TrimRight(s, "-")`
unfoldable pub trim_right_dashes : String → String
trim_right_dashes String.[] = String.[]
trim_right_dashes (String.◌∷◌ c s) =
    let rest = trim_right_dashes s in
    if is_empty_string rest && eqb (code c) b'-' then String.[] else String.◌∷◌ c rest

abbrev digit : ℕ → String
digit n =
    if eqb n 0
    then "0"
    else if eqb n 1
    then "1"
    else if eqb n 2
    then "2"
    else if eqb n 3
    then "3"
    else if eqb n 4
    then "4"
    else if eqb n 5
    then "5"
    else if eqb n 6
    then "6"
    else if eqb n 7
    then "7"
    else if eqb n 8
    then "8"
    else "9"

-- `%d`; a number has fewer digits than its value plus one.
unfoldable pub decimal_from : ℕ → ℕ → String → String
decimal_from zero n acc = acc
decimal_from (suc fuel) n acc =
    let out = digit (n % 10) <> acc in
    let rest = decimal_from fuel (n / 10) out in if eqb (n / 10) 0 then out else rest

unfoldable pub decimal : ℕ → String
unfolding decimal_from
decimal n = decimal_from (suc n) n ""
