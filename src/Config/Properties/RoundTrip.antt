-- ===== src/Config/Properties/RoundTrip.antt =====
-- What `PropertiesAdapter` writes, it reads back, unless a line is too long for its scanner.
use operator_go.Prelude.{
  ℕ, true, false, ◌||◌, none, List, [], ◌∷◌, map, ◌≡◌, refl, sym, ap, ◌∙◌, ◌↔◌, inl, inr, All,
  arith, is_empty, eqb, ltb, if◌then◌else◌, Bool-cases,
}
use mathlib.Core.Path.{subst}
use operator_go.Prelude.Eq.{text_eq}
use operator_go.Prelude.Maps.{GoMap, lookup, insert, copy_into}
use operator_go.Prelude.Sort.{sort_by-All, sort_by-All_of}
use operator_go.Common.Errors.{Result, ok, fail, opaque, IsOk}
use operator_go.Config.Text.{
  Text, text_less, split_on, onto_first, utf8_size, drop_cr, max_scan_token_size, onto_lines,
  scan_split, scan_lines,
}
use operator_go.Config.Text.Laws.{Lacks, split_on-append}
use operator_go.Config.Text.Entries.{
  keys_of, sorted_keys, value_at, entries_at, lookup-sorted_entries,
}
use operator_go.Config.Properties.{
  properties_line, write_properties, marshal, next_line, read_natural_lines, read_scanned,
  unmarshal,
}
use operator_go.Config.Properties.Lines.{
  is_break, parse-properties_line, properties_line-ends, properties_line-Lacks,
}

split_on-ne_nil : (c : ℕ) (s : Text) → is_empty (split_on c s) ≡ false
unfolding split_on
split_on-ne_nil c [] = refl
split_on-ne_nil c (x ∷ s) = elim (Bool-cases (eqb x c)) [
  | inl same ↦ rw same refl
  | inr other ↦ rw other (onto x (split_on c s))
]
  where
    onto : (x : ℕ) (ls : List Text) → is_empty (onto_first x ls) ≡ false
    onto x [] = refl
    onto x (l ∷ ls) = refl

drop_cr-Lacks : (s : Text) → Lacks is_break s → drop_cr s ≡ s
unfolding drop_cr
drop_cr-Lacks [] h = refl
drop_cr-Lacks (x ∷ []) h = ground (arith, h.0)
drop_cr-Lacks (x ∷ y ∷ s) h = ap (λ (t : Text). x ∷ t) (drop_cr-Lacks (y ∷ s) h.1)

Lacks-newline : (s : Text) → Lacks is_break s → Lacks (λ x. eqb x 10) s
Lacks-newline [] h = tt
Lacks-newline (x ∷ s) h = (ground (arith, h.0), Lacks-newline s h.1)

scan_split-line :
    (line : Text) (lines : List Text)
    → is_empty lines ≡ false
    → drop_cr line ≡ line
    → scan_split (line ∷ lines) ≡ (
        if ltb (utf8_size line) max_scan_token_size
        then onto_lines line (scan_split lines)
        else fail (opaque "bufio.Scanner: token too long"))
unfolding scan_split
scan_split-line line [] e d = cc
scan_split-line [] (next ∷ lines) e d = unfold drop_cr in refl
scan_split-line (x ∷ line) (next ∷ lines) e d =
    ap
      (λ (t : Text).
        if ltb (utf8_size (x ∷ line)) max_scan_token_size
        then onto_lines t (scan_split (next ∷ lines))
        else fail (opaque "bufio.Scanner: token too long"))
      d

-- A read map has the values of the map.
abbrev pub ReadsBack : GoMap Text Text → Result (GoMap Text Text) → Type 0
ReadsBack m (ok r) = (key : Text) → lookup key r ≡ lookup key m
ReadsBack m (fail err) = ⊥

module _ (c : ℕ) (sep : (eqb c b'=' || eqb c b':') ≡ true) (m : GoMap Text Text) where
  abbrev pub line_at : Text → Text
  line_at k = properties_line (c ∷ []) k (value_at m k)

  scan-write :
      (k : Text) (keys : List Text)
      → scan_lines (write_properties (c ∷ []) m (k ∷ keys)) ≡ (
          if ltb (utf8_size (line_at k)) max_scan_token_size
          then onto_lines (line_at k) (scan_lines (write_properties (c ∷ []) m keys))
          else fail (opaque "bufio.Scanner: token too long"))
  unfolding scan_lines write_properties
  scan-write k keys =
      ap scan_split (
        split_on-append 10 (line_at k) (write_properties (c ∷ []) m keys)
          (Lacks-newline (line_at k) (properties_line-Lacks c sep k (value_at m k))))
      ∙ scan_split-line (line_at k) (split_on 10 (write_properties (c ∷ []) m keys))
          (split_on-ne_nil 10 (write_properties (c ∷ []) m keys))
          (drop_cr-Lacks (line_at k) (properties_line-Lacks c sep k (value_at m k)))

  -- The line of a key is shorter than the scanner's limit, in bytes.
  abbrev pub Fits : Text → Type 0
  Fits k = ltb (utf8_size (line_at k)) max_scan_token_size ≡ true

  read-lines :
      (keys : List Text) (r : GoMap Text Text)
      → read_natural_lines (map line_at keys) none r ≡ copy_into r (entries_at m keys)
  unfolding read_natural_lines copy_into
  read-lines [] r = refl
  read-lines (k ∷ keys) r =
      ap (λ b. next_line b [] (line_at k) (read_natural_lines (map line_at keys)) r)
        (properties_line-ends c sep k (value_at m k))
      ∙ ap (read_natural_lines (map line_at keys) none)
          (parse-properties_line c sep k (value_at m k) r)
      ∙ read-lines keys (insert k (value_at m k) r)

  -- The scanner gives the lines, if each fits.
  abbrev Scanned : List Text → Result (List Text) → Type 0
  Scanned keys (ok lines) = (lines ≡ map line_at keys) × All Fits keys
  Scanned keys (fail err) = All Fits keys → ⊥

  Scanned-next :
      (k : Text) (keys : List Text) (rest : Result (List Text))
      → Scanned keys rest
      → Scanned (k ∷ keys) (
          if ltb (utf8_size (line_at k)) max_scan_token_size
          then onto_lines (line_at k) rest
          else fail (opaque "bufio.Scanner: token too long"))
  Scanned-next k keys (ok lines) h =
      elim (Bool-cases (ltb (utf8_size (line_at k)) max_scan_token_size)) [
        | inl fits ↦ rw fits (ap (λ (ls : List Text). line_at k ∷ ls) h.0, (fits, h.1))
        | inr long ↦ rw long (λ all. cc (all.0, long))
      ]
  Scanned-next k keys (fail err) h =
      elim (Bool-cases (ltb (utf8_size (line_at k)) max_scan_token_size)) [
        | inl fits ↦ rw fits (λ all. h all.1)
        | inr long ↦ rw long (λ all. cc (all.0, long))
      ]

  scan-Scanned : (keys : List Text) → Scanned keys (scan_lines (write_properties (c ∷ []) m keys))
  scan-Scanned [] = unfold scan_lines split_on scan_split write_properties in (refl, tt)
  scan-Scanned (k ∷ keys) =
      subst (Scanned (k ∷ keys)) (sym (scan-write k keys))
        (Scanned-next k keys (scan_lines (write_properties (c ∷ []) m keys)) (scan-Scanned keys))

  read_scanned-ReadsBack :
      (scanned : Result (List Text))
      → Scanned (sorted_keys m) scanned
      → (ReadsBack m (read_scanned scanned) ↔ All Fits (sorted_keys m))
        × (IsOk (read_scanned scanned) ↔ All Fits (sorted_keys m))
  unfolding read_scanned
  read_scanned-ReadsBack (ok lines) h = (
    (
      λ r. h.1,
      λ fits key.
          ap (λ ls. lookup key (read_natural_lines ls none [])) h.0
          ∙ ap (lookup key) (read-lines (sorted_keys m) [])
          ∙ lookup-sorted_entries key m,
    ),
    (λ u. h.1, λ fits. tt),
  )
  read_scanned-ReadsBack (fail err) h = ((λ r. absurd r, h), (λ r. absurd r, h))

  Fits-sorted : All Fits (sorted_keys m) ↔ All Fits (keys_of m)
  unfolding sorted_keys
  Fits-sorted = (sort_by-All_of text_less Fits (keys_of m), sort_by-All text_less Fits (keys_of m))

  -- With `=` or `:` for its separator, what the adapter writes for a map reads back with the same
  -- values exactly when every line is shorter than 65536 bytes; with a longer one, reading fails,
  -- and it fails for no other reason.
  pub unmarshal-marshal-ReadsBack :
      (ReadsBack m (unmarshal (marshal (c ∷ []) m)) ↔ All Fits (keys_of m))
      × (IsOk (unmarshal (marshal (c ∷ []) m)) ↔ All Fits (keys_of m))
  unfolding unmarshal marshal
  unmarshal-marshal-ReadsBack =
      let read =
        read_scanned-ReadsBack (scan_lines (write_properties (c ∷ []) m (sorted_keys m)))
          (scan-Scanned (sorted_keys m)) in
      (
        (λ r. Fits-sorted.0 (read.0.0 r), λ fits. read.0.1 (Fits-sorted.1 fits)),
        (λ r. Fits-sorted.0 (read.1.0 r), λ fits. read.1.1 (Fits-sorted.1 fits)),
      )
