-- ===== src/Config/Env/RoundTrip.antt =====
-- What `EnvAdapter` writes, it reads back, and when it refuses to write.
use operator_go.Prelude.{
  Bool, true, false, none, some, List, [], ◌∷◌, ◌++◌, ◌≡◌, refl, sym, ap, ◌∙◌, ◌↔◌, inl, inr, All,
  Bool-cases,
}
use mathlib.Core.List.{append_assoc}
use mathlib.Core.Path.{subst}
use operator_go.Prelude.Sort.{sort_by, sort_by-All, sort_by-All_of}
use operator_go.Prelude.Eq.{text_eq}
use operator_go.Prelude.Maps.{GoMap, lookup, insert, copy_into}
use operator_go.Common.Errors.{IsOk, Result, ok, fail}
use operator_go.Config.Text.{Text, text_less, split_on}
use operator_go.Config.Text.Laws.{split_on-append}
use operator_go.Config.Text.Entries.{
  keys_of, sorted_keys, value_at, entries_at, lookup-sorted_entries,
}
use operator_go.Config.Env.{
  is_env_key, env_key_error, validate_env_key, env_line, onto_text, write_entry, write_entries,
  marshal, read_env_line, store, read_env_lines, unmarshal,
}
use operator_go.Config.Env.Lines.{read_env_line-env_line, env_line-Lacks}

-- A blank line stores nothing.
read_env_line-nil : read_env_line [] ≡ none
unfolding read_env_line
read_env_line-nil = refl

abbrev ReadsAs : GoMap Text Text → List Text → GoMap Text Text → Result Text → Type 0
ReadsAs m keys r (fail err) = Unit
ReadsAs m keys r (ok out) = read_env_lines (split_on 10 out) r ≡ copy_into r (entries_at m keys)

ReadsAs-line :
    (export_prefix : Bool) (m : GoMap Text Text) (k : Text) (keys : List Text) (r : GoMap Text Text)
    (rest : Result Text)
    → is_env_key k ≡ true
    → ReadsAs m keys (insert k (value_at m k) r) rest
    → ReadsAs m (k ∷ keys) r (onto_text (env_line export_prefix k (value_at m k) ++ 10 ∷ []) rest)
unfolding read_env_lines copy_into
ReadsAs-line e m k keys r (fail err) hk h = tt
ReadsAs-line e m k keys r (ok out) hk h =
    ap (λ t. read_env_lines (split_on 10 t) r)
      (append_assoc (env_line e k (value_at m k)) (10 ∷ []) out)
    ∙ ap (λ ls. read_env_lines ls r)
        (split_on-append 10 (env_line e k (value_at m k)) out
          (env_line-Lacks e k (value_at m k) hk))
    ∙ ap (λ entry. read_env_lines (split_on 10 out) (store entry r))
        (read_env_line-env_line e k (value_at m k) hk)
    ∙ h

validated : (k : Text) → is_env_key k ≡ true → validate_env_key k ≡ none
unfolding validate_env_key
validated k h = rw h refl

refused : (k : Text) → is_env_key k ≡ false → validate_env_key k ≡ some env_key_error
unfolding validate_env_key
refused k h = rw h refl

module _ (e : Bool) (m : GoMap Text Text) (k : Text) (keys : List Text) where
  write_valid :
      is_env_key k ≡ true
      → write_entries e m (k ∷ keys)
        ≡ onto_text (env_line e k (value_at m k) ++ 10 ∷ []) (write_entries e m keys)
  unfolding write_entries
  write_valid h =
      ap (λ v. write_entry v (env_line e k (value_at m k) ++ 10 ∷ []) (write_entries e m keys))
        (validated k h)

  write_invalid : is_env_key k ≡ false → write_entries e m (k ∷ keys) ≡ fail env_key_error
  unfolding write_entries
  write_invalid h =
      ap (λ v. write_entry v (env_line e k (value_at m k) ++ 10 ∷ []) (write_entries e m keys))
        (refused k h)

write_entries-ReadsAs :
    (e : Bool) (m : GoMap Text Text) (keys : List Text) (r : GoMap Text Text)
    → ReadsAs m keys r (write_entries e m keys)
write_entries-ReadsAs e m [] r =
    unfold write_entries split_on read_env_lines copy_into in ap (λ x. store x r) read_env_line-nil
write_entries-ReadsAs e m (k ∷ keys) r = elim (Bool-cases (is_env_key k)) [
  | inl valid ↦ subst (ReadsAs m (k ∷ keys) r) (sym (write_valid e m k keys valid)) (
      ReadsAs-line e m k keys r (write_entries e m keys) valid
        (write_entries-ReadsAs e m keys (insert k (value_at m k) r)))
  | inr invalid ↦ subst (ReadsAs m (k ∷ keys) r) (sym (write_invalid e m k keys invalid)) tt
]

-- Whatever map is written, with or without the export prefix, the text reads back as a map with the
-- same values.
pub lookup-unmarshal-marshal :
    (export_prefix : Bool) (m : GoMap Text Text) (out : Text)
    → marshal export_prefix m ≡ ok out
    → (key : Text) → lookup key (unmarshal out) ≡ lookup key m
unfolding marshal unmarshal
lookup-unmarshal-marshal e m out h key =
    let read : ReadsAs m (sorted_keys m) [] (ok out) =
      subst (ReadsAs m (sorted_keys m) []) h (write_entries-ReadsAs e m (sorted_keys m) []) in
    ap (lookup key) read ∙ lookup-sorted_entries key m

onto_text-IsOk :
    (s : Text) (rest : Result Text) (P : Type 0)
    → (IsOk rest ↔ P)
    → (IsOk (onto_text s rest) ↔ (Unit {0} × P))
onto_text-IsOk s (ok t) P h = (λ u. (tt, h.0 tt), λ p. tt)
onto_text-IsOk s (fail err) P h = (λ u. absurd u, λ p. h.1 p.1)

write_entries-IsOk :
    (e : Bool) (m : GoMap Text Text) (keys : List Text)
    → IsOk (write_entries e m keys) ↔ All (λ k. is_env_key k ≡ true) keys
write_entries-IsOk e m [] = unfold write_entries in (λ h. tt, λ h. tt)
write_entries-IsOk e m (k ∷ keys) =
    let wrote =
      onto_text-IsOk (env_line e k (value_at m k) ++ 10 ∷ []) (write_entries e m keys)
        (All (λ k. is_env_key k ≡ true) keys) (write_entries-IsOk e m keys) in
    elim (Bool-cases (is_env_key k)) [
      | inl valid ↦ (
        λ h. (valid, (wrote.0 (subst IsOk (write_valid e m k keys valid) h)).1),
        λ h. subst IsOk (sym (write_valid e m k keys valid)) (wrote.1 (tt, h.1)),
      )
      | inr invalid ↦ (
        λ h. absurd (subst IsOk (write_invalid e m k keys invalid) h),
        λ h. let bad : ⊥ = cc (invalid, h.0) in absurd bad,
      )
    ]

-- Writing succeeds exactly when every key of the map is a POSIX variable name.
pub marshal-IsOk :
    (export_prefix : Bool) (m : GoMap Text Text)
    → IsOk (marshal export_prefix m) ↔ All (λ k. is_env_key k ≡ true) (keys_of m)
unfolding marshal sorted_keys
marshal-IsOk e m =
    let written = write_entries-IsOk e m (sort_by text_less (keys_of m)) in
    (
      λ h. sort_by-All_of text_less (λ k. is_env_key k ≡ true) (keys_of m) (written.0 h),
      λ h. written.1 (sort_by-All text_less (λ k. is_env_key k ≡ true) (keys_of m) h),
    )
