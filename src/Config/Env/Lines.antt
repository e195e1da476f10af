-- ===== src/Config/Env/Lines.antt =====
-- One line of an environment file: what is written is what is read.
use operator_go.Prelude.{
  ℕ, Bool, true, false, ◌||◌, none, some, [], ◌∷◌, ◌++◌, ◌≡◌, refl, ap, ◌∙◌, inl, inr, All-append,
  arith, is_empty, eqb, if◌then◌else◌, Bool-cases,
}
use operator_go.Config.Text.{
  Text, codes, is_space, trim_space, trim_prefix, after_prefix, cut_at, starts_with,
}
use operator_go.Config.Text.Laws.{
  Lacks, EndsWith, EndsWith-append, EndsWith-single, EndsWith-Lacks, trim_space_lem, cut_at-append,
  trim_prefix-append,
}
use operator_go.Config.Env.{
  all_pass, is_key_start, is_key_char, is_env_key, is_bare_char, is_bare_value, backslash_all,
  escape_env_value, env_line, read_assignment, read_trimmed, read_env_line,
}
use operator_go.Config.Env.Escapes.{
  env_escaped, backslash_all-cons, backslash_all-nil, all_pass-Lacks, env_value-escape,
}

bare_ne_space : (c : ℕ) → is_bare_char c ≡ true → is_space c ≡ false
bare_ne_space c h = ground arith

bare_ne_newline : (c : ℕ) → is_bare_char c ≡ true → eqb c 10 ≡ false
bare_ne_newline c h = ground arith

key_ne_space : (c : ℕ) → is_key_char c ≡ true → is_space c ≡ false
key_ne_space c h = ground arith

key_ne_equal : (c : ℕ) → is_key_char c ≡ true → eqb c b'=' ≡ false
key_ne_equal c h = ground arith

key_ne_blank : (c : ℕ) → is_key_char c ≡ true → eqb c b' ' ≡ false
key_ne_blank c h = ground arith

key_ne_newline : (c : ℕ) → is_key_char c ≡ true → eqb c 10 ≡ false
key_ne_newline c h = ground arith

key_start : (c : ℕ) → is_key_start c ≡ true → is_key_char c ≡ true
key_start c h = ground arith

start_ne_hash : (c : ℕ) → is_key_start c ≡ true → eqb c b'#' ≡ false
start_ne_hash c h = ground arith

-- Written values begin and end outside the blanks.
abbrev BeginsWith : (ℕ → Bool) → Text → Type 0
BeginsWith p [] = ⊥
BeginsWith p (x ∷ s) = p x ≡ false

trimmed : (s : Text) → BeginsWith is_space s → EndsWith is_space s → trim_space s ≡ s
trimmed [] h e = absurd h
trimmed (x ∷ s) h e = trim_space_lem x s h e

begins_append : (p : ℕ → Bool) (a b : Text) → BeginsWith p a → BeginsWith p (a ++ b)
begins_append p [] b h = absurd h
begins_append p (x ∷ a) b h = h

-- By cases on whether a value is written bare.
value_cases :
    (P : Text → Type 0) (v : Text)
    → (is_bare_value v ≡ true → P v)
    → P (34 ∷ (backslash_all v ++ 34 ∷ []))
    → P (escape_env_value v)
unfolding escape_env_value
value_cases P v bare quoted = elim (Bool-cases (is_bare_value v)) [
  | inl h ↦ rw h (bare h)
  | inr h ↦ rw h quoted
]

bare_begins : (v : Text) → is_bare_value v ≡ true → BeginsWith is_space v
unfolding is_bare_value
bare_begins [] h = cc
bare_begins (x ∷ v) h = bare_ne_space x (ground arith)

bare_ends : (v : Text) → is_bare_value v ≡ true → EndsWith is_space v
unfolding is_bare_value
bare_ends [] h = cc
bare_ends (x ∷ v) h =
    EndsWith-Lacks is_space x v (all_pass-Lacks is_bare_char is_space bare_ne_space (x ∷ v) h)

escaped_begins : (v : Text) → BeginsWith is_space (escape_env_value v)
escaped_begins v = value_cases (BeginsWith is_space) v (bare_begins v) refl

escaped_ends : (v : Text) → EndsWith is_space (escape_env_value v)
escaped_ends v =
    value_cases (EndsWith is_space) v (bare_ends v)
      (EndsWith-append is_space (34 ∷ backslash_all v) (34 ∷ []) (EndsWith-single is_space 34 refl))

-- A name is not blank, and holds none of the characters that a name cannot hold.
key_chars : (k : Text) → is_env_key k ≡ true → all_pass is_key_char k ≡ true
unfolding is_env_key
key_chars [] h = cc
key_chars (x ∷ s) h =
    let first : is_key_char x ≡ true = key_start x (ground arith) in ground (arith, first)

key_begins : (k : Text) → is_env_key k ≡ true → BeginsWith is_space k
unfolding is_env_key
key_begins [] h = cc
key_begins (x ∷ s) h = key_ne_space x (key_start x (ground arith))

key_ends : (k : Text) → is_env_key k ≡ true → EndsWith is_space k
key_ends [] h = unfold is_env_key in cc
key_ends (x ∷ s) h =
    EndsWith-Lacks is_space x s
      (all_pass-Lacks is_key_char is_space key_ne_space (x ∷ s) (key_chars (x ∷ s) h))

key_not_comment :
    (k t : Text) → is_env_key k ≡ true → (is_empty (k ++ t) || starts_with b'#' (k ++ t)) ≡ false
unfolding is_env_key
key_not_comment [] t h = cc
key_not_comment (x ∷ s) t h = start_ne_hash x (ground arith)

-- No name hides the prefix.
after_prefix-key :
    (pre k v : Text)
    → Lacks (λ c. eqb c b'=') pre
    → Lacks (λ c. eqb c b' ') k
    → after_prefix (pre ++ b' ' ∷ []) (k ++ b'=' ∷ v) ≡ none
unfolding after_prefix
after_prefix-key [] [] v hp hk = refl
after_prefix-key [] (x ∷ k) v hp hk = ground (arith, hk.0)
after_prefix-key (p ∷ pre) [] v hp hk = ground (arith, hp.0)
after_prefix-key (p ∷ pre) (x ∷ k) v hp hk = ground (arith, after_prefix-key pre k v hp.1 hk.1)

trim_prefix-key :
    (k v : Text)
    → is_env_key k ≡ true
    → trim_prefix (codes "export ") (k ++ b'=' ∷ v) ≡ k ++ b'=' ∷ v
unfolding trim_prefix
trim_prefix-key k v h =
    ap (λ o. elim o as (λ x. Text) [ none ↦ k ++ b'=' ∷ v | some rest ↦ rest ])
      (after_prefix-key (codes "export") k v (refl, (refl, (refl, (refl, (refl, (refl, tt))))))
        (all_pass-Lacks is_key_char (λ c. eqb c b' ') key_ne_blank k (key_chars k h)))

-- The assignment of a line, without a prefix.
abbrev assignment : Text → Text → Text
assignment k v = k ++ b'=' ∷ escape_env_value v

assignment_trimmed :
    (k v : Text) → is_env_key k ≡ true → trim_space (assignment k v) ≡ assignment k v
assignment_trimmed k v h =
    trimmed (assignment k v) (begins_append is_space k (b'=' ∷ escape_env_value v) (key_begins k h))
      (EndsWith-append is_space k (b'=' ∷ escape_env_value v)
        (EndsWith-append is_space (b'=' ∷ []) (escape_env_value v) (escaped_ends v)))

read_assignment_lem :
    (k v : Text)
    → is_env_key k ≡ true
    → read_assignment (cut_at (λ c. eqb c b'=') (assignment k v)) ≡ some (k, v)
read_assignment_lem k v h =
    ap read_assignment (
      cut_at-append (λ c. eqb c b'=') k b'=' (escape_env_value v)
        (all_pass-Lacks is_key_char (λ c. eqb c b'=') key_ne_equal k (key_chars k h)) refl)
    ∙ unfold read_assignment in
      rw
        (
          trimmed k (key_begins k h) (key_ends k h),
          trimmed (escape_env_value v) (escaped_begins v) (escaped_ends v),
          env_value-escape v,
        )
        refl

-- A line reads as the entry it was written for.
pub read_env_line-env_line :
    (export_prefix : Bool) (k v : Text)
    → is_env_key k ≡ true
    → read_env_line (env_line export_prefix k v) ≡ some (k, v)
unfolding read_env_line env_line
read_env_line-env_line false k v h =
    ap read_trimmed (assignment_trimmed k v h)
    ∙ unfold read_trimmed in
      rw
        (
          key_not_comment k (b'=' ∷ escape_env_value v) h,
          trim_prefix-key k (escape_env_value v) h,
          assignment_trimmed k v h,
        )
        (read_assignment_lem k v h)
read_env_line-env_line true k v h =
    ap read_trimmed (
      trim_space_lem b'e' (codes "xport " ++ assignment k v) refl (
        EndsWith-append is_space (codes "export ") (assignment k v) (
          EndsWith-append is_space k (b'=' ∷ escape_env_value v)
            (EndsWith-append is_space (b'=' ∷ []) (escape_env_value v) (escaped_ends v)))))
    ∙ unfold read_trimmed in
      ap (λ (t : Text). read_assignment (cut_at (λ c. eqb c b'=') (trim_space t)))
        (trim_prefix-append (codes "export ") (assignment k v))
      ∙ rw (assignment_trimmed k v h) (read_assignment_lem k v h)

bare_newline_free : (v : Text) → is_bare_value v ≡ true → Lacks (λ c. eqb c 10) v
unfolding is_bare_value
bare_newline_free [] h = cc
bare_newline_free (x ∷ v) h = all_pass-Lacks is_bare_char (λ c. eqb c 10) bare_ne_newline (x ∷ v) h

env_escaped-Lacks : (c : ℕ) → Lacks (λ c. eqb c 10) (env_escaped c)
unfolding env_escaped
env_escaped-Lacks c = ground arith

backslash_all-Lacks : (v : Text) → Lacks (λ c. eqb c 10) (backslash_all v)
backslash_all-Lacks [] = rw backslash_all-nil tt
backslash_all-Lacks (c ∷ v) = rw (backslash_all-cons c v) (
    All-append (λ c. eqb c 10 ≡ false) (env_escaped c) (backslash_all v) (env_escaped-Lacks c)
      (backslash_all-Lacks v))

escaped_newline_free : (v : Text) → Lacks (λ c. eqb c 10) (escape_env_value v)
escaped_newline_free v = value_cases (Lacks (λ c. eqb c 10)) v (bare_newline_free v) (
  refl,
  All-append (λ c. eqb c 10 ≡ false) (backslash_all v) (34 ∷ []) (backslash_all-Lacks v) (refl, tt),
)

-- It holds no line break.
pub env_line-Lacks :
    (export_prefix : Bool) (k v : Text)
    → is_env_key k ≡ true
    → Lacks (λ c. eqb c 10) (env_line export_prefix k v)
unfolding env_line
env_line-Lacks export_prefix k v h =
    let rest : Lacks (λ c. eqb c 10) (assignment k v) =
      All-append (λ c. eqb c 10 ≡ false) k (b'=' ∷ escape_env_value v)
        (all_pass-Lacks is_key_char (λ c. eqb c 10) key_ne_newline k (key_chars k h))
        (refl, escaped_newline_free v) in
    elim export_prefix
      as (λ b. Lacks (λ c. eqb c 10) ((if b then codes "export " else []) ++ assignment k v)) [
        | true ↦ (refl, (refl, (refl, (refl, (refl, (refl, (refl, rest)))))))
        | false ↦ rest
      ]
