-- ===== src/Sidecar/Copies.antt =====
-- The copy of a manager's configs: no two names of it share one, and each reads as it did.
use mathlib.Core.Path.{subst}
use operator_go.Prelude.{
  ℕ, ◌≤◌, ◌<◌, true, false, Option, none, some, [], ◌∷◌, ◌++◌, length, length-append, is_some, ◌≡◌,
  refl, sym, ◌∙◌, arith, inl, inr, Bool-cases, eqb,
}
use operator_go.Prelude.Eq.{◌==◌, text_eq, ==_refl}
use operator_go.Prelude.Maps.{
  GoMap, lookup, insert, or_else, AllValues, OfFound, insert-AllValues, lookup-AllValues,
  HasDistinctKeys, insert-HasDistinctKeys, lookup-insert, lookup-cons, lookup-nil,
}
use operator_go.Prelude.Store.{Store, load, load_held, load-append_left, load-append_new}
use operator_go.Config.Text.{Text}
use operator_go.Sidecar.{SidecarConfig}
use operator_go.Sidecar.Images.{copy_config, copy_configs}

-- The config that an entry of a manager's map points to.
abbrev pub pointed_to : {A : Type 0} → Store A → Option (Option ℕ) → Option A
pointed_to s none = none
pointed_to s (some none) = none
pointed_to s (some (some address)) = load address s

-- A pointer to one of the first `n` values.
abbrev pub IsHeld : ℕ → Option ℕ → Type 0
IsHeld n none = ⊥
IsHeld n (some address) = address < n

abbrev pub Differs : ℕ → Option ℕ → Type 0
Differs a none = Unit
Differs a (some b) = eqb a b ≡ false

-- No two names share a config.
abbrev pub IsSeparate : GoMap Text (Option ℕ) → Type 0
IsSeparate [] = Unit
IsSeparate ((k, none) ∷ m) = IsSeparate m
IsSeparate ((k, some a) ∷ m) = AllValues (Differs a) m × IsSeparate m

insert-IsSeparate :
    (name : Text) (n : ℕ) (m : GoMap Text (Option ℕ))
    → lookup name m ≡ none
    → AllValues (IsHeld n) m
    → IsSeparate m
    → IsSeparate (insert name (some n) m)
unfolding insert
insert-IsSeparate name n [] l h sep = (tt, tt)
insert-IsSeparate name n ((j, none) ∷ m) l h sep = absurd h.0
insert-IsSeparate name n ((j, some a) ∷ m) l h sep = elim (Bool-cases (j == name)) [
  | inl same ↦ cc (rw (lookup-cons name j (some a) m, same) at l)
  | inr other ↦ rw other (
    insert-AllValues (Differs a) name (some n) m (ground (arith, h.0)) sep.0,
    insert-IsSeparate name n m (rw (lookup-cons name j (some a) m, other) at l) h.1 sep.1,
  )
]

AllValues-IsHeld :
    (n k : ℕ) (m : GoMap Text (Option ℕ)) → n ≤ k → AllValues (IsHeld n) m → AllValues (IsHeld k) m
AllValues-IsHeld n k [] le h = tt
AllValues-IsHeld n k ((j, none) ∷ m) le h = absurd h.0
AllValues-IsHeld n k ((j, some a) ∷ m) le h =
    (omega (arith, le, h.0), AllValues-IsHeld n k m le h.1)

OfFound-or_else :
    (P : Option ℕ → Type 0) (a b : Option (Option ℕ))
    → OfFound P a
    → OfFound P b
    → OfFound P (or_else a b)
OfFound-or_else P none b h k = k
OfFound-or_else P (some a) b h k = h

still_apart :
    (k : Text) (a n : ℕ) (configs copied : GoMap Text (Option ℕ))
    → lookup k configs ≡ none
    → ((name : Text)
        → is_some (lookup name ((k, some a) ∷ configs)) ≡ true
        → lookup name copied ≡ none)
    → (name : Text) → is_some (lookup name configs) ≡ true
    → lookup name (insert k (some n) copied) ≡ none
still_apart k a n configs copied new apart name here = elim (Bool-cases (k == name)) [
  | inl same ↦
      let none_here : lookup name configs ≡ none =
        subst (λ m. lookup m configs ≡ none) ((text_eq.beq_iff k name).0 same) new in
      cc (rw none_here at here)
  | inr other ↦
      rw (lookup-insert k name (some n) copied, other)
        (apart name (rw (lookup-cons name k (some a) configs, other) here))
]

module _ {Rest : Type 0} where
  -- What a manager's map and the store of its configs are, where no two names share a config.
  pub record IsTable (configs : GoMap Text (Option ℕ)) (s : Store (SidecarConfig Rest))
      : Type 0 where
    pub distinct : HasDistinctKeys configs
    pub held : AllValues (IsHeld (length s)) configs
    pub separate : IsSeparate configs

  -- One more config, under a new name.
  extend-IsTable :
      (name : Text) (config : SidecarConfig Rest) (m : GoMap Text (Option ℕ))
      (s : Store (SidecarConfig Rest))
      → lookup name m ≡ none
      → IsTable m s
      → IsTable (insert name (some (length s)) m) (s ++ config ∷ [])
  extend-IsTable name config m s l h =
      let grown = length-append s (config ∷ []) in
      record {
        distinct = insert-HasDistinctKeys name (some (length s)) m h.distinct;
        held =
            insert-AllValues (IsHeld (length (s ++ config ∷ []))) name (some (length s)) m
              (omega (arith, grown))
              (AllValues-IsHeld (length s) (length (s ++ config ∷ [])) m (omega (arith, grown))
                h.held);
        separate = insert-IsSeparate name (length s) m l h.held h.separate;
      }

  pointed_to-append :
      (s t : Store (SidecarConfig Rest)) (o : Option (Option ℕ))
      → OfFound (IsHeld (length s)) o
      → pointed_to (s ++ t) o ≡ pointed_to s o
  pointed_to-append s t none h = refl
  pointed_to-append s t (some none) h = refl
  pointed_to-append s t (some (some a)) h = load-append_left a s t h

  -- A copy of the configs, beside the ones copied before.
  pub record IsCopy (configs copied : GoMap Text (Option ℕ)) (s : Store (SidecarConfig Rest))
      (out : GoMap Text (Option ℕ) × Store (SidecarConfig Rest)) : Type 0 where
    pub table : IsTable out.0 out.1
    pub reads :
        (name : Text)
        → pointed_to out.1 (lookup name out.0)
          ≡ pointed_to s (or_else (lookup name configs) (lookup name copied))

  -- Reading through the first copy, once the rest is copied.
  reads_first :
      (name k : Text) (a : ℕ) (config : SidecarConfig Rest) (configs copied : GoMap Text (Option ℕ))
      (s : Store (SidecarConfig Rest))
      → load a s ≡ some config
      → lookup k configs ≡ none
      → AllValues (IsHeld (length s)) configs
      → AllValues (IsHeld (length s)) copied
      → pointed_to
          (s ++ config ∷ [])
          (or_else (lookup name configs) (lookup name (insert k (some (length s)) copied)))
        ≡ pointed_to s (or_else (lookup name ((k, some a) ∷ configs)) (lookup name copied))
  reads_first name k a config configs copied s found new h held = elim (Bool-cases (k == name)) [
    | inl same ↦
        let none_here : lookup name configs ≡ none =
          subst (λ n. lookup n configs ≡ none) ((text_eq.beq_iff k name).0 same) new in
        rw
          (
            none_here,
            lookup-insert k name (some (length s)) copied,
            lookup-cons name k (some a) configs,
            same,
          )
          (load-append_new s config ∙ sym found)
    | inr other ↦
        rw
          (
            lookup-insert k name (some (length s)) copied,
            lookup-cons name k (some a) configs,
            other,
          )
          (pointed_to-append s (config ∷ []) (or_else (lookup name configs) (lookup name copied)) (
            OfFound-or_else (IsHeld (length s)) (lookup name configs) (lookup name copied)
              (lookup-AllValues (IsHeld (length s)) name configs h)
              (lookup-AllValues (IsHeld (length s)) name copied held)))
  ]

  copy_config-IsCopy :
      (k : Text) (a : ℕ) (found : Option (SidecarConfig Rest))
      (configs copied : GoMap Text (Option ℕ)) (s : Store (SidecarConfig Rest))
      → load a s ≡ found
      → is_some found ≡ true
      → lookup k configs ≡ none
      → AllValues (IsHeld (length s)) configs
      → AllValues (IsHeld (length s)) copied
      → ((config : SidecarConfig Rest)
          → IsCopy configs
              (insert k (some (length s)) copied)
              (s ++ config ∷ [])
              (copy_configs configs (insert k (some (length s)) copied) (s ++ config ∷ [])))
      → IsCopy ((k, some a) ∷ configs) copied s (
          copy_configs configs
            (copy_config k found (copied, s)).0
            (copy_config k found (copied, s)).1)
  copy_config-IsCopy k a none configs copied s e there new h held rest = cc
  copy_config-IsCopy k a (some config) configs copied s e there new h held rest =
      let copy = rest config in
      record {
        table = copy.table;
        reads = λ name. copy.reads name ∙ reads_first name k a config configs copied s e new h held;
      }

  pub copy_configs-IsCopy :
      (configs copied : GoMap Text (Option ℕ)) (s : Store (SidecarConfig Rest))
      → HasDistinctKeys configs
      → AllValues (IsHeld (length s)) configs
      → IsTable copied s
      → ((name : Text) → is_some (lookup name configs) ≡ true → lookup name copied ≡ none)
      → IsCopy configs copied s (copy_configs configs copied s)
  unfolding copy_configs
  copy_configs-IsCopy [] copied s d h t apart = record {
    table = t;
    reads = λ name. rw (lookup-nil {V = Option ℕ} name) refl;
  }
  copy_configs-IsCopy ((k, none) ∷ configs) copied s d h t apart = absurd h.0
  copy_configs-IsCopy ((k, some a) ∷ configs) copied s d h t apart =
      copy_config-IsCopy k a (load a s) configs copied s refl (load_held a s h.0) d.0 h.1 t.held
        (λ config.
          copy_configs-IsCopy configs (insert k (some (length s)) copied) (s ++ config ∷ []) d.1
            (AllValues-IsHeld (length s) (length (s ++ config ∷ [])) configs
              (omega (arith, length-append s (config ∷ []))) h.1)
            (extend-IsTable k config copied s
              (apart k (rw (lookup-cons k k (some a) configs, ==_refl k) refl)) t)
            (still_apart k a (length s) configs copied d.0 apart))
