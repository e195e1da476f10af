-- ===== src/Sidecar/Validation.antt =====
-- `ValidateAll`: when it finds nothing.
use mathlib.Core.Path.{subst, sym}
use operator_go.Prelude.{
  if◌then◌else◌, ℕ, true, false, Option, none, some, List, [], ◌∷◌, ◌≡◌, ◌↔◌, refl, length,
  is_empty, is_some, All, inl, inr, Bool-cases,
}
use operator_go.Prelude.Eq.{text_eq}
use operator_go.Prelude.Maps.{lookup, AllValues, OfFound, lookup-AllValues}
use operator_go.Prelude.Sort.{sort_by, sort_by-All, sort_by-All_of}
use operator_go.Prelude.Store.{Store, load, load_held}
use operator_go.Common.Errors.{Err}
use operator_go.Config.Text.{Text, text_less}
use operator_go.Sidecar.{
  SidecarConfig, SidecarProvider, SidecarManager, Outcome, panics, returns, list_providers,
  config_at,
}
use operator_go.Sidecar.Injection.{
  validate_all_with, validate_found, validate_with, validate_provider, add_failure, validate_names,
  joined_outcome, validate_all,
}
use operator_go.Sidecar.Clones.{Returns}
use operator_go.Sidecar.Copies.{IsHeld}

abbrev IsReturned : {A : Type 0} → Outcome A → Type 0
IsReturned = Returns (λ a. Unit)

module _ {Rest : Type 0} (zero_rest : Rest) (s : Store (SidecarConfig Rest)) where
  loaded-IsReturned :
      (found : Option (SidecarConfig Rest))
      → is_some found ≡ true
      → IsReturned (elim found as (λ f. Outcome (SidecarConfig Rest)) [
        | none ↦ panics
        | some config ↦ returns config
      ])
  loaded-IsReturned none h = cc
  loaded-IsReturned (some config) h = tt

  config_at-IsReturned :
      (entry : Option (Option ℕ))
      → OfFound (IsHeld (length s)) entry
      → IsReturned (config_at zero_rest s entry)
  config_at-IsReturned none h = tt
  config_at-IsReturned (some none) h = h
  config_at-IsReturned (some (some address)) h =
      loaded-IsReturned (load address s) (load_held address s h)

add_failure-Returns :
    (P : Type 0) (failure : Outcome (Option Err)) (rest : Outcome (List Err))
    → IsReturned failure
    → Returns (λ errs. (errs ≡ []) ↔ P) rest
    → Returns (λ errs. (errs ≡ []) ↔ ((failure ≡ returns none) × P)) (add_failure failure rest)
add_failure-Returns P panics rest h k = h
add_failure-Returns P (returns none) panics h k = k
add_failure-Returns P (returns (some err)) panics h k = k
add_failure-Returns P (returns none) (returns errs) h k = (λ e. (refl, k.0 e), λ p. k.1 p.1)
add_failure-Returns P (returns (some err)) (returns errs) h k = (λ e. cc, λ p. let q = p.0 in cc)

Returns-iff :
    (P Q : Type 0) (r : Outcome (List Err))
    → (P ↔ Q)
    → Returns (λ errs. (errs ≡ []) ↔ P) r
    → Returns (λ errs. (errs ≡ []) ↔ Q) r
Returns-iff P Q panics pq h = h
Returns-iff P Q (returns errs) pq h = (λ e. pq.0 (h.0 e), λ q. h.1 (pq.1 q))

joined-Returns :
    (P : Type 0) (r : Outcome (List Err))
    → Returns (λ errs. (errs ≡ []) ↔ P) r
    → Returns (λ found. (found ≡ none) ↔ P) (joined_outcome r)
joined-Returns P panics h = h
joined-Returns P (returns []) h = (λ e. h.0 refl, λ p. refl)
joined-Returns P (returns (err ∷ errs)) h = (λ e. cc, λ p. let q = h.1 p in cc)

module _ {Client Pod Rest : Type 0} (zero_rest : Rest) (s : Store (SidecarConfig Rest)) where
  validate_found-IsReturned :
      (p : Option (SidecarProvider Client Pod Rest)) (config : Outcome (SidecarConfig Rest))
      (c : Client) (namespace : Text)
      → IsReturned config
      → IsReturned (validate_found zero_rest s p config c namespace)
  validate_found-IsReturned none config c namespace h = tt
  validate_found-IsReturned (some p) panics c namespace h = h
  validate_found-IsReturned (some p) (returns config) c namespace h =
      elim (Bool-cases config.enabled) [ inl on ↦ rw on tt | inr off ↦ rw off tt ]

  module _ (m : SidecarManager Client Pod Rest)
      (held : AllValues (IsHeld (length s)) m.configs) where
    validate_with-IsReturned :
        (client : Option Client) (name : Text)
        → IsReturned (validate_with zero_rest s client m name)
    validate_with-IsReturned none name = tt
    validate_with-IsReturned (some c) name = elim (Bool-cases (is_empty m.namespace)) [
      | inl empty ↦ rw empty tt
      | inr there ↦ rw there (
          validate_found-IsReturned (lookup name m.providers)
            (config_at zero_rest s (lookup name m.configs)) c m.namespace
            (config_at-IsReturned zero_rest s (lookup name m.configs)
              (lookup-AllValues (IsHeld (length s)) name m.configs held)))
    ]

    validate_names-Returns :
        (names : List Text)
        → Returns
            (λ errs.
              (errs ≡ []) ↔ All (λ name. validate_provider zero_rest s m name ≡ returns none) names)
            (validate_names zero_rest s m names)
    unfolding validate_names
    validate_names-Returns [] = (λ e. tt, λ p. refl)
    validate_names-Returns (name ∷ names) =
        add_failure-Returns (All (λ n. validate_provider zero_rest s m n ≡ returns none) names)
          (validate_provider zero_rest s m name) (validate_names zero_rest s m names)
          (unfold validate_provider in validate_with-IsReturned m.client name)
          (validate_names-Returns names)

    -- What the validation with a client finds.
    abbrev FindsNone : Option Err → Type 0
    FindsNone found =
        (found ≡ none)
        ↔ All (λ name. validate_provider zero_rest s m name ≡ returns none) (list_providers m)

    validate_all_with-Returns :
        (c : Client)
        → is_empty m.namespace ≡ false
        → Returns FindsNone (validate_all_with zero_rest s (some c) m)
    validate_all_with-Returns c there =
        let names = list_providers m in
        let valid : Text → Type 0 = λ name. validate_provider zero_rest s m name ≡ returns none in
        subst
          (λ b. Returns FindsNone (
            if b
            then returns none
            else joined_outcome (validate_names zero_rest s m (sort_by text_less names))))
          (sym there)
          (joined-Returns (All valid names) (validate_names zero_rest s m (sort_by text_less names))
            (Returns-iff (All valid (sort_by text_less names)) (All valid names)
              (validate_names zero_rest s m (sort_by text_less names))
              (sort_by-All_of text_less valid names, sort_by-All text_less valid names)
              (validate_names-Returns (sort_by text_less names))))

    -- Where a manager has a client and a namespace, and every name's config is in the store, its
    -- validation returns, and finds no error exactly when no provider's validation does.
    pub validate_all-Returns :
        (c : Client)
        → m.client ≡ some c
        → is_empty m.namespace ≡ false
        → Returns
            (λ found.
              (found ≡ none)
              ↔ All
                  (λ name. validate_provider zero_rest s m name ≡ returns none)
                  (list_providers m))
            (validate_all zero_rest s m)
    unfolding validate_all
    validate_all-Returns c client there =
        subst (λ o. Returns FindsNone (validate_all_with zero_rest s o m)) (sym client)
          (validate_all_with-Returns c there)
