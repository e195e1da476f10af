-- ===== src/Sidecar/Clones.antt =====
-- What a build may do to the configs of a shared manager: nothing, through a clone.
use mathlib.Core.Path.{subst}
use operator_go.Prelude.{
  ℕ, ◌≤◌, ◌<◌, false, Option, none, some, [], ◌∷◌, length, length-append, ◌≡◌, refl, ◌∙◌, arith,
  is_empty,
}
use operator_go.Prelude.Eq.{text_eq}
use operator_go.Prelude.Maps.{GoMap, lookup, AllValues, insert-AllValues}
use operator_go.Prelude.Store.{Store, load, update, load-update_other, load-append_left}
use operator_go.Config.Text.{Text}
use operator_go.Sidecar.{SidecarConfig, SidecarManager, Outcome, panics, returns}
use operator_go.Sidecar.Images.{
  copy_config, copy_configs, clone_for_build, owns, with_product_image, set_images,
  set_product_image, without_error,
}

-- The method returns, and `P` holds of what it returns.
abbrev pub Returns : {A : Type 0} → (A → Type 0) → Outcome A → Type 0
Returns P panics = ⊥
Returns P (returns a) = P a

-- A pointer that is not nil.
abbrev pub IsPointer : Option ℕ → Type 0
IsPointer none = ⊥
IsPointer (some address) = Unit

-- A pointer at or above `n`.
abbrev IsFresh : ℕ → Option ℕ → Type 0
IsFresh n none = ⊥
IsFresh n (some address) = n ≤ address

-- The stores agree below `n`.
abbrev Agrees : {A : Type 0} → ℕ → Store A → Store A → Type 0
Agrees n s t = (address : ℕ) → address < n → load address t ≡ load address s

module _ {Rest : Type 0} where
  -- A copy grows the store, and stores no address below the first.
  record Copied (n : ℕ) (s : Store (SidecarConfig Rest))
      (copied : GoMap Text (Option ℕ) × Store (SidecarConfig Rest)) : Type 0 where
    fresh : AllValues (IsFresh n) copied.0
    grows : length s ≤ length copied.1
    agrees : Agrees (length s) s copied.1

  copy_config-Copied :
      (n : ℕ) (name : Text) (config : Option (SidecarConfig Rest)) (copied : GoMap Text (Option ℕ))
      (s : Store (SidecarConfig Rest))
      → n ≤ length s
      → AllValues (IsFresh n) copied
      → Copied n s (copy_config name config (copied, s))
  copy_config-Copied n name none copied s le h = record {
    fresh = h;
    grows = omega arith;
    agrees = λ address lt. refl;
  }
  copy_config-Copied n name (some config) copied s le h = record {
    fresh = insert-AllValues (IsFresh n) name (some (length s)) copied le h;
    grows = omega (arith, length-append s (config ∷ []));
    agrees = λ address lt. load-append_left address s (config ∷ []) lt;
  }

  copy_configs-Copied :
      (n : ℕ) (configs copied : GoMap Text (Option ℕ)) (s : Store (SidecarConfig Rest))
      → AllValues IsPointer configs
      → n ≤ length s
      → AllValues (IsFresh n) copied
      → Copied n s (copy_configs configs copied s)
  unfolding copy_configs
  copy_configs-Copied n [] copied s there le h = record {
    fresh = h;
    grows = omega arith;
    agrees = λ address lt. refl;
  }
  copy_configs-Copied n ((name, none) ∷ configs) copied s there le h = absurd there.0
  copy_configs-Copied n ((name, some address) ∷ configs) copied s there le h =
      let one = copy_config-Copied n name (load address s) copied s le h in
      let next = copy_config name (load address s) (copied, s) in
      let rest =
        copy_configs-Copied n configs next.0 next.1 there.1 (omega (arith, le, one.grows))
          one.fresh in
      record {
        fresh = rest.fresh;
        grows = omega (arith, rest.grows, one.grows);
        agrees = λ a lt. rest.agrees a (omega (arith, lt, one.grows)) ∙ one.agrees a lt;
      }

  pub without_error-Returns :
      (P : Store (SidecarConfig Rest) → Type 0) (r : Outcome (Store (SidecarConfig Rest)))
      → Returns P r
      → Returns (λ out. (out.0 ≡ none) × P out.1) (without_error r)
  without_error-Returns P panics h = h
  without_error-Returns P (returns u) h = (refl, h)

module _ {Client Pod Rest : Type 0} where
  -- Images set behind fresh addresses leave the store below them alone.
  set_images-Returns :
      (m : SidecarManager Client Pod Rest) (n address : ℕ) (configs : GoMap Text (Option ℕ))
      (image pull_policy : Text) (s : Store (SidecarConfig Rest))
      → address < n
      → AllValues (IsFresh n) configs
      → Returns (λ u. load address u ≡ load address s) (set_images m configs image pull_policy s)
  unfolding set_images
  set_images-Returns m n address [] image pull_policy s lt h = refl
  set_images-Returns m n address ((name, none) ∷ configs) image pull_policy s lt h = h.0
  set_images-Returns m n address ((name, some a) ∷ configs) image pull_policy s lt h =
      let change = with_product_image (owns (lookup name m.providers)) image pull_policy in
      subst
        (λ w.
          Returns (λ u. load address u ≡ w)
            (set_images m configs image pull_policy (update a change s)))
        (load-update_other address a change s (omega (arith, lt, h.0)))
        (set_images-Returns m n address configs image pull_policy (update a change s) lt h.1)

  -- Where no config of a manager is nil, its clone takes a non-empty product image without an
  -- error, and every config that the store held before the clone, so those of the manager, stays
  -- as it was.
  pub clone_for_build-Returns :
      (m : SidecarManager Client Pod Rest) (s : Store (SidecarConfig Rest))
      (image pull_policy : Text) (address : ℕ)
      → is_empty image ≡ false
      → AllValues IsPointer m.configs
      → address < length s
      → Returns
          (λ out. (out.0 ≡ none) × (load address out.1 ≡ load address s))
          (set_product_image (clone_for_build m s).0 image pull_policy (clone_for_build m s).1)
  unfolding clone_for_build set_product_image
  clone_for_build-Returns m s image pull_policy address named there lt =
      let copied = copy_configs m.configs [] s in
      let copy = copy_configs-Copied (length s) m.configs [] s there (omega arith) tt in
      let clone = record m { configs = copied.0 } in
      rw named (
        subst
          (λ w.
            Returns (λ out. (out.0 ≡ none) × (load address out.1 ≡ w))
              (without_error (set_images clone copied.0 image pull_policy copied.1)))
          (copy.agrees address lt)
          (without_error-Returns (λ u. load address u ≡ load address copied.1)
            (set_images clone copied.0 image pull_policy copied.1)
            (set_images-Returns clone (length s) address copied.0 image pull_policy copied.1 lt
              copy.fresh)))
