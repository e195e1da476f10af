-- ===== src/Sidecar/Builds.antt =====
-- What a build reads from the clone that it sets the product image on.
use mathlib.Core.Path.{subst}
use operator_go.Prelude.{
  ℕ, false, Option, none, some, [], ◌∷◌, length, ◌≡◌, refl, ap, ◌∙◌, arith, inl, inr, Bool-cases,
  is_empty,
}
use operator_go.Prelude.Eq.{◌==◌, text_eq}
use operator_go.Prelude.Maps.{
  GoMap, lookup, or_else-none, AllValues, OfFound, lookup-AllValues, HasDistinctKeys, lookup-cons,
  lookup-nil,
}
use operator_go.Prelude.Store.{Store, load, update, changed, load-update_same, load-update_differs}
use operator_go.Config.Text.{Text}
use operator_go.Sidecar.{SidecarConfig, SidecarManager}
use operator_go.Sidecar.Images.{
  copy_configs, clone_for_build, owns, with_product_image, set_images, set_product_image,
  without_error,
}
use operator_go.Sidecar.Clones.{Returns, without_error-Returns}
use operator_go.Sidecar.Copies.{pointed_to, IsHeld, Differs, IsSeparate, copy_configs-IsCopy}
use operator_go.Sidecar.Fills.{filled, owns_lem, with_product_image-filled}

module _ {Client Pod Rest : Type 0} (m : SidecarManager Client Pod Rest)
    (image pull_policy : Text) where
  -- The image is set behind other addresses only.
  set_images_apart :
      (n a : ℕ) (configs : GoMap Text (Option ℕ)) (s : Store (SidecarConfig Rest))
      → AllValues (IsHeld n) configs
      → AllValues (Differs a) configs
      → Returns (λ u. load a u ≡ load a s) (set_images m configs image pull_policy s)
  unfolding set_images
  set_images_apart n a [] s h d = refl
  set_images_apart n a ((k, none) ∷ configs) s h d = h.0
  set_images_apart n a ((k, some b) ∷ configs) s h d =
      let change = with_product_image (owns (lookup k m.providers)) image pull_policy in
      subst
        (λ w.
          Returns (λ u. load a u ≡ w) (set_images m configs image pull_policy (update b change s)))
        (load-update_differs a b change s d.0)
        (set_images_apart n a configs (update b change s) h.1 d.1)

  -- What the product image makes of the config of a name.
  abbrev imaged : Text → SidecarConfig Rest → SidecarConfig Rest
  imaged name = with_product_image (owns (lookup name m.providers)) image pull_policy

  pointed_to-update :
      (b : ℕ) (f : SidecarConfig Rest → SidecarConfig Rest) (s : Store (SidecarConfig Rest))
      (o : Option (Option ℕ))
      → OfFound (Differs b) o
      → pointed_to (update b f s) o ≡ pointed_to s o
  pointed_to-update b f s none h = refl
  pointed_to-update b f s (some none) h = refl
  pointed_to-update b f s (some (some a)) h = load-update_differs a b f s (ground (arith, h))

  set_images-imaged :
      (n : ℕ) (name : Text) (configs : GoMap Text (Option ℕ)) (s : Store (SidecarConfig Rest))
      → HasDistinctKeys configs
      → AllValues (IsHeld n) configs
      → IsSeparate configs
      → Returns
          (λ u.
            pointed_to u (lookup name configs)
            ≡ changed (imaged name) (pointed_to s (lookup name configs)))
          (set_images m configs image pull_policy s)
  unfolding set_images
  set_images-imaged n name [] s d h sep = rw (lookup-nil {V = Option ℕ} name) refl
  set_images-imaged n name ((k, none) ∷ configs) s d h sep = absurd h.0
  set_images-imaged n name ((k, some a) ∷ configs) s d h sep = elim (Bool-cases (k == name)) [
    | inl same ↦
        rw (lookup-cons name k (some a) configs, same)
          (subst
            (λ w.
              Returns (λ u. load a u ≡ w)
                (set_images m configs image pull_policy (update a (imaged k) s)))
            (load-update_same a (imaged k) s
              ∙ ap (λ w. changed (imaged w) (load a s)) ((text_eq.beq_iff k name).0 same))
            (set_images_apart n a configs (update a (imaged k) s) h.1 sep.0))
    | inr other ↦
        rw (lookup-cons name k (some a) configs, other)
          (subst
            (λ w.
              Returns (λ u. pointed_to u (lookup name configs) ≡ changed (imaged name) w)
                (set_images m configs image pull_policy (update a (imaged k) s)))
            (pointed_to-update a (imaged k) s (lookup name configs)
              (lookup-AllValues (Differs a) name configs sep.0))
            (set_images-imaged n name configs (update a (imaged k) s) d.1 h.1 sep.1))
  ]

module _ {Client Pod Rest : Type 0} (m : SidecarManager Client Pod Rest)
    (image pull_policy : Text) where
  imaged_lem :
      (name : Text) (config : SidecarConfig Rest)
      → imaged m image pull_policy name config
        ≡ filled (lookup name m.providers) image pull_policy config
  imaged_lem name config =
      with_product_image-filled config.enabled (owns (lookup name m.providers)) image pull_policy
        config refl
      ∙ rw (owns_lem (lookup name m.providers)) refl

  set_product_image-imaged :
      (s : Store (SidecarConfig Rest)) (name : Text)
      → is_empty image ≡ false
      → HasDistinctKeys m.configs
      → AllValues (IsHeld (length s)) m.configs
      → Returns
          (λ out.
            (out.0 ≡ none)
            × (pointed_to out.1 (lookup name (clone_for_build m s).0.configs)
                ≡ changed (imaged m image pull_policy name) (pointed_to s (lookup name m.configs))))
          (set_product_image (clone_for_build m s).0 image pull_policy (clone_for_build m s).1)
  unfolding clone_for_build set_product_image
  set_product_image-imaged s name named d h =
      let copied = copy_configs m.configs [] s in
      let clone = record m { configs = copied.0 } in
      let copy =
        copy_configs-IsCopy m.configs [] s d h (record { distinct = tt; held = tt; separate = tt })
          (λ n there. lookup-nil {V = Option ℕ} n) in
      rw named (
        subst
          (λ w.
            Returns
              (λ out.
                (out.0 ≡ none)
                × (pointed_to out.1 (lookup name copied.0)
                    ≡ changed (imaged m image pull_policy name) w))
              (without_error (set_images clone copied.0 image pull_policy copied.1)))
          (copy.reads name
            ∙ rw (lookup-nil {V = Option ℕ} name)
                (ap (pointed_to s) (or_else-none (lookup name m.configs))))
          (without_error-Returns
            (λ u.
              pointed_to u (lookup name copied.0)
              ≡ changed (imaged m image pull_policy name)
                  (pointed_to copied.1 (lookup name copied.0)))
            (set_images clone copied.0 image pull_policy copied.1)
            (set_images-imaged clone image pull_policy (length copied.1) name copied.0 copied.1
              copy.table.distinct copy.table.held copy.table.separate)))

  -- Where every name of a manager has a config in the store, its clone takes a non-empty product
  -- image without an error. Then each name of the clone has the config that it has in the
  -- manager, with the image and the pull policy filled in if it is enabled, leaves them empty,
  -- and its provider has no image of its own. Names of the manager may share a config.
  pub set_product_image-clone :
      (s : Store (SidecarConfig Rest)) (name : Text)
      → is_empty image ≡ false
      → HasDistinctKeys m.configs
      → AllValues (IsHeld (length s)) m.configs
      → Returns
          (λ out.
            (out.0 ≡ none)
            × (pointed_to out.1 (lookup name (clone_for_build m s).0.configs)
                ≡ changed
                    (filled (lookup name m.providers) image pull_policy)
                    (pointed_to s (lookup name m.configs))))
          (set_product_image (clone_for_build m s).0 image pull_policy (clone_for_build m s).1)
  set_product_image-clone s name named d h =
      subst
        (λ (f : SidecarConfig Rest → SidecarConfig Rest).
          Returns
            (λ out.
              (out.0 ≡ none)
              × (pointed_to out.1 (lookup name (clone_for_build m s).0.configs)
                  ≡ changed f (pointed_to s (lookup name m.configs))))
            (set_product_image (clone_for_build m s).0 image pull_policy (clone_for_build m s).1))
        (λ i config. imaged_lem name config i) (set_product_image-imaged s name named d h)
