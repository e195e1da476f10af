-- ===== src/Sidecar/Images.antt =====
-- `CloneForBuild` and `SetProductImage`.
use operator_go.Prelude.{
  ℕ, Bool, false, not, ◌||◌, Option, none, some, [], ◌∷◌, ◌++◌, length, is_empty, if◌then◌else◌,
}
use operator_go.Prelude.Eq.{text_eq}
use operator_go.Prelude.Maps.{GoMap, lookup, insert}
use operator_go.Prelude.Store.{Store, load, update}
use operator_go.Common.Errors.{Err, opaque}
use operator_go.Config.Text.{Text}
use operator_go.Sidecar.{SidecarConfig, SidecarProvider, SidecarManager, Outcome, panics, returns}

-- The copies of the configs read so far, and the store that holds them.
abbrev pub CopiedConfigs : Type 0 → Type 0
CopiedConfigs Rest = GoMap Text (Option ℕ) × Store (SidecarConfig Rest)

module _ {Rest : Type 0} where
  abbrev pub copy_config :
      Text → Option (SidecarConfig Rest) → CopiedConfigs Rest → CopiedConfigs Rest
  copy_config name none copied = copied
  copy_config name (some config) (configs, s) =
      (insert name (some (length s)) configs, s ++ config ∷ [])

  unfoldable pub copy_configs :
      GoMap Text (Option ℕ)
      → GoMap Text (Option ℕ)
      → Store (SidecarConfig Rest)
      → CopiedConfigs Rest
  copy_configs [] copied s = (copied, s)
  copy_configs ((name, none) ∷ configs) copied s = copy_configs configs (insert name none copied) s
  copy_configs ((name, some address) ∷ configs) copied s =
      let (copied', s') = copy_config name (load address s) (copied, s) in
      copy_configs configs copied' s'

abbrev pub or_default : Text → Text → Text
or_default text default = if is_empty text then default else text

module _ {Rest : Type 0} where
  -- What the loop does to the config behind one name.
  unfoldable pub with_product_image : Bool → Text → Text → SidecarConfig Rest → SidecarConfig Rest
  with_product_image owned image pull_policy config =
      if not config.enabled || owned then config else record config {
        image = or_default config.image image;
        image_pull_policy = or_default config.image_pull_policy pull_policy;
      }

  abbrev pub without_error :
      Outcome (Store (SidecarConfig Rest)) → Outcome (Option Err × Store (SidecarConfig Rest))
  without_error panics = panics
  without_error (returns s) = returns (none, s)

module _ {Client Pod Rest : Type 0} where
  unfoldable pub clone_for_build :
      SidecarManager Client Pod Rest
      → Store (SidecarConfig Rest)
      → SidecarManager Client Pod Rest × Store (SidecarConfig Rest)
  unfolding copy_configs
  clone_for_build m s =
      let (configs, s') = copy_configs m.configs [] s in (record m { configs = configs }, s')

  abbrev pub owns : Option (SidecarProvider Client Pod Rest) → Bool
  owns none = false
  owns (some provider) = elim provider.owns_image [ none ↦ false | some own ↦ own ]

  unfoldable pub set_images :
      SidecarManager Client Pod Rest
      → GoMap Text (Option ℕ)
      → Text
      → Text
      → Store (SidecarConfig Rest)
      → Outcome (Store (SidecarConfig Rest))
  unfolding with_product_image
  set_images m [] image pull_policy s = returns s
  set_images m ((name, none) ∷ configs) image pull_policy s = panics
  set_images m ((name, some address) ∷ configs) image pull_policy s =
      set_images m configs image pull_policy
        (update address (with_product_image (owns (lookup name m.providers)) image pull_policy) s)

  unfoldable pub set_product_image :
      SidecarManager Client Pod Rest
      → Text
      → Text
      → Store (SidecarConfig Rest)
      → Outcome (Option Err × Store (SidecarConfig Rest))
  unfolding set_images
  set_product_image m image pull_policy s =
      if is_empty image
      then returns (some (opaque "product image must not be empty"), s)
      else without_error (set_images m m.configs image pull_policy s)
