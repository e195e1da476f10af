-- ===== src/Sidecar/Fills.antt =====
-- What `SetProductImage` fills in, told by the provider and by the fields that are empty.
use operator_go.Prelude.{false, Option, none, some, [], ◌∷◌, ◌≡◌, refl, Bool, true, not, ◌&&◌}
use operator_go.Prelude.Eq.{text_eq}
use operator_go.Config.Text.{Text}
use operator_go.Sidecar.{SidecarConfig, SidecarProvider}
use operator_go.Sidecar.Images.{or_default, owns, with_product_image}

-- A provider says that its image is its own.
abbrev pub says_own : Option Bool → Bool
says_own none = false
says_own (some own) = own

-- The default where it applies and the text is empty, or else the text.
abbrev pub filled_in : Bool → Text → Text → Text
filled_in true [] default = default
filled_in true (x ∷ text) default = x ∷ text
filled_in false text default = text

module _ {Client Pod Rest : Type 0} where
  abbrev pub has_own_image : Option (SidecarProvider Client Pod Rest) → Bool
  has_own_image none = false
  has_own_image (some provider) = says_own provider.owns_image

  -- The config of a provider with the image and the pull policy filled in.
  abbrev pub filled :
      Option (SidecarProvider Client Pod Rest)
      → Text
      → Text
      → SidecarConfig Rest
      → SidecarConfig Rest
  filled provider image pull_policy config =
      let applies = config.enabled && not (has_own_image provider) in
      record config {
        image = filled_in applies config.image image;
        image_pull_policy = filled_in applies config.image_pull_policy pull_policy;
      }

  pub owns_lem :
      (provider : Option (SidecarProvider Client Pod Rest)) → owns provider ≡ has_own_image provider
  owns_lem none = refl
  owns_lem (some provider) = owns_image_lem provider.owns_image
    where
      owns_image_lem :
          (own : Option Bool)
          → (elim own as (λ x. Bool) [ none ↦ false | some own ↦ own ]) ≡ says_own own
      owns_image_lem none = refl
      owns_image_lem (some own) = refl

filled_in-applies : (text default : Text) → or_default text default ≡ filled_in true text default
filled_in-applies [] default = refl
filled_in-applies (x ∷ text) default = refl

pub with_product_image-filled :
    {Rest : Type 0} (enabled owned : Bool) (image pull_policy : Text) (config : SidecarConfig Rest)
    → config.enabled ≡ enabled
    → with_product_image owned image pull_policy config ≡ record config {
      image = filled_in (enabled && not owned) config.image image;
      image_pull_policy = filled_in (enabled && not owned) config.image_pull_policy pull_policy;
    }
unfolding with_product_image
with_product_image-filled false owned image pull_policy config e = rw e refl
with_product_image-filled true true image pull_policy config e = rw e refl
with_product_image-filled true false image pull_policy config e =
    rw
      (
        e,
        filled_in-applies config.image image,
        filled_in-applies config.image_pull_policy pull_policy,
      )
      refl
