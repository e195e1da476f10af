-- ===== src/Reconciler/Fold/Levels.antt =====
-- The logging half of `FoldCommonConfig`.
use mathlib.Core.Path.{subst}
use operator_go.Prelude.{ℕ, String, Option, some, List, ◌∷◌, ◌≡◌, refl, sym, ap, ◌∙◌, All}
use operator_go.Prelude.Maps.{or_else, or_else-none, OfFound}
use operator_go.Common.Errors.{ok, OnOk}
use operator_go.Api.Config.{RoleGroupConfigSpec}
use operator_go.Logging.Levels.{Target}
use operator_go.Logging.Containers.{
  level_of, HasDistinctNames, level-merge_logging_spec, merge_logging_spec-HasDistinctNames,
}
use operator_go.Reconciler.Affinity.{Terms, AffinityCodec, decode_affinity}
use operator_go.Reconciler.Fold.{
  Folded, AffinityReplacement, fold_layer, nothing_folded, fold_common_config,
}
use operator_go.Reconciler.Fold.Layers.{
  last_stated, or_else_assoc, with_affinity-OnOk, fold_layers-OnOk,
}
use operator_go.Reconciler.Fold.Stated.{fold_common_config-FoldRun}

module _ {Quantity : Type 0} where
  abbrev pub DistinctNamesOf : RoleGroupConfigSpec Quantity → Type 0
  DistinctNamesOf layer = HasDistinctNames layer.logging

  -- What Go's maps always satisfy, in every layer.
  abbrev pub AllDistinctNames : List (Option (RoleGroupConfigSpec Quantity)) → Type 0
  AllDistinctNames = All (OfFound DistinctNamesOf)

module _ {Quantity : Type 0} {T : Terms} (codec : AffinityCodec T) (container : String)
    (t : Target) where
  abbrev LevelKept :
      List (Option (RoleGroupConfigSpec Quantity)) → Folded Quantity T → Folded Quantity T → Type 0
  LevelKept layers f g =
      HasDistinctNames f.logging
      → AllDistinctNames layers
      → level_of container t g.logging
        ≡ or_else (last_stated (λ l. level_of container t l.logging) layers)
            (level_of container t f.logging)

  fold_layer-LevelKept :
      (i : ℕ) (layer : RoleGroupConfigSpec Quantity)
      (layers : List (Option (RoleGroupConfigSpec Quantity))) (f : Folded Quantity T)
      → OnOk
          (λ g.
            (k : Folded Quantity T) → LevelKept layers g k → LevelKept (some layer ∷ layers) f k)
          (fold_layer codec i (some layer) f)
  unfolding fold_layer
  fold_layer-LevelKept i layer layers f =
      with_affinity-OnOk codec
        (λ g. (k : Folded Quantity T) → LevelKept layers g k → LevelKept (some layer ∷ layers) f k)
        i layer f (decode_affinity codec layer.affinity)
        (λ decoded k kept d all.
          let above = last_stated (λ l. level_of container t l.logging) layers in
          kept (merge_logging_spec-HasDistinctNames f.logging layer.logging d all.0) all.1
          ∙ (ap (or_else above)
                (level-merge_logging_spec container t f.logging layer.logging d all.0)
              ∙ sym (
                  or_else_assoc above (level_of container t layer.logging)
                    (level_of container t f.logging))))

  pub level-fold_common_config :
      (layers : List (Option (RoleGroupConfigSpec Quantity))) (out : RoleGroupConfigSpec Quantity)
      (replaced : List AffinityReplacement)
      → AllDistinctNames layers
      → fold_common_config codec layers ≡ ok (out, replaced)
      → level_of container t out.logging ≡ last_stated (λ l. level_of container t l.logging) layers
  level-fold_common_config layers out replaced d h =
      let run = fold_common_config-FoldRun codec layers out replaced h in
      ap (level_of container t) run.logging
      ∙ (subst (OnOk (LevelKept layers nothing_folded)) run.runs
            (fold_layers-OnOk codec LevelKept (λ f d all. refl) (λ ls f g kept d all. kept d all.1)
              fold_layer-LevelKept 0 layers nothing_folded)
            tt d
          ∙ or_else-none (last_stated (λ l. level_of container t l.logging) layers))
