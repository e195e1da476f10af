-- ===== src/Reconciler/Fold/Stated.antt =====
-- The run of the loop behind a result of `FoldCommonConfig`, and a leaf of the resources in it.
use mathlib.Core.Path.{subst}
use operator_go.Prelude.{Option, none, List, ◌≡◌, refl, ap, ◌∙◌}
use operator_go.Prelude.Maps.{or_else}
use operator_go.Common.Errors.{Result, ok, fail, OnOk, OnOk-and_then, OnOk-refl}
use operator_go.Api.Config.{RoleGroupConfigSpec, ResourcesSpec, RawExtension}
use operator_go.Reconciler.Affinity.{Terms, AffinityCodec, encode_affinity, normalize_affinity}
use operator_go.Reconciler.Fold.{
  Folded, AffinityReplacement, fold_resources, fold_layers, nothing_folded, config_of,
  fold_common_config,
}
use operator_go.Reconciler.Fold.Layers.{last_stated, reading-fold_layers}

module _ {Quantity : Type 0} {T : Terms} (codec : AffinityCodec T) where
  -- The run of the loop behind a result.
  pub record FoldRun (layers : List (Option (RoleGroupConfigSpec Quantity)))
      (p : RoleGroupConfigSpec Quantity × List AffinityReplacement) : Type 0 where
    pub state : Folded Quantity T
    pub runs : fold_layers codec 0 layers nothing_folded ≡ ok state
    pub encodes : encode_affinity codec (normalize_affinity state.affinity) ≡ ok p.0.affinity
    pub timeout : p.0.graceful_shutdown_timeout ≡ state.graceful_shutdown_timeout
    pub resources : p.0.resources ≡ state.resources
    pub logging : p.0.logging ≡ state.logging
    pub replaced : p.1 ≡ state.replaced

  config_of-FoldRun :
      (layers : List (Option (RoleGroupConfigSpec Quantity))) (f : Folded Quantity T)
      (a : Result (Option RawExtension))
      → fold_layers codec 0 layers nothing_folded ≡ ok f
      → encode_affinity codec (normalize_affinity f.affinity) ≡ a
      → OnOk (FoldRun layers) (config_of f a)
  config_of-FoldRun layers f (ok a) run enc = record {
    state = f;
    runs = run;
    encodes = enc;
    timeout = refl;
    resources = refl;
    logging = refl;
    replaced = refl;
  }
  config_of-FoldRun layers f (fail err) run enc = tt

  fold_common_config-OnOk :
      (layers : List (Option (RoleGroupConfigSpec Quantity)))
      → OnOk (FoldRun layers) (fold_common_config codec layers)
  unfolding fold_common_config
  fold_common_config-OnOk layers =
      OnOk-and_then (λ f. fold_layers codec 0 layers nothing_folded ≡ ok f) (FoldRun layers)
        (fold_layers codec 0 layers nothing_folded)
        (λ f. config_of f (encode_affinity codec (normalize_affinity f.affinity)))
        (OnOk-refl (fold_layers codec 0 layers nothing_folded))
        (λ f run.
          config_of-FoldRun layers f (encode_affinity codec (normalize_affinity f.affinity)) run
            refl)

  pub fold_common_config-FoldRun :
      (layers : List (Option (RoleGroupConfigSpec Quantity))) (out : RoleGroupConfigSpec Quantity)
      (replaced : List AffinityReplacement)
      → fold_common_config codec layers ≡ ok (out, replaced)
      → FoldRun layers (out, replaced)
  fold_common_config-FoldRun layers out replaced h =
      subst (OnOk (FoldRun layers)) h (fold_common_config-OnOk layers)

  -- A leaf of the resources of a run.
  pub leaf_of_run :
      {A : Type 0} (leaf : Option (ResourcesSpec Quantity) → Option A)
      → ((lower upper : Option (ResourcesSpec Quantity))
          → leaf (fold_resources lower upper) ≡ or_else (leaf upper) (leaf lower))
      → leaf none ≡ none
      → (layers : List (Option (RoleGroupConfigSpec Quantity)))
        (p : RoleGroupConfigSpec Quantity × List AffinityReplacement)
      → FoldRun layers p
      → leaf p.0.resources ≡ last_stated (λ l. leaf l.resources) layers
  leaf_of_run leaf folds none_yet layers p run =
      ap leaf run.resources
      ∙ subst (OnOk (λ g. leaf g.resources ≡ last_stated (λ l. leaf l.resources) layers)) run.runs (
          reading-fold_layers codec (λ f. leaf f.resources) (λ l. leaf l.resources)
            (λ i layer f decoded. folds f.resources layer.resources) layers none_yet)
