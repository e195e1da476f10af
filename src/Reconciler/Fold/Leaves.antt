-- ===== src/Reconciler/Fold/Leaves.antt =====
-- `FoldCommonConfig`: each leaf of the result is what the last layer that states it says.
use mathlib.Core.Path.{subst}
use operator_go.Prelude.{String, Bool, Option, none, some, List, ◌≡◌, refl, sym, ap, ◌∙◌}
use operator_go.Prelude.Maps.{or_else, or_else-none}
use operator_go.Common.Errors.{ok, OnOk}
use operator_go.Api.Config.{RoleGroupConfigSpec, LoggingSpec}
use operator_go.Logging.{merge_logging_spec}
use operator_go.Logging.Levels.{Target}
use operator_go.Logging.Containers.{level_of}
use operator_go.Reconciler.Affinity.{Terms, AffinityCodec, encode_affinity, normalize_affinity}
use operator_go.Reconciler.Fold.{AffinityReplacement, fold_common_config}
use operator_go.Reconciler.Fold.Resources.{
  cpu_min, cpu_max, memory_limit, storage_capacity, storage_class, cpu_min-fold_resources,
  cpu_max-fold_resources, memory_limit-fold_resources, storage_capacity-fold_resources,
  storage_class-fold_resources,
}
use operator_go.Reconciler.Fold.Layers.{
  last_stated, stated_affinity, reading-fold_layers, affinity-fold_layers,
}
use operator_go.Reconciler.Fold.Stated.{fold_common_config-FoldRun, leaf_of_run}
use operator_go.Reconciler.Fold.Levels.{AllDistinctNames, level-fold_common_config}

-- `EnableVectorAgent`, if stated.
abbrev pub vector_agent : Option LoggingSpec → Option Bool
vector_agent none = none
vector_agent (some spec) = spec.enable_vector_agent

vector_agent-merge_logging_spec :
    (lower upper : Option LoggingSpec)
    → vector_agent (merge_logging_spec lower upper)
      ≡ or_else (vector_agent upper) (vector_agent lower)
unfolding merge_logging_spec
vector_agent-merge_logging_spec none none = refl
vector_agent-merge_logging_spec none (some upper) = sym (or_else-none upper.enable_vector_agent)
vector_agent-merge_logging_spec (some lower) none = refl
vector_agent-merge_logging_spec (some lower) (some upper) = refl

module _ {Quantity : Type 0} {T : Terms} (codec : AffinityCodec T) where
  -- A config whose leaves are what the last layer that states each says; its affinity is normalized.
  abbrev pub KeepsStated :
      List (Option (RoleGroupConfigSpec Quantity)) → RoleGroupConfigSpec Quantity → Type 0
  KeepsStated layers out =
      (out.graceful_shutdown_timeout ≡ last_stated (λ l. l.graceful_shutdown_timeout) layers)
      × (cpu_min out.resources ≡ last_stated (λ l. cpu_min l.resources) layers)
      × (cpu_max out.resources ≡ last_stated (λ l. cpu_max l.resources) layers)
      × (memory_limit out.resources ≡ last_stated (λ l. memory_limit l.resources) layers)
      × (storage_capacity out.resources ≡ last_stated (λ l. storage_capacity l.resources) layers)
      × (storage_class out.resources ≡ last_stated (λ l. storage_class l.resources) layers)
      × (encode_affinity codec (normalize_affinity (last_stated (stated_affinity codec) layers))
          ≡ ok out.affinity)
      × (vector_agent out.logging ≡ last_stated (λ l. vector_agent l.logging) layers)
      × ((container : String) (t : Target)
          → level_of container t out.logging
            ≡ last_stated (λ l. level_of container t l.logging) layers)

  -- Where the fold returns a config, and the maps of the layers' logging hold each name once, each
  -- leaf of it is what the last layer that states the leaf says: the timeout, the resources, the
  -- vector agent's switch and the level of each target of each container. Its affinity is the last
  -- one that a layer states, normalized and encoded.
  pub fold_common_config-KeepsStated :
      (layers : List (Option (RoleGroupConfigSpec Quantity))) (out : RoleGroupConfigSpec Quantity)
      (replaced : List AffinityReplacement)
      → AllDistinctNames layers
      → fold_common_config codec layers ≡ ok (out, replaced)
      → KeepsStated layers out
  fold_common_config-KeepsStated layers out replaced d h =
      let run = fold_common_config-FoldRun codec layers out replaced h in
      (
        run.timeout
            ∙ subst
                (OnOk (λ g.
                  g.graceful_shutdown_timeout
                  ≡ last_stated (λ l. l.graceful_shutdown_timeout) layers))
                run.runs
                (reading-fold_layers codec (λ f. f.graceful_shutdown_timeout)
                  (λ l. l.graceful_shutdown_timeout) (λ i layer f decoded. refl) layers refl),
        leaf_of_run codec cpu_min cpu_min-fold_resources refl layers (out, replaced) run,
        leaf_of_run codec cpu_max cpu_max-fold_resources refl layers (out, replaced) run,
        leaf_of_run codec memory_limit memory_limit-fold_resources refl layers (out, replaced) run,
        leaf_of_run codec storage_capacity storage_capacity-fold_resources refl layers
            (out, replaced) run,
        leaf_of_run codec storage_class storage_class-fold_resources refl layers (out, replaced)
            run,
        ap (encode_affinity codec) (
              sym (
                subst
                  (OnOk (λ g.
                    normalize_affinity g.affinity
                    ≡ normalize_affinity (last_stated (stated_affinity codec) layers)))
                  run.runs (affinity-fold_layers codec layers)))
            ∙ run.encodes,
        ap vector_agent run.logging
            ∙ subst
                (OnOk
                  (λ g. vector_agent g.logging ≡ last_stated (λ l. vector_agent l.logging) layers))
                run.runs
                (reading-fold_layers codec (λ f. vector_agent f.logging)
                  (λ l. vector_agent l.logging)
                  (λ i layer f decoded. vector_agent-merge_logging_spec f.logging layer.logging)
                  layers refl),
        λ container t. level-fold_common_config codec container t layers out replaced d h,
      )
