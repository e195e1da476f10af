-- ===== src/Tests/Folds.antt =====
-- The theorems on the config fold and on the logging levels at concrete layers.
use operator_go.Prelude.{
  ℕ, String, true, Option, none, some, List, [], ◌∷◌, ◌≡◌, ◌↔◌, refl, All, is_some, if◌then◌else◌,
}
use operator_go.Prelude.Eq.{◌==◌, text_eq}
use operator_go.Prelude.Maps.{OfFound, lookup, insert, copy_into}
use operator_go.Common.Errors.{ok, fail, opaque, IsOk}
use operator_go.Api.Config.{LoggingConfigSpec, RawExtension, RoleGroupConfigSpec}
use operator_go.Logging.{
  log_config_from_spec, merge_logging_spec, merge_containers, onto_role, merge_container_logging,
  set_levels,
}
use operator_go.Logging.Levels.{logger, level_in, level_for, level-log_config_from_spec}
use operator_go.Reconciler.Affinity.{
  Terms, Affinity, AffinityCodec, decode_affinity, encode_affinity, normalize_affinity,
}
use operator_go.Reconciler.Fold.{
  AffinityReplacement, fold_affinity, fold_resources, fold_common_config,
}
use operator_go.Reconciler.Fold.Layers.{last_stated, stated_affinity}
use operator_go.Reconciler.Fold.Leaves.{KeepsStated, fold_common_config-KeepsStated}
use operator_go.Reconciler.Fold.Levels.{AllDistinctNames}
use operator_go.Reconciler.Fold.Errors.{Decodes, fold_common_config-IsOk}
use operator_go.Reconciler.Fold.Members.{anti_member, carries}
use operator_go.Reconciler.Fold.Reports.{accounted, fold_common_config-accounted}

abbrev terms : Terms
terms = record {
  NodeSelector = String;
  PreferredSchedulingTerm = String;
  PodAffinityTerm = String;
  WeightedPodAffinityTerm = String;
}

abbrev pinned : Affinity terms
pinned = record {
  node_affinity = some (record { required = some "zone=a"; preferred = [] });
  pod_affinity = none;
  pod_anti_affinity = none;
}

abbrev spread : Affinity terms
spread = record {
  node_affinity = none;
  pod_affinity = none;
  pod_anti_affinity = some (record { required = []; preferred = "hostname" ∷ [] });
}

-- Two texts that decode, and what they encode as.
abbrev codec : AffinityCodec terms
codec = record {
  valid = λ raw. true;
  decode = λ raw.
      if raw == (1 ∷ [])
      then ok pinned
      else if raw == (2 ∷ [])
      then ok spread
      else fail (opaque "unknown field");
  marshal = λ a. ok (if is_some a.node_affinity then 1 ∷ [] else 2 ∷ []);
}

abbrev stating : Option RawExtension → Option String → String → RoleGroupConfigSpec ℕ
stating affinity timeout level = record {
  affinity = affinity;
  graceful_shutdown_timeout = timeout;
  logging = some (record {
    containers =
        (
          "server",
          record {
            loggers = ("ROOT", some (record { level = level })) ∷ [];
            console = none;
            file = none;
          },
        )
        ∷ [];
    enable_vector_agent = none;
  });
  resources =
      some (record {
        cpu = some (record { max = some 4; min = none });
        memory = none;
        storage = none;
      });
}

-- The product spreads the pods, the role group pins them to a zone.
abbrev layers : List (Option (RoleGroupConfigSpec ℕ))
layers =
    some (stating (some (2 ∷ [])) (some "60s") "INFO")
    ∷ none
    ∷ some (stating (some (1 ∷ [])) none "DEBUG")
    ∷ []

abbrev effective : RoleGroupConfigSpec ℕ
effective = stating (some (1 ∷ [])) (some "60s") "DEBUG"

abbrev lost : List AffinityReplacement
lost = record { layer = 2; dropped = "podAntiAffinity" ∷ [] } ∷ []

layers_lem : fold_common_config codec layers ≡ ok (effective, lost)
unfolding fold_common_config decode_affinity encode_affinity normalize_affinity fold_affinity
    merge_logging_spec fold_resources merge_containers insert copy_into onto_role lookup
    merge_container_logging set_levels
layers_lem = refl

names : AllDistinctNames layers
unfolding lookup
names = (((refl, tt), ((refl, tt), tt)), (tt, (((refl, tt), ((refl, tt), tt)), tt)))

fold_common_config-KeepsStated_example : KeepsStated codec layers effective
fold_common_config-KeepsStated_example =
    fold_common_config-KeepsStated codec layers effective lost names layers_lem

fold_common_config-IsOk_example : IsOk (fold_common_config codec layers) ↔ (
    All (OfFound (Decodes codec)) layers
    × IsOk
        (encode_affinity codec (normalize_affinity (last_stated (stated_affinity codec) layers))))
fold_common_config-IsOk_example = fold_common_config-IsOk codec layers

fold_common_config-accounted_example :
    (kept : Option (Affinity terms)) × (encode_affinity codec kept ≡ ok effective.affinity)
    × (accounted codec anti_member (carries anti_member kept) lost layers ≡ true)
fold_common_config-accounted_example =
    fold_common_config-accounted codec anti_member layers effective lost layers_lem

abbrev server_logging : LoggingConfigSpec
server_logging = record {
  loggers =
      ("ROOT", some (record { level = "WARN" }))
      ∷ ("org.apache.zookeeper", some (record { level = "DEBUG" }))
      ∷ [];
  console = some (record { level = "ERROR" });
  file = none;
}

level-log_config_from_spec_example :
    level_for (logger "org.apache.zookeeper") (log_config_from_spec (some server_logging))
    ≡ level_in (logger "org.apache.zookeeper") server_logging
unfolding lookup
level-log_config_from_spec_example =
    level-log_config_from_spec (logger "org.apache.zookeeper") server_logging (refl, (refl, tt))
