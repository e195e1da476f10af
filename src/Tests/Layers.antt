-- ===== src/Tests/Layers.antt =====
-- The theorem on pkg/config/merger.go at a product default, an absent role and a role group.
use operator_go.Prelude.{String, Option, none, some, List, [], ◌∷◌, map, ◌≡◌, refl, All}
use operator_go.Prelude.Eq.{string_eq}
use operator_go.Prelude.Maps.{lookup}
use operator_go.Common.Errors.{ok}
use operator_go.Config.Merger.{
  MergedConfig, clone, merge_strategy_replace, OverridesSpec, PodCodec, merge,
}
use operator_go.Config.Merger.Precedence.{clone_lem, value_in, last_set}
use operator_go.Config.Merger.Arguments.{arguments_of}
use operator_go.Config.Merger.Layers.{file_setting, env_setting, IsLayer, merge-last_set}

-- A template is its text, and a patch replaces it.
abbrev text_codec : PodCodec String String
text_codec = record {
  unmarshal = λ raw. ok raw;
  marshal = λ pod. ok pod;
  patch_meta = λ pod. ok tt;
  strategic_merge_patch = λ base override. ok override;
}

abbrev product_defaults : OverridesSpec String
product_defaults = record {
  config_overrides = ("zoo.cfg", ("tickTime", "2000") ∷ ("initLimit", "10") ∷ []) ∷ [];
  env_overrides = ("JAVA_HOME", "/opt/java") ∷ [];
  cli_overrides = "--foreground" ∷ [];
  pod_overrides = none;
}

abbrev role_group_overrides : OverridesSpec String
role_group_overrides = record {
  config_overrides = ("zoo.cfg", ("tickTime", "3000") ∷ []) ∷ [];
  env_overrides = [];
  cli_overrides = [];
  pod_overrides = some (some "spec: {}");
}

abbrev layers : List (Option (OverridesSpec String))
layers = some product_defaults ∷ none ∷ some role_group_overrides ∷ []

layers-IsLayer : All IsLayer layers
layers-IsLayer =
    unfold lookup in
    (((refl, (refl, (refl, tt)), tt), (refl, tt)), (tt, (((refl, (refl, tt), tt), tt), tt)))

merge-last_set_example :
    ((filename key : String)
      → value_in filename key
          (merge {Logging = Unit} text_codec merge_strategy_replace layers).config_files
        ≡ last_set (map (file_setting filename key) layers))
    × ((name : String)
        → lookup name (merge {Logging = Unit} text_codec merge_strategy_replace layers).env_vars
          ≡ last_set (map (env_setting name) layers))
    × ((merge {Logging = Unit} text_codec merge_strategy_replace layers).cli_args
        ≡ arguments_of merge_strategy_replace layers)
merge-last_set_example = merge-last_set Unit text_codec merge_strategy_replace layers layers-IsLayer

abbrev server_config : MergedConfig String Unit
server_config = record {
  config_files = product_defaults.config_overrides;
  env_vars = product_defaults.env_overrides;
  cli_args = "--foreground" ∷ [];
  jvm_args = [];
  pod_overrides = none;
  pod_override_errors = [];
  logging = some tt;
}

clone_lem_example :
    ((filename key : String)
      → value_in filename key (clone server_config).config_files
        ≡ value_in filename key server_config.config_files)
    × ((name : String)
        → lookup name (clone server_config).env_vars ≡ lookup name server_config.env_vars)
    × ((clone server_config).cli_args ≡ server_config.cli_args)
    × ((clone server_config).jvm_args ≡ server_config.jvm_args)
    × ((clone server_config).pod_overrides ≡ server_config.pod_overrides)
    × ((clone server_config).pod_override_errors ≡ server_config.pod_override_errors)
    × ((clone server_config).logging ≡ none)
clone_lem_example = clone_lem server_config layers-IsLayer.0.0 layers-IsLayer.0.1
