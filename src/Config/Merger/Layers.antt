-- ===== src/Config/Merger/Layers.antt =====
-- `Merge` of pkg/config/merger.go over any number of layers.
use operator_go.Prelude.{
  String, Option, none, some, List, [], ◌∷◌, map, ◌≡◌, refl, ◌∙◌, ap, sym, All,
}
use operator_go.Prelude.Eq.{string_eq}
use operator_go.Prelude.Maps.{lookup, or_else, HasDistinctKeys, lookup-nil}
use operator_go.Config.Merger.{
  MergeStrategy, OverridesSpec, MergedConfig, PodCodec, new_merged_config, merge_layer, merge_onto,
  merge,
}
use operator_go.Config.Merger.Precedence.{
  last_set, or_else_assoc, HasDistinctFiles, or_else-none, value_of, value_in,
  value_in-merge_config_files,
}
use operator_go.Config.Merger.Distinct.{
  merge_config_files-HasDistinctFiles, merge_maps-HasDistinctKeys, lookup-merge_maps,
}
use operator_go.Config.Merger.Arguments.{arguments_of, cli_args-merge}

-- What a layer says of a key of a file, and of an environment variable.
abbrev pub file_setting :
    {Raw : Type 0} → String → String → Option (OverridesSpec Raw) → Option String
file_setting filename key none = none
file_setting filename key (some o) = value_in filename key o.config_overrides

abbrev pub env_setting : {Raw : Type 0} → String → Option (OverridesSpec Raw) → Option String
env_setting name none = none
env_setting name (some o) = lookup name o.env_overrides

-- A layer's maps hold each key once.
abbrev pub IsLayer : {Raw : Type 0} → Option (OverridesSpec Raw) → Type 0
IsLayer none = Unit
IsLayer (some o) = HasDistinctFiles o.config_overrides × HasDistinctKeys o.env_overrides

module _ {Raw Pod Logging : Type 0} (codec : PodCodec Raw Pod) (strategy : MergeStrategy) where
  value_in-merge_onto :
      (filename key : String) (os : List (Option (OverridesSpec Raw)))
      (r : MergedConfig Pod Logging)
      → HasDistinctFiles r.config_files
      → All IsLayer os
      → value_in filename key (merge_onto codec strategy r os).config_files
        ≡ or_else
            (last_set (map (file_setting filename key) os))
            (value_in filename key r.config_files)
  unfolding merge_onto merge_layer last_set
  value_in-merge_onto filename key [] r hr h = refl
  value_in-merge_onto filename key (none ∷ os) r hr h =
      value_in-merge_onto filename key os r hr h.1
      ∙ ap (λ x. or_else x (value_in filename key r.config_files))
          (sym (or_else-none (last_set (map (file_setting filename key) os))))
  value_in-merge_onto filename key (some o ∷ os) r hr h =
      value_in-merge_onto filename key os (merge_layer codec strategy r o)
        (merge_config_files-HasDistinctFiles r.config_files o.config_overrides) h.1
      ∙ ap (or_else (last_set (map (file_setting filename key) os)))
          (value_in-merge_config_files filename key r.config_files o.config_overrides hr h.0.0)
      ∙ or_else_assoc (last_set (map (file_setting filename key) os))
          (value_in filename key o.config_overrides) (value_in filename key r.config_files)

  lookup-merge_onto :
      (name : String) (os : List (Option (OverridesSpec Raw))) (r : MergedConfig Pod Logging)
      → HasDistinctKeys r.env_vars
      → All IsLayer os
      → lookup name (merge_onto codec strategy r os).env_vars
        ≡ or_else (last_set (map (env_setting name) os)) (lookup name r.env_vars)
  unfolding merge_onto merge_layer last_set
  lookup-merge_onto name [] r hr h = refl
  lookup-merge_onto name (none ∷ os) r hr h =
      lookup-merge_onto name os r hr h.1
      ∙ ap (λ x. or_else x (lookup name r.env_vars))
          (sym (or_else-none (last_set (map (env_setting name) os))))
  lookup-merge_onto name (some o ∷ os) r hr h =
      lookup-merge_onto name os (merge_layer codec strategy r o)
        (merge_maps-HasDistinctKeys r.env_vars o.env_overrides) h.1
      ∙ ap (or_else (last_set (map (env_setting name) os)))
          (lookup-merge_maps name r.env_vars o.env_overrides hr h.0.1)
      ∙ or_else_assoc (last_set (map (env_setting name) os)) (lookup name o.env_overrides)
          (lookup name r.env_vars)

-- Where each layer's maps hold a key once, a merged file gives a key, and the merged environment a
-- variable, the value of the last layer that sets it, and nothing where no layer does. The command
-- line arguments are those of the last layer that has some, or under the append strategy those of
-- all layers in order.
pub merge-last_set :
    {Raw Pod : Type 0} (Logging : Type 0) (codec : PodCodec Raw Pod) (strategy : MergeStrategy)
    (os : List (Option (OverridesSpec Raw)))
    → All IsLayer os
    → ((filename key : String)
        → value_in filename key (merge {Logging = Logging} codec strategy os).config_files
          ≡ last_set (map (file_setting filename key) os))
      × ((name : String)
          → lookup name (merge {Logging = Logging} codec strategy os).env_vars
            ≡ last_set (map (env_setting name) os))
      × ((merge {Logging = Logging} codec strategy os).cli_args ≡ arguments_of strategy os)
unfolding merge new_merged_config
merge-last_set Logging codec strategy os h = (
  λ filename key.
      value_in-merge_onto codec strategy filename key os new_merged_config tt h
      ∙ ap (or_else _) (ap (value_of key) (lookup-nil filename))
      ∙ or_else-none _,
  λ name.
      lookup-merge_onto codec strategy name os new_merged_config tt h
      ∙ ap (or_else _) (lookup-nil name)
      ∙ or_else-none _,
  cli_args-merge Logging codec strategy os,
)
