-- ===== src/Config/Merger.antt =====
-- pkg/config/merger.go: the merge of override layers. The JSON codec and the strategic merge patch
-- are parameters. Maps and slices are values: the sharing of a map that `AddConfigFile` is given, or
-- of a slice that the merge returns, is not modelled.
pub mod Precedence
pub mod Distinct
pub mod Arguments
pub mod Layers
use operator_go.Prelude.{String, Option, none, some, List, [], ◌∷◌, ◌++◌}
use operator_go.Prelude.Eq.{string_eq}
use operator_go.Prelude.Maps.{GoMap, lookup, insert, copy_into}
use operator_go.Common.Errors.{Err, Result, ok, fail, wrapped, formatted}

pub data MergeStrategy : Type 0 where
  merge_strategy_replace merge_strategy_append : MergeStrategy

abbrev pub Files : Type 0
Files = GoMap String (GoMap String String)

-- pkg/apis/commons/v1alpha1/overrides_types.go. The inner option is a nil `Raw`.
pub record OverridesSpec (Raw : Type 0) : Type 0 where
  pub config_overrides : Files
  pub env_overrides : GoMap String String
  pub cli_overrides : List String
  pub pod_overrides : Option (Option Raw)

pub record MergedConfig (Pod Logging : Type 0) : Type 0 where
  pub config_files : Files
  pub env_vars : GoMap String String
  pub cli_args : List String
  pub jvm_args : List String
  pub pod_overrides : Option Pod
  pub pod_override_errors : List Err
  pub logging : Option Logging

-- `json` and `strategicpatch`.
pub record PodCodec (Raw Pod : Type 0) : Type 0 where
  pub unmarshal : Raw → Result Pod
  pub marshal : Pod → Result Raw
  pub patch_meta : Pod → Result Unit
  pub strategic_merge_patch : Raw → Raw → Result Raw

unfoldable pub new_merged_config : {Pod Logging : Type 0} → MergedConfig Pod Logging
new_merged_config = record {
  config_files = [];
  env_vars = [];
  cli_args = [];
  jvm_args = [];
  pod_overrides = none;
  pod_override_errors = [];
  logging = none;
}

unfoldable pub merge_maps : GoMap String String → GoMap String String → GoMap String String
merge_maps base override = copy_into (copy_into [] base) override

-- The loop that copies the base.
unfoldable pub copy_files : Files → Files → Files
copy_files result [] = result
copy_files result ((filename, config) ∷ base) =
    copy_files (insert filename (copy_into [] config) result) base

abbrev pub or_empty : Option (GoMap String String) → GoMap String String
or_empty none = []
or_empty (some config) = config

-- The loop over the override.
unfoldable pub override_files : Files → Files → Files
override_files result [] = result
override_files result ((filename, config) ∷ override) =
    override_files (insert filename (copy_into (or_empty (lookup filename result)) config) result)
      override

unfoldable pub merge_config_files : Files → Files → Files
unfolding copy_files override_files
merge_config_files base override = override_files (copy_files [] base) override

unfoldable pub merge_slices : MergeStrategy → List String → List String → List String
merge_slices strategy base [] = base
merge_slices merge_strategy_append base (x ∷ override) = base ++ x ∷ override
merge_slices merge_strategy_replace base (x ∷ override) = x ∷ override

module _ {Raw Pod : Type 0} (codec : PodCodec Raw Pod) where
  -- Each step of the patch, with the template to fall back on.
  unfoldable pub or_fall_back :
      {A : Type 0}
      → Result A
      → Pod
      → String
      → (A → Option Pod × Option Err)
      → Option Pod × Option Err
  or_fall_back (ok a) pod message next = next a
  or_fall_back (fail err) pod message next = (some pod, some (wrapped (formatted message) err))

  unfoldable pub merge_pod_templates : Option Pod → Option Pod → Option Pod × Option Err
  unfolding or_fall_back
  merge_pod_templates none none = (none, none)
  merge_pod_templates none (some override_pod) = (some override_pod, none)
  merge_pod_templates (some base) none = (some base, none)
  merge_pod_templates (some base) (some override_pod) =
      or_fall_back (codec.marshal base) override_pod "failed to encode the merged pod template"
        (λ base_bytes.
          or_fall_back (codec.marshal override_pod) base "failed to encode the podOverrides layer"
            (λ override_bytes.
              or_fall_back (codec.patch_meta base) override_pod
                "failed to build the pod template patch metadata"
                (λ schema.
                  or_fall_back (codec.strategic_merge_patch base_bytes override_bytes) override_pod
                    "failed to strategic-merge the podOverrides layer"
                    (λ merged_bytes.
                      or_fall_back (codec.unmarshal merged_bytes) override_pod
                        "failed to decode the strategic-merged pod template"
                        (λ merged_pod. (some merged_pod, none))))))

  unfoldable pub merge_pod_override_into :
      Option Pod → Option (Option Raw) → Option Pod × Option Err
  unfolding merge_pod_templates
  merge_pod_override_into base none = merge_pod_templates base none
  merge_pod_override_into base (some none) = merge_pod_templates base none
  merge_pod_override_into base (some (some raw)) = elim (codec.unmarshal raw) [
    | fail err ↦
        (base, some (wrapped (formatted "podOverrides layer is not a valid PodTemplateSpec") err))
    | ok parsed ↦ merge_pod_templates base (some parsed)
  ]

module _ {Raw Pod Logging : Type 0} (codec : PodCodec Raw Pod) where
  -- One layer of the loop of `Merge`.
  unfoldable pub merge_layer :
      MergeStrategy → MergedConfig Pod Logging → OverridesSpec Raw → MergedConfig Pod Logging
  unfolding merge_config_files merge_maps merge_slices merge_pod_override_into
  merge_layer strategy result o =
      let (merged, err) = merge_pod_override_into codec result.pod_overrides o.pod_overrides in
      record result {
        config_files = merge_config_files result.config_files o.config_overrides;
        env_vars = merge_maps result.env_vars o.env_overrides;
        cli_args = merge_slices strategy result.cli_args o.cli_overrides;
        pod_override_errors = elim err [
          | none ↦ result.pod_override_errors
          | some e ↦ result.pod_override_errors ++ e ∷ []
        ];
        pod_overrides = merged;
      }

  unfoldable pub merge_onto :
      MergeStrategy
      → MergedConfig Pod Logging
      → List (Option (OverridesSpec Raw))
      → MergedConfig Pod Logging
  unfolding merge_layer
  merge_onto strategy result [] = result
  merge_onto strategy result (none ∷ overrides) = merge_onto strategy result overrides
  merge_onto strategy result (some o ∷ overrides) =
      merge_onto strategy (merge_layer strategy result o) overrides

  unfoldable pub merge :
      MergeStrategy → List (Option (OverridesSpec Raw)) → MergedConfig Pod Logging
  unfolding new_merged_config merge_onto
  merge strategy overrides = merge_onto strategy new_merged_config overrides

module _ {Pod Logging : Type 0} where
  unfoldable pub clone : MergedConfig Pod Logging → MergedConfig Pod Logging
  unfolding new_merged_config
  clone c = record new_merged_config {
    config_files = copy_files [] c.config_files;
    env_vars = copy_into [] c.env_vars;
    cli_args = c.cli_args;
    jvm_args = c.jvm_args;
    pod_overrides = c.pod_overrides;
    pod_override_errors = c.pod_override_errors;
  }

  unfoldable pub add_config_file :
      MergedConfig Pod Logging → String → GoMap String String → MergedConfig Pod Logging
  add_config_file c filename config = record c {
    config_files = insert filename config c.config_files;
  }

  unfoldable pub add_env_var : MergedConfig Pod Logging → String → String → MergedConfig Pod Logging
  add_env_var c key value = record c { env_vars = insert key value c.env_vars }

  unfoldable pub add_cli_arg : MergedConfig Pod Logging → String → MergedConfig Pod Logging
  add_cli_arg c arg = record c { cli_args = c.cli_args ++ arg ∷ [] }

  unfoldable pub add_jvm_arg : MergedConfig Pod Logging → String → MergedConfig Pod Logging
  add_jvm_arg c arg = record c { jvm_args = c.jvm_args ++ arg ∷ [] }

  unfoldable pub get_config_file : MergedConfig Pod Logging → String → Option (GoMap String String)
  get_config_file c filename = lookup filename c.config_files
