-- ===== src/Config/Merger/Arguments.antt =====
-- The command line arguments that the merge of pkg/config/merger.go keeps.
use operator_go.Prelude.{
  String, Option, none, some, List, [], ◌∷◌, ◌++◌, map, ◌≡◌, refl, ◌∙◌, ap, sym, is_empty,
  if◌then◌else◌,
}
use mathlib.Core.List.{append-nil, append_assoc}
use operator_go.Prelude.Eq.{string_eq}
use operator_go.Prelude.Maps.{or_else}
use operator_go.Config.Merger.{
  MergeStrategy, merge_strategy_replace, merge_strategy_append, OverridesSpec, MergedConfig,
  PodCodec, new_merged_config, merge_slices, merge_layer, merge_onto, merge,
}
use operator_go.Config.Merger.Precedence.{or_else-none}
use operator_go.Config.Merger.Precedence.{last_set}

-- The arguments of a layer, if it has any.
unfoldable pub cli_setting : {Raw : Type 0} → Option (OverridesSpec Raw) → Option (List String)
cli_setting none = none
cli_setting (some o) = if is_empty o.cli_overrides then none else some o.cli_overrides

abbrev pub or_no_arguments : Option (List String) → List String
or_no_arguments none = []
or_no_arguments (some xs) = xs

unfoldable pub all_arguments : {Raw : Type 0} → List (Option (OverridesSpec Raw)) → List String
all_arguments [] = []
all_arguments (none ∷ os) = all_arguments os
all_arguments (some o ∷ os) = o.cli_overrides ++ all_arguments os

unfoldable pub arguments_of :
    {Raw : Type 0} → MergeStrategy → List (Option (OverridesSpec Raw)) → List String
unfolding last_set cli_setting all_arguments
arguments_of merge_strategy_append os = all_arguments os
arguments_of merge_strategy_replace os = or_no_arguments (last_set (map cli_setting os))

merge_slices_append :
    (base xs : List String) → merge_slices merge_strategy_append base xs ≡ base ++ xs
unfolding merge_slices
merge_slices_append base [] = sym (append-nil base)
merge_slices_append base (x ∷ xs) = refl

merge_slices_replace :
    (base xs : List String)
    → merge_slices merge_strategy_replace base xs
      ≡ or_no_arguments (or_else (if is_empty xs then none else some xs) (some base))
unfolding merge_slices
merge_slices_replace base [] = refl
merge_slices_replace base (x ∷ xs) = refl

later_arguments :
    (a b : Option (List String)) (base : List String)
    → or_no_arguments (or_else a (some (or_no_arguments (or_else b (some base)))))
      ≡ or_no_arguments (or_else (or_else a b) (some base))
later_arguments (some xs) b base = refl
later_arguments none (some ys) base = refl
later_arguments none none base = refl

no_arguments :
    (a : Option (List String)) → or_no_arguments (or_else a (some [])) ≡ or_no_arguments a
no_arguments none = refl
no_arguments (some xs) = refl

module _ {Raw Pod Logging : Type 0} (codec : PodCodec Raw Pod) where
  appended_arguments :
      (os : List (Option (OverridesSpec Raw))) (r : MergedConfig Pod Logging)
      → (merge_onto codec merge_strategy_append r os).cli_args ≡ r.cli_args ++ all_arguments os
  unfolding merge_onto merge_layer merge_slices all_arguments
  appended_arguments [] r = sym (append-nil r.cli_args)
  appended_arguments (none ∷ os) r = appended_arguments os r
  appended_arguments (some o ∷ os) r =
      appended_arguments os (merge_layer codec merge_strategy_append r o)
      ∙ ap (λ xs. xs ++ all_arguments os) (merge_slices_append r.cli_args o.cli_overrides)
      ∙ append_assoc r.cli_args o.cli_overrides (all_arguments os)

  replaced_arguments :
      (os : List (Option (OverridesSpec Raw))) (r : MergedConfig Pod Logging)
      → (merge_onto codec merge_strategy_replace r os).cli_args
        ≡ or_no_arguments (or_else (last_set (map cli_setting os)) (some r.cli_args))
  unfolding merge_onto merge_layer merge_slices last_set cli_setting
  replaced_arguments [] r = refl
  replaced_arguments (none ∷ os) r =
      replaced_arguments os r
      ∙ ap (λ x. or_no_arguments (or_else x (some r.cli_args)))
          (sym (or_else-none (last_set (map cli_setting os))))
  replaced_arguments (some o ∷ os) r =
      replaced_arguments os (merge_layer codec merge_strategy_replace r o)
      ∙ ap (λ xs. or_no_arguments (or_else (last_set (map cli_setting os)) (some xs)))
          (merge_slices_replace r.cli_args o.cli_overrides)
      ∙ later_arguments (last_set (map cli_setting os))
          (if is_empty o.cli_overrides then none else some o.cli_overrides) r.cli_args

pub cli_args-merge :
    {Raw Pod : Type 0} (Logging : Type 0) (codec : PodCodec Raw Pod) (strategy : MergeStrategy)
    (os : List (Option (OverridesSpec Raw)))
    → (merge {Logging = Logging} codec strategy os).cli_args ≡ arguments_of strategy os
unfolding merge new_merged_config arguments_of
cli_args-merge Logging codec merge_strategy_append os =
    appended_arguments {Logging = Logging} codec os new_merged_config
cli_args-merge Logging codec merge_strategy_replace os =
    replaced_arguments {Logging = Logging} codec os new_merged_config
    ∙ no_arguments (last_set (map cli_setting os))
