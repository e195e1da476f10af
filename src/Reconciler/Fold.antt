-- ===== src/Reconciler/Fold.antt =====
-- pkg/reconciler/config_fold.go: `FoldCommonConfig`, the fold of the framework's half of the config
-- block over the product's default, the role and the role group. Values are not shared, so the deep
-- copies of the code are the values themselves.
pub mod Resources
pub mod Layers
pub mod Stated
pub mod Members
pub mod Reports
pub mod Levels
pub mod Leaves
pub mod Errors
use operator_go.Prelude.{
  ℕ, ◌+◌, String, Bool, not, ◌&&◌, Option, none, some, List, [], ◌∷◌, ◌++◌, is_some, if◌then◌else◌,
}
use operator_go.Prelude.Maps.{or_else}
use operator_go.Common.Errors.{Result, ok, fail, and_then}
use operator_go.Api.Config.{
  CpuResource, MemoryResource, StorageResource, ResourcesSpec, LoggingSpec, RawExtension,
  RoleGroupConfigSpec,
}
use operator_go.Logging.{merge_logging_spec}
use operator_go.Reconciler.Affinity.{
  Terms, Affinity, AffinityCodec, decode_affinity, encode_affinity, normalize_affinity,
}

pub record AffinityReplacement : Type 0 where
  pub layer : ℕ  -- int
  pub dropped : List String

-- One test of `droppedAffinityMembers`.
abbrev pub drop_member : Bool → Bool → String → List String
drop_member lower upper name = if lower && not upper then name ∷ [] else []

module _ {T : Terms} where
  abbrev pub dropped_of : Option (Affinity T) → Affinity T → List String
  dropped_of none upper = []
  dropped_of (some lower) upper =
      drop_member (is_some lower.node_affinity) (is_some upper.node_affinity) "nodeAffinity"
      ++ (drop_member (is_some lower.pod_affinity) (is_some upper.pod_affinity) "podAffinity"
          ++ drop_member (is_some lower.pod_anti_affinity) (is_some upper.pod_anti_affinity)
              "podAntiAffinity")

  unfoldable pub dropped_affinity_members : Option (Affinity T) → Affinity T → List String
  dropped_affinity_members lower upper = dropped_of (normalize_affinity lower) upper

  unfoldable pub fold_affinity :
      Option (Affinity T) → Option (Affinity T) → Option (Affinity T) × List String
  unfolding dropped_affinity_members
  fold_affinity lower none = (lower, [])
  fold_affinity lower (some upper) =
      if not (is_some (normalize_affinity (some upper)))
      then (none, [])
      else (some upper, dropped_affinity_members lower upper)

module _ {Quantity : Type 0} where
  -- Each switch of `foldResources`.
  unfoldable pub fold_cpu :
      Option (CpuResource Quantity) → Option (CpuResource Quantity) → Option (CpuResource Quantity)
  fold_cpu lower none = lower
  fold_cpu none (some upper) = some upper
  fold_cpu (some lower) (some upper) =
      some (record { min = or_else upper.min lower.min; max = or_else upper.max lower.max })

  unfoldable pub fold_memory :
      Option (MemoryResource Quantity)
      → Option (MemoryResource Quantity)
      → Option (MemoryResource Quantity)
  fold_memory lower none = lower
  fold_memory none (some upper) = some upper
  fold_memory (some lower) (some upper) = some (record { limit = or_else upper.limit lower.limit })

  unfoldable pub fold_storage :
      Option (StorageResource Quantity)
      → Option (StorageResource Quantity)
      → Option (StorageResource Quantity)
  fold_storage lower none = lower
  fold_storage none (some upper) = some upper
  fold_storage (some lower) (some upper) = some (record {
    capacity = or_else upper.capacity lower.capacity;
    storage_class = or_else upper.storage_class lower.storage_class;
  })

  unfoldable pub fold_resources :
      Option (ResourcesSpec Quantity)
      → Option (ResourcesSpec Quantity)
      → Option (ResourcesSpec Quantity)
  unfolding fold_cpu fold_memory fold_storage
  fold_resources none none = none
  fold_resources none (some upper) = some upper
  fold_resources (some lower) none = some lower
  fold_resources (some lower) (some upper) = some (record {
    cpu = fold_cpu lower.cpu upper.cpu;
    memory = fold_memory lower.memory upper.memory;
    storage = fold_storage lower.storage upper.storage;
  })

-- What the loop of `FoldCommonConfig` has: `out` less its affinity, and the affinity beside it.
pub record Folded (Quantity : Type 0) (T : Terms) : Type 0 where
  pub graceful_shutdown_timeout : Option String
  pub resources : Option (ResourcesSpec Quantity)
  pub logging : Option LoggingSpec
  pub affinity : Option (Affinity T)
  pub replaced : List AffinityReplacement

abbrev pub report : ℕ → List String → List AffinityReplacement → List AffinityReplacement
report i [] replaced = replaced
report i (name ∷ names) replaced = replaced ++ record { layer = i; dropped = name ∷ names } ∷ []

module _ {Quantity : Type 0} {T : Terms} where
  abbrev pub nothing_folded : Folded Quantity T
  nothing_folded = record {
    graceful_shutdown_timeout = none;
    resources = none;
    logging = none;
    affinity = none;
    replaced = [];
  }

  abbrev pub config_of :
      Folded Quantity T
      → Result (Option RawExtension)
      → Result (RoleGroupConfigSpec Quantity × List AffinityReplacement)
  config_of f (fail err) = fail err
  config_of f (ok affinity) = ok (
    record {
      affinity = affinity;
      graceful_shutdown_timeout = f.graceful_shutdown_timeout;
      logging = f.logging;
      resources = f.resources;
    },
    f.replaced,
  )

module _ {Quantity : Type 0} {T : Terms} (codec : AffinityCodec T) where
  abbrev pub with_affinity :
      ℕ
      → RoleGroupConfigSpec Quantity
      → Folded Quantity T
      → Result (Option (Affinity T))
      → Result (Folded Quantity T)
  with_affinity i layer f (fail err) = fail err
  with_affinity i layer f (ok decoded) =
      let (next, dropped) = fold_affinity f.affinity decoded in
      ok (record {
        graceful_shutdown_timeout =
            or_else layer.graceful_shutdown_timeout f.graceful_shutdown_timeout;
        resources = fold_resources f.resources layer.resources;
        logging = merge_logging_spec f.logging layer.logging;
        affinity = next;
        replaced = report i dropped f.replaced;
      })

  unfoldable pub fold_layer :
      ℕ → Option (RoleGroupConfigSpec Quantity) → Folded Quantity T → Result (Folded Quantity T)
  fold_layer i none f = ok f
  fold_layer i (some layer) f = with_affinity i layer f (decode_affinity codec layer.affinity)

  unfoldable pub fold_layers :
      ℕ
      → List (Option (RoleGroupConfigSpec Quantity))
      → Folded Quantity T
      → Result (Folded Quantity T)
  unfolding fold_layer
  fold_layers i [] f = ok f
  fold_layers i (layer ∷ layers) f = and_then (fold_layer i layer f) (fold_layers (i + 1) layers)

  unfoldable pub fold_common_config :
      List (Option (RoleGroupConfigSpec Quantity))
      → Result (RoleGroupConfigSpec Quantity × List AffinityReplacement)
  unfolding fold_layers
  fold_common_config layers =
      and_then (fold_layers 0 layers nothing_folded)
        (λ f. config_of f (encode_affinity codec (normalize_affinity f.affinity)))
