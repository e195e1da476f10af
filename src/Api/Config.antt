-- ===== src/Api/Config.antt =====
-- pkg/apis/commons/v1alpha1/{config_types,resource_types,logging_types}.go: the config block of a role
-- or a role group. A pointer is an `Option`, `resource.Quantity` a parameter, and a `RawExtension`
-- the list of its bytes.
use operator_go.Prelude.{ℕ, String, Bool, Option, none, some, List}
use operator_go.Prelude.Maps.{GoMap}

pub record CpuResource (Quantity : Type 0) : Type 0 where
  pub max : Option Quantity
  pub min : Option Quantity

pub record MemoryResource (Quantity : Type 0) : Type 0 where
  pub limit : Option Quantity

pub record StorageResource (Quantity : Type 0) : Type 0 where
  pub capacity : Option Quantity
  pub storage_class : Option String

pub record ResourcesSpec (Quantity : Type 0) : Type 0 where
  pub cpu : Option (CpuResource Quantity)
  pub memory : Option (MemoryResource Quantity)
  pub storage : Option (StorageResource Quantity)

pub record LogLevelSpec : Type 0 where
  pub level : String

pub record LoggingConfigSpec : Type 0 where
  pub loggers : GoMap String (Option LogLevelSpec)
  pub console : Option LogLevelSpec
  pub file : Option LogLevelSpec

pub record LoggingSpec : Type 0 where
  pub containers : GoMap String LoggingConfigSpec
  pub enable_vector_agent : Option Bool

abbrev pub RawExtension : Type 0
RawExtension = List ℕ

pub record RoleGroupConfigSpec (Quantity : Type 0) : Type 0 where
  pub affinity : Option RawExtension
  pub graceful_shutdown_timeout : Option String
  pub logging : Option LoggingSpec
  pub resources : Option (ResourcesSpec Quantity)

-- The floors, which apply where a value is read and not where the layers fold.
unfoldable pub get_capacity :
    {Quantity : Type 0} → Quantity → Option (StorageResource Quantity) → Quantity
get_capacity default_storage_capacity none = default_storage_capacity
get_capacity default_storage_capacity (some s) = elim s.capacity [
  | none ↦ default_storage_capacity
  | some capacity ↦ capacity
]

unfoldable pub get_graceful_shutdown_timeout :
    {Quantity : Type 0} → Option (RoleGroupConfigSpec Quantity) → String
get_graceful_shutdown_timeout none = "30s"
get_graceful_shutdown_timeout (some c) = elim c.graceful_shutdown_timeout [
  | none ↦ "30s"
  | some timeout ↦ timeout
]
