-- ===== src/Logging.antt =====
-- pkg/productlogging/logging.go: the merge of logging specs and the neutral model of a container's
-- logging that the generators render.
pub mod Levels
pub mod Containers
use operator_go.Prelude.{String, Bool, false, not, ◌&&◌, Option, none, some, [], ◌∷◌, if◌then◌else◌}
use operator_go.Prelude.Eq.{◌==◌, string_eq}
use operator_go.Prelude.Maps.{GoMap, lookup, insert, copy_into, or_else}
use operator_go.Api.Config.{LogLevelSpec, LoggingConfigSpec, LoggingSpec}

-- `spec != nil && spec.Level != ""`
abbrev pub states_level : Option LogLevelSpec → Bool
states_level none = false
states_level (some spec) = not (spec.level == "")

-- The inner loop over one side's loggers.
unfoldable pub set_levels :
    GoMap String (Option LogLevelSpec)
    → GoMap String (Option LogLevelSpec)
    → GoMap String (Option LogLevelSpec)
set_levels [] merged = merged
set_levels ((k, v) ∷ loggers) merged =
    set_levels loggers (if states_level v then insert k v merged else merged)

unfoldable pub merge_container_logging : LoggingConfigSpec → LoggingConfigSpec → LoggingConfigSpec
merge_container_logging role group = record {
  console = if states_level group.console then group.console else role.console;
  file = if states_level group.file then group.file else role.file;
  loggers = set_levels group.loggers (set_levels role.loggers []);
}

-- A group's container onto the role's of that name, if there is one.
unfoldable pub onto_role : Option LoggingConfigSpec → LoggingConfigSpec → LoggingConfigSpec
onto_role none gc = gc
onto_role (some rc) gc = merge_container_logging rc gc

-- The loop over the group's containers.
unfoldable pub merge_containers :
    GoMap String LoggingConfigSpec → GoMap String LoggingConfigSpec → GoMap String LoggingConfigSpec
merge_containers [] merged = merged
merge_containers ((name, gc) ∷ group) merged =
    merge_containers group (insert name (onto_role (lookup name merged) gc) merged)

unfoldable pub merge_logging_spec : Option LoggingSpec → Option LoggingSpec → Option LoggingSpec
merge_logging_spec none group = group
merge_logging_spec (some role) none = some role
merge_logging_spec (some role) (some group) = some (record {
  enable_vector_agent = or_else group.enable_vector_agent role.enable_vector_agent;
  containers = merge_containers group.containers (copy_into [] role.containers);
})

pub record LogConfig : Type 0 where
  pub root_level : String
  pub loggers : GoMap String String
  pub console_level : String
  pub file_level : String

abbrev pub root_logger_name : String
root_logger_name = "ROOT"

unfoldable pub no_overrides : LogConfig
no_overrides = record { root_level = ""; loggers = []; console_level = ""; file_level = "" }

abbrev pub with_logger : String → String → LogConfig → LogConfig
with_logger name level lc =
    if name == root_logger_name
    then record lc { root_level = level }
    else record lc { loggers = insert name level lc.loggers }

-- One entry of `spec.Loggers`.
unfoldable pub add_logger : String → Option LogLevelSpec → LogConfig → LogConfig
add_logger name none lc = lc
add_logger name (some spec) lc = if spec.level == "" then lc else with_logger name spec.level lc

unfoldable pub add_loggers : GoMap String (Option LogLevelSpec) → LogConfig → LogConfig
add_loggers [] lc = lc
add_loggers ((name, level) ∷ loggers) lc = add_loggers loggers (add_logger name level lc)

-- The level of an appender, empty where none is stated.
abbrev pub threshold : Option LogLevelSpec → String
threshold none = ""
threshold (some spec) = spec.level

unfoldable pub log_config_from_spec : Option LoggingConfigSpec → LogConfig
log_config_from_spec none = no_overrides
log_config_from_spec (some spec) = record (add_loggers spec.loggers no_overrides) {
  console_level = threshold spec.console;
  file_level = threshold spec.file;
}
