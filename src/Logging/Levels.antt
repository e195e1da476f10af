-- ===== src/Logging/Levels.antt =====
-- The level that a logging spec states for a logger, the console or the file, and what merging and
-- reading a spec do to it.
use operator_go.Prelude.{
  String, Option, none, some, [], ◌∷◌, ◌≡◌, refl, ap, ◌∙◌, inl, inr, if◌then◌else◌, Bool-cases,
  arith,
}
use operator_go.Prelude.Eq.{◌==◌, string_eq}
use operator_go.Prelude.Maps.{
  GoMap, lookup, insert, or_else, HasDistinctKeys, lookup-insert, lookup-nil,
  insert-HasDistinctKeys,
}
use operator_go.Api.Config.{LogLevelSpec, LoggingConfigSpec}
use operator_go.Logging.{
  states_level, set_levels, merge_container_logging, LogConfig, root_logger_name, no_overrides,
  add_logger, add_loggers, threshold, log_config_from_spec,
}

-- Where a level applies: a logger, or the threshold of an appender.
pub data Target : Type 0 where
  logger : String → Target
  console file : Target

abbrev pub non_empty : String → Option String
non_empty level = if level == "" then none else some level

abbrev pub stated : Option LogLevelSpec → Option String
stated none = none
stated (some spec) = non_empty spec.level

abbrev pub stated_entry : Option (Option LogLevelSpec) → Option String
stated_entry none = none
stated_entry (some entry) = stated entry

-- The level that a container's spec states.
abbrev pub level_in : Target → LoggingConfigSpec → Option String
level_in (logger name) spec = stated_entry (lookup name spec.loggers)
level_in console spec = stated spec.console
level_in file spec = stated spec.file

-- The level that a generator is given.
abbrev pub level_for : Target → LogConfig → Option String
level_for (logger name) lc =
    if name == root_logger_name then non_empty lc.root_level else lookup name lc.loggers
level_for console lc = non_empty lc.console_level
level_for file lc = non_empty lc.file_level

stated-states_level :
    (a b : Option LogLevelSpec)
    → stated (if states_level a then a else b) ≡ or_else (stated a) (stated b)
stated-states_level none b = refl
stated-states_level (some spec) b = ground arith

entry-insert :
    (k j : String) (v : Option LogLevelSpec) (m : GoMap String (Option LogLevelSpec))
    → stated_entry (lookup k (if states_level v then insert j v m else m)) ≡ (
        if j == k
        then or_else (stated v) (stated_entry (lookup k m))
        else stated_entry (lookup k m))
entry-insert k j none m = ground arith
entry-insert k j (some spec) m = elim (Bool-cases (spec.level == "")) [
  | inl empty ↦ rw empty (ground arith)
  | inr there ↦ rw there (rw (lookup-insert j k (some spec) m) (ground arith))
]

pub entry-set_levels :
    (k : String) (loggers merged : GoMap String (Option LogLevelSpec))
    → HasDistinctKeys loggers
    → stated_entry (lookup k (set_levels loggers merged))
      ≡ or_else (stated_entry (lookup k loggers)) (stated_entry (lookup k merged))
unfolding set_levels lookup
entry-set_levels k [] merged h = refl
entry-set_levels k ((j, v) ∷ loggers) merged h =
    entry-set_levels k loggers (if states_level v then insert j v merged else merged) h.1
    ∙ rw (entry-insert k j v merged) (ground (arith, string_eq.beq_iff j k, h.0))

pub level-merge_container_logging :
    (t : Target) (role group : LoggingConfigSpec)
    → HasDistinctKeys role.loggers
    → HasDistinctKeys group.loggers
    → level_in t (merge_container_logging role group) ≡ or_else (level_in t group) (level_in t role)
unfolding merge_container_logging
level-merge_container_logging (logger k) role group hr hg =
    entry-set_levels k group.loggers (set_levels role.loggers []) hg
    ∙ ap (or_else (stated_entry (lookup k group.loggers))) (
        entry-set_levels k role.loggers [] hr
        ∙ rw (lookup-nil {V = Option LogLevelSpec} k) (ground arith))
level-merge_container_logging console role group hr hg =
    stated-states_level group.console role.console
level-merge_container_logging file role group hr hg = stated-states_level group.file role.file

pub set_levels-HasDistinctKeys :
    (loggers merged : GoMap String (Option LogLevelSpec))
    → HasDistinctKeys merged
    → HasDistinctKeys (set_levels loggers merged)
unfolding set_levels
set_levels-HasDistinctKeys [] merged h = h
set_levels-HasDistinctKeys ((j, v) ∷ loggers) merged h =
    set_levels-HasDistinctKeys loggers (if states_level v then insert j v merged else merged)
      (elim (Bool-cases (states_level v)) [
        | inl there ↦ rw there (insert-HasDistinctKeys j v merged h)
        | inr empty ↦ rw empty h
      ])

level-add_logger :
    (k j : String) (v : Option LogLevelSpec) (lc : LogConfig)
    → level_for (logger k) (add_logger j v lc)
      ≡ (if j == k then or_else (stated v) (level_for (logger k) lc) else level_for (logger k) lc)
unfolding add_logger
level-add_logger k j none lc = ground arith
level-add_logger k j (some spec) lc = elim (Bool-cases (spec.level == "")) [
  | inl empty ↦ rw empty (ground arith)
  | inr there ↦ elim (Bool-cases (j == root_logger_name)) [
    | inl root ↦ rw there (
        rw root (
          ground (
            arith,
            string_eq.beq_iff j k,
            string_eq.beq_iff j root_logger_name,
            string_eq.beq_iff k root_logger_name,
          )))
    | inr named ↦ rw there (
        rw named
          (rw (lookup-insert j k spec.level lc.loggers) (ground (arith, string_eq.beq_iff j k))))
  ]
]

level-add_loggers :
    (k : String) (loggers : GoMap String (Option LogLevelSpec)) (lc : LogConfig)
    → HasDistinctKeys loggers
    → level_for (logger k) (add_loggers loggers lc)
      ≡ or_else (stated_entry (lookup k loggers)) (level_for (logger k) lc)
unfolding add_loggers lookup
level-add_loggers k [] lc h = refl
level-add_loggers k ((j, v) ∷ loggers) lc h =
    level-add_loggers k loggers (add_logger j v lc) h.1
    ∙ rw (level-add_logger k j v lc) (ground (arith, string_eq.beq_iff j k, h.0))

non_empty-threshold : (spec : Option LogLevelSpec) → non_empty (threshold spec) ≡ stated spec
non_empty-threshold none = refl
non_empty-threshold (some spec) = refl

-- A generator is given, for each target, the level that the container's spec states, where its
-- loggers hold each name once.
pub level-log_config_from_spec :
    (t : Target) (spec : LoggingConfigSpec)
    → HasDistinctKeys spec.loggers
    → level_for t (log_config_from_spec (some spec)) ≡ level_in t spec
unfolding log_config_from_spec no_overrides
level-log_config_from_spec (logger k) spec h =
    level-add_loggers k spec.loggers no_overrides h ∙ rw (lookup-nil {V = String} k) (ground arith)
level-log_config_from_spec console spec h = non_empty-threshold spec.console
level-log_config_from_spec file spec h = non_empty-threshold spec.file
