-- ===== src/Logging/Containers.antt =====
-- `MergeLoggingSpec`: the level of each container's target after a merge.
use operator_go.Prelude.{
  String, Option, none, some, [], ◌∷◌, ◌≡◌, refl, sym, ap, ◌∙◌, inl, inr, if◌then◌else◌, Bool-cases,
  arith,
}
use mathlib.Core.Path.{subst}
use operator_go.Prelude.Eq.{◌==◌, string_eq}
use operator_go.Prelude.Maps.{
  GoMap, lookup, insert, copy_into, or_else, or_else-none, HasDistinctKeys, lookup-insert,
  lookup-copy_into, lookup-nil, insert-HasDistinctKeys, copy_into-HasDistinctKeys, AllValues,
  OfFound, insert-AllValues, copy_into-AllValues, lookup-AllValues,
}
use operator_go.Api.Config.{LoggingConfigSpec, LoggingSpec}
use operator_go.Logging.{
  set_levels, merge_container_logging, onto_role, merge_containers, merge_logging_spec,
}
use operator_go.Logging.Levels.{
  Target, level_in, set_levels-HasDistinctKeys, level-merge_container_logging,
}

abbrev pub DistinctLoggers : LoggingConfigSpec → Type 0
DistinctLoggers c = HasDistinctKeys c.loggers

abbrev DistinctContainers : GoMap String LoggingConfigSpec → Type 0
DistinctContainers m = HasDistinctKeys m × AllValues DistinctLoggers m

-- What Go's maps always satisfy.
abbrev pub HasDistinctNames : Option LoggingSpec → Type 0
HasDistinctNames none = Unit
HasDistinctNames (some spec) = DistinctContainers spec.containers

abbrev level_found : Target → Option LoggingConfigSpec → Option String
level_found t none = none
level_found t (some c) = level_in t c

-- The level that a logging spec states for a target of a container.
abbrev pub level_of : String → Target → Option LoggingSpec → Option String
level_of container t none = none
level_of container t (some spec) = level_found t (lookup container spec.containers)

level-onto_role :
    (t : Target) (role : Option LoggingConfigSpec) (group : LoggingConfigSpec)
    → OfFound DistinctLoggers role
    → DistinctLoggers group
    → level_in t (onto_role role group) ≡ or_else (level_in t group) (level_found t role)
unfolding onto_role
level-onto_role t none group hr hg = sym (or_else-none (level_in t group))
level-onto_role t (some role) group hr hg = level-merge_container_logging t role group hr hg

onto_role-DistinctLoggers :
    (role : Option LoggingConfigSpec) (group : LoggingConfigSpec)
    → DistinctLoggers group
    → DistinctLoggers (onto_role role group)
unfolding onto_role merge_container_logging
onto_role-DistinctLoggers none group h = h
onto_role-DistinctLoggers (some role) group h =
    set_levels-HasDistinctKeys group.loggers (set_levels role.loggers [])
      (set_levels-HasDistinctKeys role.loggers [] tt)

insert-Distinct :
    (name : String) (gc : LoggingConfigSpec) (merged : GoMap String LoggingConfigSpec)
    → DistinctContainers merged
    → DistinctLoggers gc
    → DistinctContainers (insert name (onto_role (lookup name merged) gc) merged)
insert-Distinct name gc merged h k =
    let c = onto_role (lookup name merged) gc in
    (
      insert-HasDistinctKeys name c merged h.0,
      insert-AllValues DistinctLoggers name c merged
          (onto_role-DistinctLoggers (lookup name merged) gc k) h.1,
    )

merge_containers-Distinct :
    (group merged : GoMap String LoggingConfigSpec)
    → DistinctContainers merged
    → AllValues DistinctLoggers group
    → DistinctContainers (merge_containers group merged)
unfolding merge_containers
merge_containers-Distinct [] merged h k = h
merge_containers-Distinct ((name, gc) ∷ group) merged h k =
    merge_containers-Distinct group (insert name (onto_role (lookup name merged) gc) merged)
      (insert-Distinct name gc merged h k.0) k.1

level-insert :
    (t : Target) (name j : String) (c : LoggingConfigSpec) (m : GoMap String LoggingConfigSpec)
    → level_found t (lookup j (insert name c m))
      ≡ (if name == j then level_in t c else level_found t (lookup j m))
level-insert t name j c m = rw (lookup-insert name j c m) (ground arith)

level-insert_onto :
    (t : Target) (name j : String) (gc : LoggingConfigSpec)
    (rest m : GoMap String LoggingConfigSpec)
    → lookup name rest ≡ none
    → level_in t (onto_role (lookup name m) gc)
      ≡ or_else (level_in t gc) (level_found t (lookup name m))
    → or_else
        (level_found t (lookup j rest))
        (level_found t (lookup j (insert name (onto_role (lookup name m) gc) m)))
      ≡ or_else
          (level_found t (if name == j then some gc else lookup j rest))
          (level_found t (lookup j m))
level-insert_onto t name j gc rest m d h = elim (Bool-cases (name == j)) [
  | inl same ↦
      let here = (string_eq.beq_iff name j).0 same in
      rw (level-insert t name j (onto_role (lookup name m) gc) m) (
        rw same (
          subst
            (λ k.
              or_else (level_found t (lookup k rest)) (level_in t (onto_role (lookup name m) gc))
              ≡ or_else (level_in t gc) (level_found t (lookup k m)))
            here (rw d h)))
  | inr other ↦ rw (level-insert t name j (onto_role (lookup name m) gc) m) (rw other refl)
]

level-merge_containers :
    (t : Target) (j : String) (group merged : GoMap String LoggingConfigSpec)
    → HasDistinctKeys group
    → AllValues DistinctLoggers group
    → DistinctContainers merged
    → level_found t (lookup j (merge_containers group merged))
      ≡ or_else (level_found t (lookup j group)) (level_found t (lookup j merged))
unfolding merge_containers lookup
level-merge_containers t j [] merged d h k = refl
level-merge_containers t j ((name, gc) ∷ group) merged d h k =
    level-merge_containers t j group (insert name (onto_role (lookup name merged) gc) merged) d.1
      h.1 (insert-Distinct name gc merged k h.0)
    ∙ level-insert_onto t name j gc group merged d.0 (
        level-onto_role t (lookup name merged) gc (lookup-AllValues DistinctLoggers name merged k.1)
          h.0)

copy-Distinct :
    (m : GoMap String LoggingConfigSpec)
    → DistinctContainers m
    → DistinctContainers (copy_into [] m)
copy-Distinct m h =
    (copy_into-HasDistinctKeys [] m tt, copy_into-AllValues DistinctLoggers [] m tt h.1)

lookup-copy :
    (j : String) (m : GoMap String LoggingConfigSpec)
    → HasDistinctKeys m
    → lookup j (copy_into [] m) ≡ lookup j m
lookup-copy j m h =
    lookup-copy_into j [] m h
    ∙ (ap (or_else (lookup j m)) (lookup-nil j) ∙ or_else-none (lookup j m))

-- The group's level for a target of a container, or else the role's.
pub level-merge_logging_spec :
    (container : String) (t : Target) (role group : Option LoggingSpec)
    → HasDistinctNames role
    → HasDistinctNames group
    → level_of container t (merge_logging_spec role group)
      ≡ or_else (level_of container t group) (level_of container t role)
unfolding merge_logging_spec
level-merge_logging_spec j t none group hr hg = sym (or_else-none (level_of j t group))
level-merge_logging_spec j t (some role) none hr hg = refl
level-merge_logging_spec j t (some role) (some group) hr hg =
    level-merge_containers t j group.containers (copy_into [] role.containers) hg.0 hg.1
      (copy-Distinct role.containers hr)
    ∙ ap (λ found. or_else (level_of j t (some group)) (level_found t found))
        (lookup-copy j role.containers hr.0)

pub merge_logging_spec-HasDistinctNames :
    (role group : Option LoggingSpec)
    → HasDistinctNames role
    → HasDistinctNames group
    → HasDistinctNames (merge_logging_spec role group)
unfolding merge_logging_spec
merge_logging_spec-HasDistinctNames none group hr hg = hg
merge_logging_spec-HasDistinctNames (some role) none hr hg = hr
merge_logging_spec-HasDistinctNames (some role) (some group) hr hg =
    merge_containers-Distinct group.containers (copy_into [] role.containers)
      (copy-Distinct role.containers hr) hg.1
