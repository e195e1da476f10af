-- ===== src/Tests/Ledgers.antt =====
-- Tests of pkg/apis/commons/v1alpha1/cluster_status.go.
use operator_go.Prelude.{String, not, ◌&&◌, ◌||◌, none, some, [], ◌∷◌, ◌≡◌, refl, if◌then◌else◌}
use operator_go.Prelude.Eq.{◌==◌, string_eq}
use operator_go.Prelude.Int.{pos}
use operator_go.Prelude.Maps.{GoMap, lookup, HasDistinctKeys}
use operator_go.Api.Spec.{RoleSpec}
use operator_go.Api.Status.{
  Condition, GenericClusterStatus, condition_of, condition_true, condition_false,
  condition_degraded, find_condition, get_condition, set_condition, set_role_group,
  remove_role_group, get_orphaned_role_groups,
}
use operator_go.Api.Status.Written.{written}
use operator_go.Api.Status.Conditions.{
  get-set_condition, set_condition_again, HasDistinctTypes, set_condition-HasDistinctTypes,
}
use operator_go.Api.Status.Ledger.{
  records, declares, records-set_role_group, records-remove_role_group, records-get_orphaned,
}

abbrev degraded : Condition
degraded = record {
  kind = condition_degraded;
  status = condition_false;
  reason = "Available";
  message = "";
  last_transition_time = 7;
  observed_generation = pos 1;
}

abbrev status : GenericClusterStatus
status = record {
  conditions = degraded ∷ [];
  role_groups = ("w", "g" ∷ "h" ∷ []) ∷ [];
  observed_generation = pos 2;
}

abbrev raised : Condition
raised = condition_of condition_degraded condition_true "PodFailure" "a pod is stuck"

abbrev desired : GoMap String RoleSpec
desired = ("w", record { role_groups = ("g", record { replicas = none }) ∷ [] }) ∷ []

abbrev role : String
role = "w"

abbrev kept : String
kept = "g"

abbrev gone : String
gone = "h"

abbrev added : String
added = "k"

get-set_condition_example : get_condition (set_condition 9 raised status) condition_degraded ≡ (
    if raised.kind == condition_degraded
    then some (written 9 status.observed_generation raised (get_condition status raised.kind))
    else get_condition status condition_degraded)
get-set_condition_example = get-set_condition 9 raised status condition_degraded

set_condition_again_example :
    set_condition 12 raised (set_condition 9 raised status) ≡ set_condition 9 raised status
set_condition_again_example = set_condition_again 9 12 raised status

distinct : HasDistinctTypes status.conditions
unfolding find_condition
distinct = (refl, tt)

set_condition-HasDistinctTypes_example : HasDistinctTypes (set_condition 9 raised status).conditions
set_condition-HasDistinctTypes_example = set_condition-HasDistinctTypes 9 raised status distinct

records-set_role_group_example :
    records role added (set_role_group role added status).role_groups
    ≡ (records role added status.role_groups || (role == role && added == added))
records-set_role_group_example = records-set_role_group role added role added status

records-remove_role_group_example :
    records role kept (remove_role_group role gone status).role_groups
    ≡ (records role kept status.role_groups && not (role == role && gone == kept))
records-remove_role_group_example = records-remove_role_group role gone role kept status

keys : HasDistinctKeys status.role_groups
unfolding lookup
keys = (refl, tt)

records-get_orphaned_example :
    records "w" "h" (get_orphaned_role_groups desired status)
    ≡ (records "w" "h" status.role_groups && not (declares "w" "h" desired))
records-get_orphaned_example = records-get_orphaned desired "w" "h" status keys
