-- ===== src/Reconciler/Health/Groups.antt =====
-- The role groups that pkg/reconciler/health.go finds: `evaluateRoleGroups` and its callees.
use operator_go.Prelude.{
  ℕ, ◌+◌, String, Bool, true, false, not, ◌||◌, Option, List, [], ◌∷◌, ◌++◌, if◌then◌else◌,
}
use operator_go.Prelude.Eq.{◌==◌, string_eq, contains}
use operator_go.Prelude.Int.{ℤ, ltz, eqz}
use operator_go.Prelude.Maps.{GoMap, lookup}
use operator_go.Prelude.Strings.{◌<>◌}
use operator_go.Common.Errors.{Result, ok, fail}
use operator_go.Api.Spec.{RoleGroupSpec, get_replicas, RoleSpec}
use operator_go.Api.Status.{groups_or_empty}
use operator_go.Reconciler.Names.{role_group_resource_name}
use operator_go.Reconciler.Health.Pods.{Pod}

-- The fields that are read of `appsv1.StatefulSetStatus`.
pub record StatefulSetStatus : Type 0 where
  pub ready_replicas : ℤ
  pub current_revision : String
  pub update_revision : String
  pub current_replicas : ℤ
  pub replicas : ℤ

pub record Observation : Type 0 where
  pub get_stateful_set : String → Result StatefulSetStatus
  -- the cluster's pods, matched on the framework's identity labels
  pub list_pods : Result (List Pod)
  -- the configured service check with its answer
  pub service_health_check : Option (Result Bool)

unfoldable pub in_ledger : GoMap String (List String) → String → String → Bool
in_ledger ledger role_name group_name =
    contains group_name (groups_or_empty (lookup role_name ledger))

-- `available` and `progressing` of a StatefulSet that was read.
unfoldable pub role_group_health : StatefulSetStatus → ℤ → Bool × Bool
role_group_health sts expected_replicas = (
  not (ltz sts.ready_replicas expected_replicas),
  not (sts.current_revision == sts.update_revision) || not (eqz sts.current_replicas sts.replicas),
)

-- The counters and lists of the loop over the role groups.
pub record Evaluation : Type 0 where
  pub progressing : Bool
  pub evaluated : ℕ
  pub short_of_replicas : List String
  pub unreadable : List String
  pub creating : List String

abbrev pub no_evaluation : Evaluation
no_evaluation = record {
  progressing = false;
  evaluated = 0;
  short_of_replicas = [];
  unreadable = [];
  creating = [];
}

-- One role group, given whether the ledger records it.
unfoldable pub evaluate_group :
    String → Bool → Result StatefulSetStatus → RoleGroupSpec → Evaluation → Evaluation
unfolding role_group_health
evaluate_group label recorded (ok sts) group ev =
    let (available, is_progressing) = role_group_health sts (get_replicas group) in
    record ev {
      evaluated = ev.evaluated + 1;
      short_of_replicas =
          if available then ev.short_of_replicas else ev.short_of_replicas ++ label ∷ [];
      progressing = if is_progressing then true else ev.progressing;
    }
evaluate_group label recorded (fail err) group ev =
    if not recorded
    then record ev { evaluated = ev.evaluated + 1; creating = ev.creating ++ label ∷ [] }
    else record ev { evaluated = ev.evaluated + 1; unreadable = ev.unreadable ++ label ∷ [] }

module _ (digest : String → String) (cluster_name : String) (obs : Observation)
    (ledger : GoMap String (List String)) where
  unfoldable pub evaluate_groups : String → GoMap String RoleGroupSpec → Evaluation → Evaluation
  evaluate_groups role_name [] ev = ev
  evaluate_groups role_name ((group_name, group) ∷ groups) ev = evaluate_groups role_name groups (
      evaluate_group (role_name <> "/" <> group_name) (in_ledger ledger role_name group_name)
        (obs.get_stateful_set (role_group_resource_name digest cluster_name role_name group_name))
        group ev)

  unfoldable pub evaluate_roles : GoMap String RoleSpec → Evaluation → Evaluation
  evaluate_roles [] ev = ev
  evaluate_roles ((role_name, role) ∷ roles) ev =
      evaluate_roles roles (evaluate_groups role_name role.role_groups ev)
