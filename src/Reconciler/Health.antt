-- ===== src/Reconciler/Health.antt =====
-- pkg/reconciler/health.go. What `Check` reads of the cluster enters as an observation: it makes no
-- write but to the status. Log lines and the probe's deadline are not modelled, and one pass reads
-- the clock once.
pub mod Pods
pub mod Groups
pub mod Writes
pub mod Verdicts
pub mod OnePass
pub mod Stable
pub mod Truth
pub mod Faults
pub mod Available
use operator_go.Prelude.{
  ℕ, String, Bool, true, false, not, ◌&&◌, Option, none, some, List, if◌then◌else◌,
}
use operator_go.Prelude.Eq.{string_eq}
use operator_go.Prelude.Maps.{GoMap}
use operator_go.Prelude.Strings.{sort_strings}
use operator_go.Common.Errors.{Err, Result}
use operator_go.Api.Spec.{ClusterOperationSpec, GenericClusterSpec}
use operator_go.Api.Status.{GenericClusterStatus}
use operator_go.Reconciler.Health.Pods.{find_failing_pods}
use operator_go.Reconciler.Health.Groups.{Observation, evaluate_roles, no_evaluation}
use operator_go.Reconciler.Health.Writes.{
  workload_verdict, write_available, write_paused_degraded, write_progressing,
  write_service_healthy, write_stopped,
}

abbrev pub is_paused_op : Option ClusterOperationSpec → Bool
is_paused_op none = false
is_paused_op (some op) = op.reconciliation_paused

abbrev pub is_stopped_op : Option ClusterOperationSpec → Bool
is_stopped_op none = false
is_stopped_op (some op) = op.stopped && not op.reconciliation_paused

abbrev pub is_configured : Option (Result Bool) → Bool
is_configured none = false
is_configured (some answer) = true

-- The pass over a cluster that is not stopped. `ledger` is `status.roleGroups`.
unfoldable pub check_active :
    (String → String)
    → (Err → String)
    → ℕ
    → String
    → Observation
    → GenericClusterSpec
    → GoMap String (List String)
    → GenericClusterStatus
    → GenericClusterStatus
check_active digest rendered now cluster_name obs spec ledger s =
    let paused = is_paused_op spec.cluster_operation in
    let ev = evaluate_roles digest cluster_name obs ledger spec.roles no_evaluation in
    let s1 = write_progressing now ev.progressing (write_available now ev s) in
    let v = workload_verdict (sort_strings ev.unreadable) (find_failing_pods obs.list_pods) in
    let (s2, v') = write_service_healthy now rendered paused obs.service_health_check v s1 in
    write_paused_degraded now paused v' s2

unfoldable pub check :
    (String → String)
    → (Err → String)
    → ℕ
    → String
    → Observation
    → GenericClusterSpec
    → GenericClusterStatus
    → GenericClusterStatus
check digest rendered now cluster_name obs spec s =
    if is_stopped_op spec.cluster_operation
    then write_stopped now (is_configured obs.service_health_check) s
    else check_active digest rendered now cluster_name obs spec s.role_groups s
