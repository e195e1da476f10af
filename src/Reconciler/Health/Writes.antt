-- ===== src/Reconciler/Health/Writes.antt =====
-- The conditions that pkg/reconciler/health.go writes, and the verdict behind `Degraded`.
use operator_go.Prelude.{
  ℕ, String, Bool, true, false, not, ◌&&◌, Option, none, some, List, [], ◌∷◌, ◌++◌, is_empty, eqb,
  if◌then◌else◌,
}
use operator_go.Prelude.Eq.{string_eq}
use operator_go.Prelude.Strings.{◌<>◌, sort_strings, join_strings}
use operator_go.Common.Errors.{Err, Result, ok, fail}
use operator_go.Api.Status.{
  GenericClusterStatus, set_available, set_unavailable, set_progressing, set_degraded, set_paused,
  set_service_healthy, set_service_healthy_unknown,
}
use operator_go.Reconciler.Health.Pods.{PodFailure, summarize_pod_failures}
use operator_go.Reconciler.Health.Groups.{Evaluation}

abbrev pub reason_creating : String
reason_creating = "Creating"

abbrev pub reason_available : String
reason_available = "Available"

abbrev pub reason_progressing : String
reason_progressing = "Progressing"

abbrev pub reason_degraded : String
reason_degraded = "Degraded"

abbrev pub reason_reconcile_complete : String
reason_reconcile_complete = "ReconcileComplete"

abbrev pub reason_reconciliation_paused : String
reason_reconciliation_paused = "ReconciliationPaused"

abbrev pub reason_stopped : String
reason_stopped = "Stopped"

abbrev pub reason_pods_not_ready : String
reason_pods_not_ready = "PodsNotReady"

abbrev pub reason_pod_failure : String
reason_pod_failure = "PodFailure"

abbrev pub reason_workload_unreadable : String
reason_workload_unreadable = "WorkloadUnreadable"

unfoldable pub unavailable_reason : List String → List String → String
unavailable_reason short_of_replicas unreadable =
    if not (is_empty short_of_replicas)
    then reason_pods_not_ready
    else if not (is_empty unreadable)
    then reason_workload_unreadable
    else reason_creating

-- The verdict on `Degraded`, written once at the end of the pass.
pub record Verdict : Type 0 where
  pub degraded : Bool
  pub reason : String
  pub message : String

unfoldable pub workload_verdict : List String → Result (List PodFailure) → Verdict
workload_verdict (g ∷ unreadable) failures = record {
  degraded = true;
  reason = reason_workload_unreadable;
  message = "StatefulSet could not be read for role groups: " <> join_strings ", " (g ∷ unreadable);
}
workload_verdict [] (ok (f ∷ failures)) = record {
  degraded = true;
  reason = reason_pod_failure;
  message = summarize_pod_failures (f ∷ failures);
}
workload_verdict [] _ = record {
  degraded = false;
  reason = reason_available;
  message = "No failing pods";
}

abbrev pub part : String → List String → List String
part prefix [] = []
part prefix (x ∷ xs) = (prefix <> join_strings ", " (x ∷ xs)) ∷ []

unfoldable pub unavailable_message : List String → List String → List String → String
unavailable_message short_of_replicas unreadable creating =
    "Role groups — "
    <> join_strings "; " (
        part "fewer ready replicas than desired: " short_of_replicas
        ++ part "StatefulSet could not be read: " unreadable
        ++ part "not created yet: " creating)

module _ (now : ℕ) where
  unfoldable pub write_available : Evaluation → GenericClusterStatus → GenericClusterStatus
  write_available ev s =
      let short_of_replicas = sort_strings ev.short_of_replicas in
      let unreadable = sort_strings ev.unreadable in
      let creating = sort_strings ev.creating in
      if eqb ev.evaluated 0
      then set_unavailable now reason_creating "Cluster declares no role groups" s
      else if is_empty short_of_replicas && is_empty unreadable && is_empty creating
      then set_available now reason_available "All replicas are available" s
      else set_unavailable now (unavailable_reason short_of_replicas unreadable)
          (unavailable_message short_of_replicas unreadable creating) s

  unfoldable pub write_progressing : Bool → GenericClusterStatus → GenericClusterStatus
  write_progressing progressing s =
      if progressing
      then set_progressing now true reason_progressing "Cluster is progressing" s
      else set_progressing now false reason_available "Cluster is stable" s

  -- The service check: the status it writes, and the verdict that it may replace. `rendered`
  -- stands for an error's text.
  unfoldable pub write_service_healthy :
      (Err → String)
      → Bool
      → Option (Result Bool)
      → Verdict
      → GenericClusterStatus
      → GenericClusterStatus × Verdict
  write_service_healthy rendered paused none v s = (s, v)
  write_service_healthy rendered true (some answer) v s = (
    set_service_healthy_unknown now reason_reconciliation_paused
        "Not probed while reconciliation is paused" s,
    v,
  )
  write_service_healthy rendered false (some (fail err)) v s =
      let message = "Service health check error: " <> rendered err in
      (
        set_service_healthy now false reason_degraded message s,
        record { degraded = true; reason = reason_degraded; message = message },
      )
  write_service_healthy rendered false (some (ok false)) v s = (
    set_service_healthy now false reason_degraded "Service is not healthy" s,
    record {
      degraded = true;
      reason = reason_degraded;
      message = "Service health check reported unhealthy";
    },
  )
  write_service_healthy rendered false (some (ok true)) v s =
      (set_service_healthy now true reason_available "Service is healthy" s, v)

  unfoldable pub write_paused_degraded :
      Bool → Verdict → GenericClusterStatus → GenericClusterStatus
  write_paused_degraded true v s =
      set_degraded now false reason_reconciliation_paused
        "Reconciliation is paused; the cluster is not being reconciled"
        (set_paused now true reason_reconciliation_paused "Reconciliation is paused" s)
  write_paused_degraded false v s =
      set_degraded now v.degraded v.reason v.message
        (set_paused now false reason_reconcile_complete "Reconciliation is active" s)

  unfoldable pub write_stopped : Bool → GenericClusterStatus → GenericClusterStatus
  write_stopped has_check s =
      let s1 = set_unavailable now reason_stopped "Cluster is stopped" s in
      let s2 = set_degraded now false reason_stopped "Cluster is intentionally stopped" s1 in
      let s3 = set_progressing now false reason_stopped "Cluster is stopped" s2 in
      let s4 = set_paused now false reason_stopped "Cluster is stopped, not paused" s3 in
      if has_check then set_service_healthy now false reason_stopped "Cluster is stopped" s4 else s4
