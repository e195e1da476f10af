-- ===== src/Reconciler/Health/Faults.antt =====
-- When `Check` reports `Degraded`: exactly for the faults that need a human.
use operator_go.Prelude.{
  ℕ, String, Bool, true, false, not, ◌&&◌, ◌||◌, Option, none, some, List, [], ◌∷◌, ◌≡◌, refl, ◌∙◌,
  inl, inr, is_empty, arith, Bool-cases,
}
use operator_go.Prelude.Eq.{◌==◌, string_eq}
use operator_go.Common.Errors.{Err, Result, ok, fail}
use operator_go.Api.Spec.{GenericClusterSpec}
use operator_go.Api.Status.{
  GenericClusterStatus, condition_degraded, is_condition_true, status_of, condition_true,
  set_progressing, set_degraded, set_paused, set_service_healthy,
}
use operator_go.Reconciler.Health.Pods.{Pod, PodFailure, collect_failures, find_failing_pods}
use operator_go.Reconciler.Health.Groups.{Observation, no_evaluation}
use operator_go.Reconciler.Health.Writes.{
  Verdict, workload_verdict, write_service_healthy, write_paused_degraded, write_stopped,
}
use operator_go.Reconciler.Health.{is_paused_op, is_stopped_op, is_configured, check_active, check}
use operator_go.Reconciler.Health.Truth.{
  is_true-set_condition, any_role, any_stuck, any_stuck_pod, is_unhealthy, is_empty-sort_by,
  is_empty-sort_strings, is_lost, lost-evaluate_roles,
}

is_empty-collect_failures :
    (pods : List Pod) → is_empty (collect_failures pods) ≡ not (any_stuck pods)
unfolding collect_failures
is_empty-collect_failures [] = refl
is_empty-collect_failures (pod ∷ pods) = ground (arith, is_empty-collect_failures pods)

verdict_of_failures :
    (unreadable : List String) (failures : List PodFailure)
    → (workload_verdict unreadable (ok failures)).degraded
      ≡ (not (is_empty unreadable) || not (is_empty failures))
unfolding workload_verdict
verdict_of_failures [] [] = refl
verdict_of_failures [] (f ∷ fs) = refl
verdict_of_failures (g ∷ gs) fs = refl

workload-degraded :
    (unreadable : List String) (pods : Result (List Pod))
    → (workload_verdict unreadable (find_failing_pods pods)).degraded
      ≡ (not (is_empty unreadable) || any_stuck_pod pods)
unfolding find_failing_pods
workload-degraded unreadable (ok pods) =
    verdict_of_failures unreadable _
    ∙ rw (is_empty-sort_by _ (collect_failures pods))
        (rw (is_empty-collect_failures pods) (ground arith))
workload-degraded [] (fail err) = unfold workload_verdict in refl
workload-degraded (g ∷ gs) (fail err) = unfold workload_verdict in refl

service-degraded :
    (now : ℕ) (rendered : Err → String) (answer : Option (Result Bool)) (v : Verdict)
    (s : GenericClusterStatus)
    → (write_service_healthy now rendered false answer v s).1.degraded
      ≡ (v.degraded || is_unhealthy answer)
unfolding write_service_healthy
service-degraded now rendered none v s = ground arith
service-degraded now rendered (some (fail err)) v s = ground arith
service-degraded now rendered (some (ok false)) v s = ground arith
service-degraded now rendered (some (ok true)) v s = ground arith

status_of-true : (b : Bool) → (status_of b == condition_true) ≡ b
status_of-true true = refl
status_of-true false = refl

final-degraded :
    (now : ℕ) (paused : Bool) (v : Verdict) (s : GenericClusterStatus)
    → is_condition_true condition_degraded (write_paused_degraded now paused v s)
      ≡ (not paused && v.degraded)
unfolding write_paused_degraded set_degraded
final-degraded now true v s = is_true-set_condition condition_degraded now _ _
final-degraded now false v s =
    is_true-set_condition condition_degraded now _ _ ∙ status_of-true v.degraded

stopped-degraded :
    (now : ℕ) (has_check : Bool) (s : GenericClusterStatus)
    → is_condition_true condition_degraded (write_stopped now has_check s) ≡ false
unfolding write_stopped set_degraded set_progressing set_paused set_service_healthy
stopped-degraded now true s = simp is_true-set_condition
stopped-degraded now false s = simp is_true-set_condition

-- `Degraded` is true after a check exactly when the cluster is neither stopped nor paused and a
-- role group that was applied before cannot be read, a pod is stuck, or the service check fails or
-- reports unhealthy. Replica counts, rollouts and role groups not created yet never raise it.
pub degraded_iff_fault :
    (digest : String → String) (rendered : Err → String) (now : ℕ) (cluster_name : String)
    (obs : Observation) (spec : GenericClusterSpec) (s : GenericClusterStatus)
    → is_condition_true condition_degraded (check digest rendered now cluster_name obs spec s) ≡ (
        not (is_stopped_op spec.cluster_operation)
        && not (is_paused_op spec.cluster_operation)
        && (any_role (is_lost digest cluster_name obs s.role_groups) spec.roles
            || any_stuck_pod obs.list_pods
            || is_unhealthy obs.service_health_check))
unfolding check check_active
degraded_iff_fault digest rendered now cluster_name obs spec s =
    elim (Bool-cases (is_stopped_op spec.cluster_operation)) [
      | inl stopped ↦ rw stopped (stopped-degraded now (is_configured obs.service_health_check) s)
      | inr running ↦ rw running (
          final-degraded now (is_paused_op spec.cluster_operation) _ _
          ∙ elim (Bool-cases (is_paused_op spec.cluster_operation)) [
            | inl paused ↦ rw paused
            | inr active ↦ rw active (
                rw (service-degraded now rendered obs.service_health_check _ _) (
                  rw (workload-degraded _ obs.list_pods) (
                    rw (is_empty-sort_strings _) (
                      rw
                        (lost-evaluate_roles digest cluster_name obs s.role_groups spec.roles
                          no_evaluation)
                        (ground arith)))))
          ])
    ]
