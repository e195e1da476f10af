-- ===== src/Reconciler/Health/OnePass.antt =====
-- A whole check as a list of writes of conditions of different types.
use operator_go.Prelude.{
  ℕ, String, Bool, true, false, List, [], ◌∷◌, ◌++◌, ◌≡◌, refl, sym, ap, ◌∙◌, ◌⊎◌, inl, inr, arith,
  if◌then◌else◌, Bool-cases,
}
use operator_go.Prelude.Eq.{string_eq}
use operator_go.Prelude.Maps.{GoMap}
use operator_go.Prelude.Strings.{sort_strings}
use operator_go.Common.Errors.{Err}
use operator_go.Api.Spec.{GenericClusterSpec}
use operator_go.Api.Status.{
  Condition, GenericClusterStatus, set_condition, condition_available, condition_progressing,
  condition_degraded, condition_paused, condition_service_healthy, condition_of, condition_true,
  condition_false, status_of, set_unavailable, set_progressing, set_degraded, set_paused,
  set_service_healthy,
}
use operator_go.Reconciler.Health.Pods.{find_failing_pods}
use operator_go.Reconciler.Health.Groups.{Observation, Evaluation, no_evaluation, evaluate_roles}
use operator_go.Reconciler.Health.Writes.{
  Verdict, workload_verdict, write_paused_degraded, write_stopped, reason_reconciliation_paused,
  reason_reconcile_complete, reason_stopped,
}
use operator_go.Reconciler.Health.{is_stopped_op, is_paused_op, is_configured, check, check_active}
use operator_go.Reconciler.Health.Verdicts.{
  HasDistinctKinds, ServiceWrites, available_Writes, progressing_Writes, service_ServiceWrites,
  set_all,
}

-- The two writes that end a pass which is not stopped.
final_conditions : Bool → Verdict → List Condition
final_conditions true v =
    condition_of condition_paused condition_true reason_reconciliation_paused
      "Reconciliation is paused"
    ∷ condition_of condition_degraded condition_false reason_reconciliation_paused
        "Reconciliation is paused; the cluster is not being reconciled"
    ∷ []
final_conditions false v =
    condition_of condition_paused condition_false reason_reconcile_complete
      "Reconciliation is active"
    ∷ condition_of condition_degraded (status_of v.degraded) v.reason v.message
    ∷ []

final_writes :
    (paused : Bool) (v : Verdict) (now : ℕ) (s : GenericClusterStatus)
    → write_paused_degraded now paused v s ≡ set_all now (final_conditions paused v) s
unfolding write_paused_degraded set_paused set_degraded final_conditions
final_writes true v now s = refl
final_writes false v now s = refl

abbrev stopped_conditions : Bool → List Condition
stopped_conditions has_check =
    condition_of condition_available condition_false reason_stopped "Cluster is stopped"
    ∷ condition_of condition_degraded condition_false reason_stopped
        "Cluster is intentionally stopped"
    ∷ condition_of condition_progressing condition_false reason_stopped "Cluster is stopped"
    ∷ condition_of condition_paused condition_false reason_stopped "Cluster is stopped, not paused"
    ∷ (if has_check
        then condition_of condition_service_healthy condition_false reason_stopped
            "Cluster is stopped"
          ∷ []
        else [])

stopped_writes :
    (has_check : Bool) (now : ℕ) (s : GenericClusterStatus)
    → write_stopped now has_check s ≡ set_all now (stopped_conditions has_check) s
unfolding write_stopped set_unavailable set_degraded set_progressing set_paused set_service_healthy
stopped_writes true now s = refl
stopped_writes false now s = refl

stopped_distinct : (has_check : Bool) → HasDistinctKinds (stopped_conditions has_check)
stopped_distinct true = ground arith
stopped_distinct false = ground arith

set_all-append :
    (now : ℕ) (cs ds : List Condition) (s : GenericClusterStatus)
    → set_all now (cs ++ ds) s ≡ set_all now ds (set_all now cs s)
set_all-append now [] ds s = refl
set_all-append now (c ∷ cs) ds s = set_all-append now cs ds (set_condition now c s)

-- The conditions of a running or paused pass are of different types.
running_distinct :
    (a p : Condition) (cs : List Condition) (paused : Bool) (v : Verdict)
    → a.kind ≡ condition_available
    → p.kind ≡ condition_progressing
    → (cs ≡ []) ⊎ ((c : Condition) × (cs ≡ c ∷ []) × (c.kind ≡ condition_service_healthy))
    → HasDistinctKinds (a ∷ p ∷ (cs ++ final_conditions paused v))
unfolding final_conditions
running_distinct a p cs true v ka kp (inl e) = rw e (rw ka (rw kp (ground arith)))
running_distinct a p cs false v ka kp (inl e) = rw e (rw ka (rw kp (ground arith)))
running_distinct a p cs true v ka kp (inr (c, e, kc)) = rw e (rw ka (rw kp (rw kc (ground arith))))
running_distinct a p cs false v ka kp (inr (c, e, kc)) = rw e (rw ka (rw kp (rw kc (ground arith))))

pub record Pass (digest : String → String) (rendered : Err → String) (cluster_name : String)
    (obs : Observation) (spec : GenericClusterSpec) (ledger : GoMap String (List String))
    : Type 0 where
  pub conditions : List Condition
  pub distinct : HasDistinctKinds conditions
  pub writes :
      (now : ℕ) (s : GenericClusterStatus)
      → s.role_groups ≡ ledger
      → check digest rendered now cluster_name obs spec s ≡ set_all now conditions s

pub check-Pass :
    (digest : String → String) (rendered : Err → String) (cluster_name : String) (obs : Observation)
    (spec : GenericClusterSpec) (ledger : GoMap String (List String))
    → Pass digest rendered cluster_name obs spec ledger
unfolding check check_active
check-Pass digest rendered cluster_name obs spec ledger =
    elim (Bool-cases (is_stopped_op spec.cluster_operation)) [
      | inl stopped ↦ record {
        conditions = stopped_conditions (is_configured obs.service_health_check);
        distinct = stopped_distinct (is_configured obs.service_health_check);
        writes =
            λ now s e. rw stopped (stopped_writes (is_configured obs.service_health_check) now s);
      }
      | inr running ↦
          let a = available_Writes ev in
          let p = progressing_Writes ev.progressing in
          record {
            conditions =
                a.condition ∷ p.condition ∷ (h.conditions ++ final_conditions paused h.verdict);
            distinct =
                running_distinct a.condition p.condition h.conditions paused h.verdict a.has_kind
                  p.has_kind h.kinds;
            writes = λ now s e. rw running (
                ap (λ l. check_active digest rendered now cluster_name obs spec l s) e
                ∙ active_writes now s);
          }
    ]
  where
    paused : Bool
    paused = is_paused_op spec.cluster_operation

    ev : Evaluation
    ev = evaluate_roles digest cluster_name obs ledger spec.roles no_evaluation

    h :
        ServiceWrites rendered paused obs.service_health_check
          (workload_verdict (sort_strings ev.unreadable) (find_failing_pods obs.list_pods))
    h = service_ServiceWrites rendered paused obs.service_health_check _

    active_writes :
        (now : ℕ) (s : GenericClusterStatus)
        → check_active digest rendered now cluster_name obs spec ledger s
          ≡ set_all now
              ((available_Writes ev).condition
                ∷ (progressing_Writes ev.progressing).condition
                ∷ (h.conditions ++ final_conditions paused h.verdict))
              s
    active_writes now s =
        let a = available_Writes ev in
        let p = progressing_Writes ev.progressing in
        rw (a.writes now s) (
          rw (p.writes now (set_condition now a.condition s)) (
            rw (h.writes now (set_condition now p.condition (set_condition now a.condition s))) (
              final_writes paused h.verdict now _
              ∙ sym (set_all-append now h.conditions (final_conditions paused h.verdict) _))))
