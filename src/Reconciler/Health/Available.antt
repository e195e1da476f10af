-- ===== src/Reconciler/Health/Available.antt =====
-- When `Check` reports `Available`: every declared role group has its desired replicas ready.
use operator_go.Prelude.{
  ℕ, ◌+◌, String, Bool, true, false, not, ◌&&◌, List, [], ◌∷◌, ◌≡◌, refl, ◌∙◌, inl, inr, is_empty,
  eqb, arith, Bool-cases,
}
use operator_go.Prelude.Eq.{string_eq}
use operator_go.Prelude.Int.{ltz}
use operator_go.Prelude.Maps.{GoMap}
use operator_go.Common.Errors.{Err, Result, ok, fail}
use operator_go.Api.Spec.{RoleGroupSpec, get_replicas, RoleSpec, GenericClusterSpec}
use operator_go.Api.Status.{
  GenericClusterStatus, condition_available, is_condition_true, set_available, set_unavailable,
  set_progressing, set_degraded, set_paused, set_service_healthy,
}
use operator_go.Reconciler.Health.Groups.{
  StatefulSetStatus, Observation, Evaluation, no_evaluation, in_ledger, role_group_health,
  evaluate_group, evaluate_groups, evaluate_roles,
}
use operator_go.Reconciler.Health.Writes.{
  Verdict, write_available, write_progressing, write_paused_degraded, write_stopped,
}
use operator_go.Reconciler.Health.{is_stopped_op, is_configured, check_active, check}
use operator_go.Reconciler.Health.Truth.{
  is_true-set_condition, is_true-write_service_healthy, is_empty-concat, any_group, any_role,
  is_empty-sort_strings, read_group,
}

-- The read of a role group's StatefulSet fails, or finds too few replicas ready.
abbrev pub is_short : Result StatefulSetStatus → RoleGroupSpec → Bool
is_short (ok sts) group = ltz sts.ready_replicas (get_replicas group)
is_short (fail err) group = true

abbrev all_up : Evaluation → Bool
all_up ev = is_empty ev.short_of_replicas && is_empty ev.unreadable && is_empty ev.creating

up-evaluate_group :
    (label : String) (recorded : Bool) (r : Result StatefulSetStatus) (group : RoleGroupSpec)
    (ev : Evaluation)
    → all_up (evaluate_group label recorded r group ev) ≡ (all_up ev && not (is_short r group))
unfolding evaluate_group role_group_health
up-evaluate_group label recorded (ok sts) group ev =
    elim (Bool-cases (ltz sts.ready_replicas (get_replicas group))) [
      | inl short ↦ rw short (rw (is_empty-concat ev.short_of_replicas label) (ground arith))
      | inr enough ↦ rw enough (ground arith)
    ]
up-evaluate_group label true (fail err) group ev =
    rw (is_empty-concat ev.unreadable label) (ground arith)
up-evaluate_group label false (fail err) group ev =
    rw (is_empty-concat ev.creating label) (ground arith)

counted-evaluate_group :
    (label : String) (recorded : Bool) (r : Result StatefulSetStatus) (group : RoleGroupSpec)
    (ev : Evaluation)
    → (evaluate_group label recorded r group ev).evaluated ≡ ev.evaluated + 1
unfolding evaluate_group
counted-evaluate_group label recorded (ok sts) group ev = refl
counted-evaluate_group label true (fail err) group ev = refl
counted-evaluate_group label false (fail err) group ev = refl

-- The test every role group passes.
abbrev pub is_declared : String → String → RoleGroupSpec → Bool
is_declared role_name group_name group = true

module _ (digest : String → String) (cluster_name : String) (obs : Observation)
    (ledger : GoMap String (List String)) where
  -- A role group without its desired ready replicas.
  abbrev pub is_not_ready : String → String → RoleGroupSpec → Bool
  is_not_ready role_name group_name group =
      is_short (read_group digest cluster_name obs ledger role_name group_name) group

  up-evaluate_groups :
      (role_name : String) (groups : GoMap String RoleGroupSpec) (ev : Evaluation)
      → all_up (evaluate_groups digest cluster_name obs ledger role_name groups ev)
        ≡ (all_up ev && not (any_group is_not_ready role_name groups))
  unfolding evaluate_groups
  up-evaluate_groups role_name [] ev = ground arith
  up-evaluate_groups role_name ((group_name, group) ∷ groups) ev =
      up-evaluate_groups role_name groups _
      ∙ rw
          (up-evaluate_group _ (in_ledger ledger role_name group_name)
            (read_group digest cluster_name obs ledger role_name group_name) group ev)
          (ground arith)

  up-evaluate_roles :
      (roles : GoMap String RoleSpec) (ev : Evaluation)
      → all_up (evaluate_roles digest cluster_name obs ledger roles ev)
        ≡ (all_up ev && not (any_role is_not_ready roles))
  unfolding evaluate_roles
  up-evaluate_roles [] ev = ground arith
  up-evaluate_roles ((role_name, role) ∷ roles) ev =
      up-evaluate_roles roles _
      ∙ rw (up-evaluate_groups role_name role.role_groups ev) (ground arith)

  counted-evaluate_groups :
      (role_name : String) (groups : GoMap String RoleGroupSpec) (ev : Evaluation)
      → eqb (evaluate_groups digest cluster_name obs ledger role_name groups ev).evaluated 0
        ≡ (eqb ev.evaluated 0 && not (any_group is_declared role_name groups))
  unfolding evaluate_groups
  counted-evaluate_groups role_name [] ev = ground arith
  counted-evaluate_groups role_name ((group_name, group) ∷ groups) ev =
      counted-evaluate_groups role_name groups _
      ∙ rw
          (counted-evaluate_group _ (in_ledger ledger role_name group_name)
            (read_group digest cluster_name obs ledger role_name group_name) group ev)
          (ground arith)

  counted-evaluate_roles :
      (roles : GoMap String RoleSpec) (ev : Evaluation)
      → eqb (evaluate_roles digest cluster_name obs ledger roles ev).evaluated 0
        ≡ (eqb ev.evaluated 0 && not (any_role is_declared roles))
  unfolding evaluate_roles
  counted-evaluate_roles [] ev = ground arith
  counted-evaluate_roles ((role_name, role) ∷ roles) ev =
      counted-evaluate_roles roles _
      ∙ rw (counted-evaluate_groups role_name role.role_groups ev) (ground arith)

true-write_available :
    (now : ℕ) (ev : Evaluation) (s : GenericClusterStatus)
    → is_condition_true condition_available (write_available now ev s)
      ≡ (not (eqb ev.evaluated 0) && all_up ev)
unfolding write_available set_available set_unavailable
true-write_available now ev s = rw (is_empty-sort_strings ev.short_of_replicas) (
    rw (is_empty-sort_strings ev.unreadable) (
      rw (is_empty-sort_strings ev.creating) (elim (Bool-cases (eqb ev.evaluated 0)) [
        | inl empty ↦ rw empty (is_true-set_condition condition_available now _ s)
        | inr counted ↦ rw counted (elim (Bool-cases (all_up ev)) [
          | inl up ↦ rw up (is_true-set_condition condition_available now _ s)
          | inr short ↦ rw short (is_true-set_condition condition_available now _ s)
        ])
      ])))

true-write_progressing :
    (now : ℕ) (b : Bool) (s : GenericClusterStatus)
    → is_condition_true condition_available (write_progressing now b s)
      ≡ is_condition_true condition_available s
unfolding write_progressing set_progressing
true-write_progressing now true s = is_true-set_condition condition_available now _ s
true-write_progressing now false s = is_true-set_condition condition_available now _ s

true-write_paused_degraded :
    (now : ℕ) (paused : Bool) (v : Verdict) (s : GenericClusterStatus)
    → is_condition_true condition_available (write_paused_degraded now paused v s)
      ≡ is_condition_true condition_available s
unfolding write_paused_degraded set_paused set_degraded
true-write_paused_degraded now true v s =
    is_true-set_condition condition_available now _ _
    ∙ is_true-set_condition condition_available now _ s
true-write_paused_degraded now false v s =
    is_true-set_condition condition_available now _ _
    ∙ is_true-set_condition condition_available now _ s

stopped-available :
    (now : ℕ) (has_check : Bool) (s : GenericClusterStatus)
    → is_condition_true condition_available (write_stopped now has_check s) ≡ false
unfolding write_stopped set_unavailable set_degraded set_progressing set_paused set_service_healthy
stopped-available now true s = simp is_true-set_condition
stopped-available now false s = simp is_true-set_condition

-- `Available` is true after a check exactly when three things hold: the cluster is not stopped, or
-- is stopped while its reconciliation is paused; it declares a role group; and every declared role
-- group has a StatefulSet that can be read and has its desired number of ready replicas.
pub available_iff_ready :
    (digest : String → String) (rendered : Err → String) (now : ℕ) (cluster_name : String)
    (obs : Observation) (spec : GenericClusterSpec) (s : GenericClusterStatus)
    → is_condition_true condition_available (check digest rendered now cluster_name obs spec s) ≡ (
        not (is_stopped_op spec.cluster_operation)
        && any_role is_declared spec.roles
        && not (any_role (is_not_ready digest cluster_name obs s.role_groups) spec.roles))
unfolding check check_active
available_iff_ready digest rendered now cluster_name obs spec s =
    elim (Bool-cases (is_stopped_op spec.cluster_operation)) [
      | inl stopped ↦ rw stopped (stopped-available now (is_configured obs.service_health_check) s)
      | inr running ↦ rw running (
          true-write_paused_degraded now _ _ _
          ∙ is_true-write_service_healthy condition_available now rendered _
              obs.service_health_check _ _ refl
          ∙ true-write_progressing now _ _
          ∙ true-write_available now _ s
          ∙ rw (up-evaluate_roles digest cluster_name obs s.role_groups spec.roles no_evaluation) (
              rw
                (counted-evaluate_roles digest cluster_name obs s.role_groups spec.roles
                  no_evaluation)
                (ground arith)))
    ]
