-- ===== src/Reconciler/Health/Truth.antt =====
-- The truth of a condition through the writes of `Check`, and what its loop over the role groups finds.
use operator_go.Prelude.{
  ℕ, String, Bool, true, false, not, ◌&&◌, ◌||◌, Option, none, some, List, [], ◌∷◌, ◌++◌, ◌≡◌, refl,
  ◌∙◌, inl, inr, is_empty, if◌then◌else◌, arith, Bool-cases,
}
use operator_go.Prelude.Eq.{◌==◌, string_eq}
use operator_go.Prelude.Maps.{GoMap}
use operator_go.Prelude.Sort.{sort_by, insert_sorted}
use operator_go.Prelude.Strings.{str_less, sort_strings}
use operator_go.Common.Errors.{Err, Result, ok, fail}
use operator_go.Api.Spec.{RoleGroupSpec, RoleSpec}
use operator_go.Api.Status.{
  Condition, GenericClusterStatus, get_condition, set_condition, stamp, update_condition,
  condition_true, condition_service_healthy, is_condition_true, set_service_healthy,
  set_service_healthy_unknown,
}
use operator_go.Api.Status.Written.{merged}
use operator_go.Api.Status.Conditions.{get_condition-merged}
use operator_go.Reconciler.Health.Pods.{Pod, pod_failure_reason}
use operator_go.Reconciler.Health.Groups.{
  StatefulSetStatus, Observation, Evaluation, in_ledger, evaluate_group, evaluate_groups,
  evaluate_roles,
}
use operator_go.Reconciler.Health.Writes.{Verdict, write_service_healthy}
use operator_go.Reconciler.Names.{role_group_resource_name}

status-merged :
    (now : ℕ) (c : Condition) (s : GenericClusterStatus) (o : Option Condition)
    → (merged (stamp now s.observed_generation c) o).status ≡ c.status
unfolding stamp update_condition
status-merged now c s none = refl
status-merged now c s (some e) = ground (arith, string_eq.beq_iff e.status c.status)

-- A condition's truth after a write.
pub is_true-set_condition :
    (t : String) (now : ℕ) (c : Condition) (s : GenericClusterStatus)
    → is_condition_true t (set_condition now c s)
      ≡ (if c.kind == t then c.status == condition_true else is_condition_true t s)
unfolding is_condition_true
is_true-set_condition t now c s = elim (Bool-cases (c.kind == t)) [
  | inl same ↦ rw same (
      rw (get_condition-merged now c s t)
        (rw same (rw (status-merged now c s (get_condition s c.kind)))))
  | inr other ↦ rw other (rw (get_condition-merged now c s t) (rw other))
]

-- The writes of the service check leave every other condition's truth.
pub is_true-write_service_healthy :
    (t : String) (now : ℕ) (rendered : Err → String) (paused : Bool) (answer : Option (Result Bool))
    (v : Verdict) (s : GenericClusterStatus)
    → (condition_service_healthy == t) ≡ false
    → is_condition_true t (write_service_healthy now rendered paused answer v s).0
      ≡ is_condition_true t s
unfolding write_service_healthy set_service_healthy set_service_healthy_unknown
is_true-write_service_healthy t now rendered paused none v s ne = refl
is_true-write_service_healthy t now rendered true (some answer) v s ne =
    is_true-set_condition t now _ s ∙ rw ne
is_true-write_service_healthy t now rendered false (some (fail err)) v s ne =
    is_true-set_condition t now _ s ∙ rw ne
is_true-write_service_healthy t now rendered false (some (ok false)) v s ne =
    is_true-set_condition t now _ s ∙ rw ne
is_true-write_service_healthy t now rendered false (some (ok true)) v s ne =
    is_true-set_condition t now _ s ∙ rw ne

-- Some role group of the spec passes the test.
abbrev pub any_group :
    (String → String → RoleGroupSpec → Bool) → String → GoMap String RoleGroupSpec → Bool
any_group p role_name [] = false
any_group p role_name ((group_name, group) ∷ groups) =
    p role_name group_name group || any_group p role_name groups

abbrev pub any_role : (String → String → RoleGroupSpec → Bool) → GoMap String RoleSpec → Bool
any_role p [] = false
any_role p ((role_name, role) ∷ roles) = any_group p role_name role.role_groups || any_role p roles

abbrev pub is_failed : {A : Type 0} → Result A → Bool
is_failed (ok a) = false
is_failed (fail err) = true

-- A pod that is not on its way out and is stuck.
abbrev pub any_stuck : List Pod → Bool
any_stuck [] = false
any_stuck (pod ∷ pods) = (not pod.deleting && not (pod_failure_reason pod == "")) || any_stuck pods

abbrev pub any_stuck_pod : Result (List Pod) → Bool
any_stuck_pod (ok pods) = any_stuck pods
any_stuck_pod (fail err) = false

-- A configured service check that fails, or finds the service unhealthy.
abbrev pub is_unhealthy : Option (Result Bool) → Bool
is_unhealthy none = false
is_unhealthy (some (fail err)) = true
is_unhealthy (some (ok healthy)) = not healthy

pub is_empty-concat : {A : Type 0} (xs : List A) (x : A) → is_empty (xs ++ x ∷ []) ≡ false
is_empty-concat [] x = refl
is_empty-concat (y ∷ ys) x = refl

is_empty-insert_sorted :
    {A : Type 0} (less : A → A → Bool) (x : A) (ys : List A)
    → is_empty (insert_sorted less x ys) ≡ false
unfolding insert_sorted
is_empty-insert_sorted less x [] = refl
is_empty-insert_sorted less x (y ∷ ys) = ground arith

pub is_empty-sort_by :
    {A : Type 0} (less : A → A → Bool) (xs : List A) → is_empty (sort_by less xs) ≡ is_empty xs
unfolding sort_by
is_empty-sort_by less [] = refl
is_empty-sort_by less (x ∷ xs) = is_empty-insert_sorted less x (sort_by less xs)

pub is_empty-sort_strings : (xs : List String) → is_empty (sort_strings xs) ≡ is_empty xs
unfolding sort_strings
is_empty-sort_strings xs = is_empty-sort_by str_less xs

module _ (digest : String → String) (cluster_name : String) (obs : Observation)
    (ledger : GoMap String (List String)) where
  -- The read of a role group's StatefulSet.
  abbrev pub read_group : String → String → Result StatefulSetStatus
  read_group role_name group_name =
      obs.get_stateful_set (role_group_resource_name digest cluster_name role_name group_name)

  -- A role group that was applied before and cannot be read now.
  abbrev pub is_lost : String → String → RoleGroupSpec → Bool
  is_lost role_name group_name group =
      in_ledger ledger role_name group_name && is_failed (read_group role_name group_name)

  lost-evaluate_group :
      (label : String) (recorded : Bool) (r : Result StatefulSetStatus) (group : RoleGroupSpec)
      (ev : Evaluation)
      → is_empty (evaluate_group label recorded r group ev).unreadable
        ≡ (is_empty ev.unreadable && not (recorded && is_failed r))
  unfolding evaluate_group
  lost-evaluate_group label recorded (ok sts) group ev = ground arith
  lost-evaluate_group label true (fail err) group ev =
      rw (is_empty-concat ev.unreadable label) (ground arith)
  lost-evaluate_group label false (fail err) group ev = ground arith

  lost-evaluate_groups :
      (role_name : String) (groups : GoMap String RoleGroupSpec) (ev : Evaluation)
      → is_empty (evaluate_groups digest cluster_name obs ledger role_name groups ev).unreadable
        ≡ (is_empty ev.unreadable && not (any_group is_lost role_name groups))
  unfolding evaluate_groups
  lost-evaluate_groups role_name [] ev = ground arith
  lost-evaluate_groups role_name ((group_name, group) ∷ groups) ev =
      lost-evaluate_groups role_name groups _
      ∙ rw
          (lost-evaluate_group _ (in_ledger ledger role_name group_name)
            (read_group role_name group_name) group ev)
          (ground arith)

  pub lost-evaluate_roles :
      (roles : GoMap String RoleSpec) (ev : Evaluation)
      → is_empty (evaluate_roles digest cluster_name obs ledger roles ev).unreadable
        ≡ (is_empty ev.unreadable && not (any_role is_lost roles))
  unfolding evaluate_roles
  lost-evaluate_roles [] ev = ground arith
  lost-evaluate_roles ((role_name, role) ∷ roles) ev =
      lost-evaluate_roles roles _
      ∙ rw (lost-evaluate_groups role_name role.role_groups ev) (ground arith)
