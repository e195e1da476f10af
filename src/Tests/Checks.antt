-- ===== src/Tests/Checks.antt =====
-- Tests of pkg/reconciler/health.go and of the resource names.
use operator_go.Prelude.{◌≤◌, refl, String, true, false, not, ◌&&◌, ◌||◌, none, some, [], ◌∷◌, ◌≡◌}
use operator_go.Prelude.Int.{pos}
use operator_go.Prelude.Strings.{◌<>◌}
use operator_go.Common.Errors.{Err, opaque, ok, fail}
use operator_go.Api.Spec.{GenericClusterSpec}
use operator_go.Api.Status.{
  GenericClusterStatus, condition_degraded, condition_available, is_condition_true,
}
use operator_go.Reconciler.Names.{role_group_resource_name}
use operator_go.Reconciler.Names.Bounds.{
  IsAscii, IsAscii-append, byte_size, byte_size-role_group_resource_name,
  role_group_resource_name_collides,
}
use operator_go.Reconciler.Health.Groups.{Observation}
use operator_go.Reconciler.Health.{is_paused_op, is_stopped_op, check}
use operator_go.Reconciler.Health.Truth.{any_role, any_stuck_pod, is_unhealthy, is_lost}
use operator_go.Reconciler.Health.Stable.{check_again}
use operator_go.Reconciler.Health.Faults.{degraded_iff_fault}
use operator_go.Reconciler.Health.Available.{is_declared, is_not_ready, available_iff_ready}

abbrev digest : String → String
digest s = "0123456789abcdef"

abbrev rendered : Err → String
rendered e = "error"

-- The StatefulSet of the one role group cannot be read, and a pod crashes.
abbrev observation : Observation
observation = record {
  get_stateful_set = λ name. fail (opaque "timeout");
  list_pods = ok (
      record {
        name = "c-w-g-0";
        deleting = false;
        conditions = [];
        init_container_statuses = [];
        container_statuses = some "CrashLoopBackOff" ∷ [];
      }
      ∷ []);
  service_health_check = some (ok true);
}

abbrev spec : GenericClusterSpec
spec = record {
  cluster_operation = none;
  roles = ("w", record { role_groups = ("g", record { replicas = some (pos 2) }) ∷ [] }) ∷ [];
}

abbrev status : GenericClusterStatus
status = record { conditions = []; role_groups = ("w", "g" ∷ []) ∷ []; observed_generation = pos 1 }

degraded_iff_fault_example :
    is_condition_true condition_degraded (check digest rendered 5 "c" observation spec status) ≡ (
      not (is_stopped_op spec.cluster_operation)
      && not (is_paused_op spec.cluster_operation)
      && (any_role (is_lost digest "c" observation status.role_groups) spec.roles
          || any_stuck_pod observation.list_pods
          || is_unhealthy observation.service_health_check))
degraded_iff_fault_example = degraded_iff_fault digest rendered 5 "c" observation spec status

available_iff_ready_example :
    is_condition_true condition_available (check digest rendered 5 "c" observation spec status) ≡ (
      not (is_stopped_op spec.cluster_operation)
      && any_role is_declared spec.roles
      && not (any_role (is_not_ready digest "c" observation status.role_groups) spec.roles))
available_iff_ready_example = available_iff_ready digest rendered 5 "c" observation spec status

check_again_example :
    check digest rendered 9 "c" observation spec
      (check digest rendered 5 "c" observation spec status)
    ≡ check digest rendered 5 "c" observation spec status
check_again_example = check_again digest rendered 5 9 "c" observation spec status

digest-IsAscii : (text : String) → IsAscii (digest text)
digest-IsAscii text = (
  refl,
  (
    refl,
    (
      refl,
      (
        refl,
        (
          refl,
          (
            refl,
            (refl, (refl, (refl, (refl, (refl, (refl, (refl, (refl, (refl, (refl, tt)))))))))),
          ),
        ),
      ),
    ),
  ),
)

abbrev word : String
word = "analytics-east"

word-IsAscii : IsAscii word
word-IsAscii = (
  refl,
  (
    refl,
    (
      refl,
      (refl, (refl, (refl, (refl, (refl, (refl, (refl, (refl, (refl, (refl, (refl, tt))))))))))),
    ),
  ),
)

-- Two labels of which the joined name is too long.
abbrev long_name : String
long_name = word <> word

long_name-IsAscii : IsAscii long_name
long_name-IsAscii = IsAscii-append word word word-IsAscii word-IsAscii

byte_size-role_group_resource_name_example :
    (byte_size (role_group_resource_name digest long_name long_name word) ≤ 54)
    × (byte_size (role_group_resource_name digest long_name long_name word <> "-headless") ≤ 63)
byte_size-role_group_resource_name_example =
    byte_size-role_group_resource_name digest long_name long_name word digest-IsAscii
      long_name-IsAscii long_name-IsAscii word-IsAscii

role_group_resource_name_collides_example :
    role_group_resource_name digest "c" ("a" <> "-" <> "b") "g"
    ≡ role_group_resource_name digest "c" "a" ("b" <> "-" <> "g")
role_group_resource_name_collides_example = role_group_resource_name_collides digest "c" "a" "b" "g"
