-- ===== src/Api/Spec.antt =====
-- pkg/apis/commons/v1alpha1/{cluster_types,cluster_operation,config_types,resource_types}.go: the
-- parts of the spec that the modelled code reads. A pointer is an `Option`.
use operator_go.Prelude.{String, Bool, Option, none, some}
use operator_go.Prelude.Int.{ℤ, pos}
use operator_go.Prelude.Maps.{GoMap}

pub record ClusterOperationSpec : Type 0 where
  pub reconciliation_paused : Bool
  pub stopped : Bool

pub record RoleGroupSpec : Type 0 where
  pub replicas : Option ℤ  -- *int32

unfoldable pub get_replicas : RoleGroupSpec → ℤ
get_replicas g = elim g.replicas [ none ↦ pos 1 | some n ↦ n ]

pub record RoleSpec : Type 0 where
  pub role_groups : GoMap String RoleGroupSpec

-- A nil map reads as an empty one.
abbrev pub get_role_groups : RoleSpec → GoMap String RoleGroupSpec
get_role_groups r = r.role_groups

pub record GenericClusterSpec : Type 0 where
  pub cluster_operation : Option ClusterOperationSpec
  pub roles : GoMap String RoleSpec
