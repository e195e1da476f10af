-- ===== src/Api/Status.antt =====
-- pkg/apis/commons/v1alpha1/cluster_status.go: conditions and the ledger of role groups.
pub mod Written
pub mod Conditions
pub mod Ledger
use operator_go.Prelude.{
  ℕ, String, Bool, true, false, not, Option, none, some, List, [], ◌∷◌, ◌++◌, is_empty, is_some,
  select, eqb, if◌then◌else◌,
}
use operator_go.Prelude.Eq.{◌==◌, string_eq, contains}
use operator_go.Prelude.Int.{ℤ, pos, eqz}
use operator_go.Prelude.Maps.{GoMap, lookup, insert, delete}
use operator_go.Api.Spec.{RoleSpec, get_role_groups}

-- `metav1.Condition`. A time is a count of seconds, with 0 for the zero time.
pub record Condition : Type 0 where
  pub kind : String  -- Type
  pub status : String
  pub reason : String
  pub message : String
  pub last_transition_time : ℕ
  pub observed_generation : ℤ  -- int64

abbrev pub condition_true : String
condition_true = "True"

abbrev pub condition_false : String
condition_false = "False"

abbrev pub condition_unknown : String
condition_unknown = "Unknown"

abbrev pub condition_available : String
condition_available = "Available"

abbrev pub condition_progressing : String
condition_progressing = "Progressing"

abbrev pub condition_degraded : String
condition_degraded = "Degraded"

abbrev pub condition_paused : String
condition_paused = "Paused"

abbrev pub condition_service_healthy : String
condition_service_healthy = "ServiceHealthy"

abbrev pub condition_reconcile_complete : String
condition_reconcile_complete = "ReconcileComplete"

pub record GenericClusterStatus : Type 0 where
  pub conditions : List Condition
  pub role_groups : GoMap String (List String)
  pub observed_generation : ℤ

unfoldable pub find_condition : String → List Condition → Option Condition
find_condition t [] = none
find_condition t (c ∷ cs) = if c.kind == t then some c else find_condition t cs

unfoldable pub get_condition : GenericClusterStatus → String → Option Condition
get_condition s t = find_condition t s.conditions

-- The defaults that `SetCondition` fills in; `now` is the clock's reading.
unfoldable pub stamp : ℕ → ℤ → Condition → Condition
stamp now generation c = record c {
  last_transition_time = if eqb c.last_transition_time 0 then now else c.last_transition_time;
  observed_generation =
      if eqz c.observed_generation (pos 0) then generation else c.observed_generation;
}

-- The writes through the pointer to the condition that is there.
unfoldable pub update_condition : Condition → Condition → Condition
update_condition c existing =
    let moved =
      if not (existing.status == c.status)
      then record existing { status = c.status; last_transition_time = c.last_transition_time }
      else existing in
    record moved {
      reason = c.reason;
      message = c.message;
      observed_generation = c.observed_generation;
    }

-- Update the first condition of the type in place, or append.
unfoldable pub upsert_condition : Condition → List Condition → List Condition
upsert_condition c [] = c ∷ []
upsert_condition c (e ∷ cs) =
    if e.kind == c.kind then update_condition c e ∷ cs else e ∷ upsert_condition c cs

unfoldable pub set_condition : ℕ → Condition → GenericClusterStatus → GenericClusterStatus
set_condition now c s = record s {
  conditions = upsert_condition (stamp now s.observed_generation c) s.conditions;
}

unfoldable pub set_observed_generation : ℤ → GenericClusterStatus → GenericClusterStatus
set_observed_generation generation s = record s { observed_generation = generation }

-- The literal that each `Set…` method builds.
abbrev pub condition_of : String → String → String → String → Condition
condition_of t status reason message = record {
  kind = t;
  status = status;
  reason = reason;
  message = message;
  last_transition_time = 0;
  observed_generation = pos 0;
}

abbrev pub status_of : Bool → String
status_of b = if b then condition_true else condition_false

module _ (now : ℕ) where
  unfoldable pub set_available : String → String → GenericClusterStatus → GenericClusterStatus
  set_available reason message =
      set_condition now (condition_of condition_available condition_true reason message)

  unfoldable pub set_unavailable : String → String → GenericClusterStatus → GenericClusterStatus
  set_unavailable reason message =
      set_condition now (condition_of condition_available condition_false reason message)

  unfoldable pub set_progressing :
      Bool → String → String → GenericClusterStatus → GenericClusterStatus
  set_progressing is_progressing reason message =
      set_condition now
        (condition_of condition_progressing (status_of is_progressing) reason message)

  unfoldable pub set_degraded : Bool → String → String → GenericClusterStatus → GenericClusterStatus
  set_degraded is_degraded reason message =
      set_condition now (condition_of condition_degraded (status_of is_degraded) reason message)

  unfoldable pub set_paused : Bool → String → String → GenericClusterStatus → GenericClusterStatus
  set_paused is_paused reason message =
      set_condition now (condition_of condition_paused (status_of is_paused) reason message)

  unfoldable pub set_service_healthy_unknown :
      String → String → GenericClusterStatus → GenericClusterStatus
  set_service_healthy_unknown reason message =
      set_condition now (condition_of condition_service_healthy condition_unknown reason message)

  unfoldable pub set_service_healthy :
      Bool → String → String → GenericClusterStatus → GenericClusterStatus
  set_service_healthy is_healthy reason message =
      set_condition now
        (condition_of condition_service_healthy (status_of is_healthy) reason message)

  unfoldable pub set_reconcile_complete :
      Bool → String → String → GenericClusterStatus → GenericClusterStatus
  set_reconcile_complete is_complete reason message =
      set_condition now
        (condition_of condition_reconcile_complete (status_of is_complete) reason message)

-- `IsAvailable`, `IsDegraded` and the others, at their condition's type.
abbrev pub has_status_true : Option Condition → Bool
has_status_true none = false
has_status_true (some c) = c.status == condition_true

unfoldable pub is_condition_true : String → GenericClusterStatus → Bool
is_condition_true t s = has_status_true (get_condition s t)

-- The list under a role, empty when the role is missing.
abbrev pub groups_or_empty : Option (List String) → List String
groups_or_empty none = []
groups_or_empty (some gs) = gs

unfoldable pub set_role_group : String → String → GenericClusterStatus → GenericClusterStatus
set_role_group role_name group_name s =
    let groups = groups_or_empty (lookup role_name s.role_groups) in
    if contains group_name groups
    then s
    else record s { role_groups = insert role_name (groups ++ group_name ∷ []) s.role_groups }

-- The groups left, or no entry for the role when none is.
abbrev pub store_groups :
    String → List String → GoMap String (List String) → GoMap String (List String)
store_groups role_name gs m = if is_empty gs then delete role_name m else insert role_name gs m

unfoldable pub remove_role_group : String → String → GenericClusterStatus → GenericClusterStatus
remove_role_group role_name group_name s = elim (lookup role_name s.role_groups) [
  | none ↦ s
  | some groups ↦ record s {
    role_groups = store_groups role_name (select (λ g. not (g == group_name)) groups) s.role_groups;
  }
]

-- The groups of one role that its spec no longer names.
unfoldable pub orphans_of_role : Option RoleSpec → List String → List String
orphans_of_role none actual = actual
orphans_of_role (some desired) actual =
    select (λ g. not (is_some (lookup g (get_role_groups desired)))) actual

-- A role that is gone gets an entry whatever its list; a role that stays, if a group is orphaned.
abbrev pub has_orphan_entry : Option RoleSpec → List String → Bool
has_orphan_entry none gs = true
has_orphan_entry (some desired) gs = not (is_empty gs)

unfoldable pub collect_orphans :
    GoMap String RoleSpec
    → GoMap String (List String)
    → GoMap String (List String)
    → GoMap String (List String)
unfolding orphans_of_role
collect_orphans desired [] orphaned = orphaned
collect_orphans desired ((role_name, actual) ∷ rest) orphaned =
    let role = lookup role_name desired in
    let gs = orphans_of_role role actual in
    collect_orphans desired rest
      (if has_orphan_entry role gs then insert role_name gs orphaned else orphaned)

unfoldable pub get_orphaned_role_groups :
    GoMap String RoleSpec → GenericClusterStatus → GoMap String (List String)
unfolding collect_orphans
get_orphaned_role_groups desired s = collect_orphans desired s.role_groups []
