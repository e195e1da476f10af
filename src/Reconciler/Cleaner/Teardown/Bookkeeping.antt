-- ===== src/Reconciler/Cleaner/Teardown/Bookkeeping.antt =====
-- What a cleanup pass of pkg/reconciler/cleaner.go keeps between its orphans: the names of the live
-- role groups, the next wait, the errors, the pending role groups and the status.
use operator_go.Prelude.{
  ℕ, String, Bool, true, false, not, ◌||◌, Option, none, some, List, [], ◌∷◌, ◌++◌, is_some,
  if◌then◌else◌,
}
use operator_go.Prelude.Eq.{◌==◌, string_eq, contains}
use operator_go.Prelude.Int.{pos, ltz, eqz}
use operator_go.Prelude.Maps.{GoMap, lookup}
use operator_go.Prelude.Strings.{◌<>◌, sort_strings, join_strings}
use operator_go.Common.Errors.{
  Duration, Err, Result, ok, fail, wrapped, formatted, is_rate_limit_error,
}
use operator_go.Api.Spec.{RoleGroupSpec, RoleSpec}
use operator_go.Api.Status.{
  GenericClusterStatus, condition_of, condition_true, condition_false, get_condition, set_condition,
  remove_role_group,
}
use operator_go.Reconciler.Names.{role_group_resource_name}
use operator_go.Reconciler.Cleaner.Discover.{OrphanRef, describe}

abbrev pub condition_orphan_cleanup_pending : String
condition_orphan_cleanup_pending = "OrphanCleanupPending"

-- The shortest of the positive waits, or 0 (generic_reconciler.go).
unfoldable pub earliest_requeue : Duration → Duration → Duration
earliest_requeue next d =
    if not (ltz (pos 0) d) then next else if eqz next (pos 0) || ltz d next then d else next

-- The names that no live role group holds.
unfoldable pub derived_services : List String → String → List String
derived_services live_resource_names resource_name =
    let metrics =
      if contains (resource_name <> "-metrics") live_resource_names
      then []
      else (resource_name <> "-metrics") ∷ [] in
    if contains (resource_name <> "-headless") live_resource_names
    then metrics
    else (resource_name <> "-headless") ∷ metrics

unfoldable pub add_group_names :
    (String → String) → String → String → GoMap String RoleGroupSpec → List String → List String
add_group_names digest cluster_name role_name [] names = names
add_group_names digest cluster_name role_name ((group_name, group) ∷ groups) names =
    role_group_resource_name digest cluster_name role_name group_name
    ∷ add_group_names digest cluster_name role_name groups names

unfoldable pub live_names : (String → String) → String → GoMap String RoleSpec → List String
unfolding add_group_names
live_names digest cluster_name [] = []
live_names digest cluster_name ((role_name, role) ∷ roles) =
    add_group_names digest cluster_name role_name role.role_groups
      (live_names digest cluster_name roles)

unfoldable pub set_orphan_cleanup_condition :
    ℕ → List String → GenericClusterStatus → GenericClusterStatus
set_orphan_cleanup_condition now [] status =
    if not (is_some (get_condition status condition_orphan_cleanup_pending))
    then status
    else set_condition now
        (condition_of condition_orphan_cleanup_pending condition_false "OrphanCleanupComplete"
          "No orphaned role group is waiting to be reclaimed")
        status
set_orphan_cleanup_condition now (p ∷ pending) status =
    set_condition now
      (condition_of condition_orphan_cleanup_pending condition_true "OrphanCleanupPending" (
        "Waiting to reclaim orphaned role groups: "
        <> join_strings ", " (sort_strings (p ∷ pending))))
      status

abbrev pub deletes_pvcs : GoMap String String → Bool
deletes_pvcs cr_annotations = elim (lookup "operator.zncdata.dev/delete-pvcs" cr_annotations) [
  | none ↦ false
  | some v ↦ v == "true"
]

-- What the loop over the orphans carries.
pub record Progress : Type 0 where
  pub next_requeue : Duration
  pub errs : List Err
  pub pending : List String
  pub status : GenericClusterStatus

pub record Outcome : Type 0 where
  pub requeue : Duration
  pub error : Option Err
  pub status : GenericClusterStatus

-- The error that ends the whole pass: the API server throttles this operator.
unfoldable pub throttle : {A : Type 0} → Result A → Option Err
throttle (ok a) = none
throttle (fail err) = if is_rate_limit_error err then some err else none

unfoldable pub after_orphan : Duration → OrphanRef → Result (Bool × Duration) → Progress → Progress
unfolding earliest_requeue
after_orphan poll orphan (fail err) p = record p {
  errs =
      p.errs ++ wrapped (formatted ("failed to cleanup role group " <> describe orphan)) err ∷ [];
  next_requeue = earliest_requeue (earliest_requeue (pos 0) p.next_requeue) poll;
  pending = p.pending ++ describe orphan ∷ [];
}
after_orphan poll orphan (ok (false, retry_after)) p = record p {
  next_requeue = earliest_requeue (earliest_requeue (pos 0) p.next_requeue) retry_after;
  pending = p.pending ++ describe orphan ∷ [];
}
after_orphan poll orphan (ok (true, retry_after)) p = record p {
  status =
      if orphan.role_name == ""
      then p.status
      else remove_role_group orphan.role_name orphan.group_name p.status;
}
