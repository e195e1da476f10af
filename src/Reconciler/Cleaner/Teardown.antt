-- ===== src/Reconciler/Cleaner/Teardown.antt =====
-- The teardown of orphaned role groups: `cleanupRoleGroup`, `cleanupOrphanedRolePDBs` and `Cleanup`
-- of pkg/reconciler/cleaner.go.
pub mod Bookkeeping
use operator_go.Prelude.{
  String, Bool, true, false, not, ◌||◌, none, some, List, [], ◌∷◌, ◌++◌, map, is_some,
  if◌then◌else◌,
}
use operator_go.Prelude.Eq.{◌==◌, string_eq}
use operator_go.Prelude.Int.{pos, ltz}
use operator_go.Prelude.Maps.{GoMap, lookup}
use operator_go.Prelude.Strings.{◌<>◌}
use operator_go.Common.Errors.{
  Duration, Err, Result, ok, fail, wrapped, formatted, is_rate_limit_error,
}
use operator_go.Common.Extensions.{join}
use operator_go.Api.Spec.{GenericClusterSpec}
use operator_go.Api.Status.{GenericClusterStatus}
use operator_go.Kube.{
  Kind, pod_disruption_budget, stateful_set, config_map, service, Object, has_label,
}
use operator_go.Kube.Act.{
  ◌>>=◌, ◌>>◌, Act, pure, raise, attempt, on_answer, unless_error, wrap_error, get, list, tick,
}
use operator_go.Reconciler.Cleaner.{
  RoleGroupCleaner, Services, poll_interval, api_error, is_owned_by_cluster, confirm_reader,
  DeletionState, settled, in_flight, found,
}
use operator_go.Reconciler.Cleaner.Delete.{
  delete_owned, delete_stateful_set, delete_role_group_extras,
}
use operator_go.Reconciler.Cleaner.Marks.{check_or_mark_gray_delete, clear_teardown_progress}
use operator_go.Reconciler.Cleaner.Discover.{OrphanRef, label_value, discover_orphans}
use operator_go.Reconciler.Cleaner.Teardown.Bookkeeping.{
  Outcome, Progress, after_orphan, deletes_pvcs, derived_services, earliest_requeue, live_names,
  set_orphan_cleanup_condition, throttle,
}

abbrev pub label_role_pod_disruption_budget : String
label_role_pod_disruption_budget = "pdb.kubedoop.dev/role"

unfoldable pub if_settled : {W A : Type 0} → DeletionState → Act W A → Act W A → Act W A
if_settled settled m n = m
if_settled in_flight m n = n

-- In flight as soon as one step is.
abbrev pub worse : DeletionState → DeletionState → DeletionState
worse settled state = state
worse in_flight state = in_flight

-- The framework's own resources of a role group.
abbrev pub slot : String → List String → List (Kind × String)
slot name derived =
    (pod_disruption_budget, name)
    ∷ (stateful_set, name)
    ∷ (config_map, name)
    ∷ (service, name)
    ∷ map (λ (d : String). (service, d)) derived

abbrev pub wait_of : RoleGroupCleaner → DeletionState → Duration
wait_of c settled = pos 0
wait_of c in_flight = poll_interval c

-- The budget is not this cluster's, or its role is declared.
abbrev pub keeps_role_pdb : String → GenericClusterSpec → Object → Bool
keeps_role_pdb owner_uid spec pdb =
    not (is_owned_by_cluster pdb owner_uid)
    || is_some (lookup (label_value label_role_pod_disruption_budget pdb) spec.roles)

module _ {W : Type 0} (env : Services W) (c : RoleGroupCleaner)
    (owner_uid cluster_name : String) where
  -- The steps in order, up to the first that is in flight.
  unfoldable pub run_steps : List (Act W DeletionState) → Act W DeletionState
  unfolding if_settled
  run_steps [] = pure settled
  run_steps (step ∷ steps) = do state ← step; if_settled state (run_steps steps) (pure in_flight)

  unfoldable pub still_owned : Kind → String → Act W Bool
  still_owned kind name = do
    answer ← get (confirm_reader env) kind name
    obj ← found env c answer
    pure (elim obj [ none ↦ false | some o ↦ is_owned_by_cluster o owner_uid ])

  -- The checks in order, up to the first that finds something.
  unfoldable pub run_checks : List (Kind × String) → Act W DeletionState
  unfolding still_owned
  run_checks [] = pure settled
  run_checks ((kind, name) ∷ checks) = do
    present ← still_owned kind name
    if present then pure in_flight else run_checks checks

  unfoldable pub confirm_role_group_reclaimed : String → List String → Act W DeletionState
  unfolding run_checks
  confirm_role_group_reclaimed name derived = run_checks (slot name derived)

  abbrev pub steps_of : Bool → OrphanRef → List String → List (Act W DeletionState)
  steps_of with_pvcs orphan derived =
      let name = orphan.resource_name in
      delete_owned env c owner_uid pod_disruption_budget name
      ∷ delete_stateful_set env c owner_uid with_pvcs name
      ∷ delete_role_group_extras env c owner_uid cluster_name orphan.role_name orphan.group_name
      ∷ delete_owned env c owner_uid config_map name
      ∷ delete_owned env c owner_uid service name
      ∷ map (delete_owned env c owner_uid service) derived

  -- Whether the role group is reclaimed, and else the wait before the next pass.
  unfoldable pub reclaim : Bool → OrphanRef → List String → Act W (Bool × Duration)
  unfolding run_steps confirm_role_group_reclaimed if_settled
  reclaim with_pvcs orphan derived = do
    state ← run_steps (steps_of with_pvcs orphan derived)
    if_settled state
        (do
          confirmed ← confirm_role_group_reclaimed orphan.resource_name derived
          if_settled confirmed (pure (true, pos 0)) (pure (false, poll_interval c)))
        (pure (false, poll_interval c))

  unfoldable pub cleanup_role_group : Bool → List String → OrphanRef → Act W (Bool × Duration)
  unfolding reclaim derived_services
  cleanup_role_group with_pvcs live_resource_names orphan =
      let deletion =
        reclaim with_pvcs orphan (derived_services live_resource_names orphan.resource_name) in
      if not (ltz (pos 0) c.gray_delete_grace_period) then deletion else do
        marked ← check_or_mark_gray_delete env c owner_uid orphan.resource_name
        if marked.0 then deletion else pure (false, marked.1)

  -- The PodDisruptionBudgets of the roles that the spec does not declare.
  unfoldable pub delete_role_pdbs :
      GenericClusterSpec → List Object → DeletionState → Act W DeletionState
  delete_role_pdbs spec [] state = pure state
  delete_role_pdbs spec (pdb ∷ pdbs) state =
      let role_name = label_value label_role_pod_disruption_budget pdb in
      elim (keeps_role_pdb owner_uid spec pdb) [
        | true ↦ delete_role_pdbs spec pdbs state
        | false ↦ do
          step ←
              wrap_error
                (wrapped (
                  formatted
                    ("failed to cleanup PodDisruptionBudget of removed role " <> role_name)))
                (delete_owned env c owner_uid pod_disruption_budget pdb.name)
          delete_role_pdbs spec pdbs (worse step state)
      ]

  unfoldable pub cleanup_orphaned_role_pdbs : GenericClusterSpec → Act W DeletionState
  unfolding delete_role_pdbs
  cleanup_orphaned_role_pdbs spec = if owner_uid == "" then pure settled else do
    answer ←
        list env.client.reader pod_disruption_budget (has_label label_role_pod_disruption_budget)
    on_answer answer (λ pdbs. delete_role_pdbs spec pdbs settled)
        (λ e.
          raise (wrapped (formatted "failed to list role PodDisruptionBudgets") (api_error c e)))

  -- The reset for every role group of the spec. Its errors are logged only.
  unfoldable pub clear_all : List String → Act W Unit
  clear_all [] = pure tt
  clear_all (name ∷ names) = do
    attempt (clear_teardown_progress env c owner_uid name)
    clear_all names

  unfoldable pub cleanup_orphans : Bool → List String → List OrphanRef → Progress → Act W Outcome
  unfolding cleanup_role_group throttle after_orphan
  cleanup_orphans with_pvcs live_resource_names [] p = do
    now ← tick env.clock
    pure (record {
      requeue = p.next_requeue;
      error = join p.errs;
      status = set_orphan_cleanup_condition now p.pending p.status;
    })
  cleanup_orphans with_pvcs live_resource_names (orphan ∷ orphans) p = do
    result ← attempt (cleanup_role_group with_pvcs live_resource_names orphan)
    unless_error (throttle result)
        (λ err. pure (record { requeue = p.next_requeue; error = some err; status = p.status }))
        (cleanup_orphans with_pvcs live_resource_names orphans
          (after_orphan (poll_interval c) orphan result p))

  -- The pass after the inventory: `errs` and `next` are what the role budgets left.
  unfoldable pub cleanup_found :
      Bool
      → GenericClusterSpec
      → GenericClusterStatus
      → Duration
      → List Err
      → Result (List OrphanRef)
      → Act W Outcome
  unfolding cleanup_orphans live_names set_orphan_cleanup_condition
  cleanup_found with_pvcs spec status next errs (fail err) = pure (
      if is_rate_limit_error err
      then record { requeue = next; error = some err; status = status }
      else record {
        requeue = earliest_requeue (earliest_requeue (pos 0) next) (poll_interval c);
        error = join (errs ++ err ∷ []);
        status = status;
      })
  cleanup_found with_pvcs spec status next errs (ok orphans) =
      cleanup_orphans with_pvcs (live_names env.digest cluster_name spec.roles) orphans
        (record { next_requeue = next; errs = errs; pending = []; status = status })

  unfoldable pub after_role_pdbs :
      Bool → GenericClusterSpec → GenericClusterStatus → Result DeletionState → Act W Outcome
  unfolding cleanup_found
  after_role_pdbs with_pvcs spec status (fail err) =
      if is_rate_limit_error err
      then pure (record { requeue = pos 0; error = some err; status = status })
      else do
        -- the state of a failed pass is in flight, whatever failed
        orphans ← attempt (discover_orphans env c owner_uid cluster_name spec status)
        cleanup_found with_pvcs spec status (poll_interval c) (err ∷ []) orphans
  after_role_pdbs with_pvcs spec status (ok state) = do
    orphans ← attempt (discover_orphans env c owner_uid cluster_name spec status)
    cleanup_found with_pvcs spec status (wait_of c state) [] orphans

  unfoldable pub cleanup :
      GoMap String String → GenericClusterSpec → GenericClusterStatus → Act W Outcome
  unfolding clear_all cleanup_orphaned_role_pdbs after_role_pdbs
  cleanup cr_annotations spec status = do
    clear_all (live_names env.digest cluster_name spec.roles)
    pdbs ← attempt (cleanup_orphaned_role_pdbs spec)
    after_role_pdbs (deletes_pvcs cr_annotations) spec status pdbs
