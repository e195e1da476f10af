-- ===== src/Reconciler/Cleaner/Passes.antt =====
-- A whole cleanup pass keeps to the rules on what a cleaner may ask of the API server.
use operator_go.Prelude.{
  String, Bool, true, false, not, some, List, [], ◌∷◌, map, refl, inl, inr, All, Bool-cases,
}
use operator_go.Prelude.Eq.{◌==◌, string_eq}
use operator_go.Prelude.Int.{pos, ltz}
use operator_go.Prelude.Maps.{GoMap}
use operator_go.Common.Errors.{Duration, Err, Result, ok, fail, is_rate_limit_error}
use operator_go.Api.Spec.{GenericClusterSpec}
use operator_go.Api.Status.{GenericClusterStatus}
use operator_go.Kube.{Kind, pod_disruption_budget, stateful_set, config_map, service, Object}
use operator_go.Kube.Act.{Act}
use operator_go.Kube.Logic.{Valid}
use operator_go.Kube.Safety.{
  Safe, pure-Safe, raise-Safe, bind-Safe, if-Safe, attempt-Safe, list-Safe, on_answer-Safe,
  unless_error-Safe, wrap_error-Safe,
}
use operator_go.Reconciler.Cleaner.{
  RoleGroupCleaner, Services, poll_interval, DeletionState, settled, in_flight, confirm_reader,
}
use operator_go.Reconciler.Cleaner.Delete.{delete_owned}
use operator_go.Reconciler.Cleaner.Discover.{
  OrphanRef, list_slots, discover_live_orphans, discover_orphans,
}
use operator_go.Reconciler.Cleaner.Teardown.Bookkeeping.{
  Progress, after_orphan, live_names, throttle, deletes_pvcs,
}
use operator_go.Reconciler.Cleaner.Teardown.{
  if_settled, worse, run_steps, still_owned, run_checks, confirm_role_group_reclaimed, steps_of,
  reclaim, cleanup_role_group, delete_role_pdbs, cleanup_orphaned_role_pdbs, clear_all,
  cleanup_orphans, cleanup_found, after_role_pdbs, cleanup, keeps_role_pdb, slot, wait_of,
}
use operator_go.Reconciler.Cleaner.Rules.{IsRetry, Allowed, get-Safe, tick-Safe, found-Safe}
use operator_go.Reconciler.Cleaner.Guards.{delete_owned-Safe}
use operator_go.Reconciler.Cleaner.Stamps.{check_or_mark-Safe, clear_teardown_progress-Safe}
use operator_go.Reconciler.Cleaner.Drains.{delete_stateful_set-Safe, delete_role_group_extras-Safe}

module _ {W : Type 0} (env : Services W) (c : RoleGroupCleaner) (owner_uid : String)
    (with_pvcs : Bool) where
  abbrev Ok : {A : Type 0} → Act W A → Type 0
  Ok = Safe (Allowed c owner_uid with_pvcs)

  pub list_slots-Safe :
      (cluster_name : String) (kind : Kind) (kinds : String)
      → Ok (list_slots env c owner_uid cluster_name kind kinds)
  unfolding list_slots
  list_slots-Safe cluster_name kind kinds =
      bind-Safe (list-Safe _ _ _)
        (λ answer. on_answer-Safe answer (λ items. pure-Safe items) (λ e. raise-Safe _))

  pub discover_orphans-Safe :
      (cluster_name : String) (spec : GenericClusterSpec) (status : GenericClusterStatus)
      → Ok (discover_orphans env c owner_uid cluster_name spec status)
  unfolding discover_orphans discover_live_orphans
  discover_orphans-Safe cluster_name spec status =
      bind-Safe
        (if-Safe (owner_uid == "") (λ h. pure-Safe [])
          (λ h. bind-Safe (list_slots-Safe cluster_name stateful_set _) (λ sts_list.
            bind-Safe (list_slots-Safe cluster_name config_map _) (λ cm_list. pure-Safe _))))
        (λ live. pure-Safe _)

  pub if_settled-Safe :
      {A : Type 0} (state : DeletionState) {m n : Act W A} → Ok m → Ok n → Ok (if_settled state m n)
  unfolding if_settled
  if_settled-Safe settled hm hn = hm
  if_settled-Safe in_flight hm hn = hn

  pub run_steps-Safe :
      (cluster_name : String) (steps : List (Act W DeletionState))
      → All (λ step. Ok step) steps
      → Ok (run_steps env c owner_uid cluster_name steps)
  unfolding run_steps
  run_steps-Safe cluster_name [] h = pure-Safe settled
  run_steps-Safe cluster_name (step ∷ steps) h =
      bind-Safe h.0 (λ state.
        if_settled-Safe state (run_steps-Safe cluster_name steps h.1) (pure-Safe in_flight))

  pub run_checks-Safe :
      (cluster_name : String) (checks : List (Kind × String))
      → Ok (run_checks env c owner_uid cluster_name checks)
  unfolding run_checks still_owned
  run_checks-Safe cluster_name [] = pure-Safe settled
  run_checks-Safe cluster_name ((kind, name) ∷ checks) =
      bind-Safe
        (bind-Safe (get-Safe c owner_uid with_pvcs (confirm_reader env) kind name)
          (λ answer. bind-Safe (found-Safe c owner_uid with_pvcs env answer) (λ obj. pure-Safe _)))
        (λ present.
          if-Safe present (λ h. pure-Safe in_flight) (λ h. run_checks-Safe cluster_name checks))

  pub derived_steps :
      (names : List String)
      → All (λ step. Ok step) (map (delete_owned env c owner_uid service) names)
  derived_steps [] = tt
  derived_steps (name ∷ names) =
      (delete_owned-Safe env c owner_uid with_pvcs service name refl, derived_steps names)

  pub steps_Safe :
      (cluster_name : String) (orphan : OrphanRef) (derived : List String)
      → IsRetry env.retry_on_conflict
      → All (λ step. Ok step) (steps_of env c owner_uid cluster_name with_pvcs orphan derived)
  steps_Safe cluster_name orphan derived retries = (
    delete_owned-Safe env c owner_uid with_pvcs pod_disruption_budget orphan.resource_name refl,
    (
      delete_stateful_set-Safe env c owner_uid with_pvcs orphan.resource_name retries,
      (
        delete_role_group_extras-Safe env c owner_uid with_pvcs cluster_name orphan.role_name
            orphan.group_name,
        (
          delete_owned-Safe env c owner_uid with_pvcs config_map orphan.resource_name refl,
          (
            delete_owned-Safe env c owner_uid with_pvcs service orphan.resource_name refl,
            derived_steps derived,
          ),
        ),
      ),
    ),
  )

  pub reclaim-Safe :
      (cluster_name : String) (orphan : OrphanRef) (derived : List String)
      → IsRetry env.retry_on_conflict
      → Ok (reclaim env c owner_uid cluster_name with_pvcs orphan derived)
  unfolding reclaim confirm_role_group_reclaimed
  reclaim-Safe cluster_name orphan derived retries =
      bind-Safe
        (run_steps-Safe cluster_name
          (steps_of env c owner_uid cluster_name with_pvcs orphan derived)
          (steps_Safe cluster_name orphan derived retries))
        (λ state.
          if_settled-Safe state
            (bind-Safe (run_checks-Safe cluster_name (slot orphan.resource_name derived))
              (λ confirmed.
                if_settled-Safe confirmed (pure-Safe (true, pos 0))
                  (pure-Safe (false, poll_interval c))))
            (pure-Safe (false, poll_interval c)))

  pub cleanup_role_group-Safe :
      (cluster_name : String) (live : List String) (orphan : OrphanRef)
      → IsRetry env.retry_on_conflict
      → Ok (cleanup_role_group env c owner_uid cluster_name with_pvcs live orphan)
  unfolding cleanup_role_group
  cleanup_role_group-Safe cluster_name live orphan retries =
      if-Safe (not (ltz (pos 0) c.gray_delete_grace_period))
        (λ h. reclaim-Safe cluster_name orphan _ retries)
        (λ h.
          bind-Safe (check_or_mark-Safe env c owner_uid with_pvcs orphan.resource_name) (λ marked.
            if-Safe marked.0 (λ ready. reclaim-Safe cluster_name orphan _ retries)
              (λ wait. pure-Safe _)))

  delete_role_pdbs-Safe :
      (cluster_name : String) (spec : GenericClusterSpec) (pdbs : List Object)
      (state : DeletionState)
      → Ok (delete_role_pdbs env c owner_uid cluster_name spec pdbs state)
  unfolding delete_role_pdbs
  delete_role_pdbs-Safe cluster_name spec [] state = pure-Safe state
  delete_role_pdbs-Safe cluster_name spec (pdb ∷ pdbs) state =
      elim (Bool-cases (keeps_role_pdb owner_uid spec pdb)) [
        | inl kept ↦
            rw (kept, delete_role_pdbs) (delete_role_pdbs-Safe cluster_name spec pdbs state)
        | inr gone ↦
            rw (gone, delete_role_pdbs)
              (bind-Safe
                (wrap_error-Safe _
                  (delete_owned-Safe env c owner_uid with_pvcs pod_disruption_budget pdb.name refl))
                (λ step. delete_role_pdbs-Safe cluster_name spec pdbs (worse step state)))
      ]

  pub cleanup_orphaned_role_pdbs-Safe :
      (cluster_name : String) (spec : GenericClusterSpec)
      → Ok (cleanup_orphaned_role_pdbs env c owner_uid cluster_name spec)
  unfolding cleanup_orphaned_role_pdbs
  cleanup_orphaned_role_pdbs-Safe cluster_name spec =
      if-Safe (owner_uid == "") (λ h. pure-Safe settled)
        (λ h. bind-Safe (list-Safe _ _ _) (λ answer.
          on_answer-Safe answer (λ pdbs. delete_role_pdbs-Safe cluster_name spec pdbs settled)
            (λ e. raise-Safe _)))

  pub clear_all-Safe :
      (cluster_name : String) (names : List String)
      → Ok (clear_all env c owner_uid cluster_name names)
  unfolding clear_all
  clear_all-Safe cluster_name [] = pure-Safe tt
  clear_all-Safe cluster_name (name ∷ names) =
      bind-Safe (attempt-Safe (clear_teardown_progress-Safe env c owner_uid with_pvcs name))
        (λ r. clear_all-Safe cluster_name names)

  cleanup_orphans-Safe :
      (cluster_name : String) (live : List String) (orphans : List OrphanRef) (p : Progress)
      → IsRetry env.retry_on_conflict
      → Ok (cleanup_orphans env c owner_uid cluster_name with_pvcs live orphans p)
  unfolding cleanup_orphans
  cleanup_orphans-Safe cluster_name live [] p retries =
      bind-Safe (tick-Safe c owner_uid with_pvcs env.clock) (λ now. pure-Safe _)
  cleanup_orphans-Safe cluster_name live (orphan ∷ orphans) p retries =
      bind-Safe (attempt-Safe (cleanup_role_group-Safe cluster_name live orphan retries)) (λ result.
        unless_error-Safe (throttle result)
          (λ err.
            pure-Safe (record { requeue = p.next_requeue; error = some err; status = p.status }))
          (cleanup_orphans-Safe cluster_name live orphans
            (after_orphan (poll_interval c) orphan result p) retries))

  cleanup_found-Safe :
      (cluster_name : String) (spec : GenericClusterSpec) (status : GenericClusterStatus)
      (next : Duration) (errs : List Err) (r : Result (List OrphanRef))
      → IsRetry env.retry_on_conflict
      → Ok (cleanup_found env c owner_uid cluster_name with_pvcs spec status next errs r)
  unfolding cleanup_found
  cleanup_found-Safe cluster_name spec status next errs (fail err) retries = pure-Safe _
  cleanup_found-Safe cluster_name spec status next errs (ok orphans) retries =
      cleanup_orphans-Safe cluster_name _ orphans _ retries

  after_role_pdbs-Safe :
      (cluster_name : String) (spec : GenericClusterSpec) (status : GenericClusterStatus)
      (r : Result DeletionState)
      → IsRetry env.retry_on_conflict
      → Ok (after_role_pdbs env c owner_uid cluster_name with_pvcs spec status r)
  unfolding after_role_pdbs
  after_role_pdbs-Safe cluster_name spec status (fail err) retries =
      if-Safe (is_rate_limit_error err) (λ h. pure-Safe _)
        (λ h. bind-Safe (attempt-Safe (discover_orphans-Safe cluster_name spec status)) (λ orphans.
          cleanup_found-Safe cluster_name spec status (poll_interval c) (err ∷ []) orphans retries))
  after_role_pdbs-Safe cluster_name spec status (ok state) retries =
      bind-Safe (attempt-Safe (discover_orphans-Safe cluster_name spec status)) (λ orphans.
        cleanup_found-Safe cluster_name spec status (wait_of c state) [] orphans retries)

-- Whatever the API server answers, a cleanup pass deletes a volume claim only where the cluster
-- resource asks for it; a StatefulSet only if it is read as owned, scaled to zero, and without pods
-- or past the drain deadline by a clock reading of the pass; and any other object only if it is read
-- as owned. It updates an object other than a StatefulSet only if it is read as owned.
pub cleanup-Allowed :
    {W : Type 0} (env : Services W) (c : RoleGroupCleaner) (owner_uid cluster_name : String)
    (cr_annotations : GoMap String String) (spec : GenericClusterSpec)
    (status : GenericClusterStatus) (world : W)
    → IsRetry env.retry_on_conflict
    → Valid
        (Allowed c owner_uid (deletes_pvcs cr_annotations))
        (cleanup env c owner_uid cluster_name cr_annotations spec status
          (record { world = world; log = [] })).1.log
unfolding cleanup
cleanup-Allowed env c owner_uid cluster_name cr_annotations spec status world retries =
    let with_pvcs = deletes_pvcs cr_annotations in
    let pass =
      bind-Safe
        (clear_all-Safe env c owner_uid with_pvcs cluster_name
          (live_names env.digest cluster_name spec.roles))
        (λ u.
          bind-Safe
            (attempt-Safe
              (cleanup_orphaned_role_pdbs-Safe env c owner_uid with_pvcs cluster_name spec))
            (λ pdbs.
              after_role_pdbs-Safe env c owner_uid with_pvcs cluster_name spec status pdbs
                retries)) in
    (pass.keeps (record { world = world; log = [] }) tt tt).valid
