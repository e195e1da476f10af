-- ===== src/Reconciler/Cleaner/Returns.antt =====
-- A cleanup pass returns an outcome, whatever the API server answers.
use operator_go.Prelude.{String, Bool, false, some, List, [], ◌∷◌, refl}
use operator_go.Prelude.Int.{pos}
use operator_go.Prelude.Maps.{GoMap}
use operator_go.Common.Errors.{Duration, Err, Result, ok, fail, is_rate_limit_error}
use operator_go.Api.Spec.{GenericClusterSpec}
use operator_go.Api.Status.{GenericClusterStatus}
use operator_go.Kube.Act.{request, tick}
use operator_go.Kube.Totality.{
  Returns, pure-Returns, bind-Returns, attempt-Returns, if-Returns, unless_error-Returns,
}
use operator_go.Reconciler.Cleaner.{RoleGroupCleaner, Services, poll_interval, DeletionState}
use operator_go.Reconciler.Cleaner.Marks.{clear_teardown_progress}
use operator_go.Reconciler.Cleaner.Discover.{OrphanRef, discover_orphans}
use operator_go.Reconciler.Cleaner.Teardown.Bookkeeping.{
  Progress, throttle, after_orphan, live_names, deletes_pvcs,
}
use operator_go.Reconciler.Cleaner.Teardown.{
  cleanup_role_group, cleanup_orphans, cleanup_found, after_role_pdbs, clear_all,
  cleanup_orphaned_role_pdbs, cleanup, wait_of,
}

module _ {W : Type 0} (env : Services W) (c : RoleGroupCleaner) (owner_uid cluster_name : String)
    (with_pvcs : Bool) where
  tick-Returns : Returns (tick env.clock)
  unfolding tick request
  tick-Returns = record { returns = λ run. (_, refl) }

  cleanup_orphans-Returns :
      (live : List String) (orphans : List OrphanRef) (p : Progress)
      → Returns (cleanup_orphans env c owner_uid cluster_name with_pvcs live orphans p)
  unfolding cleanup_orphans
  cleanup_orphans-Returns live [] p = bind-Returns tick-Returns (λ now. pure-Returns _)
  cleanup_orphans-Returns live (orphan ∷ orphans) p =
      bind-Returns
        (attempt-Returns (cleanup_role_group env c owner_uid cluster_name with_pvcs live orphan))
        (λ result.
          unless_error-Returns (throttle result)
            (λ err.
              pure-Returns
                (record { requeue = p.next_requeue; error = some err; status = p.status }))
            (cleanup_orphans-Returns live orphans (after_orphan (poll_interval c) orphan result p)))

  cleanup_found-Returns :
      (spec : GenericClusterSpec) (status : GenericClusterStatus) (next : Duration)
      (errs : List Err) (r : Result (List OrphanRef))
      → Returns (cleanup_found env c owner_uid cluster_name with_pvcs spec status next errs r)
  unfolding cleanup_found
  cleanup_found-Returns spec status next errs (fail err) = pure-Returns _
  cleanup_found-Returns spec status next errs (ok orphans) = cleanup_orphans-Returns _ orphans _

  after_role_pdbs-Returns :
      (spec : GenericClusterSpec) (status : GenericClusterStatus) (r : Result DeletionState)
      → Returns (after_role_pdbs env c owner_uid cluster_name with_pvcs spec status r)
  unfolding after_role_pdbs
  after_role_pdbs-Returns spec status (ok state) =
      bind-Returns (attempt-Returns (discover_orphans env c owner_uid cluster_name spec status))
        (λ r. cleanup_found-Returns spec status (wait_of c state) [] r)
  after_role_pdbs-Returns spec status (fail err) =
      if-Returns (is_rate_limit_error err)
        (pure-Returns (record { requeue = pos 0; error = some err; status = status }))
        (bind-Returns (attempt-Returns (discover_orphans env c owner_uid cluster_name spec status))
          (λ r. cleanup_found-Returns spec status (poll_interval c) (err ∷ []) r))

  clear_all-Returns : (names : List String) → Returns (clear_all env c owner_uid cluster_name names)
  unfolding clear_all
  clear_all-Returns [] = pure-Returns tt
  clear_all-Returns (name ∷ names) =
      bind-Returns (attempt-Returns (clear_teardown_progress env c owner_uid name))
        (λ r. clear_all-Returns names)

pub cleanup-Returns :
    {W : Type 0} (env : Services W) (c : RoleGroupCleaner) (owner_uid cluster_name : String)
    (cr_annotations : GoMap String String) (spec : GenericClusterSpec)
    (status : GenericClusterStatus)
    → Returns (cleanup env c owner_uid cluster_name cr_annotations spec status)
unfolding cleanup
cleanup-Returns env c owner_uid cluster_name cr_annotations spec status =
    bind-Returns
      (clear_all-Returns env c owner_uid cluster_name false
        (live_names env.digest cluster_name spec.roles))
      (λ u.
        bind-Returns
          (attempt-Returns (cleanup_orphaned_role_pdbs env c owner_uid cluster_name spec))
          (λ pdbs.
            after_role_pdbs-Returns env c owner_uid cluster_name (deletes_pvcs cr_annotations) spec
              status pdbs))
