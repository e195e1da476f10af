-- ===== src/Reconciler/Cleaner/Rerun.antt =====
-- A cleanup pass asks to be run again while a role group is pending.
use operator_go.Prelude.{
  ℕ, String, Bool, true, false, Option, none, some, List, [], ◌∷◌, ◌≡◌, refl, ap, inl, inr,
  is_empty, is_some, Bool-cases, Option-cases,
}
use operator_go.Prelude.Eq.{string_eq}
use operator_go.Prelude.Maps.{GoMap}
use operator_go.Common.Errors.{Duration, Err, Result, ok, fail, is_rate_limit_error}
use operator_go.Api.Spec.{GenericClusterSpec}
use operator_go.Api.Status.{
  GenericClusterStatus, is_condition_true, get_condition, condition_of, condition_false,
}
use operator_go.Kube.Act.{Act, attempt, ◌>>=◌}
use operator_go.Kube.Logic.{
  Keeps, Anything, pure-Keeps, bind-Keeps, attempt-Keeps, unless_error-Keeps, given-Keeps,
}
use operator_go.Kube.Safety.{attempt-Safe}
use operator_go.Reconciler.Health.Truth.{is_true-set_condition}
use operator_go.Reconciler.Cleaner.{RoleGroupCleaner, Services, poll_interval, DeletionState}
use operator_go.Reconciler.Cleaner.Discover.{OrphanRef, discover_orphans}
use operator_go.Reconciler.Cleaner.Teardown.Bookkeeping.{
  condition_orphan_cleanup_pending, Progress, Outcome, after_orphan, throttle,
  set_orphan_cleanup_condition, live_names, deletes_pvcs,
}
use operator_go.Reconciler.Cleaner.Teardown.{
  cleanup_orphans, cleanup_found, after_role_pdbs, cleanup, wait_of,
}
use operator_go.Reconciler.Cleaner.Rules.{IsRetry, Allowed, tick-Safe}
use operator_go.Reconciler.Cleaner.Passes.{
  discover_orphans-Safe, clear_all-Safe, cleanup_orphaned_role_pdbs-Safe,
}
use operator_go.Reconciler.Cleaner.Wakeups.{
  IsPositive, poll-IsPositive, IsAwake, orphan-IsAwake, earliest-IsPositive,
}
use operator_go.Reconciler.Cleaner.Pending.{IsSteady, cleanup_role_group-Waits}

not_there :
    (s : GenericClusterStatus)
    → is_some (get_condition s condition_orphan_cleanup_pending) ≡ false
    → is_condition_true condition_orphan_cleanup_pending s ≡ false
unfolding is_condition_true
not_there s h = elim (Option-cases (get_condition s condition_orphan_cleanup_pending)) [
  | inl missing ↦ rw missing
  | inr (c, there) ↦ cc (ap is_some there, h)
]

-- The condition that the pass leaves is true only if something is pending.
pending_of_condition :
    (now : ℕ) (pending : List String) (s : GenericClusterStatus)
    → is_condition_true condition_orphan_cleanup_pending
        (set_orphan_cleanup_condition now pending s)
      ≡ true
    → is_empty pending ≡ false
unfolding set_orphan_cleanup_condition
pending_of_condition now (p ∷ pending) s h = refl
pending_of_condition now [] s h =
    elim (Bool-cases (is_some (get_condition s condition_orphan_cleanup_pending))) [
      | inl raised ↦ cc (
        is_true-set_condition condition_orphan_cleanup_pending now
            (condition_of condition_orphan_cleanup_pending condition_false "OrphanCleanupComplete"
              "No orphaned role group is waiting to be reclaimed")
            s,
        rw (raised, set_orphan_cleanup_condition) at h,
      )
      | inr never ↦ cc (not_there s never, rw (never, set_orphan_cleanup_condition) at h)
    ]

abbrev pub is_throttled : Option Err → Bool
is_throttled none = false
is_throttled (some err) = is_rate_limit_error err

-- Unless the API server throttles, an outcome with the condition raised asks to be run again.
abbrev pub IsScheduled : Outcome → Type 0
IsScheduled out =
    is_throttled out.error ≡ false
    → is_condition_true condition_orphan_cleanup_pending out.status ≡ true
    → IsPositive out.requeue

throttle-is_rate_limit :
    {A : Type 0} (r : Result A) (err : Err) → throttle r ≡ some err → is_rate_limit_error err ≡ true
unfolding throttle
throttle-is_rate_limit (ok a) err e = cc
throttle-is_rate_limit (fail f) err e = elim (Bool-cases (is_rate_limit_error f)) [
  | inl limited ↦ cc (rw (limited, throttle) at e, limited)
  | inr other ↦ cc (rw (other, throttle) at e)
]

module _ {W : Type 0} (env : Services W) (c : RoleGroupCleaner) (owner_uid cluster_name : String)
    (with_pvcs : Bool) (retries : IsRetry env.retry_on_conflict) (steady : IsSteady env.clock) where
  abbrev Schedules : Act W Outcome → Type 0
  Schedules m = Keeps (Allowed c owner_uid with_pvcs) Anything m (λ out es. IsScheduled out)

  cleanup_orphans-Schedules :
      (live : List String) (orphans : List OrphanRef) (p : Progress)
      → IsAwake p
      → Schedules (cleanup_orphans env c owner_uid cluster_name with_pvcs live orphans p)
  unfolding cleanup_orphans
  cleanup_orphans-Schedules live [] p h =
      bind-Keeps _ _ (λ now. Anything) _ _ _ (tick-Safe c owner_uid with_pvcs env.clock)
        (λ now.
          pure-Keeps _ _ _ _
            (λ es q calm raised. h (pending_of_condition now p.pending p.status raised)))
  cleanup_orphans-Schedules live (orphan ∷ orphans) p h =
      bind-Keeps _ _
        (λ result es. (r : Bool × Duration) → result ≡ ok r → r.0 ≡ false → IsPositive r.1) _ _ _
        (attempt-Keeps _ _ _ _ (
          cleanup_role_group-Waits env c owner_uid cluster_name with_pvcs live orphan retries
            steady))
        (λ result. given-Keeps _ (λ waits.
          unless_error-Keeps _ (throttle result)
            (λ err limited.
              pure-Keeps _ _ _
                (record { requeue = p.next_requeue; error = some err; status = p.status })
                (λ es q calm raised. cc (throttle-is_rate_limit result err limited, calm)))
            (cleanup_orphans-Schedules live orphans (after_orphan (poll_interval c) orphan result p)
              (orphan-IsAwake (poll_interval c) orphan result p (poll-IsPositive c)
                (λ wait e. waits (false, wait) e refl) h))))

  cleanup_found-Schedules :
      (spec : GenericClusterSpec) (status : GenericClusterStatus) (next : Duration)
      (errs : List Err) (r : Result (List OrphanRef))
      → Schedules (cleanup_found env c owner_uid cluster_name with_pvcs spec status next errs r)
  unfolding cleanup_found
  cleanup_found-Schedules spec status next errs (fail err) =
      elim (Bool-cases (is_rate_limit_error err)) [
        | inl limited ↦
            rw (limited, cleanup_found)
              (pure-Keeps _ _ _ _ (λ es p calm raised. cc (limited, calm)))
        | inr failed ↦
            rw (failed, cleanup_found)
              (pure-Keeps _ _ _ _ (λ es p calm raised.
                earliest-IsPositive next (poll_interval c) (poll-IsPositive c)))
      ]
  cleanup_found-Schedules spec status next errs (ok orphans) =
      cleanup_orphans-Schedules (live_names env.digest cluster_name spec.roles) orphans
        (record { next_requeue = next; errs = errs; pending = []; status = status }) (λ e. cc)

  after_discovery-Schedules :
      (spec : GenericClusterSpec) (status : GenericClusterStatus) (next : Duration)
      (errs : List Err)
      → Schedules (
          attempt (discover_orphans env c owner_uid cluster_name spec status) >>= λ orphans.
          cleanup_found env c owner_uid cluster_name with_pvcs spec status next errs orphans)
  after_discovery-Schedules spec status next errs =
      bind-Keeps _ _ (λ r. Anything) _ _ _
        (attempt-Safe (discover_orphans-Safe env c owner_uid with_pvcs cluster_name spec status))
        (λ r. cleanup_found-Schedules spec status next errs r)

  pub after_role_pdbs-Schedules :
      (spec : GenericClusterSpec) (status : GenericClusterStatus) (r : Result DeletionState)
      → Schedules (after_role_pdbs env c owner_uid cluster_name with_pvcs spec status r)
  unfolding after_role_pdbs
  after_role_pdbs-Schedules spec status (fail err) = elim (Bool-cases (is_rate_limit_error err)) [
    | inl limited ↦
        rw (limited, after_role_pdbs) (pure-Keeps _ _ _ _ (λ es p calm raised. cc (limited, calm)))
    | inr failed ↦
        rw (failed, after_role_pdbs)
          (after_discovery-Schedules spec status (poll_interval c) (err ∷ []))
  ]
  after_role_pdbs-Schedules spec status (ok state) =
      after_discovery-Schedules spec status (wait_of c state) []

-- Where the clock moves less than half a second between two readings in a row, a cleanup pass whose
-- error is not one of throttling and that leaves the condition OrphanCleanupPending raised asks for
-- a positive delay before the next pass.
pub cleanup-IsPositive :
    {W : Type 0} (env : Services W) (c : RoleGroupCleaner) (owner_uid cluster_name : String)
    (cr_annotations : GoMap String String) (spec : GenericClusterSpec)
    (status : GenericClusterStatus) (world : W) (out : Outcome)
    → IsRetry env.retry_on_conflict
    → IsSteady env.clock
    → (cleanup env c owner_uid cluster_name cr_annotations spec status
        (record { world = world; log = [] })).0
      ≡ ok out
    → is_throttled out.error ≡ false
    → is_condition_true condition_orphan_cleanup_pending out.status ≡ true
    → IsPositive out.requeue
unfolding cleanup
cleanup-IsPositive env c owner_uid cluster_name cr_annotations spec status world out retries steady
      e calm raised =
    let with_pvcs = deletes_pvcs cr_annotations in
    let pass =
      bind-Keeps (Allowed c owner_uid with_pvcs) Anything (λ u. Anything) _ _ _
        (clear_all-Safe env c owner_uid with_pvcs cluster_name
          (live_names env.digest cluster_name spec.roles))
        (λ u.
          bind-Keeps _ _ (λ r. Anything) _ _ _
            (attempt-Safe
              (cleanup_orphaned_role_pdbs-Safe env c owner_uid with_pvcs cluster_name spec))
            (λ pdbs.
              after_role_pdbs-Schedules env c owner_uid cluster_name with_pvcs retries steady spec
                status pdbs)) in
    (pass.keeps (record { world = world; log = [] }) tt tt).leaves out e calm raised
