-- ===== src/Reconciler/Cleaner/Pruning.antt =====
-- What a cleanup pass does to the ledger of role groups.
use operator_go.Prelude.{
  ℕ, String, Bool, true, false, ◌&&◌, ◌||◌, some, List, [], ◌∷◌, ◌≡◌, refl, sym, ap, ◌∙◌, inl, inr,
  All, is_some, arith, Bool-cases,
}
use operator_go.Prelude.Eq.{◌==◌, string_eq}
use operator_go.Prelude.Int.{pos}
use operator_go.Prelude.Maps.{GoMap}
use operator_go.Common.Errors.{Duration, Err, Result, ok, fail, is_rate_limit_error}
use operator_go.Api.Spec.{RoleSpec, GenericClusterSpec}
use operator_go.Api.Status.{GenericClusterStatus, get_condition, set_condition, remove_role_group}
use operator_go.Api.Status.Ledger.{records, records-remove_role_group}
use operator_go.Kube.{stateful_set, config_map}
use operator_go.Kube.Act.{Run, Act, attempt, ◌>>=◌}
use operator_go.Kube.Logic.{
  Keeps, Anything, pure-Keeps, bind-Keeps, attempt-Keeps, if-Keeps, unless_error-Keeps,
}
use operator_go.Kube.Safety.{attempt-Safe}
use operator_go.Reconciler.Cleaner.{RoleGroupCleaner, Services, poll_interval, DeletionState}
use operator_go.Reconciler.Cleaner.Discover.{
  OrphanRef, is_declared, discover_live_orphans, discover_orphans,
}
use operator_go.Reconciler.Cleaner.Teardown.Bookkeeping.{
  condition_orphan_cleanup_pending, Progress, Outcome, after_orphan, throttle,
  set_orphan_cleanup_condition, live_names, deletes_pvcs,
}
use operator_go.Reconciler.Cleaner.Teardown.{
  cleanup_orphans, cleanup_found, after_role_pdbs, cleanup, wait_of,
}
use operator_go.Reconciler.Cleaner.Rules.{IsRetry, Allowed, tick-Safe}
use operator_go.Reconciler.Cleaner.Passes.{
  list_slots-Safe, cleanup_role_group-Safe, clear_all-Safe, cleanup_orphaned_role_pdbs-Safe,
}
use operator_go.Reconciler.Cleaner.Returns.{cleanup-Returns}
use operator_go.Reconciler.Cleaner.Ledger.{
  IsUndeclared, live_orphans-IsUndeclared, inventory-IsUndeclared,
}

module _ (desired : GoMap String RoleSpec) (before : GenericClusterStatus) where
  -- Every declared pair of the ledger is still there, and no pair is new.
  pub record IsPruned (after : GenericClusterStatus) : Type 0 where
    pub keeps_declared :
        (r g : String)
        → is_declared desired r g ≡ true
        → records r g after.role_groups ≡ records r g before.role_groups
    pub adds_none :
        (r g : String)
        → records r g after.role_groups ≡ true
        → records r g before.role_groups ≡ true

  other_pair :
      (r g : String) (ref : OrphanRef)
      → is_declared desired r g ≡ true
      → IsUndeclared desired ref
      → (ref.role_name == r && ref.group_name == g) ≡ false
  other_pair r g ref d u = elim (Bool-cases (ref.role_name == r && ref.group_name == g)) [
    | inr differ ↦ differ
    | inl same ↦
        let er : ref.role_name ≡ r = (string_eq.beq_iff ref.role_name r).0 (ground arith) in
        let eg : ref.group_name ≡ g = (string_eq.beq_iff ref.group_name g).0 (ground arith) in
        cc (
          ap (λ k. is_declared desired k g) er,
          ap (λ k. is_declared desired ref.role_name k) eg,
          d,
          u,
        )
  ]

  remove-IsPruned :
      (ref : OrphanRef) (s : GenericClusterStatus)
      → IsUndeclared desired ref
      → IsPruned s
      → IsPruned (remove_role_group ref.role_name ref.group_name s)
  remove-IsPruned ref s undeclared h = record {
    keeps_declared = λ r g d.
        records-remove_role_group ref.role_name ref.group_name r g s
        ∙ ground (arith, h.keeps_declared r g d, other_pair r g ref d undeclared);
    adds_none = λ r g there.
        h.adds_none r g
          (ground (arith, records-remove_role_group ref.role_name ref.group_name r g s));
  }

  -- A change of the conditions alone.
  same-IsPruned :
      (s s' : GenericClusterStatus) → s'.role_groups ≡ s.role_groups → IsPruned s → IsPruned s'
  same-IsPruned s s' e h = record {
    keeps_declared = λ r g d. ap (records r g) e ∙ h.keeps_declared r g d;
    adds_none = λ r g there. h.adds_none r g (sym (ap (records r g) e) ∙ there);
  }

  condition-IsPruned :
      (now : ℕ) (pending : List String) (s : GenericClusterStatus)
      → IsPruned s
      → IsPruned (set_orphan_cleanup_condition now pending s)
  unfolding set_orphan_cleanup_condition set_condition
  condition-IsPruned now (p ∷ pending) s h = same-IsPruned s _ refl h
  condition-IsPruned now [] s h =
      elim (Bool-cases (is_some (get_condition s condition_orphan_cleanup_pending))) [
        | inl raised ↦ rw (raised, set_orphan_cleanup_condition) (same-IsPruned s _ refl h)
        | inr never ↦ rw (never, set_orphan_cleanup_condition) h
      ]

  orphan-IsPruned :
      (poll : Duration) (ref : OrphanRef) (r : Result (Bool × Duration)) (p : Progress)
      → IsUndeclared desired ref
      → IsPruned p.status
      → IsPruned (after_orphan poll ref r p).status
  unfolding after_orphan
  orphan-IsPruned poll ref (fail err) p u h = h
  orphan-IsPruned poll ref (ok (false, wait)) p u h = h
  orphan-IsPruned poll ref (ok (true, wait)) p u h = elim (Bool-cases (ref.role_name == "")) [
    | inl unnamed ↦ rw (unnamed, after_orphan) h
    | inr named ↦ rw (named, after_orphan) (remove-IsPruned ref p.status u h)
  ]

module _ {W : Type 0} (env : Services W) (c : RoleGroupCleaner) (owner_uid cluster_name : String)
    (with_pvcs : Bool) (retries : IsRetry env.retry_on_conflict) (spec : GenericClusterSpec)
    (before : GenericClusterStatus) where
  abbrev Prunes : Act W Outcome → Type 0
  Prunes m =
      Keeps (Allowed c owner_uid with_pvcs) Anything m
        (λ out es. IsPruned spec.roles before out.status)

  cleanup_orphans-Prunes :
      (live : List String) (orphans : List OrphanRef) (p : Progress)
      → All (IsUndeclared spec.roles) orphans
      → IsPruned spec.roles before p.status
      → Prunes (cleanup_orphans env c owner_uid cluster_name with_pvcs live orphans p)
  unfolding cleanup_orphans
  cleanup_orphans-Prunes live [] p u h =
      bind-Keeps _ _ (λ now. Anything) _ _ _ (tick-Safe c owner_uid with_pvcs env.clock)
        (λ now.
          pure-Keeps _ _ _ _
            (λ es q. condition-IsPruned spec.roles before now p.pending p.status h))
  cleanup_orphans-Prunes live (orphan ∷ orphans) p u h =
      bind-Keeps _ _ (λ result. Anything) _ _ _
        (attempt-Safe
          (cleanup_role_group-Safe env c owner_uid with_pvcs cluster_name live orphan retries))
        (λ result.
          unless_error-Keeps _ (throttle result)
            (λ err throttled.
              pure-Keeps _ _ _
                (record { requeue = p.next_requeue; error = some err; status = p.status })
                (λ es q. h))
            (cleanup_orphans-Prunes live orphans (after_orphan (poll_interval c) orphan result p)
              u.1 (orphan-IsPruned spec.roles before (poll_interval c) orphan result p u.0 h)))

  IsUndeclared-discover_live :
      Keeps
        (Allowed c owner_uid with_pvcs)
        Anything
        (discover_live_orphans env c owner_uid cluster_name spec)
        (λ live es. All (IsUndeclared spec.roles) live)
  unfolding discover_live_orphans
  IsUndeclared-discover_live = if-Keeps _ (owner_uid == "") (pure-Keeps _ _ _ [] (λ es p. tt)) (
      bind-Keeps _ _ (λ a. Anything) _ _ _
        (list_slots-Safe env c owner_uid with_pvcs cluster_name stateful_set _)
        (λ sts_list.
          bind-Keeps _ _ (λ a. Anything) _ _ _
            (list_slots-Safe env c owner_uid with_pvcs cluster_name config_map _)
            (λ cm_list. pure-Keeps _ _ _ _ (λ es p.
              live_orphans-IsUndeclared spec.roles env.digest cluster_name owner_uid _ []))))

  IsUndeclared-discover :
      Keeps
        (Allowed c owner_uid with_pvcs)
        Anything
        (discover_orphans env c owner_uid cluster_name spec before)
        (λ orphans es. All (IsUndeclared spec.roles) orphans)
  unfolding discover_orphans
  IsUndeclared-discover =
      bind-Keeps _ _ (λ live es. All (IsUndeclared spec.roles) live) _ _ _
        IsUndeclared-discover_live
        (λ live.
          pure-Keeps _ _ _ _
            (λ es u. inventory-IsUndeclared spec.roles env.digest cluster_name before live u))

  unchanged-IsPruned : IsPruned spec.roles before before
  unchanged-IsPruned = record { keeps_declared = λ r g d. refl; adds_none = λ r g there. there }

  cleanup_found-Prunes :
      (next : Duration) (errs : List Err) (r : Result (List OrphanRef))
      → Keeps
          (Allowed c owner_uid with_pvcs)
          (λ es.
            (orphans : List OrphanRef) → r ≡ ok orphans → All (IsUndeclared spec.roles) orphans)
          (cleanup_found env c owner_uid cluster_name with_pvcs spec before next errs r)
          (λ out es. IsPruned spec.roles before out.status)
  unfolding cleanup_found
  cleanup_found-Prunes next errs (fail err) = elim (Bool-cases (is_rate_limit_error err)) [
    | inl throttled ↦
        rw (throttled, cleanup_found) (pure-Keeps _ _ _ _ (λ es p. unchanged-IsPruned))
    | inr failed ↦ rw (failed, cleanup_found) (pure-Keeps _ _ _ _ (λ es p. unchanged-IsPruned))
  ]
  cleanup_found-Prunes next errs (ok orphans) = record {
    keeps = λ run v p.
        (cleanup_orphans-Prunes (live_names env.digest cluster_name spec.roles) orphans
            (record { next_requeue = next; errs = errs; pending = []; status = before })
            (p orphans refl) unchanged-IsPruned).keeps
          run v tt;
  }

  after_discovery-Prunes :
      (next : Duration) (errs : List Err)
      → Prunes (
          attempt (discover_orphans env c owner_uid cluster_name spec before) >>= λ orphans.
          cleanup_found env c owner_uid cluster_name with_pvcs spec before next errs orphans)
  after_discovery-Prunes next errs =
      bind-Keeps _ _ _ _ _ _ (attempt-Keeps _ _ _ _ IsUndeclared-discover)
        (λ r. cleanup_found-Prunes next errs r)

  after_role_pdbs-Prunes :
      (r : Result DeletionState)
      → Prunes (after_role_pdbs env c owner_uid cluster_name with_pvcs spec before r)
  unfolding after_role_pdbs
  after_role_pdbs-Prunes (fail err) =
      if-Keeps _ (is_rate_limit_error err)
        (pure-Keeps _ _ _ (record { requeue = pos 0; error = some err; status = before })
          (λ es p. unchanged-IsPruned))
        (after_discovery-Prunes (poll_interval c) (err ∷ []))
  after_role_pdbs-Prunes (ok state) = after_discovery-Prunes (wait_of c state) []

-- Whatever the API server answers, a cleanup pass returns an outcome, and its ledger records a pair
-- that the spec declares exactly when the ledger before did, and no pair that the ledger before did
-- not.
pub records-cleanup :
    {W : Type 0} (env : Services W) (c : RoleGroupCleaner) (owner_uid cluster_name : String)
    (cr_annotations : GoMap String String) (spec : GenericClusterSpec)
    (before : GenericClusterStatus) (world : W)
    → IsRetry env.retry_on_conflict
    → (out : Outcome) × ((cleanup env c owner_uid cluster_name cr_annotations spec before
          (record { world = world; log = [] })).0
        ≡ ok out)
      × ((r g : String)
          → records r g out.status.role_groups ≡ (
              records r g before.role_groups
              && (is_declared spec.roles r g || records r g out.status.role_groups)))
unfolding cleanup
records-cleanup {W} env c owner_uid cluster_name cr_annotations spec before world retries =
    let with_pvcs = deletes_pvcs cr_annotations in
    let start : Run W = record { world = world; log = [] } in
    let (out, e) =
      (cleanup-Returns env c owner_uid cluster_name cr_annotations spec before).returns start in
    let pass =
      bind-Keeps (Allowed c owner_uid with_pvcs) Anything (λ u. Anything) _ _ _
        (clear_all-Safe env c owner_uid with_pvcs cluster_name
          (live_names env.digest cluster_name spec.roles))
        (λ u.
          bind-Keeps _ _ (λ r. Anything) _ _ _
            (attempt-Safe
              (cleanup_orphaned_role_pdbs-Safe env c owner_uid with_pvcs cluster_name spec))
            (λ pdbs.
              after_role_pdbs-Prunes env c owner_uid cluster_name with_pvcs retries spec before
                pdbs)) in
    let pruned = (pass.keeps start tt tt).leaves out e in
    (out, e, λ r g. ground (arith, pruned.keeps_declared r g, pruned.adds_none r g))
