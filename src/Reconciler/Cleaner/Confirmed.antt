-- ===== src/Reconciler/Cleaner/Confirmed.antt =====
-- A role group counts as reclaimed only on the word of the confirmation reader.
use operator_go.Prelude.{
  String, Bool, true, false, not, Option, none, some, List, [], ◌∷◌, ◌≡◌, refl, ap, inl, inr, All,
  Member, arith, if◌then◌else◌, Bool-cases,
}
use operator_go.Prelude.Int.{pos, ltz}
use operator_go.Common.Errors.{Duration, ok}
use operator_go.Kube.{
  Kind, Object, Answer, got, refused, is_not_found, Event, answered, Reader, Source,
}
use operator_go.Kube.Act.{Act, pure, ◌>>=◌, get}
use operator_go.Kube.Logic.{
  Fact, Grows, Keeps, Anything, pure-Keeps, raise-Keeps, bind-Keeps, request-Keeps, weaken-Keeps,
  frame-Keeps, if-Keeps,
}
use operator_go.Reconciler.Cleaner.{
  RoleGroupCleaner, Services, is_owned_by_cluster, confirm_reader, poll_interval, DeletionState,
  settled, in_flight, found,
}
use operator_go.Reconciler.Cleaner.Discover.{OrphanRef}
use operator_go.Reconciler.Cleaner.Teardown.Bookkeeping.{derived_services}
use operator_go.Reconciler.Cleaner.Teardown.{
  if_settled, still_owned, run_checks, slot, steps_of, confirm_role_group_reclaimed, reclaim,
  cleanup_role_group,
}
use operator_go.Reconciler.Cleaner.Rules.{IsRetry, Allowed}
use operator_go.Reconciler.Cleaner.Stamps.{check_or_mark-Safe}
use operator_go.Reconciler.Cleaner.Passes.{steps_Safe, run_steps-Safe}

-- The answer shows nothing that the cluster owns.
abbrev pub shows_nothing : String → Answer Object → Bool
shows_nothing owner_uid (got obj) = not (is_owned_by_cluster obj owner_uid)
shows_nothing owner_uid (refused e) = is_not_found e

-- The reader of the API server where there is one, or else the client's.
abbrev pub confirming : {W : Type 0} → Option (Reader W) → Reader W → Source
confirming none client = client.source
confirming (some reader) client = reader.source

-- A read of the source showed nothing that the cluster owns under the name.
abbrev pub IsConfirmed : Source → String → Kind × String → Fact
IsConfirmed source owner_uid (kind, name) es =
    (answer : Answer Object) × Member (answered source kind name answer) es
    × (shows_nothing owner_uid answer ≡ true)

IsConfirmed-Grows :
    (source : Source) (owner_uid : String) (kn : Kind × String) (es fs : List Event)
    → Grows es fs
    → IsConfirmed source owner_uid kn es
    → IsConfirmed source owner_uid kn fs
IsConfirmed-Grows source owner_uid (kind, name) es fs grows (answer, m, h) = (answer, grows _ m, h)

confirming_lem :
    {W : Type 0} (api_reader : Option (Reader W)) (client : Reader W)
    → (elim api_reader as (λ x. Reader W) [ some reader ↦ reader | none ↦ client ]).source
      ≡ confirming api_reader client
confirming_lem none client = refl
confirming_lem (some reader) client = refl

module _ {W : Type 0} (env : Services W) (c : RoleGroupCleaner) (owner_uid : String)
    (with_pvcs : Bool) where
  abbrev source : Source
  source = confirming env.api_reader env.client.reader

  abbrev owned_answer : Option Object → Bool
  owned_answer none = false
  owned_answer (some o) = is_owned_by_cluster o owner_uid

  owned_of_answer-Keeps :
      (kind : Kind) (name : String) (answer : Answer Object)
      → Keeps
          (Allowed c owner_uid with_pvcs)
          (λ es. Member (answered source kind name answer) es)
          (found env c answer >>= λ obj.
            pure (elim obj [ none ↦ false | some o ↦ is_owned_by_cluster o owner_uid ]))
          (λ present es. present ≡ false → IsConfirmed source owner_uid (kind, name) es)
  unfolding found
  owned_of_answer-Keeps kind name (got obj) =
      pure-Keeps _ _ _ _ (λ es m foreign. (got obj, m, ground arith))
  owned_of_answer-Keeps kind name (refused e) = elim (Bool-cases (is_not_found e)) [
    | inl gone ↦ rw (gone, found) (pure-Keeps _ _ _ _ (λ es m h. (refused e, m, gone)))
    | inr other ↦ rw (other, found) (raise-Keeps _ _ _ _)
  ]

  still_owned-Keeps :
      (cluster_name : String) (kind : Kind) (name : String)
      → Keeps
          (Allowed c owner_uid with_pvcs)
          Anything
          (still_owned env c owner_uid cluster_name kind name)
          (λ present es. present ≡ false → IsConfirmed source owner_uid (kind, name) es)
  unfolding still_owned get Allowed confirm_reader
  still_owned-Keeps cluster_name kind name =
      bind-Keeps _ _ (λ answer es. Member (answered source kind name answer) es) _ _ _
        (request-Keeps _ _ _ _ (λ a. answered (confirm_reader env).source kind name a)
          (λ a es p. tt)
          (λ a es p. inl (
            ap (λ src. answered src kind name a)
              (confirming_lem env.api_reader env.client.reader))))
        (λ answer. owned_of_answer-Keeps kind name answer)

  -- One check more.
  check-Keeps :
      (kind : Kind) (name : String) (checks : List (Kind × String)) (m : Act W DeletionState)
      (present : Bool)
      → Keeps
          (Allowed c owner_uid with_pvcs)
          Anything
          m
          (λ state es. state ≡ settled → All (λ kn. IsConfirmed source owner_uid kn es) checks)
      → Keeps
          (Allowed c owner_uid with_pvcs)
          (λ es. present ≡ false → IsConfirmed source owner_uid (kind, name) es)
          (if present then pure in_flight else m)
          (λ state es.
            state ≡ settled
            → All (λ kn. IsConfirmed source owner_uid kn es) ((kind, name) ∷ checks))
  check-Keeps kind name checks m true h = pure-Keeps _ _ _ in_flight (λ es p e. cc)
  check-Keeps kind name checks m false h =
      weaken-Keeps _ _ _ _ _ _ (λ es p. (tt, p refl)) (λ state es q e. (q.1, q.0 e))
        (frame-Keeps _ _ _ m (IsConfirmed source owner_uid (kind, name))
          (IsConfirmed-Grows source owner_uid (kind, name)) h)

  run_checks-Keeps :
      (cluster_name : String) (checks : List (Kind × String))
      → Keeps
          (Allowed c owner_uid with_pvcs)
          Anything
          (run_checks env c owner_uid cluster_name checks)
          (λ state es. state ≡ settled → All (λ kn. IsConfirmed source owner_uid kn es) checks)
  unfolding run_checks
  run_checks-Keeps cluster_name [] = pure-Keeps _ _ _ settled (λ es p e. tt)
  run_checks-Keeps cluster_name ((kind, name) ∷ checks) =
      bind-Keeps _ _ _ _ _ _ (still_owned-Keeps cluster_name kind name)
        (λ present. check-Keeps kind name checks _ present (run_checks-Keeps cluster_name checks))

  -- What is known when the teardown reports `deleted`.
  abbrev Reclaimed : String → List String → Bool × Duration → Fact
  Reclaimed name derived result es =
      result.0 ≡ true → All (λ kn. IsConfirmed source owner_uid kn es) (slot name derived)

  verdict-Keeps :
      (name : String) (derived : List String) (confirmed : DeletionState)
      → Keeps {W = W}
          (Allowed c owner_uid with_pvcs)
          (λ es.
            confirmed ≡ settled
            → All (λ kn. IsConfirmed source owner_uid kn es) (slot name derived))
          (if_settled confirmed (pure (true, pos 0)) (pure (false, poll_interval c)))
          (Reclaimed name derived)
  unfolding if_settled
  verdict-Keeps name derived settled = pure-Keeps _ _ _ (true, pos 0) (λ es p e. p refl)
  verdict-Keeps name derived in_flight = pure-Keeps _ _ _ (false, poll_interval c) (λ es p e. cc)

  confirm-Keeps :
      (cluster_name name : String) (derived : List String) (state : DeletionState)
      → Keeps
          (Allowed c owner_uid with_pvcs)
          Anything
          (if_settled state
            (confirm_role_group_reclaimed env c owner_uid cluster_name name derived >>= λ confirmed.
              if_settled confirmed (pure (true, pos 0)) (pure (false, poll_interval c)))
            (pure (false, poll_interval c)))
          (Reclaimed name derived)
  unfolding if_settled confirm_role_group_reclaimed
  confirm-Keeps cluster_name name derived settled =
      bind-Keeps _ _ _ _ _ _ (run_checks-Keeps cluster_name (slot name derived))
        (λ confirmed. verdict-Keeps name derived confirmed)
  confirm-Keeps cluster_name name derived in_flight =
      pure-Keeps _ _ _ (false, poll_interval c) (λ es p e. cc)

  reclaim-Keeps :
      (cluster_name : String) (orphan : OrphanRef) (derived : List String)
      → IsRetry env.retry_on_conflict
      → Keeps
          (Allowed c owner_uid with_pvcs)
          Anything
          (reclaim env c owner_uid cluster_name with_pvcs orphan derived)
          (Reclaimed orphan.resource_name derived)
  unfolding reclaim
  reclaim-Keeps cluster_name orphan derived retries =
      bind-Keeps _ _ (λ state. Anything) _ _ _
        (run_steps-Safe env c owner_uid with_pvcs cluster_name
          (steps_of env c owner_uid cluster_name with_pvcs orphan derived)
          (steps_Safe env c owner_uid with_pvcs cluster_name orphan derived retries))
        (λ state. confirm-Keeps cluster_name orphan.resource_name derived state)

  cleanup_role_group-Keeps :
      (cluster_name : String) (live : List String) (orphan : OrphanRef)
      → IsRetry env.retry_on_conflict
      → Keeps
          (Allowed c owner_uid with_pvcs)
          Anything
          (cleanup_role_group env c owner_uid cluster_name with_pvcs live orphan)
          (Reclaimed orphan.resource_name (derived_services live orphan.resource_name))
  unfolding cleanup_role_group
  cleanup_role_group-Keeps cluster_name live orphan retries =
      if-Keeps _ (not (ltz (pos 0) c.gray_delete_grace_period))
        (reclaim-Keeps cluster_name orphan _ retries)
        (bind-Keeps _ _ (λ a. Anything) _ _ _
          (check_or_mark-Safe env c owner_uid with_pvcs orphan.resource_name)
          (λ marked.
            if-Keeps _ marked.0 (reclaim-Keeps cluster_name orphan _ retries)
              (pure-Keeps _ _ _ (false, marked.1) (λ es p e. cc))))

-- A role group is reported as deleted only after a read through the API reader where there is one,
-- or else through the client's reader, of each of its PodDisruptionBudget, StatefulSet, ConfigMap, Service and derived Services, answered that the
-- object is missing or belongs to another owner.
pub cleanup_role_group-IsConfirmed :
    {W : Type 0} (env : Services W) (c : RoleGroupCleaner) (owner_uid cluster_name : String)
    (with_pvcs : Bool) (live : List String) (orphan : OrphanRef) (world : W) (wait : Duration)
    → IsRetry env.retry_on_conflict
    → (cleanup_role_group env c owner_uid cluster_name with_pvcs live orphan
        (record { world = world; log = [] })).0
      ≡ ok (true, wait)
    → All
        (λ kn.
          IsConfirmed
            (confirming env.api_reader env.client.reader)
            owner_uid
            kn
            (cleanup_role_group env c owner_uid cluster_name with_pvcs live orphan
              (record { world = world; log = [] })).1.log)
        (slot orphan.resource_name (derived_services live orphan.resource_name))
cleanup_role_group-IsConfirmed env c owner_uid cluster_name with_pvcs live orphan world wait retries
      e =
    ((cleanup_role_group-Keeps env c owner_uid with_pvcs cluster_name live orphan retries).keeps
        (record { world = world; log = [] }) tt tt).leaves
      (true, wait) e refl
