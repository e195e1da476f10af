-- ===== src/Reconciler/Cleaner/Delete.antt =====
-- The deletions of pkg/reconciler/cleaner.go: one resource, a StatefulSet with its drain, the
-- extras of a role group, and the marks on the primary resources.
use operator_go.Prelude.{
  ℕ, ◌*◌, ◌/◌, String, Bool, true, false, not, ◌||◌, Option, none, some, List, [], ◌∷◌, is_empty,
  is_some, if◌then◌else◌,
}
use operator_go.Prelude.Eq.{◌==◌, string_eq}
use operator_go.Prelude.Int.{pos, ltz, eqz, minus}
use operator_go.Prelude.Maps.{GoMap, lookup, insert}
use operator_go.Prelude.Strings.{◌<>◌}
use operator_go.Common.Errors.{Duration, second, wrapped, formatted}
use operator_go.Kube.{
  Kind, pod_disruption_budget, stateful_set, service, persistent_volume_claim, extra, Object, Stamp,
  at_second, text, Answer, got, refused, is_not_found, matching_labels,
}
use operator_go.Kube.Act.{Act, pure, raise, ◌>>=◌, ◌>>◌, on_answer, get, list, update, delete, tick}
use operator_go.Reconciler.Cleaner.{
  RoleGroupCleaner, Services, annotation_drain_started, drain_deadline, api_error,
  is_owned_by_cluster, confirm_reader, DeletionState, settled, in_flight, find, emit_deleted,
}

abbrev pub managed_by_value : String
managed_by_value = "operator-go"

abbrev pub label_instance : String
label_instance = "app.kubernetes.io/instance"

abbrev pub label_managed_by : String
label_managed_by = "app.kubernetes.io/managed-by"

abbrev pub label_component : String
label_component = "app.kubernetes.io/component"

abbrev pub label_role_group : String
label_role_group = "app.kubernetes.io/role-group"

-- `time.Since(start) >= limit`, at a start read from an annotation
unfoldable pub is_past : Duration → ℕ → ℕ → Bool
is_past limit start now = not (ltz (minus now (start * second)) limit)

-- `sts.Spec.Replicas == nil || *sts.Spec.Replicas > 0`
unfoldable pub wants_pods : Object → Bool
wants_pods sts = elim sts.replicas [ none ↦ true | some n ↦ ltz (pos 0) n ]

unfoldable pub has_pods : Object → Bool
has_pods sts = ltz (pos 0) sts.status_replicas

module _ {W : Type 0} (env : Services W) (c : RoleGroupCleaner) (owner_uid : String) where
  unfoldable pub confirm_deleted : Kind → String → Act W DeletionState
  confirm_deleted kind name = do
    left ← find env c kind name
    pure (if is_some left then in_flight else settled)

  -- What follows a Delete.
  unfoldable pub after_delete : Kind → Object → String → Answer Unit → Act W DeletionState
  unfolding confirm_deleted
  after_delete kind obj name (refused e) =
      if is_not_found e then pure settled else raise (api_error c e)
  after_delete kind obj name (got done) = do emit_deleted env c kind obj; confirm_deleted kind name

  unfoldable pub delete_found : Kind → String → Option Object → Act W DeletionState
  unfolding after_delete
  delete_found kind name none = pure settled
  delete_found kind name (some obj) =
      if not (is_owned_by_cluster obj owner_uid)
      then pure settled
      else do answer ← delete env.client kind obj; after_delete kind obj name answer

  unfoldable pub delete_owned : Kind → String → Act W DeletionState
  unfolding delete_found
  delete_owned kind name = do obj ← find env c kind name; delete_found kind name obj

  -- The apply path's entry points, which leave a deletion in flight to the next pass.
  unfoldable pub delete_pdb : String → Act W Unit
  unfolding delete_owned
  delete_pdb name = do state ← delete_owned pod_disruption_budget name; pure tt

  unfoldable pub delete_service : String → Act W Unit
  unfolding delete_owned
  delete_service name = do state ← delete_owned service name; pure tt

  -- One try of an update of the live object, for `RetryOnConflict`; `change` gives nothing where
  -- the object needs no write.
  unfoldable pub update_live :
      String → (Object → Act W (Option Object)) → Answer Object → Act W (Answer Unit)
  update_live name change (refused e) = pure (refused e)
  update_live name change (got live) = do
    changed ← change live
    elim changed [ none ↦ pure (got tt) | some obj ↦ update env.client stateful_set obj ]

  unfoldable pub try_update : String → (Object → Act W (Option Object)) → Act W (Answer Unit)
  unfolding update_live
  try_update name change = do
    live ← get env.client.reader stateful_set name
    update_live name change live

  -- The StatefulSet may disappear meanwhile.
  unfoldable pub unless_gone : Answer Unit → Act W Unit
  unless_gone (got done) = pure tt
  unless_gone (refused e) = if is_not_found e then pure tt else raise (api_error c e)

  unfoldable pub zero_replicas : Object → Act W (Option Object)
  zero_replicas live = pure (
      if elim live.replicas [ none ↦ false | some n ↦ eqz n (pos 0) ]
      then none
      else some (record live { replicas = some (pos 0) }))

  unfoldable pub scale_to_zero : String → Act W Unit
  unfolding try_update unless_gone zero_replicas
  scale_to_zero name = do
    answer ← env.retry_on_conflict (try_update name zero_replicas)
    unless_gone answer

  unfoldable pub stamp_drain : Object → Act W (Option Object)
  stamp_drain live = do
    now ← tick env.clock
    pure (
        some (record live {
          annotations = insert annotation_drain_started (at_second (now / second)) live.annotations;
        }))

  unfoldable pub start_drain : String → Act W Bool
  unfolding try_update unless_gone stamp_drain
  start_drain name = do
    answer ← env.retry_on_conflict (try_update name stamp_drain)
    unless_gone answer
    pure false

  -- Given the annotation: a text that is no time is stamped anew.
  unfoldable pub drain_since : String → Option Stamp → Act W Bool
  unfolding start_drain is_past
  drain_since name none = start_drain name
  drain_since name (some (text t)) = start_drain name
  drain_since name (some (at_second started)) = do
    now ← tick env.clock
    pure (is_past (drain_deadline c) started now)

  unfoldable pub drain_deadline_expired : Object → String → Act W Bool
  unfolding drain_since
  drain_deadline_expired sts name =
      drain_since name (lookup annotation_drain_started sts.annotations)

  unfoldable pub delete_pvcs : String → List Object → Act W Unit
  delete_pvcs sts_name [] = pure tt
  delete_pvcs sts_name (pvc ∷ pvcs) = do
    answer ← delete env.client persistent_volume_claim pvc
    on_answer answer (λ done. delete_pvcs sts_name pvcs)
        (λ e. elim (is_not_found e) [
          | true ↦ delete_pvcs sts_name pvcs
          | false ↦
              raise (wrapped (formatted ("failed to delete PVC " <> pvc.name)) (api_error c e))
        ])

  unfoldable pub delete_pvcs_for_stateful_set : Object → Act W Unit
  unfolding delete_pvcs
  delete_pvcs_for_stateful_set sts = if not sts.has_claim_templates then pure tt else do
    pvcs ← list env.client.reader persistent_volume_claim (matching_labels sts.match_labels)
    on_answer pvcs (delete_pvcs sts.name) (λ e.
        raise (
          wrapped (formatted ("failed to list PVCs for StatefulSet " <> sts.name)) (api_error c e)))

  unfoldable pub delete_drained : Bool → Object → String → Act W DeletionState
  unfolding delete_pvcs_for_stateful_set after_delete
  delete_drained with_pvcs sts name = do
    if with_pvcs then delete_pvcs_for_stateful_set sts else pure tt
    answer ← delete env.client stateful_set sts
    after_delete stateful_set sts name answer

  unfoldable pub drain_found : Bool → String → Option Object → Act W DeletionState
  unfolding scale_to_zero drain_deadline_expired wants_pods has_pods delete_drained
  drain_found with_pvcs name none = pure settled
  drain_found with_pvcs name (some sts) =
      if not (is_owned_by_cluster sts owner_uid)
      then pure settled
      else if wants_pods sts
      then (scale_to_zero name >> pure in_flight)
      else if has_pods sts
      then (drain_deadline_expired sts name >>= λ expired.
          if expired then delete_drained with_pvcs sts name else pure in_flight)
      else delete_drained with_pvcs sts name

  unfoldable pub delete_stateful_set : Bool → String → Act W DeletionState
  unfolding drain_found
  delete_stateful_set with_pvcs name = do
    sts ← find env c stateful_set name
    drain_found with_pvcs name sts

  -- The items of one kind; `state` is what the kinds and items before left.
  unfoldable pub delete_extras : String → List Object → DeletionState → Act W DeletionState
  delete_extras kind [] state = pure state
  delete_extras kind (item ∷ items) state = elim (is_owned_by_cluster item owner_uid) [
    | false ↦ delete_extras kind items state
    | true ↦ elim item.deleting [
      | true ↦ delete_extras kind items in_flight
      | false ↦ do
        answer ← delete env.client (extra kind) item
        on_answer answer
            (λ done. do emit_deleted env c (extra kind) item; delete_extras kind items in_flight)
            (λ e. elim (is_not_found e) [
              | true ↦ delete_extras kind items state
              | false ↦ raise (
                  wrapped (formatted ("failed to delete extra " <> kind <> " " <> item.name))
                    (api_error c e))
            ])
    ]
  ]

  unfoldable pub delete_extra_kinds :
      GoMap String String → List (Option String) → DeletionState → Act W DeletionState
  unfolding delete_extras
  delete_extra_kinds selector [] state = pure state
  delete_extra_kinds selector (none ∷ kinds) state = delete_extra_kinds selector kinds state
  delete_extra_kinds selector (some kind ∷ kinds) state = do
    items ← list (confirm_reader env) (extra kind) (matching_labels selector)
    on_answer items
        (λ found. do
          state' ← delete_extras kind found state
          delete_extra_kinds selector kinds state')
        (λ e.
          raise
            (wrapped (formatted ("failed to list extra " <> kind <> " resources")) (api_error c e)))

  unfoldable pub delete_role_group_extras : String → String → String → Act W DeletionState
  unfolding delete_extra_kinds
  delete_role_group_extras cluster_name role_name group_name =
      let selector =
        (label_instance, cluster_name)
        ∷ (label_managed_by, managed_by_value)
        ∷ (label_component, role_name)
        ∷ (label_role_group, group_name)
        ∷ [] in
      if is_empty c.extra_resource_kinds || owner_uid == "" || role_name == "" || group_name == ""
      then pure settled
      else delete_extra_kinds selector c.extra_resource_kinds settled
