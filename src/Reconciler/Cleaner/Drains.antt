-- ===== src/Reconciler/Cleaner/Drains.antt =====
-- The deletion of a StatefulSet, of its volume claims and of a role group's extras keeps to the rules.
use operator_go.Prelude.{
  String, Bool, true, false, not, ◌||◌, Option, none, some, List, [], ◌∷◌, ◌≡◌, refl, inl, inr,
  is_empty, arith, if◌then◌else◌, Bool-cases,
}
use operator_go.Prelude.Eq.{◌==◌, string_eq}
use operator_go.Prelude.Maps.{GoMap}
use operator_go.Kube.{stateful_set, extra, Object, is_not_found}
use operator_go.Kube.Act.{pure, delete}
use operator_go.Kube.Logic.{Keeps, Anything, pure-Keeps, bind-Keeps, request-Keeps, weaken-Keeps}
use operator_go.Kube.Safety.{
  Safe, pure-Safe, raise-Safe, bind-Safe, if-Safe, list-Safe, on_answer-Safe, request-Safe,
  frame-Safe,
}
use operator_go.Reconciler.Cleaner.{
  RoleGroupCleaner, Services, is_owned_by_cluster, DeletionState, settled, in_flight,
}
use operator_go.Reconciler.Cleaner.Delete.{
  delete_pvcs, delete_pvcs_for_stateful_set, wants_pods, has_pods, delete_drained, drain_found,
  delete_stateful_set, delete_extras, delete_extra_kinds, delete_role_group_extras,
}
use operator_go.Reconciler.Cleaner.Rules.{
  IsRetry, IsOverdue, IsDrained, Allowed, delete-Safe, find-Safe, emit_deleted-Safe,
}
use operator_go.Reconciler.Cleaner.Guards.{
  after_delete-Safe, scale_to_zero-Safe, drain_deadline_expired-Keeps, IsDrained-Grows,
}

module _ {W : Type 0} (env : Services W) (c : RoleGroupCleaner) (owner_uid : String)
    (with_pvcs : Bool) where
  delete_pvcs-Safe :
      (name : String) (pvcs : List Object)
      → with_pvcs ≡ true
      → Safe (Allowed c owner_uid with_pvcs) (delete_pvcs env c owner_uid name pvcs)
  unfolding delete_pvcs delete Allowed
  delete_pvcs-Safe name [] asked = pure-Safe tt
  delete_pvcs-Safe name (pvc ∷ pvcs) asked = bind-Safe (request-Safe _ _ (λ a es. asked)) (λ answer.
      on_answer-Safe answer (λ done. delete_pvcs-Safe name pvcs asked)
        (λ e. elim (Bool-cases (is_not_found e)) [
          | inl gone ↦ rw gone (delete_pvcs-Safe name pvcs asked)
          | inr other ↦ rw other (raise-Safe _)
        ]))

  delete_pvcs_for-Safe :
      (sts : Object)
      → with_pvcs ≡ true
      → Safe (Allowed c owner_uid with_pvcs) (delete_pvcs_for_stateful_set env c owner_uid sts)
  unfolding delete_pvcs_for_stateful_set
  delete_pvcs_for-Safe sts asked =
      if-Safe (not sts.has_claim_templates) (λ h. pure-Safe tt)
        (λ h. bind-Safe (list-Safe _ _ _) (λ answer.
          on_answer-Safe answer (λ items. delete_pvcs-Safe sts.name items asked)
            (λ e. raise-Safe _)))

  delete_drained-Keeps :
      (sts : Object) (name : String)
      → is_owned_by_cluster sts owner_uid ≡ true
      → Keeps
          (Allowed c owner_uid with_pvcs)
          (IsDrained c sts)
          (delete_drained env c owner_uid with_pvcs sts name)
          (λ a. Anything)
  unfolding delete_drained delete Allowed
  delete_drained-Keeps sts name owned =
      bind-Keeps _ _ (λ u. IsDrained c sts) _ _ _
        (frame-Safe (IsDrained c sts) (IsDrained-Grows c sts)
          (if-Safe with_pvcs (λ asked. delete_pvcs_for-Safe sts asked) (λ h. pure-Safe tt)))
        (λ u.
          bind-Keeps _ _ (λ answer. Anything) _ _ _
            (request-Keeps _ _ _ _ _ (λ a es drained. (owned, drained)) (λ a es drained. tt))
            (λ answer. after_delete-Safe env c owner_uid with_pvcs stateful_set sts name answer))

  drain_found-Safe :
      (name : String) (o : Option Object)
      → IsRetry env.retry_on_conflict
      → Safe (Allowed c owner_uid with_pvcs) (drain_found env c owner_uid with_pvcs name o)
  unfolding drain_found
  drain_found-Safe name none retries = pure-Safe settled
  drain_found-Safe name (some sts) retries =
      if-Safe (not (is_owned_by_cluster sts owner_uid)) (λ h. pure-Safe settled)
        (λ owned.
          if-Safe (wants_pods sts)
            (λ h.
              bind-Safe (scale_to_zero-Safe env c owner_uid with_pvcs name retries)
                (λ u. pure-Safe in_flight))
            (λ scaled.
              if-Safe (has_pods sts)
                (λ h.
                  bind-Keeps _ _ _ _ _ _
                    (drain_deadline_expired-Keeps env c owner_uid with_pvcs sts name retries)
                    (λ expired. after_deadline (ground arith) scaled expired))
                (λ drained.
                  weaken-Keeps _ _ _ _ _ _ (λ es p. (scaled, inl drained)) (λ a es q. q)
                    (delete_drained-Keeps sts name (ground arith)))))
    where
      after_deadline :
          is_owned_by_cluster sts owner_uid ≡ true
          → wants_pods sts ≡ false
          → (expired : Bool)
          → Keeps
              (Allowed c owner_uid with_pvcs)
              (λ es. expired ≡ true → IsOverdue c sts es)
              (if expired
                then delete_drained env c owner_uid with_pvcs sts name
                else pure in_flight)
              (λ a. Anything)
      after_deadline owned scaled true =
          weaken-Keeps _ _ _ _ _ _ (λ es p. (scaled, inr (p refl))) (λ a es q. q)
            (delete_drained-Keeps sts name owned)
      after_deadline owned scaled false = pure-Keeps _ _ _ in_flight (λ es p. tt)

  pub delete_stateful_set-Safe :
      (name : String)
      → IsRetry env.retry_on_conflict
      → Safe (Allowed c owner_uid with_pvcs) (delete_stateful_set env c owner_uid with_pvcs name)
  unfolding delete_stateful_set
  delete_stateful_set-Safe name retries =
      bind-Safe (find-Safe c owner_uid with_pvcs env stateful_set name)
        (λ o. drain_found-Safe name o retries)

  delete_extras-Safe :
      (kind : String) (items : List Object) (state : DeletionState)
      → Safe (Allowed c owner_uid with_pvcs) (delete_extras env c owner_uid kind items state)
  unfolding delete_extras
  delete_extras-Safe kind [] state = pure-Safe state
  delete_extras-Safe kind (item ∷ items) state =
      elim (Bool-cases (is_owned_by_cluster item owner_uid)) [
        | inr foreign ↦ rw (foreign, delete_extras) (delete_extras-Safe kind items state)
        | inl owned ↦ elim (Bool-cases item.deleting) [
          | inl going ↦ rw (owned, going, delete_extras) (delete_extras-Safe kind items in_flight)
          | inr there ↦
              rw (owned, there, delete_extras)
                (bind-Safe
                  (delete-Safe c owner_uid with_pvcs env.client (extra kind) item refl owned)
                  (λ answer.
                    on_answer-Safe answer
                      (λ done.
                        bind-Safe (emit_deleted-Safe c owner_uid with_pvcs env (extra kind) item)
                          (λ u. delete_extras-Safe kind items in_flight))
                      (λ e. elim (Bool-cases (is_not_found e)) [
                        | inl gone ↦ rw gone (delete_extras-Safe kind items state)
                        | inr other ↦ rw other (raise-Safe _)
                      ])))
        ]
      ]

  delete_extra_kinds-Safe :
      (selector : GoMap String String) (kinds : List (Option String)) (state : DeletionState)
      → Safe
          (Allowed c owner_uid with_pvcs)
          (delete_extra_kinds env c owner_uid selector kinds state)
  unfolding delete_extra_kinds
  delete_extra_kinds-Safe selector [] state = pure-Safe state
  delete_extra_kinds-Safe selector (none ∷ kinds) state =
      delete_extra_kinds-Safe selector kinds state
  delete_extra_kinds-Safe selector (some kind ∷ kinds) state =
      bind-Safe (list-Safe _ _ _) (λ answer.
        on_answer-Safe answer
          (λ items.
            bind-Safe (delete_extras-Safe kind items state)
              (λ state'. delete_extra_kinds-Safe selector kinds state'))
          (λ e. raise-Safe _))

  pub delete_role_group_extras-Safe :
      (cluster_name role_name group_name : String)
      → Safe
          (Allowed c owner_uid with_pvcs)
          (delete_role_group_extras env c owner_uid cluster_name role_name group_name)
  unfolding delete_role_group_extras
  delete_role_group_extras-Safe cluster_name role_name group_name =
      if-Safe
        (is_empty c.extra_resource_kinds || owner_uid == "" || role_name == "" || group_name == "")
        (λ h. pure-Safe settled) (λ h. delete_extra_kinds-Safe _ c.extra_resource_kinds settled)
