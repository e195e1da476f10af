-- ===== src/Reconciler/Cleaner/Guards.antt =====
-- Every deletion of a cleaner keeps to the rules on what it may ask of the API server.
use operator_go.Prelude.{
  String, Bool, true, false, not, Option, none, some, List, ◌≡◌, refl, inl, inr, Member, arith,
}
use operator_go.Prelude.Eq.{string_eq}
use operator_go.Prelude.Maps.{lookup}
use operator_go.Kube.{
  Kind, stateful_set, Object, Stamp, at_second, text, Answer, got, refused, is_not_found, Event,
  ticked,
}
use operator_go.Kube.Act.{Act, pure, update, tick}
use operator_go.Kube.Logic.{
  Grows, Keeps, Anything, pure-Keeps, bind-Keeps, request-Keeps, weaken-Keeps,
}
use operator_go.Kube.Safety.{Safe, pure-Safe, raise-Safe, bind-Safe, if-Safe}
use operator_go.Reconciler.Cleaner.{
  RoleGroupCleaner, Services, annotation_drain_started, is_owned_by_cluster, settled,
}
use operator_go.Reconciler.Cleaner.Delete.{
  confirm_deleted, after_delete, delete_found, delete_owned, update_live, try_update, unless_gone,
  zero_replicas, scale_to_zero, stamp_drain, start_drain, drain_since, drain_deadline_expired,
}
use operator_go.Reconciler.Cleaner.Rules.{
  IsRetry, IsOverdue, IsDrained, is_plain, Allowed, get-Safe, tick-Safe, delete-Safe,
  update_stateful_set-Safe, find-Safe, emit_deleted-Safe, retry-Safe,
}

-- What is allowed stays so as the log grows.
pub IsDrained-Grows :
    (c : RoleGroupCleaner) (sts : Object) (es fs : List Event)
    → Grows es fs
    → IsDrained c sts es
    → IsDrained c sts fs
IsDrained-Grows c sts es fs grows (w, inl h) = (w, inl h)
IsDrained-Grows c sts es fs grows (w, inr (started, now, found, m, past)) =
    (w, inr (started, now, found, grows (ticked now) m, past))

module _ {W : Type 0} (env : Services W) (c : RoleGroupCleaner) (owner_uid : String)
    (with_pvcs : Bool) where
  abbrev Ok : {A : Type 0} → Act W A → Type 0
  Ok = Safe (Allowed c owner_uid with_pvcs)

  confirm_deleted-Safe :
      (kind : Kind) (name : String) → Ok (confirm_deleted env c owner_uid kind name)
  unfolding confirm_deleted
  confirm_deleted-Safe kind name =
      bind-Safe (find-Safe c owner_uid with_pvcs env kind name) (λ left. pure-Safe _)

  pub after_delete-Safe :
      (kind : Kind) (obj : Object) (name : String) (answer : Answer Unit)
      → Ok (after_delete env c owner_uid kind obj name answer)
  unfolding after_delete
  after_delete-Safe kind obj name (refused e) =
      if-Safe (is_not_found e) (λ h. pure-Safe settled) (λ h. raise-Safe _)
  after_delete-Safe kind obj name (got done) =
      bind-Safe (emit_deleted-Safe c owner_uid with_pvcs env kind obj)
        (λ a. confirm_deleted-Safe kind name)

  delete_found-Safe :
      (kind : Kind) (name : String) (o : Option Object)
      → is_plain kind ≡ true
      → Ok (delete_found env c owner_uid kind name o)
  unfolding delete_found
  delete_found-Safe kind name none plain = pure-Safe settled
  delete_found-Safe kind name (some obj) plain =
      if-Safe (not (is_owned_by_cluster obj owner_uid)) (λ h. pure-Safe settled)
        (λ h.
          bind-Safe (delete-Safe c owner_uid with_pvcs env.client kind obj plain (ground arith))
            (λ answer. after_delete-Safe kind obj name answer))

  pub delete_owned-Safe :
      (kind : Kind) (name : String)
      → is_plain kind ≡ true
      → Ok (delete_owned env c owner_uid kind name)
  unfolding delete_owned
  delete_owned-Safe kind name plain =
      bind-Safe (find-Safe c owner_uid with_pvcs env kind name)
        (λ o. delete_found-Safe kind name o plain)

  update_live-Safe :
      (name : String) (change : Object → Act W (Option Object)) (answer : Answer Object)
      → ((live : Object) → Ok (change live))
      → Ok (update_live env c owner_uid name change answer)
  unfolding update_live
  update_live-Safe name change (refused e) h = pure-Safe (refused e)
  update_live-Safe name change (got live) h = bind-Safe (h live) write
    where
      write :
          (o : Option Object)
          → Ok (elim o [ none ↦ pure (got tt) | some obj ↦ update env.client stateful_set obj ])
      write none = pure-Safe (got tt)
      write (some obj) = update_stateful_set-Safe c owner_uid with_pvcs env.client obj

  try_update-Safe :
      (name : String) (change : Object → Act W (Option Object))
      → ((live : Object) → Ok (change live))
      → Ok (try_update env c owner_uid name change)
  unfolding try_update
  try_update-Safe name change h =
      bind-Safe (get-Safe c owner_uid with_pvcs _ stateful_set name)
        (λ a. update_live-Safe name change a h)

  unless_gone-Safe : (answer : Answer Unit) → Ok (unless_gone env c owner_uid answer)
  unfolding unless_gone
  unless_gone-Safe (got done) = pure-Safe tt
  unless_gone-Safe (refused e) = if-Safe (is_not_found e) (λ h. pure-Safe tt) (λ h. raise-Safe _)

  pub scale_to_zero-Safe :
      (name : String) → IsRetry env.retry_on_conflict → Ok (scale_to_zero env c owner_uid name)
  unfolding scale_to_zero zero_replicas
  scale_to_zero-Safe name retries =
      bind-Safe
        (retry-Safe env.retry_on_conflict _ retries
          (try_update-Safe name (zero_replicas env c owner_uid) (λ live. pure-Safe _)))
        (λ answer. unless_gone-Safe answer)

  stamp_drain-Safe : (live : Object) → Ok (stamp_drain env c owner_uid live)
  unfolding stamp_drain
  stamp_drain-Safe live = bind-Safe (tick-Safe c owner_uid with_pvcs env.clock) (λ now. pure-Safe _)

  -- A drain that is stamped now has not expired.
  start_drain-Keeps :
      (name : String)
      → IsRetry env.retry_on_conflict
      → Keeps
          (Allowed c owner_uid with_pvcs)
          Anything
          (start_drain env c owner_uid name)
          (λ b es. b ≡ false)
  unfolding start_drain
  start_drain-Keeps name retries =
      bind-Keeps _ _ (λ a. Anything) _ _ _
        (retry-Safe env.retry_on_conflict _ retries
          (try_update-Safe name (stamp_drain env c owner_uid) (λ live. stamp_drain-Safe live)))
        (λ answer.
          bind-Keeps _ _ (λ a. Anything) _ _ _ (unless_gone-Safe answer)
            (λ u. pure-Keeps _ _ _ false (λ es p. refl)))

  not_expired :
      (sts : Object) (name : String)
      → IsRetry env.retry_on_conflict
      → Keeps
          (Allowed c owner_uid with_pvcs)
          Anything
          (start_drain env c owner_uid name)
          (λ b es. b ≡ true → IsOverdue c sts es)
  not_expired sts name retries =
      weaken-Keeps _ _ _ _ _ _ (λ es p. p) (λ b es h e. cc) (start_drain-Keeps name retries)

  drain_since-Keeps :
      (sts : Object) (name : String) (o : Option Stamp)
      → lookup annotation_drain_started sts.annotations ≡ o
      → IsRetry env.retry_on_conflict
      → Keeps
          (Allowed c owner_uid with_pvcs)
          Anything
          (drain_since env c owner_uid name o)
          (λ b es. b ≡ true → IsOverdue c sts es)
  unfolding drain_since tick Allowed
  drain_since-Keeps sts name none e retries = not_expired sts name retries
  drain_since-Keeps sts name (some (text t)) e retries = not_expired sts name retries
  drain_since-Keeps sts name (some (at_second started)) e retries =
      bind-Keeps _ _ (λ now es. Member (ticked now) es) _ _ _
        (request-Keeps _ _ _ _ _ (λ a es p. tt) (λ a es p. inl refl))
        (λ now. pure-Keeps _ _ _ _ (λ es m past. (started, now, e, m, past)))

  pub drain_deadline_expired-Keeps :
      (sts : Object) (name : String)
      → IsRetry env.retry_on_conflict
      → Keeps
          (Allowed c owner_uid with_pvcs)
          Anything
          (drain_deadline_expired env c owner_uid sts name)
          (λ b es. b ≡ true → IsOverdue c sts es)
  unfolding drain_deadline_expired
  drain_deadline_expired-Keeps sts name retries = drain_since-Keeps sts name _ refl retries
