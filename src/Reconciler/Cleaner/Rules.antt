-- ===== src/Reconciler/Cleaner/Rules.antt =====
-- What a cleaner may ask of the API server, and how its actions keep to it.
use operator_go.Prelude.{
  ℕ, String, Bool, true, false, none, some, List, ◌≡◌, ◌⊎◌, inr, Member, zero, suc,
}
use operator_go.Prelude.Eq.{string_eq}
use operator_go.Prelude.Maps.{lookup}
use operator_go.Kube.{
  Kind, pod_disruption_budget, stateful_set, config_map, service, persistent_volume_claim, extra,
  Object, at_second, Answer, got, refused, is_not_found, Reader, Client, Event, ticked, updated,
  deleted,
}
use operator_go.Kube.Act.{Run, Act, get, update, delete, tick, announce}
use operator_go.Kube.Logic.{Fact}
use operator_go.Kube.Safety.{Safe, pure-Safe, raise-Safe, bind-Safe, if-Safe, request-Safe}
use operator_go.Reconciler.Cleaner.{
  RoleGroupCleaner, Services, annotation_drain_started, drain_deadline, is_owned_by_cluster, found,
  find, emit_deleted,
}
use operator_go.Reconciler.Cleaner.Delete.{is_past, wants_pods, has_pods}

-- `n` further tries of an action, of which the last counts.
abbrev pub repeat : {W A : Type 0} → ℕ → Act W A → Act W A
repeat zero m = m
repeat (suc n) m = λ run. repeat n m (m run).1

-- `RetryOnConflict` runs its function some number of times, and returns what the last run did.
abbrev pub IsRetry : {W : Type 0} → (Act W (Answer Unit) → Act W (Answer Unit)) → Type 0
IsRetry {W} retry =
    (m : Act W (Answer Unit)) (run : Run W) → (n : ℕ) × (retry m run ≡ repeat n m run)

-- A StatefulSet's drain is overdue by a clock reading of the pass.
abbrev pub IsOverdue : RoleGroupCleaner → Object → Fact
IsOverdue c obj es =
    (started now : ℕ) × (lookup annotation_drain_started obj.annotations ≡ some (at_second started))
    × Member (ticked now) es
    × (is_past (drain_deadline c) started now ≡ true)

abbrev pub IsDrained : RoleGroupCleaner → Object → Fact
IsDrained c sts es = (wants_pods sts ≡ false) × ((has_pods sts ≡ false) ⊎ IsOverdue c sts es)

-- The kinds whose objects may be deleted for being owned.
abbrev pub is_plain : Kind → Bool
is_plain stateful_set = false
is_plain persistent_volume_claim = false
is_plain _ = true

-- Volume claims go only where the cluster resource asks for it, a StatefulSet only owned and
-- drained, and anything else only owned. Only a StatefulSet may be updated without being owned.
unfoldable pub Allowed : RoleGroupCleaner → String → Bool → Event → Fact
Allowed c owner_uid with_pvcs (deleted persistent_volume_claim obj) es = with_pvcs ≡ true
Allowed c owner_uid with_pvcs (deleted stateful_set obj) es =
    (is_owned_by_cluster obj owner_uid ≡ true) × IsDrained c obj es
Allowed c owner_uid with_pvcs (deleted kind obj) es = is_owned_by_cluster obj owner_uid ≡ true
Allowed c owner_uid with_pvcs (updated stateful_set obj) es = Unit
Allowed c owner_uid with_pvcs (updated kind obj) es = is_owned_by_cluster obj owner_uid ≡ true
Allowed c owner_uid with_pvcs _ es = Unit

module _ (c : RoleGroupCleaner) (owner_uid : String) (with_pvcs : Bool) where
  pub get-Safe :
      {W : Type 0} (reader : Reader W) (kind : Kind) (name : String)
      → Safe (Allowed c owner_uid with_pvcs) (get reader kind name)
  unfolding get Allowed
  get-Safe reader kind name = request-Safe _ _ (λ a es. tt)

  pub tick-Safe :
      {W : Type 0} (clock : W → ℕ × W) → Safe (Allowed c owner_uid with_pvcs) (tick clock)
  unfolding tick Allowed
  tick-Safe clock = request-Safe _ _ (λ a es. tt)

  allowed_deletion :
      (kind : Kind) (obj : Object) (es : List Event)
      → is_plain kind ≡ true
      → is_owned_by_cluster obj owner_uid ≡ true
      → Allowed c owner_uid with_pvcs (deleted kind obj) es
  unfolding Allowed
  allowed_deletion pod_disruption_budget obj es h o = o
  allowed_deletion stateful_set obj es h o = cc
  allowed_deletion config_map obj es h o = o
  allowed_deletion service obj es h o = o
  allowed_deletion persistent_volume_claim obj es h o = cc
  allowed_deletion (extra k) obj es h o = o

  pub delete-Safe :
      {W : Type 0} (client : Client W) (kind : Kind) (obj : Object)
      → is_plain kind ≡ true
      → is_owned_by_cluster obj owner_uid ≡ true
      → Safe (Allowed c owner_uid with_pvcs) (delete client kind obj)
  unfolding delete
  delete-Safe client kind obj h o = request-Safe _ _ (λ a es. allowed_deletion kind obj es h o)

  pub update_stateful_set-Safe :
      {W : Type 0} (client : Client W) (obj : Object)
      → Safe (Allowed c owner_uid with_pvcs) (update client stateful_set obj)
  unfolding update Allowed
  update_stateful_set-Safe client obj = request-Safe _ _ (λ a es. tt)

  allowed_update :
      (kind : Kind) (obj : Object) (es : List Event)
      → is_owned_by_cluster obj owner_uid ≡ true
      → Allowed c owner_uid with_pvcs (updated kind obj) es
  unfolding Allowed
  allowed_update pod_disruption_budget obj es o = o
  allowed_update stateful_set obj es o = tt
  allowed_update config_map obj es o = o
  allowed_update service obj es o = o
  allowed_update persistent_volume_claim obj es o = o
  allowed_update (extra k) obj es o = o

  pub update-Safe :
      {W : Type 0} (client : Client W) (kind : Kind) (obj : Object)
      → is_owned_by_cluster obj owner_uid ≡ true
      → Safe (Allowed c owner_uid with_pvcs) (update client kind obj)
  unfolding update
  update-Safe client kind obj o = request-Safe _ _ (λ a es. allowed_update kind obj es o)

module _ {W : Type 0} (c : RoleGroupCleaner) (owner_uid : String) (with_pvcs : Bool)
    (env : Services W) where
  pub found-Safe :
      (answer : Answer Object) → Safe (Allowed c owner_uid with_pvcs) (found env c answer)
  unfolding found
  found-Safe (got obj) = pure-Safe (some obj)
  found-Safe (refused e) = if-Safe (is_not_found e) (λ h. pure-Safe none) (λ h. raise-Safe _)

  pub find-Safe :
      (kind : Kind) (name : String) → Safe (Allowed c owner_uid with_pvcs) (find env c kind name)
  unfolding find
  find-Safe kind name = bind-Safe (get-Safe c owner_uid with_pvcs _ kind name) (λ a. found-Safe a)

  pub emit_deleted-Safe :
      (kind : Kind) (obj : Object)
      → Safe (Allowed c owner_uid with_pvcs) (emit_deleted env c kind obj)
  unfolding emit_deleted announce Allowed
  emit_deleted-Safe kind obj =
      if-Safe c.has_event_manager
        (λ h. record {
          keeps = λ run v p. record { valid = (tt, v); grows = λ e m. inr m; leaves = λ a e. tt };
        })
        (λ h. pure-Safe tt)

module _ {W : Type 0} {rule : Event → Fact} where
  repeat-Safe : {A : Type 0} (n : ℕ) (m : Act W A) → Safe rule m → Safe rule (repeat n m)
  repeat-Safe zero m hm = hm
  repeat-Safe (suc n) m hm = record {
    keeps = λ run v p.
        let once = hm.keeps run v p in
        let rest = (repeat-Safe n m hm).keeps (m run).1 once.valid tt in
        record {
          valid = rest.valid;
          grows = λ e h. rest.grows e (once.grows e h);
          leaves = λ a e. tt;
        };
  }

  pub retry-Safe :
      (retry : Act W (Answer Unit) → Act W (Answer Unit)) (m : Act W (Answer Unit))
      → IsRetry retry
      → Safe rule m
      → Safe rule (retry m)
  retry-Safe retry m retries hm = record {
    keeps = λ run v p. let (n, e) = retries m run in rw e ((repeat-Safe n m hm).keeps run v p);
  }
