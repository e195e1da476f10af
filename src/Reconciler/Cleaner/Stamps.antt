-- ===== src/Reconciler/Cleaner/Stamps.antt =====
-- The marks of a teardown are written within the rules on what a cleaner may ask of the API server.
use operator_go.Prelude.{
  ℕ, String, Bool, false, not, Option, none, some, List, [], ◌∷◌, ◌≡◌, refl, ◌∙◌, inl, inr, arith,
  Bool-cases,
}
use operator_go.Prelude.Eq.{string_eq}
use operator_go.Prelude.Maps.{GoMap}
use operator_go.Common.Errors.{Err}
use operator_go.Kube.{Kind, stateful_set, config_map, Object, Stamp, Answer, got, refused}
use operator_go.Kube.Act.{Act}
use operator_go.Kube.Safety.{Safe, pure-Safe, raise-Safe, bind-Safe, if-Safe, on_answer-Safe}
use operator_go.Reconciler.Cleaner.{RoleGroupCleaner, Services, is_owned_by_cluster}
use operator_go.Reconciler.Cleaner.Delete.{is_past}
use operator_go.Reconciler.Cleaner.Marks.{
  Primary, gray_delete_mark, any_foreign, is_marked_at, mark_primaries, grace_of_marked,
  mark_or_wait, check_primaries, check_or_mark_gray_delete, has_progress, without_progress,
  clear_primary, clear_teardown_progress,
}
use operator_go.Reconciler.Cleaner.Rules.{Allowed, get-Safe, tick-Safe, update-Safe, find-Safe}

owned-annotations :
    (obj : Object) (annotations : GoMap String Stamp) (owner_uid : String)
    → is_owned_by_cluster (record obj { annotations = annotations }) owner_uid
      ≡ is_owned_by_cluster obj owner_uid
unfolding is_owned_by_cluster
owned-annotations obj annotations owner_uid = refl

module _ {W : Type 0} (env : Services W) (c : RoleGroupCleaner) (owner_uid : String)
    (with_pvcs : Bool) where
  abbrev pub Ok : {A : Type 0} → Act W A → Type 0
  Ok = Safe (Allowed c owner_uid with_pvcs)

  pub mark_primaries-Safe :
      (t : ℕ) (primaries : List Primary)
      → any_foreign owner_uid primaries ≡ false
      → Ok (mark_primaries env c owner_uid t primaries)
  unfolding mark_primaries any_foreign
  mark_primaries-Safe t [] owned = pure-Safe tt
  mark_primaries-Safe t ((kind, obj) ∷ primaries) owned = elim (Bool-cases (is_marked_at t obj)) [
    | inl marked ↦ rw (marked, mark_primaries) (mark_primaries-Safe t primaries (ground arith))
    | inr fresh ↦
        rw (fresh, mark_primaries)
          (bind-Safe
            (update-Safe c owner_uid with_pvcs env.client kind _
              (owned-annotations obj _ owner_uid ∙ ground arith))
            (λ answer.
              on_answer-Safe answer (λ done. mark_primaries-Safe t primaries (ground arith))
                (λ e. raise-Safe _)))
  ]

  pub grace_of_marked-Safe : (marked : ℕ) → Ok (grace_of_marked env c owner_uid marked)
  unfolding grace_of_marked
  grace_of_marked-Safe marked = bind-Safe (tick-Safe c owner_uid with_pvcs env.clock) (λ now.
      if-Safe (is_past c.gray_delete_grace_period marked now) (λ past. pure-Safe _)
        (λ within. bind-Safe (tick-Safe c owner_uid with_pvcs env.clock) (λ later. pure-Safe _)))

  mark_or_wait-Safe :
      (primaries : List Primary) (o : Option ℕ)
      → any_foreign owner_uid primaries ≡ false
      → Ok (mark_or_wait env c owner_uid primaries o)
  unfolding mark_or_wait
  mark_or_wait-Safe primaries (some marked) owned =
      bind-Safe (mark_primaries-Safe marked primaries owned) (λ u. grace_of_marked-Safe marked)
  mark_or_wait-Safe primaries none owned =
      bind-Safe (tick-Safe c owner_uid with_pvcs env.clock)
        (λ now. bind-Safe (mark_primaries-Safe _ primaries owned) (λ u. pure-Safe _))

  check_primaries-Safe : (primaries : List Primary) → Ok (check_primaries env c owner_uid primaries)
  unfolding check_primaries
  check_primaries-Safe [] = pure-Safe _
  check_primaries-Safe (p ∷ primaries) =
      if-Safe (any_foreign owner_uid (p ∷ primaries)) (λ h. pure-Safe _)
        (λ owned. mark_or_wait-Safe (p ∷ primaries) (gray_delete_mark (p ∷ primaries)) owned)

  pub check_or_mark-Safe : (name : String) → Ok (check_or_mark_gray_delete env c owner_uid name)
  unfolding check_or_mark_gray_delete
  check_or_mark-Safe name =
      bind-Safe (find-Safe c owner_uid with_pvcs env stateful_set name) (λ sts.
        bind-Safe (find-Safe c owner_uid with_pvcs env config_map name)
          (λ cm. check_primaries-Safe _))

  clear_primary-Safe :
      (kind : Kind) (answer : Answer Object) (errs : List Err)
      → Ok (clear_primary env c owner_uid kind answer errs)
  unfolding clear_primary without_progress
  clear_primary-Safe kind (refused e) errs = pure-Safe _
  clear_primary-Safe kind (got obj) errs =
      if-Safe (not (is_owned_by_cluster obj owner_uid)) (λ h. pure-Safe errs)
        (λ owned. elim (Bool-cases (has_progress obj)) [
          | inl there ↦ rw there (
              bind-Safe
                (update-Safe c owner_uid with_pvcs env.client kind _
                  (owned-annotations obj _ owner_uid ∙ ground arith))
                (λ answer. on_answer-Safe answer (λ done. pure-Safe _) (λ e. pure-Safe _)))
          | inr clean ↦ rw clean (pure-Safe errs)
        ])

  pub clear_teardown_progress-Safe :
      (name : String) → Ok (clear_teardown_progress env c owner_uid name)
  unfolding clear_teardown_progress
  clear_teardown_progress-Safe name =
      bind-Safe (get-Safe c owner_uid with_pvcs _ stateful_set name) (λ sts.
        bind-Safe (clear_primary-Safe stateful_set sts []) (λ errs.
          bind-Safe (get-Safe c owner_uid with_pvcs _ config_map name)
            (λ cm. clear_primary-Safe config_map cm errs)))
