-- ===== src/Reconciler/Cleaner/Pending.antt =====
-- The wakeups of a whole cleanup pass.
use operator_go.Prelude.{
  ℕ, ◌+◌, ◌<◌, String, Bool, true, false, Option, none, some, List, [], ◌∷◌, ◌++◌, ◌≡◌, refl, inl,
  inr, if◌then◌else◌, Bool-cases,
}
use operator_go.Prelude.Eq.{string_eq}
use operator_go.Prelude.Int.{pos, ltz}
use operator_go.Common.Errors.{Duration, second, ok}
use operator_go.Kube.{stateful_set, config_map}
use operator_go.Kube.Act.{Run, Act, pure, request, tick}
use operator_go.Kube.Logic.{Fact, Keeps, Anything, pure-Keeps, bind-Keeps, weaken-Keeps}
use operator_go.Reconciler.Cleaner.{
  RoleGroupCleaner, Services, poll_interval, DeletionState, settled, in_flight,
}
use operator_go.Reconciler.Cleaner.Delete.{is_past}
use operator_go.Reconciler.Cleaner.Marks.{
  Primary, primary_of, gray_delete_mark, any_foreign, grace_of_marked, mark_or_wait,
  check_primaries, check_or_mark_gray_delete,
}
use operator_go.Reconciler.Cleaner.Discover.{OrphanRef}
use operator_go.Reconciler.Cleaner.Teardown.{
  if_settled, confirm_role_group_reclaimed, steps_of, slot, reclaim, cleanup_role_group,
}
use operator_go.Reconciler.Cleaner.Rules.{IsRetry, Allowed, tick-Safe, find-Safe}
use operator_go.Reconciler.Cleaner.Stamps.{mark_primaries-Safe, grace_of_marked-Safe}
use operator_go.Reconciler.Cleaner.Passes.{run_steps-Safe, steps_Safe, run_checks-Safe}
use operator_go.Reconciler.Cleaner.Wakeups.{IsPositive, poll-IsPositive, remaining-IsPositive}

-- A clock read twice in a row moves by less than half a second.
abbrev pub IsSteady : {W : Type 0} → (W → ℕ × W) → Type 0
IsSteady {W} clock =
    (w : W) → (clock (clock w).1).0 + (clock (clock w).1).0 < (clock w).0 + (clock w).0 + second

abbrev Waits : Bool × Duration → Fact
Waits r es = r.0 ≡ false → IsPositive r.1

module _ {W : Type 0} (env : Services W) (c : RoleGroupCleaner) (owner_uid cluster_name : String)
    (with_pvcs : Bool) where
  grace_of_marked-result :
      (marked : ℕ) (run : Run W) (r : Bool × Duration)
      → IsSteady env.clock
      → IsPositive c.gray_delete_grace_period
      → (grace_of_marked env c owner_uid marked run).0 ≡ ok r
      → r.0 ≡ false
      → IsPositive r.1
  unfolding grace_of_marked tick request
  grace_of_marked-result marked run r steady h e not_ready =
      let now = (env.clock run.world).0 in
      let later = (env.clock (env.clock run.world).1).0 in
      elim (Bool-cases (is_past c.gray_delete_grace_period marked now)) [
        | inl past ↦ cc (rw (past, grace_of_marked) at e, not_ready)
        | inr within ↦ cc (
          remaining-IsPositive c.gray_delete_grace_period marked now later h within
              (steady run.world),
          rw (within, grace_of_marked) at e,
        )
      ]

  grace_of_marked-Waits :
      (marked : ℕ)
      → IsSteady env.clock
      → IsPositive c.gray_delete_grace_period
      → Keeps
          (Allowed c owner_uid with_pvcs)
          Anything
          (grace_of_marked env c owner_uid marked)
          Waits
  unfolding grace_of_marked
  grace_of_marked-Waits marked steady h = record {
    keeps = λ run v p.
        let kept = (grace_of_marked-Safe env c owner_uid with_pvcs marked).keeps run v p in
        record {
          valid = kept.valid;
          grows = kept.grows;
          leaves = λ r e not_ready. grace_of_marked-result marked run r steady h e not_ready;
        };
  }

  mark_or_wait-Waits :
      (primaries : List Primary) (o : Option ℕ)
      → any_foreign owner_uid primaries ≡ false
      → IsSteady env.clock
      → IsPositive c.gray_delete_grace_period
      → Keeps
          (Allowed c owner_uid with_pvcs)
          Anything
          (mark_or_wait env c owner_uid primaries o)
          Waits
  unfolding mark_or_wait
  mark_or_wait-Waits primaries (some marked) owned steady h =
      bind-Keeps _ _ (λ u. Anything) _ _ _
        (mark_primaries-Safe env c owner_uid with_pvcs marked primaries owned)
        (λ u. grace_of_marked-Waits marked steady h)
  mark_or_wait-Waits primaries none owned steady h =
      bind-Keeps _ _ (λ now. Anything) _ _ _ (tick-Safe c owner_uid with_pvcs env.clock)
        (λ now.
          bind-Keeps _ _ (λ u. Anything) _ _ _
            (mark_primaries-Safe env c owner_uid with_pvcs _ primaries owned)
            (λ u. pure-Keeps _ _ _ (false, c.gray_delete_grace_period) (λ es p e. h)))

  check_primaries-Waits :
      (primaries : List Primary)
      → IsSteady env.clock
      → IsPositive c.gray_delete_grace_period
      → Keeps
          (Allowed c owner_uid with_pvcs)
          Anything
          (check_primaries env c owner_uid primaries)
          Waits
  unfolding check_primaries
  check_primaries-Waits [] steady h = pure-Keeps _ _ _ (true, pos 0) (λ es p e. cc)
  check_primaries-Waits (p ∷ primaries) steady h =
      elim (Bool-cases (any_foreign owner_uid (p ∷ primaries))) [
        | inl foreign ↦
            rw (foreign, check_primaries) (pure-Keeps _ _ _ (true, pos 0) (λ es q e. cc))
        | inr owned ↦
            rw (owned, check_primaries)
              (mark_or_wait-Waits (p ∷ primaries) (gray_delete_mark (p ∷ primaries)) owned steady h)
      ]

  check_or_mark-Waits :
      (name : String)
      → IsSteady env.clock
      → IsPositive c.gray_delete_grace_period
      → Keeps
          (Allowed c owner_uid with_pvcs)
          Anything
          (check_or_mark_gray_delete env c owner_uid name)
          Waits
  unfolding check_or_mark_gray_delete
  check_or_mark-Waits name steady h =
      bind-Keeps _ _ (λ a. Anything) _ _ _ (find-Safe c owner_uid with_pvcs env stateful_set name)
        (λ sts.
          bind-Keeps _ _ (λ a. Anything) _ _ _ (find-Safe c owner_uid with_pvcs env config_map name)
            (λ cm.
              check_primaries-Waits (primary_of stateful_set sts ++ primary_of config_map cm) steady
                h))

  if_settled-Waits :
      (state : DeletionState) {m n : Act W (Bool × Duration)}
      → Keeps (Allowed c owner_uid with_pvcs) Anything m Waits
      → Keeps (Allowed c owner_uid with_pvcs) Anything n Waits
      → Keeps (Allowed c owner_uid with_pvcs) Anything (if_settled state m n) Waits
  unfolding if_settled
  if_settled-Waits settled hm hn = hm
  if_settled-Waits in_flight hm hn = hn

  poll-Waits :
      Keeps {W = W} (Allowed c owner_uid with_pvcs) Anything (pure (false, poll_interval c)) Waits
  poll-Waits = pure-Keeps _ _ _ (false, poll_interval c) (λ es p e. poll-IsPositive c)

  reclaim-Waits :
      (orphan : OrphanRef) (derived : List String)
      → IsRetry env.retry_on_conflict
      → Keeps
          (Allowed c owner_uid with_pvcs)
          Anything
          (reclaim env c owner_uid cluster_name with_pvcs orphan derived)
          Waits
  unfolding reclaim confirm_role_group_reclaimed
  reclaim-Waits orphan derived retries =
      bind-Keeps _ _ (λ state. Anything) _ _ _
        (run_steps-Safe env c owner_uid with_pvcs cluster_name
          (steps_of env c owner_uid cluster_name with_pvcs orphan derived)
          (steps_Safe env c owner_uid with_pvcs cluster_name orphan derived retries))
        (λ state.
          if_settled-Waits state
            (bind-Keeps _ _ (λ confirmed. Anything) _ _ _
              (run_checks-Safe env c owner_uid with_pvcs cluster_name
                (slot orphan.resource_name derived))
              (λ confirmed.
                if_settled-Waits confirmed (pure-Keeps _ _ _ (true, pos 0) (λ es p e. cc))
                  poll-Waits))
            poll-Waits)

  marked-Waits :
      (marked : Bool × Duration) (m : Act W (Bool × Duration))
      → Keeps (Allowed c owner_uid with_pvcs) Anything m Waits
      → Keeps
          (Allowed c owner_uid with_pvcs)
          (Waits marked)
          (if marked.0 then m else pure (false, marked.1))
          Waits
  marked-Waits (true, wait) m h = weaken-Keeps _ _ _ _ _ _ (λ es p. tt) (λ a es q. q) h
  marked-Waits (false, wait) m h = pure-Keeps _ _ _ (false, wait) (λ es p e. p refl)

  pub cleanup_role_group-Waits :
      (live : List String) (orphan : OrphanRef)
      → IsRetry env.retry_on_conflict
      → IsSteady env.clock
      → Keeps
          (Allowed c owner_uid with_pvcs)
          Anything
          (cleanup_role_group env c owner_uid cluster_name with_pvcs live orphan)
          Waits
  unfolding cleanup_role_group
  cleanup_role_group-Waits live orphan retries steady =
      elim (Bool-cases (ltz (pos 0) c.gray_delete_grace_period)) [
        | inr off ↦ rw (off, cleanup_role_group) (reclaim-Waits orphan _ retries)
        | inl gray ↦
            rw (gray, cleanup_role_group)
              (bind-Keeps _ _ Waits _ _ _ (check_or_mark-Waits orphan.resource_name steady gray)
                (λ marked. marked-Waits marked _ (reclaim-Waits orphan _ retries)))
      ]
