-- ===== src/Tests/Waits.antt =====
-- Tests of pkg/common/errors.go and pkg/common/extension_registry.go.
use operator_go.Prelude.{
  ℕ, ◌+◌, String, true, false, Option, none, some, List, [], ◌∷◌, ◌≡◌, refl, ◌↔◌, All, Member,
  arith,
}
use operator_go.Prelude.Int.{pos, ltz}
use operator_go.Prelude.Sort.{EachBefore}
use operator_go.Common.Errors.{
  RequeueAfterError, formatted, Err, opaque, waiting, wrapped, joined, nil, cons, waiting_errors,
  WaitState, min_requeue_after, default_requeue_after, clamp_requeue_after,
}
use operator_go.Common.Errors.Leaves.{leaves, IsNoShorter, waiting_errors-leaves}
use operator_go.Common.Errors.Merge.{
  clamp_requeue_after_bounds, merge_all, IsLater, merge_all-earliest,
}
use operator_go.Common.Extensions.{
  ExtensionEntry, with_priority, with_stop_on_error, ExtensionRegistry, new_extension_registry,
  reconcile_hook_policy, error_hook_policy, stops_on_error, execute_hooks, execute_cluster_on_error,
}
use operator_go.Common.Extensions.Order.{
  Precedes, Operation, register_cluster, register_role, operate_all, registrations_ordered,
}
use operator_go.Common.Extensions.Runs.{
  IsCalm, AllOutcomes, run_hooks, execute_hooks-IsCalm, execute_cluster_on_error-All,
}

abbrev wait : ℕ → RequeueAfterError
wait n = record { after = pos n; reason = "Waiting"; message = "" }

abbrev tree : Err
tree = wrapped (formatted "pass") (
    joined (
      cons (waiting (wait 5000000000))
        (cons (waiting (wait 2000000000)) (cons (opaque "boom") nil))))

waiting_errors-leaves_example :
    ((w : RequeueAfterError)
      → waiting_errors tree ≡ some w
      → Member (some w) (leaves tree) × All (IsNoShorter w) (leaves tree))
    × ((waiting_errors tree ≡ none) ↔ Member none (leaves tree))
waiting_errors-leaves_example = waiting_errors-leaves tree

clamp_requeue_after_bounds_example :
    (ltz (clamp_requeue_after (pos 5)) min_requeue_after ≡ false)
    × (ltz (pos 5) min_requeue_after ≡ false → clamp_requeue_after (pos 5) ≡ pos 5)
    × (clamp_requeue_after (clamp_requeue_after (pos 5)) ≡ clamp_requeue_after (pos 5))
    × (ltz (pos 5) (pos 1) ≡ true → clamp_requeue_after (pos 5) ≡ default_requeue_after)
clamp_requeue_after_bounds_example = clamp_requeue_after_bounds (pos 5)

abbrev state : ℕ → Option WaitState
state n = some (record { after = pos n; reason = "Waiting"; message = "" })

abbrev states : List (Option WaitState)
states = none ∷ state 3 ∷ state 7 ∷ []

merge_all-earliest_example :
    ((v : WaitState)
      → merge_all (state 9) states ≡ some v
      → Member (some v) (state 9 ∷ states) × All (IsLater v) (state 9 ∷ states))
    × ((merge_all (state 9) states ≡ none) ↔ All (λ n. n ≡ none) (state 9 ∷ states))
merge_all-earliest_example = merge_all-earliest (state 9) states

abbrev entry : ℕ → ℕ → ExtensionEntry String
entry priority seq = record {
  extension = "e";
  priority = pos priority;
  seq = seq;
  stop_on_error = none;
}

abbrev operations : List (Operation String String String)
operations =
    register_cluster "a" (with_priority (pos 10) ∷ [])
    ∷ register_cluster "b" (with_priority (pos 90) ∷ with_stop_on_error false ∷ [])
    ∷ register_role "c" []
    ∷ []

registrations_ordered_example :
    let r = operate_all new_extension_registry operations in
    EachBefore Precedes r.cluster_extensions
    × EachBefore Precedes r.role_extensions
    × EachBefore Precedes r.role_group_extensions
registrations_ordered_example = registrations_ordered operations (omega arith)

abbrev hook : String → ℕ → Option Err × ℕ
hook e n = (some (waiting (wait 5000000000)), n + 1)

execute_hooks-IsCalm_example :
    (IsCalm
        (execute_hooks (λ e. e) reconcile_hook_policy hook (entry 50 1 ∷ entry 50 2 ∷ []) [] 0).0
      ↔ AllOutcomes (λ e. e) reconcile_hook_policy hook IsCalm (entry 50 1 ∷ entry 50 2 ∷ []) 0)
    × (IsCalm
          (execute_hooks (λ e. e) reconcile_hook_policy hook (entry 50 1 ∷ entry 50 2 ∷ []) [] 0).0
        → (execute_hooks (λ e. e) reconcile_hook_policy hook (entry 50 1 ∷ entry 50 2 ∷ []) [] 0).1
          ≡ run_hooks (λ e. e) reconcile_hook_policy hook (entry 50 1 ∷ entry 50 2 ∷ []) 0)
execute_hooks-IsCalm_example =
    execute_hooks-IsCalm (λ e. e) reconcile_hook_policy hook refl (entry 50 1 ∷ entry 50 2 ∷ []) 0

abbrev registry : ExtensionRegistry String String String
registry = record {
  cluster_extensions = entry 50 1 ∷ entry 40 2 ∷ [];
  role_extensions = [];
  role_group_extensions = [];
  next_seq = 3;
}

tolerant : All (λ e. stops_on_error e false ≡ false) registry.cluster_extensions
unfolding stops_on_error
tolerant = (refl, (refl, tt))

execute_cluster_on_error-All_example :
    (execute_cluster_on_error registry (λ e. e) hook 0).1
    ≡ run_hooks (λ e. e) error_hook_policy hook registry.cluster_extensions 0
execute_cluster_on_error-All_example =
    execute_cluster_on_error-All registry (λ e. e) hook 0 tolerant
