-- ===== src/Reconciler/Health/Pods.antt =====
-- The pods that need attention: `podFailureReason` and its callers in pkg/reconciler/health.go.
use operator_go.Prelude.{
  ℕ, ◌-◌, String, Bool, false, ◌&&◌, ◌||◌, Option, none, some, List, [], ◌∷◌, ◌++◌, map, length,
  ltb, if◌then◌else◌,
}
use operator_go.Prelude.Eq.{◌==◌, string_eq, contains}
use operator_go.Prelude.Sort.{sort_by}
use operator_go.Prelude.Strings.{◌<>◌, str_less, join_strings, decimal}
use operator_go.Common.Errors.{Result, ok, fail}

pub record PodCondition : Type 0 where
  pub kind : String
  pub status : String
  pub reason : String

-- A container status is the reason of its `State.Waiting`, if it waits.
pub record Pod : Type 0 where
  pub name : String
  pub deleting : Bool  -- DeletionTimestamp is set
  pub conditions : List PodCondition
  pub init_container_statuses : List (Option String)
  pub container_statuses : List (Option String)

abbrev pub pod_reason_unschedulable : String
pod_reason_unschedulable = "Unschedulable"

abbrev pub stuck_container_reasons : List String
stuck_container_reasons =
    "CrashLoopBackOff" ∷ "ImagePullBackOff" ∷ "ErrImagePull" ∷ "InvalidImageName"
    ∷ "CreateContainerConfigError" ∷ "CreateContainerError" ∷ "RunContainerError" ∷ []

unfoldable pub is_unschedulable : List PodCondition → Bool
is_unschedulable [] = false
is_unschedulable (c ∷ cs) =
    (c.kind == "PodScheduled" && c.status == "False" && c.reason == pod_reason_unschedulable)
    || is_unschedulable cs

-- The first waiting reason that the kubelet has given up on, or "".
unfoldable pub first_stuck : List (Option String) → String
first_stuck [] = ""
first_stuck (none ∷ statuses) = first_stuck statuses
first_stuck (some reason ∷ statuses) =
    if contains reason stuck_container_reasons then reason else first_stuck statuses

unfoldable pub pod_failure_reason : Pod → String
unfolding is_unschedulable first_stuck
pod_failure_reason pod =
    if is_unschedulable pod.conditions
    then pod_reason_unschedulable
    else first_stuck (pod.init_container_statuses ++ pod.container_statuses)

pub record PodFailure : Type 0 where
  pub pod : String
  pub reason : String

unfoldable pub collect_failures : List Pod → List PodFailure
collect_failures [] = []
collect_failures (pod ∷ pods) =
    let rest = collect_failures pods in
    let reason = pod_failure_reason pod in
    if pod.deleting || reason == "" then rest else record { pod = pod.name; reason = reason } ∷ rest

unfoldable pub find_failing_pods : Result (List Pod) → Result (List PodFailure)
unfolding collect_failures
find_failing_pods (fail err) = fail err
find_failing_pods (ok pods) = ok (sort_by (λ a b. str_less a.pod b.pod) (collect_failures pods))

abbrev pub max_reported_pod_failures : ℕ
max_reported_pod_failures = 3

abbrev pub take_failures : ℕ → List PodFailure → List PodFailure
take_failures Prim.Native.Nat.ℕ.zero fs = []
take_failures (Prim.Native.Nat.ℕ.suc n) [] = []
take_failures (Prim.Native.Nat.ℕ.suc n) (f ∷ fs) = f ∷ take_failures n fs

unfoldable pub summarize_pod_failures : List PodFailure → String
summarize_pod_failures failures =
    let shown = take_failures max_reported_pod_failures failures in
    let parts = map (λ (f : PodFailure). f.pod <> " (" <> f.reason <> ")") shown in
    let message = "Pods requiring attention: " <> join_strings ", " parts in
    let remaining = length failures - length shown in
    if ltb 0 remaining then message <> ", and " <> decimal remaining <> " more" else message
