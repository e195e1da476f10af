-- ===== src/Tests/Cleanups.antt =====
-- Tests of the cleaner of pkg/reconciler/cleaner.go, over a cluster held in memory.
use operator_go.Prelude.{
  ℕ, ◌+◌, ◌<◌, zero, suc, String, Bool, true, false, not, ◌&&◌, ◌||◌, Option, none, some, List, [],
  ◌∷◌, ◌≡◌, refl, All, select, eqb, arith, if◌then◌else◌,
}
use operator_go.Prelude.Eq.{◌==◌, string_eq}
use operator_go.Prelude.Int.{pos}
use operator_go.Prelude.Maps.{GoMap, lookup}
use operator_go.Common.Errors.{ok}
use operator_go.Api.Spec.{GenericClusterSpec}
use operator_go.Api.Status.{GenericClusterStatus, is_condition_true}
use operator_go.Api.Status.Ledger.{records}
use operator_go.Kube.{
  Kind, pod_disruption_budget, stateful_set, config_map, service, persistent_volume_claim, extra,
  Object, Answer, got, refused, not_found, Selector, matching_labels, has_label, Reader, cache,
  api_server, Client, Event,
}
use operator_go.Kube.Act.{Run, Act}
use operator_go.Kube.Logic.{Valid}
use operator_go.Reconciler.Cleaner.{RoleGroupCleaner, Services, new_role_group_cleaner}
use operator_go.Reconciler.Cleaner.Discover.{OrphanRef, is_declared}
use operator_go.Reconciler.Cleaner.Teardown.Bookkeeping.{
  Outcome, condition_orphan_cleanup_pending, derived_services, deletes_pvcs,
}
use operator_go.Reconciler.Cleaner.Teardown.{cleanup, cleanup_role_group, slot}
use operator_go.Reconciler.Cleaner.Rules.{IsRetry, Allowed, repeat}
use operator_go.Reconciler.Cleaner.Passes.{cleanup-Allowed}
use operator_go.Reconciler.Cleaner.Confirmed.{IsConfirmed, cleanup_role_group-IsConfirmed}
use operator_go.Reconciler.Cleaner.Pruning.{records-cleanup}
use operator_go.Reconciler.Cleaner.Pending.{IsSteady}
use operator_go.Reconciler.Cleaner.Wakeups.{IsPositive}
use operator_go.Reconciler.Cleaner.Rerun.{cleanup-IsPositive}

record Cluster : Type 0 where
  now : ℕ
  objects : List (Kind × Object)

abbrev kind_number : Kind → ℕ
kind_number pod_disruption_budget = 0
kind_number stateful_set = 1
kind_number config_map = 2
kind_number service = 3
kind_number persistent_volume_claim = 4
kind_number (extra k) = 5

abbrev is_at : Kind → String → Kind × Object → Bool
is_at kind name (k, obj) = eqb (kind_number k) (kind_number kind) && obj.name == name

abbrev find_at : Kind → String → List (Kind × Object) → Answer Object
find_at kind name [] = refused (record { reason = not_found; text = "not found" })
find_at kind name (ko ∷ objects) =
    if is_at kind name ko then got ko.1 else find_at kind name objects

abbrev of_kind : Kind → List (Kind × Object) → List Object
of_kind kind [] = []
of_kind kind ((k, obj) ∷ objects) =
    let rest = of_kind kind objects in
    if eqb (kind_number k) (kind_number kind) then obj ∷ rest else rest

abbrev memory_reader : Reader Cluster
memory_reader = record {
  source = cache;
  get = λ kind name w. (find_at kind name w.objects, w);
  list = λ kind selector w. (got (of_kind kind w.objects), w);
}

abbrev memory_client : Client Cluster
memory_client = record {
  reader = memory_reader;
  update = λ kind obj w. (
    got tt,
    record w { objects = (kind, obj) ∷ select (λ ko. not (is_at kind obj.name ko)) w.objects },
  );
  delete = λ kind obj w.
      (got tt, record w { objects = select (λ ko. not (is_at kind obj.name ko)) w.objects });
}

abbrev memory : Services Cluster
memory = record {
  client = memory_client;
  api_reader = some (record memory_reader { source = api_server });
  retry_on_conflict = λ m. repeat 3 m;
  clock = λ w. (w.now, record w { now = w.now + 1 });
  digest = λ s. s;
}

memory-IsRetry : IsRetry memory.retry_on_conflict
memory-IsRetry m run = (3, refl)

memory-IsSteady : IsSteady memory.clock
memory-IsSteady w = omega arith

abbrev object : String → Option ℕ → Object
object name replicas = record {
  name = name;
  labels = [];
  annotations = [];
  owner_references = record { uid = "u"; controller = some true } ∷ [];
  deleting = false;
  replicas = elim replicas [ none ↦ none | some n ↦ some (pos n) ];
  status_replicas = elim replicas [ none ↦ pos 0 | some n ↦ pos n ];
  has_claim_templates = false;
  match_labels = [];
}

-- The role group `w/g` of the cluster `c`, with its StatefulSet at a number of replicas.
abbrev start : ℕ → Cluster
start n = record {
  now = 1000;
  objects = (stateful_set, object "c-w-g" (some n)) ∷ (config_map, object "c-w-g" none) ∷ [];
}

abbrev no_roles : GenericClusterSpec
no_roles = record { cluster_operation = none; roles = [] }

abbrev recorded : GenericClusterStatus
recorded = record {
  conditions = [];
  role_groups = ("w", "g" ∷ []) ∷ [];
  observed_generation = pos 1;
}

abbrev orphan : OrphanRef
orphan = record { resource_name = "c-w-g"; role_name = "w"; group_name = "g" }

cleanup-Allowed_example :
    Valid
      (Allowed new_role_group_cleaner "u" (deletes_pvcs []))
      (cleanup memory new_role_group_cleaner "u" "c" [] no_roles recorded
        (record { world = start 0; log = [] })).1.log
cleanup-Allowed_example =
    cleanup-Allowed memory new_role_group_cleaner "u" "c" [] no_roles recorded (start 0)
      memory-IsRetry

records-cleanup_example :
    (out : Outcome) × ((cleanup memory new_role_group_cleaner "u" "c" [] no_roles recorded
        (record { world = start 0; log = [] })).0
      ≡ ok out)
    × ((r g : String)
        → records r g out.status.role_groups ≡ (
            records r g recorded.role_groups
            && (is_declared no_roles.roles r g || records r g out.status.role_groups)))
records-cleanup_example =
    records-cleanup memory new_role_group_cleaner "u" "c" [] no_roles recorded (start 0)
      memory-IsRetry

drained_teardown :
    (cleanup_role_group memory new_role_group_cleaner "u" "c" false [] orphan
      (record { world = start 0; log = [] })).0
    ≡ ok (true, pos 0)
unfolding cleanup_role_group operator_go.Reconciler.Cleaner.Delete.delete_owned
    operator_go.Reconciler.Cleaner.find operator_go.Kube.Act.get operator_go.Kube.Act.request
    operator_go.Reconciler.Cleaner.found operator_go.Reconciler.Cleaner.Delete.delete_stateful_set
    operator_go.Reconciler.Cleaner.is_owned_by_cluster operator_go.Kube.Act.delete
    operator_go.Reconciler.Cleaner.emit_deleted
    operator_go.Reconciler.Cleaner.Delete.delete_role_group_extras
    operator_go.Reconciler.Cleaner.confirm_reader operator_go.Kube.Act.update
drained_teardown = refl

cleanup_role_group-IsConfirmed_example :
    All
      (λ kn.
        IsConfirmed api_server "u" kn
          (cleanup_role_group memory new_role_group_cleaner "u" "c" false [] orphan
            (record { world = start 0; log = [] })).1.log)
      (slot "c-w-g" (derived_services [] "c-w-g"))
cleanup_role_group-IsConfirmed_example =
    cleanup_role_group-IsConfirmed memory new_role_group_cleaner "u" "c" false [] orphan (start 0)
      (pos 0) memory-IsRetry drained_teardown

abbrev busy_outcome : Outcome
busy_outcome = record {
  requeue = pos 5000000000;
  error = none;
  status = record {
    conditions =
        record {
          kind = "OrphanCleanupPending";
          status = "True";
          reason = "OrphanCleanupPending";
          message = "Waiting to reclaim orphaned role groups: w/g";
          last_transition_time = 1000;
          observed_generation = pos 1;
        }
        ∷ [];
    role_groups = ("w", "g" ∷ []) ∷ [];
    observed_generation = pos 1;
  };
}

busy_pass :
    (cleanup memory new_role_group_cleaner "u" "c" [] no_roles recorded
      (record { world = start 2; log = [] })).0
    ≡ ok busy_outcome
unfolding cleanup operator_go.Kube.Act.list operator_go.Kube.Act.on_answer
    operator_go.Reconciler.Cleaner.Discover.discover_orphans operator_go.Prelude.Sort.sort_by
    operator_go.Reconciler.Cleaner.is_owned_by_cluster lookup
    operator_go.Api.Status.get_orphaned_role_groups operator_go.Prelude.Maps.insert
    operator_go.Kube.Act.unless_error operator_go.Reconciler.Cleaner.Delete.delete_owned
    operator_go.Reconciler.Cleaner.find operator_go.Kube.Act.get operator_go.Kube.Act.request
    operator_go.Reconciler.Cleaner.found operator_go.Reconciler.Cleaner.Delete.delete_stateful_set
    operator_go.Reconciler.Names.role_group_resource_name operator_go.Kube.Act.update
    operator_go.Kube.Act.tick operator_go.Reconciler.Cleaner.poll_interval
    operator_go.Api.Status.set_condition operator_go.Api.Status.upsert_condition
    operator_go.Api.Status.stamp operator_go.Prelude.Strings.join_strings
    operator_go.Prelude.Strings.sort_strings operator_go.Reconciler.Cleaner.Discover.describe
busy_pass = refl

busy_condition : is_condition_true condition_orphan_cleanup_pending busy_outcome.status ≡ true
unfolding is_condition_true operator_go.Api.Status.get_condition
    operator_go.Api.Status.find_condition
busy_condition = refl

cleanup-IsPositive_example : IsPositive busy_outcome.requeue
cleanup-IsPositive_example =
    cleanup-IsPositive memory new_role_group_cleaner "u" "c" [] no_roles recorded (start 2)
      busy_outcome memory-IsRetry memory-IsSteady busy_pass refl busy_condition
