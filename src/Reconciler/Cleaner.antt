-- ===== src/Reconciler/Cleaner.antt =====
-- pkg/reconciler/cleaner.go: what a cleaner is configured with, the services that it calls, and the
-- ownership test. The metrics and log lines of the file are not modelled. Every request is in the
-- namespace of the cluster resource, and durations stay within int64.
pub mod Delete
pub mod Marks
pub mod Discover
pub mod Teardown
pub mod Rules
pub mod Guards
pub mod Drains
pub mod Stamps
pub mod Passes
pub mod Confirmed
pub mod Ledger
pub mod Pruning
pub mod Wakeups
pub mod Pending
pub mod Returns
pub mod Rerun
use operator_go.Prelude.{
  ℕ, ◌*◌, String, Bool, true, false, ◌&&◌, ◌||◌, Option, none, some, List, [], ◌∷◌, ◌++◌,
  if◌then◌else◌,
}
use operator_go.Prelude.Eq.{◌==◌, string_eq}
use operator_go.Prelude.Int.{pos, ltz}
use operator_go.Common.Errors.{Duration, second, Err, opaque, wrapped, rate_limit}
use operator_go.Kube.{
  Kind, Object, OwnerReference, ApiError, Answer, got, refused, is_not_found, is_too_many_requests,
  Reader, Client,
}
use operator_go.Kube.Act.{◌>>=◌, ◌>>◌, Act, pure, raise, get, announce}

pub record RoleGroupCleaner : Type 0 where
  pub gray_delete_grace_period : Duration
  pub drain_poll_interval : Duration
  pub drain_timeout : Duration
  pub rate_limit_retry_after : Duration
  pub has_event_manager : Bool
  -- the kind of each prototype, `none` for one that the scheme cannot resolve
  pub extra_resource_kinds : List (Option String)

-- The code outside the repository: client-go's client and readers, its `RetryOnConflict`, the
-- clock in nanoseconds, and the digest of the resource names.
pub record Services (W : Type 0) : Type 0 where
  pub client : Client W
  pub api_reader : Option (Reader W)
  pub retry_on_conflict : Act W (Answer Unit) → Act W (Answer Unit)
  pub clock : W → ℕ × W
  pub digest : String → String

abbrev pub new_role_group_cleaner : RoleGroupCleaner
new_role_group_cleaner = record {
  gray_delete_grace_period = pos 0;
  drain_poll_interval = pos 0;
  drain_timeout = pos 0;
  rate_limit_retry_after = pos 0;
  has_event_manager = false;
  extra_resource_kinds = [];
}

unfoldable pub with_gray_delete_grace_period : Duration → RoleGroupCleaner → RoleGroupCleaner
with_gray_delete_grace_period d c = record c { gray_delete_grace_period = d }

unfoldable pub with_drain_poll_interval : Duration → RoleGroupCleaner → RoleGroupCleaner
with_drain_poll_interval d c = record c { drain_poll_interval = d }

unfoldable pub with_drain_timeout : Duration → RoleGroupCleaner → RoleGroupCleaner
with_drain_timeout d c = record c { drain_timeout = d }

unfoldable pub with_rate_limit_retry_after : Duration → RoleGroupCleaner → RoleGroupCleaner
with_rate_limit_retry_after d c = record c { rate_limit_retry_after = d }

-- A nil prototype is left out before.
unfoldable pub with_extra_resource_kinds :
    List (Option String) → RoleGroupCleaner → RoleGroupCleaner
with_extra_resource_kinds kinds c = record c {
  extra_resource_kinds = c.extra_resource_kinds ++ kinds;
}

unfoldable pub with_event_manager : Bool → RoleGroupCleaner → RoleGroupCleaner
with_event_manager wired c = record c { has_event_manager = wired }

abbrev pub default_drain_poll_interval : Duration
default_drain_poll_interval = pos (5 * second)

abbrev pub default_drain_timeout : Duration
default_drain_timeout = pos (600 * second)

abbrev pub default_cleanup_rate_limit_retry_after : Duration
default_cleanup_rate_limit_retry_after = pos (10 * second)

abbrev pub annotation_pending_deletion : String
annotation_pending_deletion = "orphan.zncdata.dev/pending-deletion"

abbrev pub annotation_drain_started : String
annotation_drain_started = "orphan.zncdata.dev/drain-started"

unfoldable pub poll_interval : RoleGroupCleaner → Duration
poll_interval c =
    if ltz (pos 0) c.drain_poll_interval then c.drain_poll_interval else default_drain_poll_interval

unfoldable pub drain_deadline : RoleGroupCleaner → Duration
drain_deadline c = if ltz (pos 0) c.drain_timeout then c.drain_timeout else default_drain_timeout

unfoldable pub api_error : RoleGroupCleaner → ApiError → Err
api_error c e =
    if is_too_many_requests e
    then wrapped
        (rate_limit (
          if ltz (pos 0) c.rate_limit_retry_after
          then c.rate_limit_retry_after
          else default_cleanup_rate_limit_retry_after))
        (opaque e.text)
    else opaque e.text

abbrev pub is_controller : OwnerReference → Bool
is_controller ref = elim ref.controller [ none ↦ false | some b ↦ b ]

unfoldable pub has_controller : String → List OwnerReference → Bool
has_controller owner_uid [] = false
has_controller owner_uid (ref ∷ refs) =
    (ref.uid == owner_uid && is_controller ref) || has_controller owner_uid refs

unfoldable pub is_owned_by_cluster : Object → String → Bool
unfolding has_controller
is_owned_by_cluster obj owner_uid =
    if owner_uid == "" then true else has_controller owner_uid obj.owner_references

unfoldable pub confirm_reader : {W : Type 0} → Services W → Reader W
confirm_reader env = elim env.api_reader [ some reader ↦ reader | none ↦ env.client.reader ]

-- How far the deletion of one resource got.
pub data DeletionState : Type 0 where
  settled in_flight : DeletionState

module _ {W : Type 0} (env : Services W) (c : RoleGroupCleaner) where
  -- A read that a missing object does not fail.
  unfoldable pub found : Answer Object → Act W (Option Object)
  found (got obj) = pure (some obj)
  found (refused e) = if is_not_found e then pure none else raise (api_error c e)

  unfoldable pub find : Kind → String → Act W (Option Object)
  find kind name = do answer ← get env.client.reader kind name; found answer

  unfoldable pub emit_deleted : Kind → Object → Act W Unit
  emit_deleted kind obj = if c.has_event_manager then announce kind obj else pure tt
