-- ===== src/Kube.antt =====
-- The Kubernetes API as the reconciler meets it. The client, the API server behind it and the
-- clock are not part of this repository: they are parameters, functions on an arbitrary world.
pub mod Act
pub mod Logic
pub mod Totality
pub mod Safety
use operator_go.Prelude.{ℕ, String, Bool, true, false, Option, List}
use operator_go.Prelude.Eq.{Eq}
use operator_go.Prelude.Int.{ℤ}
use operator_go.Prelude.Maps.{GoMap}

-- A kind of object; `extra` is a kind that a product registers.
pub data Kind : Type 0 where
  pod_disruption_budget stateful_set config_map service persistent_volume_claim : Kind
  extra : String → Kind

pub record OwnerReference : Type 0 where
  pub uid : String
  pub controller : Option Bool

-- The value of an annotation: an RFC 3339 time, as the second that it denotes, or any other text.
pub data Stamp : Type 0 where
  at_second : ℕ → Stamp
  text : String → Stamp

-- The fields that are read of an object, whatever its kind; the last four are a StatefulSet's.
pub record Object : Type 0 where
  pub name : String
  pub labels : GoMap String String
  pub annotations : GoMap String Stamp
  pub owner_references : List OwnerReference
  pub deleting : Bool
  pub replicas : Option ℤ  -- spec.replicas
  pub status_replicas : ℤ
  pub has_claim_templates : Bool
  pub match_labels : GoMap String String

pub data Reason : Type 0 where
  not_found too_many_requests conflict other : Reason

-- An API error: its status reason and its text.
pub record ApiError : Type 0 where
  pub reason : Reason
  pub text : String

abbrev pub is_not_found : ApiError → Bool
is_not_found e = elim e.reason [ not_found ↦ true | _ ↦ false ]

abbrev pub is_too_many_requests : ApiError → Bool
is_too_many_requests e = elim e.reason [ too_many_requests ↦ true | _ ↦ false ]

pub data Answer (A : Type 0) : Type 0 where
  got : A → Answer A
  refused : ApiError → Answer A

pub data Selector : Type 0 where
  matching_labels : GoMap String String → Selector
  has_label : String → Selector

-- What tells the readers of one cleaner apart.
pub data Source : Type 0 where
  cache api_server : Source

pub record Reader (W : Type 0) : Type 0 where
  pub source : Source
  pub get : Kind → String → W → Answer Object × W
  pub list : Kind → Selector → W → Answer (List Object) × W

-- Every request of a pass is made in the namespace of the cluster resource.
pub record Client (W : Type 0) : Type 0 where
  pub reader : Reader W
  pub update : Kind → Object → W → Answer Unit × W
  pub delete : Kind → Object → W → Answer Unit × W

-- What was asked of the client, with the answers of single reads.
pub data Event : Type 0 where
  answered : Source → Kind → String → Answer Object → Event
  ticked : ℕ → Event
  updated : Kind → Object → Event
  deleted : Kind → Object → Event
  -- the Kubernetes event on a deletion
  announced : Kind → Object → Event
