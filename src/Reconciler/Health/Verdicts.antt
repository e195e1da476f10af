-- ===== src/Reconciler/Health/Verdicts.antt =====
-- The writers of `Check`: each writes one condition, whatever the clock and the status.
use operator_go.Prelude.{
  ℕ, String, Bool, true, false, Option, none, some, List, [], ◌∷◌, ◌≡◌, refl, ◌∙◌, ◌⊎◌, inl, inr,
  All, is_empty, eqb, ◌&&◌, Bool-cases,
}
use operator_go.Prelude.Eq.{◌==◌, string_eq}
use operator_go.Prelude.Strings.{sort_strings}
use operator_go.Common.Errors.{Err, Result, ok, fail}
use operator_go.Api.Status.{
  Condition, GenericClusterStatus, set_condition, condition_available, condition_progressing,
  condition_service_healthy, condition_of, condition_true, condition_false, condition_unknown,
  set_available, set_unavailable, set_progressing, set_service_healthy, set_service_healthy_unknown,
}
use operator_go.Reconciler.Health.Groups.{Evaluation}
use operator_go.Reconciler.Health.Writes.{
  Verdict, write_available, write_progressing, write_service_healthy, unavailable_reason,
  unavailable_message, reason_creating, reason_available, reason_progressing,
  reason_reconciliation_paused, reason_degraded,
}

abbrev pub set_all : ℕ → List Condition → GenericClusterStatus → GenericClusterStatus
set_all now [] s = s
set_all now (c ∷ cs) s = set_all now cs (set_condition now c s)

abbrev pub HasDistinctKinds : List Condition → Type 0
HasDistinctKinds [] = Unit
HasDistinctKinds (c ∷ cs) = All (λ d. (c.kind == d.kind) ≡ false) cs × HasDistinctKinds cs

role_groups-set_condition :
    (now : ℕ) (c : Condition) (s : GenericClusterStatus)
    → (set_condition now c s).role_groups ≡ s.role_groups
unfolding set_condition
role_groups-set_condition now c s = refl

pub role_groups-set_all :
    (now : ℕ) (cs : List Condition) (s : GenericClusterStatus)
    → (set_all now cs s).role_groups ≡ s.role_groups
role_groups-set_all now [] s = refl
role_groups-set_all now (c ∷ cs) s =
    role_groups-set_all now cs (set_condition now c s) ∙ role_groups-set_condition now c s

-- A writer of one condition of a type, whatever the clock and the status.
pub record Writes (kind : String) (f : ℕ → GenericClusterStatus → GenericClusterStatus)
    : Type 0 where
  pub condition : Condition
  pub has_kind : condition.kind ≡ kind
  pub writes : (now : ℕ) (s : GenericClusterStatus) → f now s ≡ set_condition now condition s

pub available_Writes :
    (ev : Evaluation) → Writes condition_available (λ now s. write_available now ev s)
unfolding write_available set_available set_unavailable
available_Writes ev = elim (Bool-cases (eqb ev.evaluated 0)) [
  | inl none_there ↦ record {
    condition =
        condition_of condition_available condition_false reason_creating
          "Cluster declares no role groups";
    has_kind = refl;
    writes = λ now s. rw none_there;
  }
  | inr some_there ↦
      elim (Bool-cases (
        is_empty (sort_strings ev.short_of_replicas)
        && is_empty (sort_strings ev.unreadable)
        && is_empty (sort_strings ev.creating))) [
          | inl all_up ↦ record {
            condition =
                condition_of condition_available condition_true reason_available
                  "All replicas are available";
            has_kind = refl;
            writes = λ now s. rw some_there (rw all_up);
          }
          | inr not_up ↦ record {
            condition =
                condition_of condition_available condition_false
                  (unavailable_reason (sort_strings ev.short_of_replicas)
                    (sort_strings ev.unreadable))
                  (unavailable_message (sort_strings ev.short_of_replicas)
                    (sort_strings ev.unreadable) (sort_strings ev.creating));
            has_kind = refl;
            writes = λ now s. rw some_there (rw not_up);
          }
        ]
]

pub progressing_Writes :
    (b : Bool) → Writes condition_progressing (λ now s. write_progressing now b s)
unfolding write_progressing set_progressing
progressing_Writes true = record {
  condition =
      condition_of condition_progressing condition_true reason_progressing "Cluster is progressing";
  has_kind = refl;
  writes = λ now s. refl;
}
progressing_Writes false = record {
  condition =
      condition_of condition_progressing condition_false reason_available "Cluster is stable";
  has_kind = refl;
  writes = λ now s. refl;
}

-- The service check writes nothing or its one condition, and its verdict depends on neither.
pub record ServiceWrites (rendered : Err → String) (paused : Bool) (check : Option (Result Bool))
    (v : Verdict) : Type 0 where
  pub conditions : List Condition
  pub kinds :
      (conditions ≡ [])
      ⊎ ((c : Condition) × (conditions ≡ c ∷ []) × (c.kind ≡ condition_service_healthy))
  pub verdict : Verdict
  pub writes :
      (now : ℕ) (s : GenericClusterStatus)
      → write_service_healthy now rendered paused check v s ≡ (set_all now conditions s, verdict)

pub service_ServiceWrites :
    (rendered : Err → String) (paused : Bool) (check : Option (Result Bool)) (v : Verdict)
    → ServiceWrites rendered paused check v
unfolding write_service_healthy set_service_healthy set_service_healthy_unknown
service_ServiceWrites rendered paused none v = record {
  conditions = [];
  kinds = inl refl;
  verdict = v;
  writes = λ now s. refl;
}
service_ServiceWrites rendered true (some answer) v = record {
  conditions =
      condition_of condition_service_healthy condition_unknown reason_reconciliation_paused
        "Not probed while reconciliation is paused"
      ∷ [];
  kinds = inr (_, refl, refl);
  verdict = v;
  writes = λ now s. refl;
}
service_ServiceWrites rendered false (some (fail err)) v = record {
  conditions = condition_of condition_service_healthy condition_false reason_degraded _ ∷ [];
  kinds = inr (_, refl, refl);
  verdict = _;
  writes = λ now s. refl;
}
service_ServiceWrites rendered false (some (ok false)) v = record {
  conditions =
      condition_of condition_service_healthy condition_false reason_degraded
        "Service is not healthy"
      ∷ [];
  kinds = inr (_, refl, refl);
  verdict = _;
  writes = λ now s. refl;
}
service_ServiceWrites rendered false (some (ok true)) v = record {
  conditions =
      condition_of condition_service_healthy condition_true reason_available "Service is healthy"
      ∷ [];
  kinds = inr (_, refl, refl);
  verdict = v;
  writes = λ now s. refl;
}
