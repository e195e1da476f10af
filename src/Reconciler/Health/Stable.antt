-- ===== src/Reconciler/Health/Stable.antt =====
-- A second `Check` of an unchanged cluster leaves the status alone, so no status write wakes the
-- controller again.
use operator_go.Prelude.{ℕ, String, false, List, [], ◌∷◌, ◌≡◌, refl, sym, ap, ◌∙◌, All}
use operator_go.Prelude.Eq.{◌==◌, string_eq, ==_comm}
use operator_go.Common.Errors.{Err}
use operator_go.Api.Spec.{GenericClusterSpec}
use operator_go.Api.Status.{Condition, GenericClusterStatus, set_condition}
use operator_go.Api.Status.Conditions.{
  IsSettled, set_condition_settled, set_condition-IsSettled, set_condition-IsSettled_other,
}
use operator_go.Reconciler.Health.Groups.{Observation}
use operator_go.Reconciler.Health.{check}
use operator_go.Reconciler.Health.Verdicts.{set_all, HasDistinctKinds, role_groups-set_all}
use operator_go.Reconciler.Health.OnePass.{check-Pass}

-- Writes of other types keep a condition settled.
set_all-IsSettled_other :
    (now : ℕ) (cs : List Condition) (d : Condition) (s : GenericClusterStatus)
    → All (λ c. (d.kind == c.kind) ≡ false) cs
    → IsSettled d s
    → IsSettled d (set_all now cs s)
set_all-IsSettled_other now [] d s ne h = h
set_all-IsSettled_other now (c ∷ cs) d s ne h =
    set_all-IsSettled_other now cs d (set_condition now c s) ne.1
      (set_condition-IsSettled_other now c d s (==_comm c.kind d.kind ∙ ne.0) h)

set_all-IsSettled :
    (now : ℕ) (cs : List Condition) (s : GenericClusterStatus)
    → HasDistinctKinds cs
    → All (λ c. IsSettled c (set_all now cs s)) cs
set_all-IsSettled now [] s d = tt
set_all-IsSettled now (c ∷ cs) s d = (
  set_all-IsSettled_other now cs c (set_condition now c s) d.0 (set_condition-IsSettled now c s),
  set_all-IsSettled now cs (set_condition now c s) d.1,
)

set_all_settled :
    (later : ℕ) (cs : List Condition) (s : GenericClusterStatus)
    → All (λ c. IsSettled c s) cs
    → set_all later cs s ≡ s
set_all_settled later [] s h = refl
set_all_settled later (c ∷ cs) s h =
    ap (set_all later cs) (set_condition_settled later c s h.0) ∙ set_all_settled later cs s h.1

-- Checked again at any later time, with the same cluster and spec, the status is what the first
-- check left, transition times included.
pub check_again :
    (digest : String → String) (rendered : Err → String) (now later : ℕ) (cluster_name : String)
    (obs : Observation) (spec : GenericClusterSpec) (s : GenericClusterStatus)
    → check digest rendered later cluster_name obs spec
        (check digest rendered now cluster_name obs spec s)
      ≡ check digest rendered now cluster_name obs spec s
check_again digest rendered now later cluster_name obs spec s =
    let pass = check-Pass digest rendered cluster_name obs spec s.role_groups in
    let once = pass.writes now s refl in
    let s' = set_all now pass.conditions s in
    ap (check digest rendered later cluster_name obs spec) once
    ∙ pass.writes later s' (role_groups-set_all now pass.conditions s)
    ∙ set_all_settled later pass.conditions s'
        (set_all-IsSettled now pass.conditions s pass.distinct)
    ∙ sym once
