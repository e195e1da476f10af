-- ===== src/Api/Status/Written.antt =====
-- What `SetCondition` leaves of a condition: the code's writes, and an account of each field.
use operator_go.Prelude.{
  eqb, ℕ, String, Option, none, some, List, [], ◌∷◌, ◌≡◌, refl, sym, ap, ◌∙◌, inl, inr,
  if◌then◌else◌, arith, Bool-cases,
}
use mathlib.Core.Option.{some-injective}
use operator_go.Prelude.Eq.{◌==◌, string_eq}
use operator_go.Prelude.Int.{ℤ, pos, eqz}
use operator_go.Api.Status.{Condition, find_condition, stamp, update_condition, upsert_condition}

-- What `SetCondition` leaves under the type, from what was there.
abbrev pub merged : Condition → Option Condition → Condition
merged c none = c
merged c (some existing) = update_condition c existing

pub find-upsert :
    (t : String) (c : Condition) (cs : List Condition)
    → find_condition t (upsert_condition c cs)
      ≡ (if c.kind == t then some (merged c (find_condition c.kind cs)) else find_condition t cs)
unfolding find_condition upsert_condition update_condition
find-upsert t c [] = refl
find-upsert t c (e ∷ cs) = ground (
  arith,
  string_eq.beq_iff e.kind c.kind,
  string_eq.beq_iff c.kind t,
  string_eq.beq_iff e.kind t,
  find-upsert t c cs,
)

-- The time that the written condition carries, or else the clock's.
abbrev pub given_time : ℕ → Condition → ℕ
given_time now c = if eqb c.last_transition_time 0 then now else c.last_transition_time

-- The transition time after the write, given what was there.
abbrev pub time_after : ℕ → Condition → Option Condition → ℕ
time_after now c none = given_time now c
time_after now c (some previous) =
    if previous.status == c.status then previous.last_transition_time else given_time now c

-- What is there after a write of `c`, given what was there.
abbrev pub written : ℕ → ℤ → Condition → Option Condition → Condition
written now generation c previous = record {
  kind = c.kind;
  status = c.status;
  reason = c.reason;
  message = c.message;
  last_transition_time = time_after now c previous;
  observed_generation =
      if eqz c.observed_generation (pos 0) then generation else c.observed_generation;
}

pub kind-find_condition :
    (t : String) (cs : List Condition) (e : Condition) → find_condition t cs ≡ some e → e.kind ≡ t
unfolding find_condition
kind-find_condition t [] e h = cc
kind-find_condition t (c ∷ cs) e h = elim (Bool-cases (c.kind == t)) [
  | inl same ↦
      ap (λ (x : Condition). x.kind) (sym (some-injective c e (rw same at h)))
      ∙ (string_eq.beq_iff c.kind t).0 same
  | inr other ↦ kind-find_condition t cs e (rw other at h)
]

pub merged-written :
    (now : ℕ) (generation : ℤ) (c : Condition) (previous : Option Condition)
    → ((e : Condition) → previous ≡ some e → e.kind ≡ c.kind)
    → merged (stamp now generation c) previous ≡ written now generation c previous
unfolding stamp update_condition
merged-written now generation c none h = refl
merged-written now generation c (some e) h =
    ground (arith, h e refl, string_eq.beq_iff e.status c.status)
