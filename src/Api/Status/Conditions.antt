-- ===== src/Api/Status/Conditions.antt =====
-- The conditions of a status behave as a map from types.
use operator_go.Prelude.{
  ℕ, String, false, Option, none, some, List, [], ◌∷◌, ◌≡◌, refl, sym, ap, ◌∙◌, inl, inr,
  if◌then◌else◌, arith, Bool-cases,
}
use mathlib.Core.Path.{subst}
use mathlib.Core.Option.{some-injective}
use operator_go.Prelude.Eq.{◌==◌, string_eq, ==_refl, ==_comm}
use operator_go.Prelude.Int.{ℤ, pos, eqz}
use operator_go.Api.Status.{
  Condition, GenericClusterStatus, find_condition, get_condition, stamp, update_condition,
  upsert_condition, set_condition,
}
use operator_go.Api.Status.Written.{
  merged, find-upsert, written, kind-find_condition, merged-written,
}

pub get_condition-merged :
    (now : ℕ) (c : Condition) (s : GenericClusterStatus) (t : String)
    → get_condition (set_condition now c s) t ≡ (
        if c.kind == t
        then some (merged (stamp now s.observed_generation c) (get_condition s c.kind))
        else get_condition s t)
unfolding get_condition set_condition stamp
get_condition-merged now c s t = find-upsert t (stamp now s.observed_generation c) s.conditions

-- Reading a condition after a write. The written type has the status, reason and message written;
-- the generation written, or the status's where none is; and the previous transition time, or, where
-- there was no condition or the status changed, the time written or else the clock's. Every other
-- type is untouched.
pub get-set_condition :
    (now : ℕ) (c : Condition) (s : GenericClusterStatus) (t : String)
    → get_condition (set_condition now c s) t ≡ (
        if c.kind == t
        then some (written now s.observed_generation c (get_condition s c.kind))
        else get_condition s t)
get-set_condition now c s t =
    get_condition-merged now c s t
    ∙ ap (λ e. if c.kind == t then some e else get_condition s t)
        (merged-written now s.observed_generation c (get_condition s c.kind)
          (unfold get_condition in kind-find_condition c.kind s.conditions))

-- The condition of the type has the content that a write of `c` would give it; the transition time
-- is free.
pub record IsContent (generation : ℤ) (c e : Condition) : Type 0 where
  pub status : e.status ≡ c.status
  pub reason : e.reason ≡ c.reason
  pub message : e.message ≡ c.message
  pub generation_same :
      e.observed_generation
      ≡ (if eqz c.observed_generation (pos 0) then generation else c.observed_generation)

abbrev pub IsSettled : Condition → GenericClusterStatus → Type 0
IsSettled c s =
    (e : Condition) × (get_condition s c.kind ≡ some e) × IsContent s.observed_generation c e

update-IsContent :
    (now : ℕ) (generation : ℤ) (c e : Condition)
    → IsContent generation c e
    → update_condition (stamp now generation c) e ≡ e
unfolding update_condition stamp
update-IsContent now generation c e h =
    rw (h.status, ==_refl c.status)
      (ground (arith, h.reason, h.message, h.generation_same, h.status))

kind-stamp : (now : ℕ) (generation : ℤ) (c : Condition) → (stamp now generation c).kind ≡ c.kind
unfolding stamp
kind-stamp now generation c = refl

upsert-IsContent :
    (now : ℕ) (generation : ℤ) (c e : Condition) (cs : List Condition)
    → find_condition c.kind cs ≡ some e
    → IsContent generation c e
    → upsert_condition (stamp now generation c) cs ≡ cs
unfolding find_condition upsert_condition stamp
upsert-IsContent now generation c e [] f h = cc
upsert-IsContent now generation c e (x ∷ cs) f h = elim (Bool-cases (x.kind == c.kind)) [
  | inl same ↦
      let x_is_e : x ≡ e = some-injective x e (rw same at f) in
      rw (kind-stamp now generation c, same)
        (ap (λ y. y ∷ cs)
          (update-IsContent now generation c x (subst (IsContent generation c) (sym x_is_e) h)))
  | inr other ↦
      rw (kind-stamp now generation c, other)
        (ap (λ r. x ∷ r) (upsert-IsContent now generation c e cs (rw other at f) h))
]

-- Writing what is there changes nothing, whatever the clock says.
pub set_condition_settled :
    (now : ℕ) (c : Condition) (s : GenericClusterStatus) → IsSettled c s → set_condition now c s ≡ s
unfolding set_condition get_condition
set_condition_settled now c s (e, f, h) =
    ap (λ (cs : List Condition). record s { conditions = cs })
      (upsert-IsContent now s.observed_generation c e s.conditions f h)

generation-set :
    (now : ℕ) (c : Condition) (s : GenericClusterStatus)
    → (set_condition now c s).observed_generation ≡ s.observed_generation
unfolding set_condition
generation-set now c s = refl

merged-IsContent :
    (now : ℕ) (generation : ℤ) (c : Condition) (o : Option Condition)
    → IsContent generation c (merged (stamp now generation c) o)
unfolding update_condition stamp
merged-IsContent now generation c none = record {
  status = refl;
  reason = refl;
  message = refl;
  generation_same = refl;
}
merged-IsContent now generation c (some e) = record {
  status = ground (arith, string_eq.beq_iff e.status c.status);
  reason = ground arith;
  message = ground arith;
  generation_same = ground arith;
}

-- A write settles its own condition.
pub set_condition-IsSettled :
    (now : ℕ) (c : Condition) (s : GenericClusterStatus) → IsSettled c (set_condition now c s)
set_condition-IsSettled now c s = (
  merged (stamp now s.observed_generation c) (get_condition s c.kind),
  get_condition-merged now c s c.kind ∙ rw (==_refl c.kind),
  rw (generation-set now c s)
      (merged-IsContent now s.observed_generation c (get_condition s c.kind)),
)

-- A write keeps every settled condition of another type settled.
pub set_condition-IsSettled_other :
    (now : ℕ) (c d : Condition) (s : GenericClusterStatus)
    → (c.kind == d.kind) ≡ false
    → IsSettled d s
    → IsSettled d (set_condition now c s)
set_condition-IsSettled_other now c d s ne (e, f, h) =
    (e, get_condition-merged now c s d.kind ∙ rw ne f, rw (generation-set now c s) h)

-- `SetCondition` is idempotent up to the clock: the same condition written again, at any later
-- time, leaves the status as it is, transition time included.
pub set_condition_again :
    (now later : ℕ) (c : Condition) (s : GenericClusterStatus)
    → set_condition later c (set_condition now c s) ≡ set_condition now c s
set_condition_again now later c s =
    set_condition_settled later c (set_condition now c s) (set_condition-IsSettled now c s)

-- A type occurs once, as `+listMapKey=type` asks.
abbrev pub HasDistinctTypes : List Condition → Type 0
HasDistinctTypes [] = Unit
HasDistinctTypes (c ∷ cs) = (find_condition c.kind cs ≡ none) × HasDistinctTypes cs

kind-update : (c e : Condition) → (update_condition c e).kind ≡ e.kind
unfolding update_condition
kind-update c e = ground arith

upsert-HasDistinctTypes :
    (c : Condition) (cs : List Condition)
    → HasDistinctTypes cs
    → HasDistinctTypes (upsert_condition c cs)
unfolding upsert_condition
upsert-HasDistinctTypes c [] h = (unfold find_condition in refl, tt)
upsert-HasDistinctTypes c (e ∷ cs) h = elim (Bool-cases (e.kind == c.kind)) [
  | inl same ↦ rw same (rw (kind-update c e) h.0, h.1)
  | inr other ↦ rw other (
    find-upsert e.kind c cs ∙ rw (==_comm c.kind e.kind ∙ other) h.0,
    upsert-HasDistinctTypes c cs h.1,
  )
]

-- A write keeps one condition for each type.
pub set_condition-HasDistinctTypes :
    (now : ℕ) (c : Condition) (s : GenericClusterStatus)
    → HasDistinctTypes s.conditions
    → HasDistinctTypes (set_condition now c s).conditions
unfolding set_condition
set_condition-HasDistinctTypes now c s h =
    upsert-HasDistinctTypes (stamp now s.observed_generation c) s.conditions h
