-- ===== src/Common/Errors.antt =====
-- Error trees and waits: pkg/common/errors.go and the typed errors of pkg/reconciler/errors.go.
-- A nil `error` is `none`; a non-nil one is a tree whose nodes are what `Unwrap` shows.
pub mod Leaves
pub mod Merge
use operator_go.Prelude.{
  ℕ, ◌*◌, String, Bool, true, false, ◌||◌, Option, none, some, ◌≡◌, refl, if◌then◌else◌,
}
use operator_go.Prelude.Eq.{◌==◌, string_eq}
use operator_go.Prelude.Int.{ℤ, pos, ltz}

-- `time.Duration`, an int64 count of nanoseconds; the code only compares durations.
abbrev pub Duration : Type 0
Duration = ℤ

abbrev pub second : ℕ
second = 1000000000

abbrev pub min_requeue_after : Duration
min_requeue_after = pos (1 * second)

abbrev pub default_requeue_after : Duration
default_requeue_after = pos (10 * second)

pub record RequeueAfterError : Type 0 where
  pub after : Duration
  pub reason : String
  pub message : String

unfoldable pub clamp_requeue_after : Duration → Duration
clamp_requeue_after after =
    if ltz after (pos 1)
    then default_requeue_after
    else if ltz after min_requeue_after
    then min_requeue_after
    else after

unfoldable pub new_requeue_after_error : Duration → String → String → RequeueAfterError
new_requeue_after_error after reason message = record {
  after = clamp_requeue_after after;
  reason = reason;
  message = message;
}

-- The wrapping error types, each with the fields that the code reads.
pub data Wrapper : Type 0 where
  extension : String → Wrapper
  rate_limit : Duration → Wrapper
  config : String → String → Wrapper
  reconcile : String → String → Wrapper
  resource_build : String → String → String → String → Wrapper
  resource_apply : String → String → String → String → Wrapper
  validation : String → String → String → Wrapper
  formatted : String → Wrapper

mutual
  pub data Err : Type 0 where
    -- an error with no `Unwrap`
    opaque : String → Err
    waiting : RequeueAfterError → Err
    -- `Unwrap() error`, non-nil
    wrapped : Wrapper → Err → Err
    -- `Unwrap() error`, nil
    bare : Wrapper → Err
    -- `Unwrap() []error`
    joined : Errs → Err

  pub data Errs : Type 0 where
    nil : Errs
    cons : Err → Errs → Errs

-- Of the shortest wait so far and the next member's.
unfoldable pub shorter : Option RequeueAfterError → RequeueAfterError → RequeueAfterError
shorter none w = w
shorter (some s) w =
    if ltz (clamp_requeue_after w.after) (clamp_requeue_after s.after) then w else s

unfoldable mutual
  pub waiting_errors : Err → Option RequeueAfterError
  waiting_errors (opaque m) = none
  waiting_errors (waiting w) = some w
  waiting_errors (wrapped k e) = waiting_errors e
  waiting_errors (bare k) = none
  waiting_errors (joined es) = waiting_members es none

  -- the loop over the members, with `shortest`; with no member it stays nil, and that is no wait
  pub waiting_members : Errs → Option RequeueAfterError → Option RequeueAfterError
  waiting_members nil shortest = shortest
  waiting_members (cons e es) shortest = elim (waiting_errors e) [
    | none ↦ none
    | some w ↦ waiting_members es (some (shorter shortest w))
  ]

unfoldable mutual
  -- `errors.As` for a `*RequeueAfterError`
  pub is_requeue_after_error : Err → Bool
  is_requeue_after_error (opaque m) = false
  is_requeue_after_error (waiting w) = true
  is_requeue_after_error (wrapped k e) = is_requeue_after_error e
  is_requeue_after_error (bare k) = false
  is_requeue_after_error (joined es) = has_requeue_after_error es

  pub has_requeue_after_error : Errs → Bool
  has_requeue_after_error nil = false
  has_requeue_after_error (cons e es) = is_requeue_after_error e || has_requeue_after_error es

abbrev pub is_rate_limit : Wrapper → Bool
is_rate_limit (rate_limit d) = true
is_rate_limit _ = false

unfoldable mutual
  -- `errors.As` for a `*RateLimitError`
  pub is_rate_limit_error : Err → Bool
  is_rate_limit_error (opaque m) = false
  is_rate_limit_error (waiting w) = false
  is_rate_limit_error (wrapped k e) = is_rate_limit k || is_rate_limit_error e
  is_rate_limit_error (bare k) = is_rate_limit k
  is_rate_limit_error (joined es) = has_rate_limit_error es

  pub has_rate_limit_error : Errs → Bool
  has_rate_limit_error nil = false
  has_rate_limit_error (cons e es) = is_rate_limit_error e || has_rate_limit_error es

-- The wait that a pass reports.
pub record WaitState : Type 0 where
  pub after : Duration
  pub reason : String
  pub message : String

abbrev pub reason_waiting : String
reason_waiting = "Waiting"

-- `rendered` stands for `waitErr.Error()`, a formatted text.
unfoldable pub new_wait_state :
    (RequeueAfterError → String) → Option RequeueAfterError → Option WaitState
new_wait_state rendered none = none
new_wait_state rendered (some w) = some (record {
  after = clamp_requeue_after w.after;
  reason = if w.reason == "" then reason_waiting else w.reason;
  message = if w.message == "" then rendered w else w.message;
})

unfoldable pub merge_wait : Option WaitState → Option WaitState → Option WaitState
merge_wait none next = next
merge_wait (some w) none = some w
merge_wait (some w) (some n) = if ltz n.after w.after then some n else some w

-- The results of a call that may return an error.
pub data Result (A : Type 0) : Type 0 where
  ok : A → Result A
  fail : Err → Result A

abbrev pub IsOk : {A : Type 0} → Result A → Type 0
IsOk (ok out) = Unit
IsOk (fail err) = ⊥

-- What holds of the value, if there is one.
abbrev pub OnOk : {A : Type 0} → (A → Type 0) → Result A → Type 0
OnOk P (ok a) = P a
OnOk P (fail err) = Unit

abbrev pub and_then : {A B : Type 0} → Result A → (A → Result B) → Result B
and_then (ok a) next = next a
and_then (fail err) next = fail err

pub OnOk-and_then :
    {A B : Type 0} (P : A → Type 0) (Q : B → Type 0) (r : Result A) (next : A → Result B)
    → OnOk P r
    → ((a : A) → P a → OnOk Q (next a))
    → OnOk Q (and_then r next)
OnOk-and_then P Q (ok a) next h k = k a h
OnOk-and_then P Q (fail err) next h k = tt

pub OnOk-map :
    {A : Type 0} (P Q : A → Type 0) (r : Result A) → OnOk P r → ((a : A) → P a → Q a) → OnOk Q r
OnOk-map P Q (ok a) h k = k a h
OnOk-map P Q (fail err) h k = tt

pub OnOk-both :
    {A : Type 0} (P Q : A → Type 0) (r : Result A) → OnOk P r → OnOk Q r → OnOk (λ a. P a × Q a) r
OnOk-both P Q (ok a) h k = (h, k)
OnOk-both P Q (fail err) h k = tt

pub OnOk-refl : {A : Type 0} (r : Result A) → OnOk (λ a. r ≡ ok a) r
OnOk-refl (ok a) = refl
OnOk-refl (fail err) = tt
