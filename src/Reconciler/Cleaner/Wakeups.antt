-- ===== src/Reconciler/Cleaner/Wakeups.antt =====
-- A cleanup pass that leaves a role group pending asks to be run again.
use operator_go.Prelude.{
  ℕ, ◌+◌, ◌-◌, ◌*◌, ◌%◌, ◌<◌, Bool, true, false, ◌≡◌, refl, inl, inr, is_empty, leb, arith,
  Bool-cases,
}
use operator_go.Prelude.Eq.{string_eq}
use operator_go.Prelude.Int.{pos, negsuc, ltz}
use operator_go.Common.Errors.{Duration, second, Result, ok, fail}
use operator_go.Reconciler.Cleaner.{RoleGroupCleaner, poll_interval}
use operator_go.Reconciler.Cleaner.Delete.{is_past}
use operator_go.Reconciler.Cleaner.Marks.{round_nat, round_second, remaining_grace}
use operator_go.Reconciler.Cleaner.Discover.{OrphanRef}
use operator_go.Reconciler.Cleaner.Teardown.Bookkeeping.{earliest_requeue, Progress, after_orphan}

abbrev pub IsPositive : Duration → Type 0
IsPositive d = ltz (pos 0) d ≡ true

pub poll-IsPositive : (c : RoleGroupCleaner) → IsPositive (poll_interval c)
unfolding poll_interval
poll-IsPositive c = elim (Bool-cases (ltz (pos 0) c.drain_poll_interval)) [
  | inl given ↦ rw given given
  | inr default ↦ rw default
]

pub earliest-IsPositive :
    (next wait : Duration)
    → IsPositive wait
    → IsPositive (earliest_requeue (earliest_requeue (pos 0) next) wait)
unfolding earliest_requeue
earliest-IsPositive (pos n) (pos w) h = ground arith
earliest-IsPositive (negsuc n) (pos w) h = ground arith
earliest-IsPositive next (negsuc w) h = cc

-- Less than half a second ahead of a reading rounds to nothing.
round-small : (n : ℕ) → n + n < second → round_nat n ≡ 0
round-small n h = let r : n % second ≡ n = omega arith in rw r (ground arith)

overshoot :
    (g marked now later : ℕ)
    → is_past (pos g) marked now ≡ false
    → later + later < now + now + second
    → leb later (marked * second + g) ≡ false
    → later - (marked * second + g) - 1 + 1 + (later - (marked * second + g) - 1 + 1) < second
unfolding is_past
overshoot g marked now later w s late = ground arith

-- The time left, read again less than half a second after the reading that found it positive.
pub remaining-IsPositive :
    (grace : Duration) (marked now later : ℕ)
    → IsPositive grace
    → is_past grace marked now ≡ false
    → later + later < now + now + second
    → IsPositive (remaining_grace grace marked later)
unfolding remaining_grace is_past round_second
remaining-IsPositive (negsuc g) marked now later h w s = cc
remaining-IsPositive (pos g) marked now later h w s =
    elim (Bool-cases (leb later (marked * second + g))) [
      | inl early ↦ rw early (ground arith)
      | inr late ↦
          let small : later
                - (marked * second + g)
                - 1
                + 1
                + (later - (marked * second + g) - 1 + 1)
              < second =
            overshoot g marked now later w s late in
          rw (late, round-small (later - (marked * second + g) - 1 + 1) small)
    ]

-- While a role group is pending, a wait is asked for.
abbrev pub IsAwake : Progress → Type 0
IsAwake p = is_empty p.pending ≡ false → IsPositive p.next_requeue

-- An answer that does not report the role group as deleted asks for a wait.
abbrev pub AsksToWait : Result (Bool × Duration) → Type 0
AsksToWait r = (wait : Duration) → r ≡ ok (false, wait) → IsPositive wait

pub orphan-IsAwake :
    (poll : Duration) (ref : OrphanRef) (r : Result (Bool × Duration)) (p : Progress)
    → IsPositive poll
    → AsksToWait r
    → IsAwake p
    → IsAwake (after_orphan poll ref r p)
unfolding after_orphan
orphan-IsAwake poll ref (fail err) p hp hr h = λ e. earliest-IsPositive p.next_requeue poll hp
orphan-IsAwake poll ref (ok (false, wait)) p hp hr h =
    λ e. earliest-IsPositive p.next_requeue wait (hr wait refl)
orphan-IsAwake poll ref (ok (true, wait)) p hp hr h = h
