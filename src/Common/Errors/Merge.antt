-- ===== src/Common/Errors/Merge.antt =====
-- Merging the waits of one pass, and the bounds on a wait's delay.
use operator_go.Prelude.{
  true, false, Option, none, some, List, [], ◌∷◌, ◌≡◌, sym, ◌∙◌, ◌↔◌, ◌⊎◌, inl, inr, All, Member,
  arith, Bool-cases,
}
use operator_go.Prelude.Int.{pos, negsuc, ltz, ltz_irrefl, ltz_asymm, not-ltz_trans}
use operator_go.Common.Errors.{
  Duration, min_requeue_after, default_requeue_after, clamp_requeue_after, WaitState, merge_wait,
}

-- A clamped delay is at least `MinRequeueAfter`, a delay of at least that is kept, clamping twice
-- is clamping once, and a delay that is not positive becomes `DefaultRequeueAfter`.
pub clamp_requeue_after_bounds :
    (d : Duration)
    → (ltz (clamp_requeue_after d) min_requeue_after ≡ false)
      × (ltz d min_requeue_after ≡ false → clamp_requeue_after d ≡ d)
      × (clamp_requeue_after (clamp_requeue_after d) ≡ clamp_requeue_after d)
      × (ltz d (pos 1) ≡ true → clamp_requeue_after d ≡ default_requeue_after)
unfolding clamp_requeue_after
clamp_requeue_after_bounds (pos n) = ground arith
clamp_requeue_after_bounds (negsuc n) = ground arith

-- The waits that the sites of a pass raise, merged in order.
abbrev pub merge_all : Option WaitState → List (Option WaitState) → Option WaitState
merge_all w [] = w
merge_all w (n ∷ ns) = merge_all (merge_wait w n) ns

-- The wait is not sooner than `w`.
abbrev pub IsLater : WaitState → Option WaitState → Type 0
IsLater w none = Unit
IsLater w (some v) = ltz v.after w.after ≡ false

-- The merge of two waits is one of them, and what is no sooner than it is no sooner than both.
merge_wait-IsLater :
    (a b : Option WaitState) (v : WaitState)
    → IsLater v (merge_wait a b)
    → IsLater v a × IsLater v b
unfolding merge_wait
merge_wait-IsLater none b v h = (tt, h)
merge_wait-IsLater (some a) none v h = (h, tt)
merge_wait-IsLater (some a) (some b) v h = elim (Bool-cases (ltz b.after a.after)) [
  | inl less ↦
      let later : ltz b.after v.after ≡ false = rw less at h in
      (not-ltz_trans a.after b.after v.after (ltz_asymm b.after a.after less) later, later)
  | inr more ↦
      let later : ltz a.after v.after ≡ false = rw more at h in
      (later, not-ltz_trans b.after a.after v.after more later)
]

merge_wait-origin : (a b : Option WaitState) → (merge_wait a b ≡ a) ⊎ (merge_wait a b ≡ b)
unfolding merge_wait
merge_wait-origin a b = ground arith

merge_wait-eq-none : (a b : Option WaitState) → (merge_wait a b ≡ none) ↔ ((a ≡ none) × (b ≡ none))
unfolding merge_wait
merge_wait-eq-none a b = ground arith

merge_all-earliest_some :
    (w : Option WaitState) (ns : List (Option WaitState)) (v : WaitState)
    → merge_all w ns ≡ some v
    → Member (some v) (w ∷ ns) × All (IsLater v) (w ∷ ns)
merge_all-earliest_some w [] v h = (inl h, (rw h (ltz_irrefl v.after), tt))
merge_all-earliest_some w (n ∷ ns) v h =
    let (m, l) = merge_all-earliest_some (merge_wait w n) ns v h in
    let (lw, ln) = merge_wait-IsLater w n v l.0 in
    (
      elim m [
        | inl e ↦ elim (merge_wait-origin w n) [
          | inl p ↦ inl (sym p ∙ e)
          | inr q ↦ inr (inl (sym q ∙ e))
        ]
        | inr k ↦ inr (inr k)
      ],
      (lw, (ln, l.1)),
    )

merge_all-none :
    (w : Option WaitState) (ns : List (Option WaitState))
    → (merge_all w ns ≡ none) ↔ All (λ n. n ≡ none) (w ∷ ns)
merge_all-none w [] = (λ h. (h, tt), λ h. h.0)
merge_all-none w (n ∷ ns) =
    let (there, back) = merge_all-none (merge_wait w n) ns in
    let (split, join) = merge_wait-eq-none w n in
    (
      λ h. let (e, l) = there h in ((split e).0, ((split e).1, l)),
      λ (a, (b, l)). back (join (a, b), l),
    )

-- The wait that a pass reports after merging is one of those raised, and none raised is sooner; it
-- reports none exactly when none was raised.
pub merge_all-earliest :
    (w : Option WaitState) (ns : List (Option WaitState))
    → ((v : WaitState)
        → merge_all w ns ≡ some v
        → Member (some v) (w ∷ ns) × All (IsLater v) (w ∷ ns))
      × ((merge_all w ns ≡ none) ↔ All (λ n. n ≡ none) (w ∷ ns))
merge_all-earliest w ns = (merge_all-earliest_some w ns, merge_all-none w ns)
