-- ===== src/Common/Errors/Leaves.antt =====
-- What `WaitingErrors` answers, told by the leaves of the error tree.
use operator_go.Prelude.{
  false, Option, none, some, List, [], ◌∷◌, ◌++◌, ◌≡◌, refl, sym, ◌⊎◌, inl, inr, All, All-map,
  All-append, Member, Member-append_left, Member-append_right, Bool-cases, Option-cases,
}
use mathlib.Core.Option.{some-injective}
use mathlib.Core.Logic.{◌↔◌}
use operator_go.Prelude.Int.{ltz, ltz_irrefl, ltz_asymm, not-ltz_trans}
use operator_go.Common.Errors.{
  Duration, RequeueAfterError, clamp_requeue_after, Err, Errs, opaque, waiting, wrapped, bare,
  joined, nil, cons, shorter, waiting_errors, waiting_members,
}

-- A leaf is a wait, or `none` for a failure: an opaque error, a wrapper of nothing, an empty join.
abbrev pub Leaf : Type 0
Leaf = Option RequeueAfterError

unfoldable mutual
  pub leaves : Err → List Leaf
  leaves (opaque m) = none ∷ []
  leaves (waiting w) = some w ∷ []
  leaves (wrapped k e) = leaves e
  leaves (bare k) = none ∷ []
  leaves (joined nil) = none ∷ []
  leaves (joined (cons e es)) = leaves e ++ leaves_members es

  pub leaves_members : Errs → List Leaf
  leaves_members nil = []
  leaves_members (cons e es) = leaves e ++ leaves_members es

abbrev pub delay : RequeueAfterError → Duration
delay w = clamp_requeue_after w.after

-- The leaf is a wait, and no shorter one than `w`.
abbrev pub IsNoShorter : RequeueAfterError → Leaf → Type 0
IsNoShorter w l = (v : RequeueAfterError) × (l ≡ some v) × (ltz (delay v) (delay w) ≡ false)

weaken :
    (v w : RequeueAfterError) (ls : List Leaf)
    → ltz (delay v) (delay w) ≡ false
    → All (IsNoShorter v) ls
    → All (IsNoShorter w) ls
weaken v w ls h =
    All-map (IsNoShorter v) (IsNoShorter w) ls
      λ l p. (p.0, p.1, not-ltz_trans (delay p.0) (delay v) (delay w) p.2 h)

-- What the loop over the members knows of its result `w` when it starts from the wait `s`.
record LoopResult (s w : RequeueAfterError) (ls : List Leaf) : Type 0 where
  origin : (s ≡ w) ⊎ Member (some w) ls
  start : ltz (delay s) (delay w) ≡ false
  rest : All (IsNoShorter w) ls

abbrev TreeResult : RequeueAfterError → List Leaf → Type 0
TreeResult w ls = Member (some w) ls × All (IsNoShorter w) ls

-- One more member, with result `v`, between the wait so far and the loop over the others.
loop_step :
    (s v w : RequeueAfterError) (ls ms : List Leaf)
    → TreeResult v ls
    → LoopResult (shorter (some s) v) w ms
    → LoopResult s w (ls ++ ms)
unfolding shorter
loop_step s v w ls ms t r = elim (Bool-cases (ltz (delay v) (delay s))) [
  | inl less ↦
      let r' : LoopResult v w ms = rw less at r in
      record {
        origin = elim r'.origin [
          | inl e ↦ inr (Member-append_left (some w) ls ms (rw e at t.0))
          | inr m ↦ inr (Member-append_right (some w) ls ms m)
        ];
        start =
            not-ltz_trans (delay s) (delay v) (delay w) (ltz_asymm (delay v) (delay s) less)
              r'.start;
        rest = All-append (IsNoShorter w) ls ms (weaken v w ls r'.start t.1) r'.rest;
      }
  | inr more ↦
      let r' : LoopResult s w ms = rw more at r in
      record {
        origin = elim r'.origin [
          | inl e ↦ inl e
          | inr m ↦ inr (Member-append_right (some w) ls ms m)
        ];
        start = r'.start;
        rest =
            All-append (IsNoShorter w) ls ms
              (weaken v w ls (not-ltz_trans (delay v) (delay s) (delay w) more r'.start) t.1)
              r'.rest;
      }
]

first_step :
    (v w : RequeueAfterError) (ls ms : List Leaf)
    → TreeResult v ls
    → LoopResult v w ms
    → TreeResult w (ls ++ ms)
first_step v w ls ms t r = (
  elim r.origin [
    | inl e ↦ Member-append_left (some w) ls ms (rw e at t.0)
    | inr m ↦ Member-append_right (some w) ls ms m
  ],
  All-append (IsNoShorter w) ls ms (weaken v w ls r.start t.1) r.rest,
)

-- The loop went on past a member: that member is a wait.
member_waits :
    (e : Err) (es : Errs) (s : Option RequeueAfterError) (w : RequeueAfterError)
    → waiting_members (cons e es) s ≡ some w
    → (v : RequeueAfterError) × (waiting_errors e ≡ some v)
      × (waiting_members es (some (shorter s v)) ≡ some w)
unfolding waiting_members
member_waits e es s w h = elim (Option-cases (waiting_errors e)) [
  | inl stop ↦ cc (sym (rw (stop, waiting_members) at h))
  | inr (v, go) ↦ (v, go, rw (go, waiting_members) at h)
]

mutual
  unfolding waiting_errors leaves shorter

  waiting-TreeResult :
      (e : Err) (w : RequeueAfterError) → waiting_errors e ≡ some w → TreeResult w (leaves e)
  waiting-TreeResult (opaque m) w h = cc
  waiting-TreeResult (waiting v) w h =
      (inl h, ((v, refl, rw (some-injective v w h) (ltz_irrefl (delay w))), tt))
  waiting-TreeResult (wrapped k e) w h = waiting-TreeResult e w h
  waiting-TreeResult (bare k) w h = cc
  waiting-TreeResult (joined nil) w h = cc
  waiting-TreeResult (joined (cons e es)) w h =
      let (v, first, rest) = member_waits e es none w h in
      first_step v w (leaves e) (leaves_members es) (waiting-TreeResult e v first)
        (members-LoopResult es v w rest)

  members-LoopResult :
      (es : Errs) (s w : RequeueAfterError)
      → waiting_members es (some s) ≡ some w
      → LoopResult s w (leaves_members es)
  members-LoopResult nil s w h = record {
    origin = inl (some-injective s w h);
    start = rw (some-injective s w h) (ltz_irrefl (delay w));
    rest = tt;
  }
  members-LoopResult (cons e es) s w h =
      let (v, first, rest) = member_waits e es (some s) w h in
      loop_step s v w (leaves e) (leaves_members es) (waiting-TreeResult e v first)
        (members-LoopResult es (shorter (some s) v) w rest)

mutual
  unfolding waiting_errors leaves

  no_wait-failure : (e : Err) → waiting_errors e ≡ none → Member none (leaves e)
  no_wait-failure (opaque m) h = inl refl
  no_wait-failure (waiting v) h = cc
  no_wait-failure (wrapped k e) h = no_wait-failure e h
  no_wait-failure (bare k) h = inl refl
  no_wait-failure (joined nil) h = inl refl
  no_wait-failure (joined (cons e es)) h = elim (Option-cases (waiting_errors e)) [
    | inl stop ↦ Member-append_left none (leaves e) (leaves_members es) (no_wait-failure e stop)
    | inr (v, go) ↦
        Member-append_right none (leaves e) (leaves_members es)
          (no_wait_members-failure es (shorter none v) (rw (go, waiting_members) at h))
  ]

  no_wait_members-failure :
      (es : Errs) (s : RequeueAfterError)
      → waiting_members es (some s) ≡ none
      → Member none (leaves_members es)
  no_wait_members-failure nil s h = cc
  no_wait_members-failure (cons e es) s h = elim (Option-cases (waiting_errors e)) [
    | inl stop ↦ Member-append_left none (leaves e) (leaves_members es) (no_wait-failure e stop)
    | inr (v, go) ↦
        Member-append_right none (leaves e) (leaves_members es)
          (no_wait_members-failure es (shorter (some s) v) (rw (go, waiting_members) at h))
  ]

-- An error tree is reported as a wait `w` only if `w` is one of its leaves, every leaf is a wait,
-- and none has a shorter clamped delay; it is no wait exactly when some leaf is a failure.
pub waiting_errors-leaves :
    (e : Err)
    → ((w : RequeueAfterError)
        → waiting_errors e ≡ some w
        → Member (some w) (leaves e) × All (IsNoShorter w) (leaves e))
      × ((waiting_errors e ≡ none) ↔ Member none (leaves e))
waiting_errors-leaves e = (
  λ w h. waiting-TreeResult e w h,
  (λ h. no_wait-failure e h, λ m. no_wait_of_failure (waiting_errors e) refl m),
)
  where
    no_failure :
        (w : RequeueAfterError) (ls : List Leaf) → All (IsNoShorter w) ls → ¬ Member none ls
    no_failure w [] a m = m
    no_failure w (l ∷ ls) a (inl p) = cc (a.0.1)
    no_failure w (l ∷ ls) a (inr m) = no_failure w ls a.1 m

    no_wait_of_failure :
        (o : Leaf) → waiting_errors e ≡ o → Member none (leaves e) → waiting_errors e ≡ none
    no_wait_of_failure none h m = h
    no_wait_of_failure (some w) h m =
        absurd (no_failure w (leaves e) (waiting-TreeResult e w h).1 m)
