-- ===== src/Common/Extensions/Runs.antt =====
-- One pass of hooks: which hooks run, and what the returned error says of their outcomes.
use operator_go.Prelude.{
  String, true, false, Option, none, some, List, [], ◌∷◌, ◌++◌, ◌≡◌, refl, sym, ◌∙◌, inl, inr, ◌↔◌,
  All, is_empty, is_some, if◌then◌else◌, Bool-cases, Option-cases,
}
use operator_go.Common.Errors.{
  RequeueAfterError, Err, wrapped, joined, extension, shorter, waiting_errors, waiting_members,
}
use operator_go.Common.Extensions.{
  ExtensionEntry, HookPolicy, error_hook_policy, stops_on_error, Verdict, go_on, stop, to_errs,
  join, after_hook, execute_hooks, ExtensionRegistry, execute_cluster_on_error,
}

-- The error is a wait and nothing else.
abbrev pub IsWait : Err → Type 0
IsWait e = (w : RequeueAfterError) × (waiting_errors e ≡ some w)

-- No failure: no error, or a wait.
abbrev pub IsCalm : Option Err → Type 0
IsCalm none = Unit
IsCalm (some e) = IsWait e

members_of_All :
    (errs : List Err) (s : RequeueAfterError)
    → All IsWait errs
    → (w : RequeueAfterError) × (waiting_members (to_errs errs) (some s) ≡ some w)
unfolding waiting_members
members_of_All [] s h = (s, refl)
members_of_All (e ∷ es) s ((w, p), h) =
    let (v, q) = members_of_All es (shorter (some s) w) h in (v, rw (p, waiting_members) q)

All-of_members :
    (errs : List Err) (s w : RequeueAfterError)
    → waiting_members (to_errs errs) (some s) ≡ some w
    → All IsWait errs
unfolding waiting_members
All-of_members [] s w h = tt
All-of_members (e ∷ es) s w h = elim (Option-cases (waiting_errors e)) [
  | inl stops ↦ cc (rw (stops, waiting_members) at h)
  | inr (v, go) ↦
      ((v, go), All-of_members es (shorter (some s) v) w (rw (go, waiting_members) at h))
]

-- A join is calm exactly when all that it joins are waits.
join-IsCalm : (errs : List Err) → IsCalm (join errs) ↔ All IsWait errs
unfolding waiting_errors waiting_members
join-IsCalm [] = (λ h. tt, λ h. tt)
join-IsCalm (e ∷ es) = (
  λ (w, h). elim (Option-cases (waiting_errors e)) [
    | inl stops ↦ cc (rw (stops, waiting_members) at h)
    | inr (v, go) ↦ ((v, go), All-of_members es (shorter none v) w (rw (go, waiting_members) at h))
  ],
  λ ((v, go), h).
      let (w, q) = members_of_All es (shorter none v) h in (w, rw (go, waiting_members) q),
)

IsWait-concat :
    (errs : List Err) (e : Err) → All IsWait (errs ++ e ∷ []) ↔ (All IsWait errs × IsWait e)
IsWait-concat [] e = (λ h. (tt, h.0), λ h. (h.1, tt))
IsWait-concat (x ∷ errs) e =
    let (there, back) = IsWait-concat errs e in
    (λ h. ((h.0, (there h.1).0), (there h.1).1), λ (h, w). (h.0, back (h.1, w)))

abbrev extension_err : String → Err → Err
extension_err n e = wrapped (extension n) e

-- `ExtensionError` is a wait when its cause is.
extension_err-IsWait : (n : String) (e : Err) → IsWait (extension_err n e) ↔ IsWait e
unfolding waiting_errors
extension_err-IsWait n e = (λ h. h, λ h. h)

-- What a hook's outcome does to the loop, by whether it is calm.
data Effect (o : Option Err) (errs : List Err) (v : Verdict) : Type 0 where
  calm :
      (errs' : List Err)
      → IsCalm o
      → v ≡ go_on errs'
      → All IsWait errs' ↔ All IsWait errs
      → Effect o errs v
  collected :
      (errs' : List Err) → ¬ IsCalm o → v ≡ go_on errs' → ¬ All IsWait errs' → Effect o errs v
  stopped : (e : Err) → ¬ IsCalm o → v ≡ stop e → ¬ IsWait e → Effect o errs v

stopped_with :
    {o : Option Err} (errs : List Err) (failure : Err)
    → ¬ IsCalm o
    → ¬ IsWait failure
    → ¬ All IsWait (errs ++ failure ∷ [])
    → Effect o errs
        (stop (if is_empty errs then failure else joined (to_errs (errs ++ failure ∷ []))))
stopped_with [] failure fails no_failure tainted = stopped failure fails refl no_failure
stopped_with (e ∷ errs) failure fails no_failure tainted =
    stopped (joined (to_errs (e ∷ errs ++ failure ∷ []))) fails refl
      (λ h. tainted ((join-IsCalm (e ∷ (errs ++ failure ∷ []))).0 h))

module _ {T S : Type 0} (name : T → String) (policy : HookPolicy)
    (hook : T → S → Option Err × S) where
  after_hook-Effect :
      policy.aggregate ≡ true
      → (entry : ExtensionEntry T) (o : Option Err) (errs : List Err)
      → Effect o errs (after_hook name policy hook entry o errs)
  unfolding after_hook
  after_hook-Effect agg entry none errs = calm errs tt refl (λ h. h, λ h. h)
  after_hook-Effect agg entry (some err) errs =
      let failure = extension_err (name entry.extension) err in
      elim (Option-cases (waiting_errors err)) [
        | inr (w, go) ↦ rw go (
            calm (errs ++ failure ∷ []) (w, go) refl
              (
                λ h. ((IsWait-concat errs failure).0 h).0,
                λ h.
                    (IsWait-concat errs failure).1
                      (h, (extension_err-IsWait (name entry.extension) err).1 (w, go)),
              ))
        | inl fails ↦
            let no_wait : ¬ IsWait err = λ (w, go). cc (sym fails ∙ go) in
            let no_failure : ¬ IsWait failure =
              λ h. no_wait ((extension_err-IsWait (name entry.extension) err).0 h) in
            let tainted : ¬ All IsWait (errs ++ failure ∷ []) =
              λ h. no_failure ((IsWait-concat errs failure).0 h).1 in
            rw fails (elim (Bool-cases (stops_on_error entry policy.stop_on_error)) [
              | inl stops ↦ rw stops (stopped_with errs failure no_wait no_failure tainted)
              | inr goes ↦ rw (goes, agg) (collected (errs ++ failure ∷ []) no_wait refl tainted)
            ])
      ]

  -- The hooks that ran, as a change of the world.
  abbrev pub run_hooks : List (ExtensionEntry T) → S → S
  run_hooks [] s = s
  run_hooks (entry ∷ entries) s = run_hooks entries (hook entry.extension s).1

  -- The outcome of every hook, each run in the world that the ones before it left.
  abbrev pub AllOutcomes : (Option Err → Type 0) → List (ExtensionEntry T) → S → Type 0
  AllOutcomes P [] s = Unit
  AllOutcomes P (entry ∷ entries) s =
      P (hook entry.extension s).0 × AllOutcomes P entries (hook entry.extension s).1

  abbrev run : List (ExtensionEntry T) → List Err → S → Option Err × S
  run = execute_hooks name policy hook

  run_step_go_on :
      (entry : ExtensionEntry T) (entries : List (ExtensionEntry T)) (errs errs' : List Err) (s : S)
      → after_hook name policy hook entry (hook entry.extension s).0 errs ≡ go_on errs'
      → run (entry ∷ entries) errs s ≡ run entries errs' (hook entry.extension s).1
  unfolding execute_hooks
  run_step_go_on entry entries errs errs' s e = rw (e, execute_hooks)

  run_step_stop :
      (entry : ExtensionEntry T) (entries : List (ExtensionEntry T)) (errs : List Err) (s : S)
      (err : Err)
      → after_hook name policy hook entry (hook entry.extension s).0 errs ≡ stop err
      → run (entry ∷ entries) errs s ≡ (some err, (hook entry.extension s).1)
  unfolding execute_hooks
  run_step_stop entry entries errs s err e = rw (e, execute_hooks)

  -- A hook that does not stop the loop lets it go on.
  after_hook_tolerant :
      (entry : ExtensionEntry T) (o : Option Err) (errs : List Err)
      → stops_on_error entry policy.stop_on_error ≡ false
      → (errs' : List Err) × (after_hook name policy hook entry o errs ≡ go_on errs')
  unfolding after_hook
  after_hook_tolerant entry none errs h = (errs, refl)
  after_hook_tolerant entry (some err) errs h =
      let failure = extension_err (name entry.extension) err in
      elim (Bool-cases (is_some (waiting_errors err))) [
        | inl go ↦ (errs ++ failure ∷ [], rw go)
        | inr fails ↦ (if policy.aggregate then errs ++ failure ∷ [] else errs, rw fails (rw h))
      ]

  run_tolerant :
      (entries : List (ExtensionEntry T)) (errs : List Err) (s : S)
      → All (λ e. stops_on_error e policy.stop_on_error ≡ false) entries
      → (run entries errs s).1 ≡ run_hooks entries s
  unfolding execute_hooks
  run_tolerant [] errs s h = refl
  run_tolerant (entry ∷ entries) errs s h =
      let (o, s') = hook entry.extension s in
      let (errs', e) = after_hook_tolerant entry o errs h.0 in
      rw (run_step_go_on entry entries errs errs' s e) (run_tolerant entries errs' s' h.1)

  module _ (agg : policy.aggregate ≡ true) where
    run-IsCalm :
        (entries : List (ExtensionEntry T)) (errs : List Err) (s : S)
        → IsCalm (run entries errs s).0 ↔ (All IsWait errs × AllOutcomes IsCalm entries s)
    unfolding execute_hooks
    run-IsCalm [] errs s = (λ h. ((join-IsCalm errs).0 h, tt), λ h. (join-IsCalm errs).1 h.0)
    run-IsCalm (entry ∷ entries) errs s =
        let (o, s') = hook entry.extension s in
        elim (after_hook-Effect agg entry o errs) [
          | calm errs' c e same ↦
              let step = run_step_go_on entry entries errs errs' s e in
              let later = run-IsCalm entries errs' s' in
              (
                λ h. let (w, a) = later.0 (rw step at h) in (same.0 w, (c, a)),
                λ h. rw step (later.1 (same.1 h.0, h.1.1)),
              )
          | collected errs' fails e bad ↦
              let step = run_step_go_on entry entries errs errs' s e in
              (
                λ h. absurd (bad ((run-IsCalm entries errs' s').0 (rw step at h)).0),
                λ h. absurd (fails h.1.0),
              )
          | stopped err fails e bad ↦
              let step = run_step_stop entry entries errs s err e in
              (λ h. absurd (bad (rw step at h)), λ h. absurd (fails h.1.0))
        ]

    run_calm_all :
        (entries : List (ExtensionEntry T)) (errs : List Err) (s : S)
        → IsCalm (run entries errs s).0
        → (run entries errs s).1 ≡ run_hooks entries s
    unfolding execute_hooks
    run_calm_all [] errs s h = refl
    run_calm_all (entry ∷ entries) errs s h =
        let (o, s') = hook entry.extension s in
        elim (after_hook-Effect agg entry o errs) [
          | calm errs' c e same ↦
              let step = run_step_go_on entry entries errs errs' s e in
              rw step (run_calm_all entries errs' s' (rw step at h))
          | collected errs' fails e bad ↦
              let step = run_step_go_on entry entries errs errs' s e in
              rw step (run_calm_all entries errs' s' (rw step at h))
          | stopped err fails e bad ↦
              absurd (bad (rw (run_step_stop entry entries errs s err e) at h))
        ]

    -- Under a policy that aggregates, the error of a pass of hooks is nil or a wait exactly when
    -- every hook's is, and then every hook has run: a wait neither stops the extensions after it
    -- nor hides a failure of another.
    pub execute_hooks-IsCalm :
        (entries : List (ExtensionEntry T)) (s : S)
        → (IsCalm (execute_hooks name policy hook entries [] s).0 ↔ AllOutcomes IsCalm entries s)
          × (IsCalm (execute_hooks name policy hook entries [] s).0
              → (execute_hooks name policy hook entries [] s).1 ≡ run_hooks entries s)
    execute_hooks-IsCalm entries s = (
      (λ h. ((run-IsCalm entries [] s).0 h).1, λ h. (run-IsCalm entries [] s).1 (tt, h)),
      run_calm_all entries [] s,
    )

-- Every `OnReconcileError` handler runs, whatever the handlers before it returned, unless one was
-- registered to stop on error.
pub execute_cluster_on_error-All :
    {C R G S : Type 0} (r : ExtensionRegistry C R G) (name : C → String)
    (handler : C → S → Option Err × S) (s : S)
    → All (λ e. stops_on_error e false ≡ false) r.cluster_extensions
    → (execute_cluster_on_error r name handler s).1
      ≡ run_hooks name error_hook_policy handler r.cluster_extensions s
unfolding execute_cluster_on_error
execute_cluster_on_error-All r name handler s h =
    run_tolerant name error_hook_policy handler r.cluster_extensions [] s h
