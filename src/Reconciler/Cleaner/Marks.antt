-- ===== src/Reconciler/Cleaner/Marks.antt =====
-- The teardown's marks on the primary resources of a role group, in pkg/reconciler/cleaner.go: the
-- grace period of a gray deletion, and the reset for a role group that is back in the spec.
use operator_go.Prelude.{
  ℕ, ◌+◌, ◌-◌, ◌*◌, ◌/◌, ◌%◌, String, Bool, true, false, not, ◌||◌, Option, none, some, List, [],
  ◌∷◌, ◌++◌, is_some, eqb, ltb, if◌then◌else◌,
}
use operator_go.Prelude.Eq.{string_eq}
use operator_go.Prelude.Int.{ℤ, pos, negsuc, minus, plus}
use operator_go.Prelude.Maps.{lookup, insert, delete as delete_key}
use operator_go.Common.Errors.{Duration, second, Err, opaque, wrapped, formatted}
use operator_go.Kube.{
  Kind, stateful_set, config_map, Object, Stamp, at_second, text, Answer, got, refused,
  is_not_found,
}
use operator_go.Kube.Act.{Act, pure, raise, ◌>>=◌, ◌>>◌, on_answer, get, update, tick}
use operator_go.Reconciler.Cleaner.{
  RoleGroupCleaner, Services, annotation_pending_deletion, annotation_drain_started, api_error,
  is_owned_by_cluster, find,
}
use operator_go.Reconciler.Cleaner.Delete.{is_past}

abbrev pub Primary : Type 0
Primary = Kind × Object

abbrev pub primary_of : Kind → Option Object → List Primary
primary_of kind none = []
primary_of kind (some obj) = (kind, obj) ∷ []

-- The second that an annotation's value denotes.
abbrev pub second_of : Option Stamp → Option ℕ
second_of none = none
second_of (some (text t)) = none
second_of (some (at_second t)) = some t

unfoldable pub gray_delete_mark : List Primary → Option ℕ
gray_delete_mark [] = none
gray_delete_mark ((kind, obj) ∷ primaries) =
    elim (second_of (lookup annotation_pending_deletion obj.annotations)) [
      | some t ↦ some t
      | none ↦ gray_delete_mark primaries
    ]

unfoldable pub any_foreign : String → List Primary → Bool
any_foreign owner_uid [] = false
any_foreign owner_uid ((kind, obj) ∷ primaries) =
    not (is_owned_by_cluster obj owner_uid) || any_foreign owner_uid primaries

-- The annotation is the text of the second already.
abbrev pub is_marked_at : ℕ → Object → Bool
is_marked_at t obj = elim (second_of (lookup annotation_pending_deletion obj.annotations)) [
  | none ↦ false
  | some marked ↦ eqb marked t
]

-- `Duration.Round(time.Second)`, halves away from zero
abbrev pub round_nat : ℕ → ℕ
round_nat n = let r = n % second in if ltb (r + r) second then n - r else n + second - r

unfoldable pub round_second : ℤ → ℤ
round_second (pos n) = pos (round_nat n)
round_second (negsuc n) = minus 0 (round_nat (n + 1))

abbrev pub magnitude : ℤ → ℕ
magnitude (pos n) = n
magnitude (negsuc n) = 0

-- `time.Until(markedTime.Add(grace)).Round(time.Second) + time.Second`, at a positive grace period
unfoldable pub remaining_grace : Duration → ℕ → ℕ → Duration
unfolding round_second
remaining_grace grace marked now =
    plus (round_second (minus (marked * second + magnitude grace) now)) second

abbrev pub has_progress : Object → Bool
has_progress obj =
    is_some (lookup annotation_pending_deletion obj.annotations)
    || is_some (lookup annotation_drain_started obj.annotations)

-- Both progress annotations off; `none` where neither is there.
unfoldable pub without_progress : Object → Option Object
without_progress obj =
    if has_progress obj
    then some (record obj {
      annotations =
          delete_key annotation_drain_started
            (delete_key annotation_pending_deletion obj.annotations);
    })
    else none

module _ {W : Type 0} (env : Services W) (c : RoleGroupCleaner) (owner_uid : String) where
  unfoldable pub mark_primaries : ℕ → List Primary → Act W Unit
  mark_primaries t [] = pure tt
  mark_primaries t ((kind, obj) ∷ primaries) = elim (is_marked_at t obj) [
    | true ↦ mark_primaries t primaries
    | false ↦ do
      answer ← update env.client kind (record obj {
        annotations = insert annotation_pending_deletion (at_second t) obj.annotations;
      })
      on_answer answer (λ done. mark_primaries t primaries)
          (λ e.
            raise (wrapped (formatted "failed to mark resource for gray deletion") (api_error c e)))
  ]

  -- Whether the deletion may go on, and else the time left.
  unfoldable pub grace_of_marked : ℕ → Act W (Bool × Duration)
  unfolding remaining_grace is_past
  grace_of_marked marked = do
    now ← tick env.clock
    if is_past c.gray_delete_grace_period marked now then pure (true, pos 0) else do
      later ← tick env.clock
      pure (false, remaining_grace c.gray_delete_grace_period marked later)

  unfoldable pub mark_or_wait : List Primary → Option ℕ → Act W (Bool × Duration)
  unfolding mark_primaries grace_of_marked
  mark_or_wait primaries (some marked) = do mark_primaries marked primaries; grace_of_marked marked
  mark_or_wait primaries none = do
    now ← tick env.clock
    mark_primaries (now / second) primaries
    pure (false, c.gray_delete_grace_period)

  unfoldable pub check_primaries : List Primary → Act W (Bool × Duration)
  unfolding gray_delete_mark any_foreign mark_or_wait
  check_primaries [] = pure (true, pos 0)
  check_primaries (p ∷ primaries) =
      if any_foreign owner_uid (p ∷ primaries)
      then pure (true, pos 0)
      else mark_or_wait (p ∷ primaries) (gray_delete_mark (p ∷ primaries))

  unfoldable pub check_or_mark_gray_delete : String → Act W (Bool × Duration)
  unfolding check_primaries
  check_or_mark_gray_delete name = do
    sts ← find env c stateful_set name
    cm ← find env c config_map name
    check_primaries (primary_of stateful_set sts ++ primary_of config_map cm)

  unfoldable pub clear_primary : Kind → Answer Object → List Err → Act W (List Err)
  unfolding without_progress
  clear_primary kind (refused e) errs =
      pure (if is_not_found e then errs else errs ++ opaque e.text ∷ [])
  clear_primary kind (got obj) errs =
      if not (is_owned_by_cluster obj owner_uid) then pure errs else elim (without_progress obj) [
        | none ↦ pure errs
        | some cleared ↦ do
          answer ← update env.client kind cleared
          on_answer answer (λ done. pure errs) (λ e. pure (errs ++ opaque e.text ∷ []))
      ]

  -- The errors are joined by the caller, which only logs them.
  unfoldable pub clear_teardown_progress : String → Act W (List Err)
  unfolding clear_primary
  clear_teardown_progress name = do
    sts ← get env.client.reader stateful_set name
    errs ← clear_primary stateful_set sts []
    cm ← get env.client.reader config_map name
    clear_primary config_map cm errs
