-- ===== src/Common/Extensions.antt =====
-- The extension registry of pkg/common/extension_registry.go: registration order and hook runs.
-- The mutex is not modelled: an operation runs under its lock, so a run of the registry is a
-- sequence of operations.
pub mod Order
pub mod Runs
use operator_go.Prelude.{
  ℕ, ◌+◌, ◌%◌, ◌^◌, String, Bool, true, false, not, Option, none, some, List, [], ◌∷◌, ◌++◌, map,
  length, is_empty, is_some, ltb, if◌then◌else◌,
}
use operator_go.Prelude.Int.{ℤ, pos, ltz, eqz}
use operator_go.Prelude.Sort.{sort_by}
use operator_go.Common.Errors.{Err, Errs, nil, cons, wrapped, joined, extension, waiting_errors}

-- `ExtensionPriority`, an int.
abbrev pub priority_normal : ℤ
priority_normal = pos 50

pub record ExtensionEntry (T : Type 0) : Type 0 where
  pub extension : T
  pub priority : ℤ
  pub seq : ℕ  -- uint64
  pub stop_on_error : Option Bool

unfoldable pub stops_on_error : {T : Type 0} → ExtensionEntry T → Bool → Bool
stops_on_error e hook_default = elim e.stop_on_error [ some stop ↦ stop | none ↦ hook_default ]

pub data RegistrationOption : Type 0 where
  with_priority : ℤ → RegistrationOption
  with_stop_on_error : Bool → RegistrationOption

pub record RegistrationOptions : Type 0 where
  pub priority : ℤ
  pub stop_on_error : Option Bool

unfoldable pub apply_option : RegistrationOption → RegistrationOptions → RegistrationOptions
apply_option (with_priority p) o = record o { priority = p }
apply_option (with_stop_on_error stop) o = record o { stop_on_error = some stop }

unfoldable pub apply_options : List RegistrationOption → RegistrationOptions → RegistrationOptions
apply_options [] o = o
apply_options (opt ∷ opts) o = apply_options opts (apply_option opt o)

pub record HookPolicy : Type 0 where
  pub stop_on_error : Bool
  pub aggregate : Bool

abbrev pub reconcile_hook_policy : HookPolicy
reconcile_hook_policy = record { stop_on_error = true; aggregate = true }

abbrev pub error_hook_policy : HookPolicy
error_hook_policy = record { stop_on_error = false; aggregate = false }

-- The comparison that `addEntry` sorts by.
unfoldable pub runs_before : {T : Type 0} → ExtensionEntry T → ExtensionEntry T → Bool
runs_before a b =
    if not (eqz a.priority b.priority) then ltz b.priority a.priority else ltb a.seq b.seq

unfoldable pub add_entry :
    {T : Type 0}
    → List (ExtensionEntry T)
    → T
    → ℕ
    → List RegistrationOption
    → List (ExtensionEntry T)
add_entry entries ext seq opts =
    let options =
      apply_options opts (record { priority = priority_normal; stop_on_error = none }) in
    sort_by runs_before (
      entries
      ++ record {
        extension = ext;
        priority = options.priority;
        seq = seq;
        stop_on_error = options.stop_on_error;
      }
        ∷ [])

unfoldable pub extensions_of : {T : Type 0} → List (ExtensionEntry T) → List T
extensions_of = map (λ e. e.extension)

-- The registry of one CR type, over its cluster, role and role group extensions.
pub record ExtensionRegistry (C R G : Type 0) : Type 0 where
  pub cluster_extensions : List (ExtensionEntry C)
  pub role_extensions : List (ExtensionEntry R)
  pub role_group_extensions : List (ExtensionEntry G)
  pub next_seq : ℕ  -- uint64

module _ {C R G : Type 0} where
  unfoldable pub new_extension_registry : ExtensionRegistry C R G
  new_extension_registry = record {
    cluster_extensions = [];
    role_extensions = [];
    role_group_extensions = [];
    next_seq = 0;
  }

  unfoldable pub take_seq : ExtensionRegistry C R G → ℕ × ExtensionRegistry C R G
  take_seq r = (r.next_seq, record r { next_seq = (r.next_seq + 1) % 2 ^ 64 })

  unfoldable pub register_cluster_extension :
      ExtensionRegistry C R G → C → List RegistrationOption → ExtensionRegistry C R G
  register_cluster_extension r ext opts =
      let (seq, r') = take_seq r in
      record r' { cluster_extensions = add_entry r'.cluster_extensions ext seq opts }

  unfoldable pub register_role_extension :
      ExtensionRegistry C R G → R → List RegistrationOption → ExtensionRegistry C R G
  register_role_extension r ext opts =
      let (seq, r') = take_seq r in
      record r' { role_extensions = add_entry r'.role_extensions ext seq opts }

  unfoldable pub register_role_group_extension :
      ExtensionRegistry C R G → G → List RegistrationOption → ExtensionRegistry C R G
  register_role_group_extension r ext opts =
      let (seq, r') = take_seq r in
      record r' { role_group_extensions = add_entry r'.role_group_extensions ext seq opts }

  unfoldable pub clear : ExtensionRegistry C R G → ExtensionRegistry C R G
  clear r = record {
    cluster_extensions = [];
    role_extensions = [];
    role_group_extensions = [];
    next_seq = 0;
  }

  unfoldable pub count : ExtensionRegistry C R G → ℕ
  count r = length r.cluster_extensions + length r.role_extensions + length r.role_group_extensions

  unfoldable pub has_cluster_extensions : ExtensionRegistry C R G → Bool
  has_cluster_extensions r = ltb 0 (length r.cluster_extensions)

-- `errors.Join` of non-nil errors: nil of none.
abbrev pub to_errs : List Err → Errs
to_errs [] = nil
to_errs (e ∷ es) = cons e (to_errs es)

abbrev pub join : List Err → Option Err
join [] = none
join (e ∷ es) = some (joined (to_errs (e ∷ es)))

-- What the loop does after one hook: go on with the errors so far, or return.
pub data Verdict : Type 0 where
  go_on : List Err → Verdict
  stop : Err → Verdict

-- One pass over the entries. A hook of an extension takes the world `S` it acts on and returns it
-- with its error; `name` is the extension's `Name()`. Log lines are not modelled.
module _ {T S : Type 0} (name : T → String) (policy : HookPolicy)
    (hook : T → S → Option Err × S) where
  unfoldable pub after_hook : ExtensionEntry T → Option Err → List Err → Verdict
  unfolding stops_on_error
  after_hook entry none errs = go_on errs
  after_hook entry (some err) errs =
      let extension_err = wrapped (extension (name entry.extension)) err in
      if is_some (waiting_errors err)
      then go_on (errs ++ extension_err ∷ [])
      else if stops_on_error entry policy.stop_on_error
      then stop
          (if is_empty errs then extension_err else joined (to_errs (errs ++ extension_err ∷ [])))
      else go_on (if policy.aggregate then errs ++ extension_err ∷ [] else errs)

  unfoldable pub execute_hooks : List (ExtensionEntry T) → List Err → S → Option Err × S
  execute_hooks [] errs s = (join errs, s)
  execute_hooks (entry ∷ entries) errs s =
      let (err, s') = hook entry.extension s in
      elim (after_hook entry err errs) [
        | go_on errs' ↦ execute_hooks entries errs' s'
        | stop e ↦ (some e, s')
      ]

-- The hook runs of a registry. An extension's hook methods enter as functions on the world.
module _ {C R G S : Type 0} where
  unfoldable pub execute_cluster_pre_reconcile :
      ExtensionRegistry C R G → (C → String) → (C → S → Option Err × S) → S → Option Err × S
  execute_cluster_pre_reconcile r name pre_reconcile =
      execute_hooks name reconcile_hook_policy pre_reconcile r.cluster_extensions []

  unfoldable pub execute_cluster_post_reconcile :
      ExtensionRegistry C R G → (C → String) → (C → S → Option Err × S) → S → Option Err × S
  execute_cluster_post_reconcile r name post_reconcile =
      execute_hooks name reconcile_hook_policy post_reconcile r.cluster_extensions []

  -- `on_reconcile_error` is the method applied to the reconcile error.
  unfoldable pub execute_cluster_on_error :
      ExtensionRegistry C R G → (C → String) → (C → S → Option Err × S) → S → Option Err × S
  execute_cluster_on_error r name on_reconcile_error =
      execute_hooks name error_hook_policy on_reconcile_error r.cluster_extensions []

  unfoldable pub execute_role_pre_reconcile :
      ExtensionRegistry C R G → (R → String) → (R → S → Option Err × S) → S → Option Err × S
  execute_role_pre_reconcile r name pre_reconcile =
      execute_hooks name reconcile_hook_policy pre_reconcile r.role_extensions []

  unfoldable pub execute_role_group_pre_reconcile :
      ExtensionRegistry C R G → (G → String) → (G → S → Option Err × S) → S → Option Err × S
  execute_role_group_pre_reconcile r name pre_reconcile =
      execute_hooks name reconcile_hook_policy pre_reconcile r.role_group_extensions []

  unfoldable pub execute_role_post_reconcile :
      ExtensionRegistry C R G → (R → String) → (R → S → Option Err × S) → S → Option Err × S
  execute_role_post_reconcile r name post_reconcile =
      execute_hooks name reconcile_hook_policy post_reconcile r.role_extensions []

  unfoldable pub execute_role_group_post_reconcile :
      ExtensionRegistry C R G → (G → String) → (G → S → Option Err × S) → S → Option Err × S
  execute_role_group_post_reconcile r name post_reconcile =
      execute_hooks name reconcile_hook_policy post_reconcile r.role_group_extensions []
