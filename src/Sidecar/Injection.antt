-- ===== src/Sidecar/Injection.antt =====
-- The injection of sidecars into a pod, and the validation of their providers. `zero_rest` is the
-- zero value of the other fields of a config.
use operator_go.Prelude.{not, Option, none, some, List, [], ◌∷◌, is_empty, if◌then◌else◌}
use operator_go.Prelude.Eq.{text_eq}
use operator_go.Prelude.Maps.{lookup}
use operator_go.Prelude.Sort.{sort_by}
use operator_go.Prelude.Store.{Store}
use operator_go.Common.Errors.{Err, opaque, wrapped, formatted}
use operator_go.Common.Extensions.{join}
use operator_go.Config.Text.{Text, text_less}
use operator_go.Sidecar.{
  SidecarConfig, SidecarProvider, SidecarManager, Outcome, panics, returns, list_providers,
  injection_order, config_at,
}

abbrev pub inject_error : Err → Err
inject_error err = wrapped (formatted "failed to inject sidecar") err

module _ {Pod : Type 0} where
  abbrev pub after_inject :
      Option Err × Pod → (Pod → Outcome (Option Err × Pod)) → Outcome (Option Err × Pod)
  after_inject (none, pod) next = next pod
  after_inject (some err, pod) next = returns (some (inject_error err), pod)

-- A provider's failure in the aggregate.
abbrev pub provider_error : Err → Err
provider_error err =
    wrapped (formatted "failed to create sidecar") (wrapped (formatted "provider") err)

abbrev pub add_failure : Outcome (Option Err) → Outcome (List Err) → Outcome (List Err)
add_failure panics rest = panics
add_failure (returns failure) panics = panics
add_failure (returns none) (returns errs) = returns errs
add_failure (returns (some err)) (returns errs) = returns (provider_error err ∷ errs)

abbrev pub joined_outcome : Outcome (List Err) → Outcome (Option Err)
joined_outcome panics = panics
joined_outcome (returns errs) = returns (join errs)

module _ {Client Pod Rest : Type 0} (zero_rest : Rest) (s : Store (SidecarConfig Rest)) where
  abbrev pub inject_enabled :
      Option (SidecarProvider Client Pod Rest)
      → SidecarConfig Rest
      → Pod
      → (Pod → Outcome (Option Err × Pod))
      → Outcome (Option Err × Pod)
  inject_enabled none config pod next = panics
  inject_enabled (some provider) config pod next = after_inject (provider.inject pod config) next

  -- The body of the loop, with the rest of the loop.
  abbrev pub inject_one :
      Option (SidecarProvider Client Pod Rest)
      → Outcome (SidecarConfig Rest)
      → Pod
      → (Pod → Outcome (Option Err × Pod))
      → Outcome (Option Err × Pod)
  inject_one provider panics pod next = panics
  inject_one provider (returns config) pod next =
      if not config.enabled then next pod else inject_enabled provider config pod next

  unfoldable pub inject_names :
      SidecarManager Client Pod Rest → List Text → Pod → Outcome (Option Err × Pod)
  inject_names m [] pod = returns (none, pod)
  inject_names m (name ∷ names) pod =
      inject_one (lookup name m.providers) (config_at zero_rest s (lookup name m.configs)) pod
        (inject_names m names)

  unfoldable pub inject_all : SidecarManager Client Pod Rest → Pod → Outcome (Option Err × Pod)
  unfolding inject_names
  inject_all m pod = inject_names m (injection_order m) pod

  abbrev pub inject_found :
      Option (SidecarProvider Client Pod Rest)
      → Outcome (SidecarConfig Rest)
      → Pod
      → Outcome (Option Err × Pod)
  inject_found none config pod = returns (some (opaque "sidecar provider not found"), pod)
  inject_found (some provider) panics pod = panics
  inject_found (some provider) (returns config) pod =
      if not config.enabled then returns (none, pod) else returns (provider.inject pod config)

  unfoldable pub inject : SidecarManager Client Pod Rest → Pod → Text → Outcome (Option Err × Pod)
  inject m pod name =
      inject_found (lookup name m.providers) (config_at zero_rest s (lookup name m.configs)) pod

  abbrev pub validate_found :
      Option (SidecarProvider Client Pod Rest)
      → Outcome (SidecarConfig Rest)
      → Client
      → Text
      → Outcome (Option Err)
  validate_found none config c namespace = returns (
      some (wrapped (formatted "sidecar provider not found") (opaque "sidecar provider not found")))
  validate_found (some provider) panics c namespace = panics
  validate_found (some provider) (returns config) c namespace =
      if not config.enabled then returns none else returns (provider.validate c namespace)

  abbrev pub validate_with :
      Option Client → SidecarManager Client Pod Rest → Text → Outcome (Option Err)
  validate_with none m name = returns none
  validate_with (some c) m name =
      if is_empty m.namespace
      then returns none
      else validate_found (lookup name m.providers) (config_at zero_rest s (lookup name m.configs))
          c m.namespace

  unfoldable pub validate_provider : SidecarManager Client Pod Rest → Text → Outcome (Option Err)
  validate_provider m name = validate_with m.client m name

  unfoldable pub validate_names : SidecarManager Client Pod Rest → List Text → Outcome (List Err)
  unfolding validate_provider
  validate_names m [] = returns []
  validate_names m (name ∷ names) = add_failure (validate_provider m name) (validate_names m names)

  abbrev pub validate_all_with :
      Option Client → SidecarManager Client Pod Rest → Outcome (Option Err)
  validate_all_with none m = returns none
  validate_all_with (some c) m =
      if is_empty m.namespace
      then returns none
      else joined_outcome (validate_names m (sort_by text_less (list_providers m)))

  unfoldable pub validate_all : SidecarManager Client Pod Rest → Outcome (Option Err)
  unfolding validate_names
  validate_all m = validate_all_with m.client m
