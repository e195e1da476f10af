-- ===== src/Sidecar.antt =====
-- pkg/sidecar/manager.go and interface.go: the registry of sidecar providers, their injection into a
-- pod, and the product image. Provider names are texts. A `*SidecarConfig` is an address in a store,
-- none where it is nil, since `SetProductImage` writes through it. A nil dereference is an outcome.
pub mod Injection
pub mod Images
pub mod Order
pub mod Clones
pub mod Registrations
pub mod Validation
pub mod Copies
pub mod Fills
pub mod Builds
use operator_go.Prelude.{
  ℕ, Bool, true, not, Option, none, some, List, [], map, length, is_empty, if◌then◌else◌,
}
use operator_go.Prelude.Eq.{text_eq}
use operator_go.Prelude.Int.{ℤ, pos, ltz, eqz}
use operator_go.Prelude.Maps.{GoMap, lookup, insert, delete}
use operator_go.Prelude.Sort.{sort_by}
use operator_go.Prelude.Store.{Store, load}
use operator_go.Common.Errors.{Err}
use operator_go.Config.Text.{Text, text_less}

-- The fields that the manager reads or writes, and the rest.
pub record SidecarConfig (Rest : Type 0) : Type 0 where
  pub image : Text
  pub image_pull_policy : Text
  pub enabled : Bool
  pub rest : Rest

-- A provider of sidecars for pods `Pod`, validated through a client. `PhasedProvider` and
-- `OwnImageProvider` are optional. `Inject` changes the pod and reads its config.
pub record SidecarProvider (Client Pod Rest : Type 0) : Type 0 where
  pub name : Text
  pub inject : Pod → SidecarConfig Rest → Option Err × Pod
  pub validate : Client → Text → Option Err
  pub phase : Option ℤ
  pub owns_image : Option Bool

abbrev pub sidecar_phase_producer : ℤ
sidecar_phase_producer = pos 10

abbrev pub sidecar_phase_default : ℤ
sidecar_phase_default = pos 50

abbrev pub sidecar_phase_pipeline : ℤ
sidecar_phase_pipeline = pos 90

pub record SidecarManager (Client Pod Rest : Type 0) : Type 0 where
  pub providers : GoMap Text (SidecarProvider Client Pod Rest)
  pub configs : GoMap Text (Option ℕ)
  pub phases : GoMap Text ℤ
  pub client : Option Client
  pub namespace : Text

-- What a method that may dereference nil does.
pub data Outcome (A : Type 0) : Type 0 where
  panics : Outcome A
  returns : A → Outcome A

-- `config, exists := m.configs[name]`, with the default of a missing one; an address always holds a
-- config.
abbrev pub config_at :
    {Rest : Type 0}
    → Rest
    → Store (SidecarConfig Rest)
    → Option (Option ℕ)
    → Outcome (SidecarConfig Rest)
config_at zero_rest s none =
    returns (record { image = []; image_pull_policy = []; enabled = true; rest = zero_rest })
config_at zero_rest s (some none) = panics
config_at zero_rest s (some (some address)) = elim (load address s) [
  | none ↦ panics
  | some config ↦ returns config
]

module _ {Client Pod Rest : Type 0} where
  unfoldable pub new_sidecar_manager : SidecarManager Client Pod Rest
  new_sidecar_manager = record {
    providers = [];
    configs = [];
    phases = [];
    client = none;
    namespace = [];
  }

  unfoldable pub with_client :
      SidecarManager Client Pod Rest → Client → Text → SidecarManager Client Pod Rest
  with_client m c namespace = record m { client = some c; namespace = namespace }

  unfoldable pub register :
      SidecarManager Client Pod Rest
      → SidecarProvider Client Pod Rest
      → Option ℕ
      → SidecarManager Client Pod Rest
  register m provider config = record m {
    providers = insert provider.name provider m.providers;
    configs = insert provider.name config m.configs;
    phases = delete provider.name m.phases;
  }

  unfoldable pub register_with_phase :
      SidecarManager Client Pod Rest
      → SidecarProvider Client Pod Rest
      → Option ℕ
      → ℤ
      → SidecarManager Client Pod Rest
  register_with_phase m provider config phase = record m {
    providers = insert provider.name provider m.providers;
    configs = insert provider.name config m.configs;
    phases = insert provider.name phase m.phases;
  }

  unfoldable pub unregister : SidecarManager Client Pod Rest → Text → SidecarManager Client Pod Rest
  unregister m name = record m {
    providers = delete name m.providers;
    configs = delete name m.configs;
    phases = delete name m.phases;
  }

  -- The names in the map's iteration order.
  unfoldable pub list_providers : SidecarManager Client Pod Rest → List Text
  list_providers m = map (λ (kv : Text × SidecarProvider Client Pod Rest). kv.0) m.providers

  abbrev pub own_phase : Option (SidecarProvider Client Pod Rest) → ℤ
  own_phase none = sidecar_phase_default
  own_phase (some provider) = elim provider.phase [
    | none ↦ sidecar_phase_default
    | some phase ↦ phase
  ]

  unfoldable pub phase_of : SidecarManager Client Pod Rest → Text → ℤ
  phase_of m name = elim (lookup name m.phases) [
    | some phase ↦ phase
    | none ↦ own_phase (lookup name m.providers)
  ]

  unfoldable pub injects_before : SidecarManager Client Pod Rest → Text → Text → Bool
  injects_before m a b =
      if not (eqz (phase_of m a) (phase_of m b))
      then ltz (phase_of m a) (phase_of m b)
      else text_less a b

  unfoldable pub injection_order : SidecarManager Client Pod Rest → List Text
  unfolding list_providers
  injection_order m = sort_by (injects_before m) (list_providers m)

  unfoldable pub has_sidecars : SidecarManager Client Pod Rest → Bool
  has_sidecars m = not (is_empty m.providers)

  unfoldable pub count : SidecarManager Client Pod Rest → ℕ
  count m = length m.providers
