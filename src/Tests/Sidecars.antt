-- ===== src/Tests/Sidecars.antt =====
-- The theorems on the sidecar manager at a manager of two providers.
use operator_go.Prelude.{
  ◌↔◌, All, String, true, Option, none, some, List, [], ◌∷◌, ◌++◌, ◌≡◌, refl, is_some, arith,
}
use operator_go.Prelude.Eq.{text_eq, contains}
use operator_go.Prelude.Int.{ℤ, pos}
use operator_go.Prelude.Maps.{HasDistinctKeys, lookup, lookup_swap}
use operator_go.Prelude.Sort.{EachBefore, sort_by}
use operator_go.Prelude.Store.{Store, load, changed}
use operator_go.Common.Errors.{opaque}
use operator_go.Config.Text.{Text, codes}
use operator_go.Sidecar.{
  returns, list_providers, new_sidecar_manager, SidecarConfig, SidecarProvider, SidecarManager,
  injects_before, injection_order, phase_of,
}
use operator_go.Sidecar.Injection.{inject_all, validate_provider, validate_all}
use operator_go.Sidecar.Images.{clone_for_build, set_product_image}
use operator_go.Sidecar.Order.{Precedes, injection_order-EachBefore, inject_all_deterministic}
use operator_go.Sidecar.Copies.{pointed_to}
use operator_go.Sidecar.Validation.{validate_all-Returns}
use operator_go.Sidecar.Fills.{filled}
use operator_go.Sidecar.Builds.{set_product_image-clone}
use operator_go.Sidecar.Registrations.{
  Registration, registers, registers_with_phase, unregisters, IsRegistry, apply_registrations,
  registrations-IsRegistry,
}
use operator_go.Sidecar.Clones.{Returns, clone_for_build-Returns}

-- A pod is the list of its containers' names; a provider adds its own.
abbrev provider_of : Text → Option ℤ → SidecarProvider String (List Text) Unit
provider_of name phase = record {
  name = name;
  inject = λ pod config. (none, pod ++ name ∷ []);
  validate = λ c namespace. none;
  phase = phase;
  owns_image = none;
}

abbrev vector : Text
vector = codes "vector"

abbrev exporter : Text
exporter = codes "jmx-exporter"

-- The same two registrations, as two iterations of Go's maps may read them.
abbrev manager : SidecarManager String (List Text) Unit
manager = record {
  providers =
      (vector, provider_of vector (some (pos 90))) ∷ (exporter, provider_of exporter none) ∷ [];
  configs = (vector, some 0) ∷ (exporter, some 1) ∷ [];
  phases = [];
  client = none;
  namespace = [];
}

abbrev reordered : SidecarManager String (List Text) Unit
reordered = record manager {
  providers =
      (exporter, provider_of exporter none) ∷ (vector, provider_of vector (some (pos 90))) ∷ [];
}

abbrev configs : Store (SidecarConfig Unit)
configs =
    record { image = codes "vector:1"; image_pull_policy = []; enabled = true; rest = tt }
    ∷ record { image = []; image_pull_policy = []; enabled = true; rest = tt }
    ∷ []

manager_distinct : HasDistinctKeys manager.providers
unfolding lookup
manager_distinct = (refl, (refl, tt))

reordered_distinct : HasDistinctKeys reordered.providers
unfolding lookup
reordered_distinct = (refl, (refl, tt))

order_lem : injection_order manager ≡ exporter ∷ vector ∷ []
unfolding injection_order sort_by injects_before phase_of lookup
order_lem = refl

same_providers : (name : Text) → lookup name manager.providers ≡ lookup name reordered.providers
same_providers name =
    lookup_swap name vector exporter (provider_of vector (some (pos 90)))
      (provider_of exporter none) [] refl

injection_order-EachBefore_example :
    EachBefore (Precedes manager) (injection_order manager)
    × ((name : Text)
        → contains name (injection_order manager) ≡ is_some (lookup name manager.providers))
injection_order-EachBefore_example = injection_order-EachBefore manager manager_distinct

inject_all_deterministic_example :
    inject_all tt configs manager [] ≡ inject_all tt configs reordered []
inject_all_deterministic_example =
    inject_all_deterministic manager reordered same_providers (λ name. refl) (λ name. refl)
      manager_distinct reordered_distinct tt configs []

clone_for_build-Returns_example :
    Returns
      (λ out. (out.0 ≡ none) × (load 1 out.1 ≡ load 1 configs))
      (set_product_image
        (clone_for_build manager configs).0
        (codes "trino:476")
        []
        (clone_for_build manager configs).1)
clone_for_build-Returns_example =
    clone_for_build-Returns manager configs (codes "trino:476") [] 1 refl (tt, (tt, tt))
      (omega arith)

-- Both names point to one config.
abbrev sharing : SidecarManager String (List Text) Unit
sharing = record manager { configs = (vector, some 1) ∷ (exporter, some 1) ∷ [] }

sharing_distinct : HasDistinctKeys sharing.configs
unfolding lookup
sharing_distinct = (refl, (refl, tt))

set_product_image-clone_example :
    Returns
      (λ out.
        (out.0 ≡ none)
        × (pointed_to out.1 (lookup exporter (clone_for_build sharing configs).0.configs)
            ≡ changed
                (filled (lookup exporter sharing.providers) (codes "trino:476") [])
                (pointed_to configs (lookup exporter sharing.configs))))
      (set_product_image
        (clone_for_build sharing configs).0
        (codes "trino:476")
        []
        (clone_for_build sharing configs).1)
set_product_image-clone_example =
    set_product_image-clone sharing (codes "trino:476") [] configs exporter refl sharing_distinct
      (omega arith, (omega arith, tt))

abbrev calls : List (Registration String (List Text) Unit)
calls =
    registers_with_phase (provider_of vector none) (some 0) (pos 10)
    ∷ registers (provider_of exporter none) (some 1)
    ∷ registers (provider_of vector (some (pos 90))) (some 0)
    ∷ unregisters exporter
    ∷ []

registrations-IsRegistry_example : IsRegistry (apply_registrations calls new_sidecar_manager)
registrations-IsRegistry_example = registrations-IsRegistry calls

-- One provider's validation fails.
abbrev validated : SidecarManager String (List Text) Unit
validated = record manager {
  providers =
      (
        vector,
        record (provider_of vector none) { validate = λ c namespace. some (opaque "no ConfigMap") },
      )
      ∷ (exporter, provider_of exporter none)
      ∷ [];
  client = some "client";
  namespace = codes "default";
}

validate_all-Returns_example :
    Returns
      (λ found.
        (found ≡ none)
        ↔ All
            (λ name. validate_provider tt configs validated name ≡ returns none)
            (list_providers validated))
      (validate_all tt configs validated)
validate_all-Returns_example =
    validate_all-Returns tt configs validated (omega arith, (omega arith, tt)) "client" refl refl
