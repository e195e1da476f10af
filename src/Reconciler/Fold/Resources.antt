-- ===== src/Reconciler/Fold/Resources.antt =====
-- The leaves of `foldResources`: a leaf that the upper layer states wins, or else the lower one's
-- stays, whatever else either of them states.
use operator_go.Prelude.{String, Option, none, some, ◌≡◌, refl, sym, ap, ◌∙◌}
use operator_go.Prelude.Maps.{or_else, or_else-none}
use operator_go.Api.Config.{ResourcesSpec}
use operator_go.Reconciler.Fold.{fold_cpu, fold_memory, fold_storage, fold_resources}

-- A field behind a pointer.
abbrev pub within : {A B : Type 0} → (A → Option B) → Option A → Option B
within field none = none
within field (some a) = field a

-- A fold that keeps the only pointer of two, and folds the field where both are there.
within-fold :
    {A B : Type 0} (fold : Option A → Option A → Option A) (field : A → Option B)
    → ((lower : Option A) → fold lower none ≡ lower)
    → ((upper : A) → fold none (some upper) ≡ some upper)
    → ((lower upper : A)
        → within field (fold (some lower) (some upper)) ≡ or_else (field upper) (field lower))
    → (lower upper : Option A)
    → within field (fold lower upper) ≡ or_else (within field upper) (within field lower)
within-fold fold field only_lower only_upper both lower none = ap (within field) (only_lower lower)
within-fold fold field only_lower only_upper both none (some upper) =
    ap (within field) (only_upper upper) ∙ sym (or_else-none (field upper))
within-fold fold field only_lower only_upper both (some lower) (some upper) = both lower upper

module _ {Quantity : Type 0} where
  abbrev cpu_min_field : ResourcesSpec Quantity → Option Quantity
  cpu_min_field r = within (λ x. x.min) r.cpu

  abbrev cpu_max_field : ResourcesSpec Quantity → Option Quantity
  cpu_max_field r = within (λ x. x.max) r.cpu

  abbrev memory_limit_field : ResourcesSpec Quantity → Option Quantity
  memory_limit_field r = within (λ x. x.limit) r.memory

  abbrev storage_capacity_field : ResourcesSpec Quantity → Option Quantity
  storage_capacity_field r = within (λ x. x.capacity) r.storage

  abbrev storage_class_field : ResourcesSpec Quantity → Option String
  storage_class_field r = within (λ x. x.storage_class) r.storage

  abbrev pub cpu_min : Option (ResourcesSpec Quantity) → Option Quantity
  cpu_min = within cpu_min_field

  abbrev pub cpu_max : Option (ResourcesSpec Quantity) → Option Quantity
  cpu_max = within cpu_max_field

  abbrev pub memory_limit : Option (ResourcesSpec Quantity) → Option Quantity
  memory_limit = within memory_limit_field

  abbrev pub storage_capacity : Option (ResourcesSpec Quantity) → Option Quantity
  storage_capacity = within storage_capacity_field

  abbrev pub storage_class : Option (ResourcesSpec Quantity) → Option String
  storage_class = within storage_class_field

  only_lower : (lower : Option (ResourcesSpec Quantity)) → fold_resources lower none ≡ lower
  unfolding fold_resources
  only_lower none = refl
  only_lower (some lower) = refl

  pub cpu_min-fold_resources :
      (lower upper : Option (ResourcesSpec Quantity))
      → cpu_min (fold_resources lower upper) ≡ or_else (cpu_min upper) (cpu_min lower)
  unfolding fold_resources fold_cpu
  cpu_min-fold_resources =
      within-fold fold_resources cpu_min_field only_lower (λ upper. refl)
        (λ lower upper.
          within-fold fold_cpu (λ x. x.min) (λ l. refl) (λ u. refl) (λ l u. refl) lower.cpu
            upper.cpu)

  pub cpu_max-fold_resources :
      (lower upper : Option (ResourcesSpec Quantity))
      → cpu_max (fold_resources lower upper) ≡ or_else (cpu_max upper) (cpu_max lower)
  unfolding fold_resources fold_cpu
  cpu_max-fold_resources =
      within-fold fold_resources cpu_max_field only_lower (λ upper. refl)
        (λ lower upper.
          within-fold fold_cpu (λ x. x.max) (λ l. refl) (λ u. refl) (λ l u. refl) lower.cpu
            upper.cpu)

  pub memory_limit-fold_resources :
      (lower upper : Option (ResourcesSpec Quantity))
      → memory_limit (fold_resources lower upper)
        ≡ or_else (memory_limit upper) (memory_limit lower)
  unfolding fold_resources fold_memory
  memory_limit-fold_resources =
      within-fold fold_resources memory_limit_field only_lower (λ upper. refl)
        (λ lower upper.
          within-fold fold_memory (λ x. x.limit) (λ l. refl) (λ u. refl) (λ l u. refl) lower.memory
            upper.memory)

  pub storage_capacity-fold_resources :
      (lower upper : Option (ResourcesSpec Quantity))
      → storage_capacity (fold_resources lower upper)
        ≡ or_else (storage_capacity upper) (storage_capacity lower)
  unfolding fold_resources fold_storage
  storage_capacity-fold_resources =
      within-fold fold_resources storage_capacity_field only_lower (λ upper. refl)
        (λ lower upper.
          within-fold fold_storage (λ x. x.capacity) (λ l. refl) (λ u. refl) (λ l u. refl)
            lower.storage upper.storage)

  pub storage_class-fold_resources :
      (lower upper : Option (ResourcesSpec Quantity))
      → storage_class (fold_resources lower upper)
        ≡ or_else (storage_class upper) (storage_class lower)
  unfolding fold_resources fold_storage
  storage_class-fold_resources =
      within-fold fold_resources storage_class_field only_lower (λ upper. refl)
        (λ lower upper.
          within-fold fold_storage (λ x. x.storage_class) (λ l. refl) (λ u. refl) (λ l u. refl)
            lower.storage upper.storage)
