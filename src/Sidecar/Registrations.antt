-- ===== src/Sidecar/Registrations.antt =====
-- What every sequence of registrations keeps of a manager.
use operator_go.Prelude.{
  false, Option, none, some, List, [], ◌∷◌, ◌≡◌, refl, ℕ, inl, inr, is_some, Bool-cases, arith,
}
use operator_go.Prelude.Eq.{◌==◌, text_eq}
use operator_go.Prelude.Int.{ℤ}
use operator_go.Prelude.Maps.{
  GoMap, lookup, insert, delete, HasDistinctKeys, insert-HasDistinctKeys, delete-HasDistinctKeys,
  lookup-insert, lookup-delete, lookup-nil,
}
use operator_go.Config.Text.{Text}
use operator_go.Sidecar.{
  SidecarProvider, SidecarManager, new_sidecar_manager, register, register_with_phase, unregister,
}

-- A method that changes the registry.
pub data Registration (Client Pod Rest : Type 0) : Type 0 where
  registers : SidecarProvider Client Pod Rest → Option ℕ → Registration Client Pod Rest
  registers_with_phase :
      SidecarProvider Client Pod Rest → Option ℕ → ℤ → Registration Client Pod Rest
  unregisters : Text → Registration Client Pod Rest

module _ {Client Pod Rest : Type 0} where
  abbrev pub apply_registration :
      Registration Client Pod Rest → SidecarManager Client Pod Rest → SidecarManager Client Pod Rest
  apply_registration (registers provider config) m = register m provider config
  apply_registration (registers_with_phase provider config phase) m =
      register_with_phase m provider config phase
  apply_registration (unregisters name) m = unregister m name

  abbrev pub apply_registrations :
      List (Registration Client Pod Rest)
      → SidecarManager Client Pod Rest
      → SidecarManager Client Pod Rest
  apply_registrations [] m = m
  apply_registrations (r ∷ rs) m = apply_registrations rs (apply_registration r m)

-- Two maps have the same keys.
abbrev SameKeys : {V W : Type 0} → GoMap Text V → GoMap Text W → Type 0
SameKeys m n = (name : Text) → is_some (lookup name m) ≡ is_some (lookup name n)

-- The keys of the one map are keys of the other.
abbrev Within : {V W : Type 0} → GoMap Text V → GoMap Text W → Type 0
Within m n = (name : Text) → is_some (lookup name n) ≡ false → is_some (lookup name m) ≡ false

insert-SameKeys :
    {V W : Type 0} (k : Text) (v : V) (w : W) (m : GoMap Text V) (n : GoMap Text W)
    → SameKeys m n
    → SameKeys (insert k v m) (insert k w n)
insert-SameKeys k v w m n h name =
    rw (lookup-insert k name v m) (rw (lookup-insert k name w n) (ground (arith, h name)))

delete-SameKeys :
    {V W : Type 0} (k : Text) (m : GoMap Text V) (n : GoMap Text W)
    → SameKeys m n
    → SameKeys (delete k m) (delete k n)
delete-SameKeys k m n h name =
    rw (lookup-delete k name m) (rw (lookup-delete k name n) (ground (arith, h name)))

insert-Within :
    {V W : Type 0} (k : Text) (v : V) (w : W) (m : GoMap Text V) (n : GoMap Text W)
    → Within m n
    → Within (insert k v m) (insert k w n)
insert-Within k v w m n h name =
    rw (lookup-insert k name v m) (rw (lookup-insert k name w n) (ground (arith, h name)))

delete-Within :
    {V W : Type 0} (k : Text) (m : GoMap Text V) (n : GoMap Text W)
    → Within m n
    → Within (delete k m) (delete k n)
delete-Within k m n h name =
    rw (lookup-delete k name m) (rw (lookup-delete k name n) (ground (arith, h name)))

-- `delete` of a phase beside the `insert` of its provider.
delete-insert-Within :
    {V W : Type 0} (k : Text) (w : W) (m : GoMap Text V) (n : GoMap Text W)
    → Within m n
    → Within (delete k m) (insert k w n)
delete-insert-Within k w m n h name =
    rw (lookup-delete k name m) (rw (lookup-insert k name w n) (ground (arith, h name)))

module _ {Client Pod Rest : Type 0} where
  -- A provider is found under its own name.
  abbrev NamedAt : Text → Option (SidecarProvider Client Pod Rest) → Type 0
  NamedAt name none = Unit
  NamedAt name (some provider) = provider.name ≡ name

  pub record IsRegistry (m : SidecarManager Client Pod Rest) : Type 0 where
    pub distinct_providers : HasDistinctKeys m.providers
    pub distinct_configs : HasDistinctKeys m.configs
    pub distinct_phases : HasDistinctKeys m.phases
    pub same_names : SameKeys m.configs m.providers
    pub phases_within : Within m.phases m.providers
    pub named : (name : Text) → NamedAt name (lookup name m.providers)

  insert-NamedAt :
      (p : SidecarProvider Client Pod Rest) (m : GoMap Text (SidecarProvider Client Pod Rest))
      (name : Text)
      → NamedAt name (lookup name m)
      → NamedAt name (lookup name (insert p.name p m))
  insert-NamedAt p m name h = elim (Bool-cases (p.name == name)) [
    | inl same ↦ rw (lookup-insert p.name name p m, same) ((text_eq.beq_iff p.name name).0 same)
    | inr other ↦ rw (lookup-insert p.name name p m, other) h
  ]

  delete-NamedAt :
      (k : Text) (m : GoMap Text (SidecarProvider Client Pod Rest)) (name : Text)
      → NamedAt name (lookup name m)
      → NamedAt name (lookup name (delete k m))
  delete-NamedAt k m name h = elim (Bool-cases (k == name)) [
    | inl same ↦ rw (lookup-delete k name m, same) tt
    | inr other ↦ rw (lookup-delete k name m, other) h
  ]

  apply_registration-IsRegistry :
      (r : Registration Client Pod Rest) (m : SidecarManager Client Pod Rest)
      → IsRegistry m
      → IsRegistry (apply_registration r m)
  unfolding register register_with_phase unregister
  apply_registration-IsRegistry (registers p c) m h = record {
    distinct_providers = insert-HasDistinctKeys p.name p m.providers h.distinct_providers;
    distinct_configs = insert-HasDistinctKeys p.name c m.configs h.distinct_configs;
    distinct_phases = delete-HasDistinctKeys p.name m.phases h.distinct_phases;
    same_names = insert-SameKeys p.name c p m.configs m.providers h.same_names;
    phases_within = delete-insert-Within p.name p m.phases m.providers h.phases_within;
    named = λ name. insert-NamedAt p m.providers name (h.named name);
  }
  apply_registration-IsRegistry (registers_with_phase p c phase) m h = record {
    distinct_providers = insert-HasDistinctKeys p.name p m.providers h.distinct_providers;
    distinct_configs = insert-HasDistinctKeys p.name c m.configs h.distinct_configs;
    distinct_phases = insert-HasDistinctKeys p.name phase m.phases h.distinct_phases;
    same_names = insert-SameKeys p.name c p m.configs m.providers h.same_names;
    phases_within = insert-Within p.name phase p m.phases m.providers h.phases_within;
    named = λ name. insert-NamedAt p m.providers name (h.named name);
  }
  apply_registration-IsRegistry (unregisters k) m h = record {
    distinct_providers = delete-HasDistinctKeys k m.providers h.distinct_providers;
    distinct_configs = delete-HasDistinctKeys k m.configs h.distinct_configs;
    distinct_phases = delete-HasDistinctKeys k m.phases h.distinct_phases;
    same_names = delete-SameKeys k m.configs m.providers h.same_names;
    phases_within = delete-Within k m.phases m.providers h.phases_within;
    named = λ name. delete-NamedAt k m.providers name (h.named name);
  }

  apply_registrations-IsRegistry :
      (rs : List (Registration Client Pod Rest)) (m : SidecarManager Client Pod Rest)
      → IsRegistry m
      → IsRegistry (apply_registrations rs m)
  apply_registrations-IsRegistry [] m h = h
  apply_registrations-IsRegistry (r ∷ rs) m h =
      apply_registrations-IsRegistry rs (apply_registration r m)
        (apply_registration-IsRegistry r m h)

  -- After any registrations of a new manager, each of its maps holds a name once; configs and
  -- providers have the same names, phases are of registered providers only, and each provider is
  -- found under its own name.
  pub registrations-IsRegistry :
      (rs : List (Registration Client Pod Rest))
      → IsRegistry (apply_registrations rs new_sidecar_manager)
  unfolding new_sidecar_manager
  registrations-IsRegistry rs = apply_registrations-IsRegistry rs new_sidecar_manager (record {
    distinct_providers = tt;
    distinct_configs = tt;
    distinct_phases = tt;
    same_names = λ name.
        rw (lookup-nil {V = Option ℕ} name)
          (rw (lookup-nil {V = SidecarProvider Client Pod Rest} name) refl);
    phases_within = λ name h. rw (lookup-nil {V = ℤ} name) refl;
    named = λ name. rw (lookup-nil {V = SidecarProvider Client Pod Rest} name) tt;
  })
