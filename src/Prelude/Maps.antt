-- ===== src/Prelude/Maps.antt =====
-- Go's `map[K]V`: an association list in some iteration order. A nil map is the empty list, since
-- reads of either answer alike.
use operator_go.Prelude.Tests.{if◌then◌else◌, Bool-cases}
use operator_go.Prelude.Eq.{Eq, ◌==◌}
use mathlib.Core.Path.{◌≡◌, refl, ◌∙◌}
use mathlib.Core.Logic.{inl, inr}
use mathlib.Core.Bool.{false}
use mathlib.Core.Option.{Option, none, some}
use mathlib.Core.List.{List, [], ◌∷◌}
use native.Mathlib.Omega.{arith}

abbrev pub GoMap {ℓ} : Type ℓ → Type ℓ → Type ℓ
GoMap K V = List (K × V)

-- The first of two optional values.
abbrev pub or_else {ℓ} : {V : Type ℓ} → Option V → Option V → Option V
or_else (some v) o = some v
or_else none o = o

pub or_else-none {ℓ} : {V : Type ℓ} (o : Option V) → or_else o none ≡ o
or_else-none none = refl
or_else-none (some v) = refl

module _ {ℓ} {K V : Type ℓ} ⦃e : Eq K⦄ where
  -- `v, exists := m[k]`
  unfoldable pub lookup : K → GoMap K V → Option V
  lookup k [] = none
  lookup k ((i, a) ∷ entries) = if i == k then some a else lookup k entries

  -- `m[k] = v`
  unfoldable pub insert : K → V → GoMap K V → GoMap K V
  insert k v [] = (k, v) ∷ []
  insert k v ((i, old) ∷ entries) =
      if i == k then (k, v) ∷ entries else (i, old) ∷ insert k v entries

  -- `delete(m, k)`
  unfoldable pub delete : K → GoMap K V → GoMap K V
  delete k [] = []
  delete k ((j, v) ∷ m) = let rest = delete k m in if j == k then rest else (j, v) ∷ rest

  -- `for k, v := range extra { m[k] = v }`
  unfoldable pub copy_into : GoMap K V → GoMap K V → GoMap K V
  copy_into m [] = m
  copy_into m ((k, v) ∷ extra) = copy_into (insert k v m) extra

  -- A key occurs once: what a Go map always satisfies.
  abbrev pub HasDistinctKeys : GoMap K V → Type ℓ
  HasDistinctKeys [] = Unit
  HasDistinctKeys ((k, v) ∷ m) = (lookup k m ≡ none) × HasDistinctKeys m

  pub lookup-cons :
      (j k : K) (v : V) (m : GoMap K V)
      → lookup j ((k, v) ∷ m) ≡ (if k == j then some v else lookup j m)
  unfolding lookup
  lookup-cons j k v m = refl

  pub lookup-insert :
      (k j : K) (v : V) (m : GoMap K V)
      → lookup j (insert k v m) ≡ (if k == j then some v else lookup j m)
  unfolding lookup insert
  lookup-insert k j v [] = refl
  lookup-insert k j v ((i, old) ∷ entries) =
      ground (arith, lookup-insert k j v entries, e.beq_iff i j, e.beq_iff i k, e.beq_iff k j)

  pub lookup-delete :
      (k j : K) (m : GoMap K V) → lookup j (delete k m) ≡ (if k == j then none else lookup j m)
  unfolding lookup delete
  lookup-delete k j [] = ground arith
  lookup-delete k j ((i, w) ∷ m) =
      ground (arith, e.beq_iff k j, e.beq_iff i k, e.beq_iff i j, lookup-delete k j m)

  pub insert-HasDistinctKeys :
      (k : K) (v : V) (m : GoMap K V) → HasDistinctKeys m → HasDistinctKeys (insert k v m)
  unfolding insert
  insert-HasDistinctKeys k v [] h = (unfold lookup in refl, tt)
  insert-HasDistinctKeys k v ((j, w) ∷ m) h = elim (Bool-cases (j == k)) [
    | inl same ↦ rw same (rw ((e.beq_iff j k).0 same) at h)
    | inr other ↦ rw other (
      rw (lookup-insert k j v m) (ground (arith, e.beq_iff j k, e.beq_iff k j)),
      insert-HasDistinctKeys k v m h.1,
    )
  ]

  pub delete-HasDistinctKeys :
      (k : K) (m : GoMap K V) → HasDistinctKeys m → HasDistinctKeys (delete k m)
  unfolding delete
  delete-HasDistinctKeys k [] h = tt
  delete-HasDistinctKeys k ((j, w) ∷ m) h = elim (Bool-cases (j == k)) [
    | inl same ↦ rw same (delete-HasDistinctKeys k m h.1)
    | inr other ↦ rw other (rw (lookup-delete k j m) (ground arith), delete-HasDistinctKeys k m h.1)
  ]

  pub copy_into-HasDistinctKeys :
      (m extra : GoMap K V) → HasDistinctKeys m → HasDistinctKeys (copy_into m extra)
  unfolding copy_into
  copy_into-HasDistinctKeys m [] h = h
  copy_into-HasDistinctKeys m ((k, v) ∷ extra) h =
      copy_into-HasDistinctKeys (insert k v m) extra (insert-HasDistinctKeys k v m h)

  pub lookup-copy_into :
      (j : K) (m extra : GoMap K V)
      → HasDistinctKeys extra
      → lookup j (copy_into m extra) ≡ or_else (lookup j extra) (lookup j m)
  unfolding lookup copy_into
  lookup-copy_into j m [] h = refl
  lookup-copy_into j m ((k, v) ∷ extra) h =
      lookup-copy_into j (insert k v m) extra h.1
      ∙ rw (lookup-insert k j v m) (ground (arith, e.beq_iff k j, h.0))

-- Two neighbours of an iteration order change places.
pub lookup_swap {ℓ} :
    {K V : Type ℓ} ⦃e : Eq K⦄ (n j k : K) (a b : V) (m : GoMap K V)
    → (j == k) ≡ false
    → lookup n ((j, a) ∷ (k, b) ∷ m) ≡ lookup n ((k, b) ∷ (j, a) ∷ m)
unfolding lookup
lookup_swap ⦃e⦄ n j k a b m h = ground (arith, h, e.beq_iff j n, e.beq_iff k n, e.beq_iff j k)

pub lookup-nil {ℓ} : {K V : Type ℓ} ⦃e : Eq K⦄ (j : K) → lookup {V = V} j [] ≡ none
unfolding lookup
lookup-nil j = refl

-- `P` of the value found, if one is.
abbrev pub OfFound {ℓ κ} : {V : Type ℓ} → (V → Type κ) → Option V → Type κ
OfFound P none = Unit
OfFound P (some v) = P v

module _ {ℓ κ} {K V : Type ℓ} ⦃e : Eq K⦄ (P : V → Type κ) where
  -- Each value of a map satisfies `P`.
  abbrev pub AllValues : GoMap K V → Type κ
  AllValues [] = Unit
  AllValues ((k, v) ∷ m) = P v × AllValues m

  pub insert-AllValues :
      (k : K) (v : V) (m : GoMap K V) → P v → AllValues m → AllValues (insert k v m)
  unfolding insert
  insert-AllValues k v [] p h = (p, tt)
  insert-AllValues k v ((j, w) ∷ m) p h = elim (Bool-cases (j == k)) [
    | inl same ↦ rw same (p, h.1)
    | inr other ↦ rw other (h.0, insert-AllValues k v m p h.1)
  ]

  pub copy_into-AllValues :
      (m extra : GoMap K V) → AllValues m → AllValues extra → AllValues (copy_into m extra)
  unfolding copy_into
  copy_into-AllValues m [] h k = h
  copy_into-AllValues m ((j, v) ∷ extra) h k =
      copy_into-AllValues (insert j v m) extra (insert-AllValues j v m k.0 h) k.1

  pub lookup-AllValues : (k : K) (m : GoMap K V) → AllValues m → OfFound P (lookup k m)
  unfolding lookup
  lookup-AllValues k [] h = tt
  lookup-AllValues k ((j, v) ∷ m) h = elim (Bool-cases (j == k)) [
    | inl same ↦ rw same h.0
    | inr other ↦ rw other (lookup-AllValues k m h.1)
  ]
