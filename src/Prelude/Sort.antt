-- ===== src/Prelude/Sort.antt =====
-- Go's stable sort by a `less` function, as insertion sort, and what it guarantees.
use mathlib.Core.Path.{◌≡◌}
use mathlib.Core.Logic.{◌⊎◌, inl, inr}
use mathlib.Core.Bool.{Bool, true}
use mathlib.Core.List.{List, [], ◌∷◌, ◌++◌, Perm}
use mathlib.Core.List.Perm
use operator_go.Prelude.Tests.{if◌then◌else◌, Bool-cases}
use operator_go.Prelude.Lists.{All, All-append, All-map}

-- Each element is related to all that follow.
abbrev pub EachBefore {ℓ κ} : {A : Type ℓ} → (A → A → Type κ) → List A → Type κ
EachBefore R [] = Unit
EachBefore R (x ∷ xs) = All (R x) xs × EachBefore R xs

module _ {ℓ} {A : Type ℓ} (less : A → A → Bool) where
  unfoldable pub insert_sorted : A → List A → List A
  insert_sorted x [] = x ∷ []
  insert_sorted x (y ∷ ys) =
      let rest = y ∷ insert_sorted x ys in if less y x then rest else x ∷ y ∷ ys

  unfoldable pub sort_by : List A → List A
  unfolding insert_sorted
  sort_by [] = []
  sort_by (x ∷ xs) = insert_sorted x (sort_by xs)

  insert_sorted-perm : (x : A) (ys : List A) → Perm (insert_sorted x ys) (x ∷ ys)
  unfolding insert_sorted
  insert_sorted-perm x [] = Perm.refl (x ∷ [])
  insert_sorted-perm x (y ∷ ys) = elim (Bool-cases (less y x)) [
    | inl lt ↦ rw lt (Perm.trans (Perm.cons y (insert_sorted-perm x ys)) (Perm.swap x y ys))
    | inr ge ↦ rw ge (Perm.refl (x ∷ y ∷ ys))
  ]

  pub sort_by-perm : (xs : List A) → Perm (sort_by xs) xs
  unfolding sort_by
  sort_by-perm [] = Perm.refl []
  sort_by-perm (x ∷ xs) =
      Perm.trans (insert_sorted-perm x (sort_by xs)) (Perm.cons x (sort_by-perm xs))

  pub insert_sorted-All {κ} :
      (P : A → Type κ) (x : A) (ys : List A) → P x → All P ys → All P (insert_sorted x ys)
  unfolding insert_sorted
  insert_sorted-All P x [] p h = (p, tt)
  insert_sorted-All P x (y ∷ ys) p h = elim (Bool-cases (less y x)) [
    | inl lt ↦ rw lt (h.0, insert_sorted-All P x ys p h.1)
    | inr ge ↦ rw ge (p, h)
  ]

  pub sort_by-All {κ} : (P : A → Type κ) (xs : List A) → All P xs → All P (sort_by xs)
  unfolding sort_by
  sort_by-All P [] h = tt
  sort_by-All P (x ∷ xs) h = insert_sorted-All P x (sort_by xs) h.0 (sort_by-All P xs h.1)

  insert_sorted-All_of {κ} :
      (P : A → Type κ) (x : A) (ys : List A) → All P (insert_sorted x ys) → P x × All P ys
  unfolding insert_sorted
  insert_sorted-All_of P x [] = λ h. h
  insert_sorted-All_of P x (y ∷ ys) = elim (Bool-cases (less y x)) [
    | inl lt ↦ rw lt (λ h. let rest = insert_sorted-All_of P x ys h.1 in (rest.0, (h.0, rest.1)))
    | inr ge ↦ rw ge (λ h. h)
  ]

  pub sort_by-All_of {κ} : (P : A → Type κ) (xs : List A) → All P (sort_by xs) → All P xs
  unfolding sort_by
  sort_by-All_of P [] h = tt
  sort_by-All_of P (x ∷ xs) h =
      let split = insert_sorted-All_of P x (sort_by xs) h in (split.0, sort_by-All_of P xs split.1)

  -- Each element is strictly before all that follow.
  abbrev pub StrictlySorted : List A → Type 0
  StrictlySorted [] = Unit
  StrictlySorted (x ∷ xs) = All (λ z. less x z ≡ true) xs × StrictlySorted xs

  pub StrictlySorted-EachBefore :
      (R : A → A → Type 0)
      → ((a b : A) → less a b ≡ true → R a b)
      → (xs : List A) → StrictlySorted xs
      → EachBefore R xs
  StrictlySorted-EachBefore R h [] k = tt
  StrictlySorted-EachBefore R h (x ∷ xs) k = (
    All-map (λ z. less x z ≡ true) (R x) xs (λ z p. h x z p) k.0,
    StrictlySorted-EachBefore R h xs k.1,
  )

  -- Any two elements are strictly ordered one way or the other.
  abbrev pub IsComparable : List A → Type 0
  IsComparable [] = Unit
  IsComparable (x ∷ xs) = All (λ z. (less x z ≡ true) ⊎ (less z x ≡ true)) xs × IsComparable xs

  pub StrictlySorted-IsComparable : (xs : List A) → StrictlySorted xs → IsComparable xs
  StrictlySorted-IsComparable [] h = tt
  StrictlySorted-IsComparable (x ∷ xs) h = (
    All-map (λ z. less x z ≡ true) (λ z. (less x z ≡ true) ⊎ (less z x ≡ true)) xs (λ z p. inl p)
        h.0,
    StrictlySorted-IsComparable xs h.1,
  )

  pub IsComparable-concat :
      (xs : List A) (x : A)
      → IsComparable xs
      → All (λ z. (less z x ≡ true) ⊎ (less x z ≡ true)) xs
      → IsComparable (xs ++ x ∷ [])
  IsComparable-concat [] x h k = (tt, tt)
  IsComparable-concat (y ∷ ys) x h k = (
    All-append (λ z. (less y z ≡ true) ⊎ (less z y ≡ true)) ys (x ∷ []) h.0 (k.0, tt),
    IsComparable-concat ys x h.1 k.1,
  )

  module _ (trans : (a b c : A) → less a b ≡ true → less b c ≡ true → less a c ≡ true) where
    insert_sorted-StrictlySorted :
        (x : A) (ys : List A)
        → StrictlySorted ys
        → All (λ z. (less x z ≡ true) ⊎ (less z x ≡ true)) ys
        → StrictlySorted (insert_sorted x ys)
    unfolding insert_sorted
    insert_sorted-StrictlySorted x [] h k = (tt, tt)
    insert_sorted-StrictlySorted x (y ∷ ys) h k = elim (Bool-cases (less y x)) [
      | inl lt ↦ rw lt (
        insert_sorted-All (λ z. less y z ≡ true) x ys lt h.0,
        insert_sorted-StrictlySorted x ys h.1 k.1,
      )
      | inr ge ↦
          let first : less x y ≡ true = elim k.0 [ inl p ↦ p | inr q ↦ cc ] in
          rw ge (
            (
              first,
              All-map (λ z. less y z ≡ true) (λ z. less x z ≡ true) ys (λ z p. trans x y z first p)
                  h.0,
            ),
            h,
          )
    ]

    pub sort_by-StrictlySorted : (xs : List A) → IsComparable xs → StrictlySorted (sort_by xs)
    unfolding sort_by
    sort_by-StrictlySorted [] h = tt
    sort_by-StrictlySorted (x ∷ xs) h =
        insert_sorted-StrictlySorted x (sort_by xs) (sort_by-StrictlySorted xs h.1)
          (sort_by-All (λ z. (less x z ≡ true) ⊎ (less z x ≡ true)) xs h.0)
