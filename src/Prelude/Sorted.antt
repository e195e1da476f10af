-- ===== src/Prelude/Sorted.antt =====
-- What a sorted list holds, and that a strict order sorts the same elements one way.
use mathlib.Core.Path.{◌≡◌, refl, sym, ap, ◌∙◌}
use mathlib.Core.Logic.{inl, inr}
use mathlib.Core.Bool.{Bool, true, false, ◌||◌}
use mathlib.Core.List.{List, [], ◌∷◌}
use native.Mathlib.Omega.{arith}
use operator_go.Prelude.Tests.{Bool-cases}
use operator_go.Prelude.Lists.{All}
use operator_go.Prelude.Eq.{Eq, ◌==◌, ==_refl, ==_comm, contains}
use operator_go.Prelude.Sort.{insert_sorted, sort_by, StrictlySorted}

module _ {A : Type 0} ⦃e : Eq A⦄ (less : A → A → Bool) where
  contains-insert_sorted :
      (j k : A) (ks : List A) → contains j (insert_sorted less k ks) ≡ (k == j || contains j ks)
  unfolding insert_sorted
  contains-insert_sorted j k [] = refl
  contains-insert_sorted j k (x ∷ ks) = elim (Bool-cases (less x k)) [
    | inl lt ↦ rw lt (ground (arith, contains-insert_sorted j k ks))
    | inr ge ↦ rw ge refl
  ]

  pub contains-sort_by : (j : A) (ks : List A) → contains j (sort_by less ks) ≡ contains j ks
  unfolding sort_by
  contains-sort_by j [] = refl
  contains-sort_by j (k ∷ ks) =
      contains-insert_sorted j k (sort_by less ks) ∙ ap (λ b. k == j || b) (contains-sort_by j ks)

pub All-contains {κ} :
    {A : Type 0} ⦃e : Eq A⦄ (P : A → Type κ) (z : A) (xs : List A)
    → All P xs
    → contains z xs ≡ true
    → P z
All-contains ⦃e⦄ P z [] h c = cc
All-contains ⦃e⦄ P z (x ∷ xs) h c = elim (Bool-cases (x == z)) [
  | inl same ↦ rw (← (e.beq_iff x z).0 same) h.0
  | inr other ↦ All-contains P z xs h.1 (ground (arith, c, other))
]

module _ {A : Type 0} ⦃e : Eq A⦄ (less : A → A → Bool) (irrefl : (a : A) → less a a ≡ false)
    (trans : (a b c : A) → less a b ≡ true → less b c ≡ true → less a c ≡ true) where
  -- No element that all of a list follow is in it.
  not_below : (x : A) (xs : List A) → All (λ z. less x z ≡ true) xs → contains x xs ≡ false
  not_below x xs h = elim (Bool-cases (contains x xs)) [
    | inl c ↦ let below = All-contains (λ z. less x z ≡ true) x xs h c in cc (irrefl x, below)
    | inr c ↦ c
  ]

  same_tail :
      (x z : A) (xs ys : List A)
      → contains x xs ≡ false
      → contains x ys ≡ false
      → (x == z || contains z xs) ≡ (x == z || contains z ys)
      → contains z xs ≡ contains z ys
  same_tail x z xs ys h k both = elim (Bool-cases (x == z)) [
    | inl same ↦ rw (← (e.beq_iff x z).0 same) (h ∙ sym k)
    | inr other ↦ ground (arith, both, other)
  ]

  pub sorted_unique :
      (xs ys : List A)
      → StrictlySorted less xs
      → StrictlySorted less ys
      → ((z : A) → contains z xs ≡ contains z ys)
      → xs ≡ ys
  sorted_unique [] [] p q h = refl
  sorted_unique [] (y ∷ ys) p q h = ground (arith, h y, ==_refl y)
  sorted_unique (x ∷ xs) [] p q h = ground (arith, h x, ==_refl x)
  sorted_unique (x ∷ xs) (y ∷ ys) p q h = elim (Bool-cases (x == y)) [
    | inl same ↦
        let here = (e.beq_iff x y).0 same in
        let below : contains x ys ≡ false = rw here (not_below y ys q.0) in
        let tails : xs ≡ ys = sorted_unique xs ys p.1 q.1 (λ z.
          same_tail x z xs ys (not_below x xs p.0) below
            (h z ∙ ap (λ w. w == z || contains z ys) (sym here))) in
        rw here (ap (λ t. y ∷ t) tails)
    | inr other ↦
        let in_ys : contains x ys ≡ true = ground (arith, h x, ==_refl x, ==_comm y x, other) in
        let in_xs : contains y xs ≡ true = ground (arith, h y, ==_refl y, other) in
        let yx = All-contains (λ z. less y z ≡ true) x ys q.0 in_ys in
        let xy = All-contains (λ z. less x z ≡ true) y xs p.0 in_xs in
        cc (irrefl x, trans x y x xy yx)
  ]
