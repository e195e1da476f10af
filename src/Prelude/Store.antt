-- ===== src/Prelude/Store.antt =====
-- A heap of values of one type, which pointers that may alias are addresses of.
use Prim.Native.Nat.{ℕ, zero, suc, ◌<◌}
use mathlib.Core.Path.{◌≡◌, refl}
use mathlib.Core.List.{List, [], ◌∷◌, ◌++◌}
use mathlib.Core.Option.{Option, none, some}
use native.Mathlib.Omega.{arith}
use operator_go.Prelude.Lists.{length, is_some}
use operator_go.Prelude.Tests.{eqb}
use mathlib.Core.Bool.{true, false}

abbrev pub Store : Type 0 → Type 0
Store A = List A

module _ {A : Type 0} where
  -- `*p`; none at an address that holds nothing.
  unfoldable pub load : ℕ → Store A → Option A
  load n [] = none
  load zero (a ∷ s) = some a
  load (suc n) (a ∷ s) = load n s

  -- `*p = f(*p)`
  unfoldable pub update : ℕ → (A → A) → Store A → Store A
  update n f [] = []
  update zero f (a ∷ s) = f a ∷ s
  update (suc n) f (a ∷ s) = a ∷ update n f s

  pub load-update_other :
      (n k : ℕ) (f : A → A) (s : Store A) → n < k → load n (update k f s) ≡ load n s
  unfolding load update
  load-update_other n k f [] h = refl
  load-update_other n zero f (a ∷ s) h = ground (arith, h)
  load-update_other zero (suc k) f (a ∷ s) h = refl
  load-update_other (suc n) (suc k) f (a ∷ s) h = load-update_other n k f s (omega (arith, h))

  pub load-append_left : (n : ℕ) (s t : Store A) → n < length s → load n (s ++ t) ≡ load n s
  unfolding load
  load-append_left n [] t h = ground (arith, h)
  load-append_left zero (a ∷ s) t h = refl
  load-append_left (suc n) (a ∷ s) t h = load-append_left n s t (omega (arith, h))

  -- A new cell at the end.
  pub load-append_new : (s : Store A) (a : A) → load (length s) (s ++ a ∷ []) ≡ some a
  unfolding load
  load-append_new [] a = refl
  load-append_new (b ∷ s) a = load-append_new s a

  pub length-update : (k : ℕ) (f : A → A) (s : Store A) → length (update k f s) ≡ length s
  unfolding update
  length-update k f [] = refl
  length-update zero f (a ∷ s) = refl
  length-update (suc k) f (a ∷ s) = omega (arith, length-update k f s)

  -- `some` of the function's value, if there is one.
  abbrev pub changed : (A → A) → Option A → Option A
  changed f none = none
  changed f (some a) = some (f a)

  pub load-update_same :
      (n : ℕ) (f : A → A) (s : Store A) → load n (update n f s) ≡ changed f (load n s)
  unfolding load update
  load-update_same n f [] = refl
  load-update_same zero f (a ∷ s) = refl
  load-update_same (suc n) f (a ∷ s) = load-update_same n f s

  pub load-update_differs :
      (n k : ℕ) (f : A → A) (s : Store A) → eqb n k ≡ false → load n (update k f s) ≡ load n s
  unfolding load update
  load-update_differs n k f [] h = refl
  load-update_differs zero zero f (a ∷ s) h = cc
  load-update_differs (suc n) zero f (a ∷ s) h = refl
  load-update_differs zero (suc k) f (a ∷ s) h = refl
  load-update_differs (suc n) (suc k) f (a ∷ s) h = load-update_differs n k f s (ground (arith, h))

  -- An address below the length holds a value.
  pub load_held : (n : ℕ) (s : Store A) → n < length s → is_some (load n s) ≡ true
  unfolding load
  load_held n [] h = ground (arith, h)
  load_held zero (a ∷ s) h = refl
  load_held (suc n) (a ∷ s) h = load_held n s (omega (arith, h))
