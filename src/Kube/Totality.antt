-- ===== src/Kube/Totality.antt =====
-- Actions that return on every run: no step waits for one that does not come.
use operator_go.Prelude.{Bool, true, false, Option, none, some, ◌≡◌, refl, if◌then◌else◌}
use operator_go.Common.Errors.{Err, ok}
use operator_go.Kube.Act.{Run, Act, pure, attempt, ◌>>=◌, unless_error}

-- The action returns, whatever it is run on.
pub record Returns {W A : Type 0} (m : Act W A) : Type 0 where
  pub returns : (run : Run W) → (a : A) × ((m run).0 ≡ ok a)

module _ {W : Type 0} where
  pub pure-Returns : {A : Type 0} (a : A) → Returns {W = W} (pure a)
  pure-Returns a = record { returns = λ run. (a, refl) }

  pub bind-Returns :
      {A B : Type 0} {m : Act W A} {k : A → Act W B}
      → Returns m
      → ((a : A) → Returns (k a))
      → Returns (m >>= k)
  bind-Returns {m = m} hm hk = record {
    returns = λ run.
        let (a, e) = hm.returns run in
        let (b, e') = (hk a).returns (m run).1 in (b, rw (e, ◌>>=◌) e');
  }

  pub attempt-Returns : {A : Type 0} (m : Act W A) → Returns (attempt m)
  attempt-Returns m = record { returns = λ run. ((m run).0, refl) }

  pub if-Returns :
      {A : Type 0} (b : Bool) {m n : Act W A} → Returns m → Returns n → Returns (if b then m else n)
  if-Returns true hm hn = hm
  if-Returns false hm hn = hn

  pub unless_error-Returns :
      {A : Type 0} (o : Option Err) {early : Err → Act W A} {rest : Act W A}
      → ((err : Err) → Returns (early err))
      → Returns rest
      → Returns (unless_error o early rest)
  unfolding unless_error
  unless_error-Returns (some err) he hr = he err
  unless_error-Returns none he hr = hr
