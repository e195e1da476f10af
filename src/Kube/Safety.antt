-- ===== src/Kube/Safety.antt =====
-- Actions every event of which obeys a rule, whatever the log they start on.
use operator_go.Prelude.{Bool, true, false, Option, none, some, List, ◌≡◌, refl, if◌then◌else◌}
use operator_go.Common.Errors.{Err, Result, ok, fail}
use operator_go.Kube.{Kind, ApiError, Answer, got, refused, Selector, Reader, Event}
use operator_go.Kube.Act.{
  Run, Act, pure, raise, attempt, ◌>>=◌, on_answer, unless_error, wrap_error, request, list,
}
use operator_go.Kube.Logic.{
  Anything, Fact, Grows, Keeps, Kept, attempt-Keeps, bind-Keeps, frame-Keeps, list-Keeps,
  pure-Keeps, raise-Keeps, request-Keeps, weaken-Keeps,
}

abbrev pub Safe : {W A : Type 0} → (Event → Fact) → Act W A → Type 0
Safe rule m = Keeps rule Anything m (λ a. Anything)

module _ {W : Type 0} {rule : Event → Fact} where
  pub pure-Safe : {A : Type 0} (a : A) → Safe {W = W} rule (pure a)
  pure-Safe a = pure-Keeps rule _ _ a (λ es p. tt)

  pub raise-Safe : {A : Type 0} (err : Err) → Safe {W = W} {A = A} rule (raise err)
  raise-Safe err = raise-Keeps rule _ _ err

  pub bind-Safe :
      {A B : Type 0} {m : Act W A} {k : A → Act W B}
      → Safe rule m
      → ((a : A) → Safe rule (k a))
      → Safe rule (m >>= k)
  bind-Safe {m = m} {k = k} hm hk = bind-Keeps rule _ _ _ m k hm hk

  pub if-Safe :
      {A : Type 0} (b : Bool) {m n : Act W A}
      → (b ≡ true → Safe rule m)
      → (b ≡ false → Safe rule n)
      → Safe rule (if b then m else n)
  if-Safe true hm hn = hm refl
  if-Safe false hm hn = hn refl

  pub attempt-Safe : {A : Type 0} {m : Act W A} → Safe rule m → Safe rule (attempt m)
  attempt-Safe {m = m} hm =
      weaken-Keeps rule _ _ _ _ _ (λ es p. p) (λ a es q. tt) (attempt-Keeps rule _ _ m hm)

  pub list-Safe :
      (reader : Reader W) (kind : Kind) (selector : Selector)
      → Safe rule (list reader kind selector)
  list-Safe reader kind selector = list-Keeps rule _ reader kind selector

  pub request-Safe :
      {A : Type 0} (f : W → A × W) (event : A → Event)
      → ((a : A) (es : List Event) → rule (event a) es)
      → Safe rule (request f event)
  request-Safe f event h = request-Keeps rule _ _ _ _ (λ a es p. h a es) (λ a es p. tt)

  pub on_answer-Safe :
      {A B : Type 0} (answer : Answer A) {f : A → Act W B} {g : ApiError → Act W B}
      → ((a : A) → Safe rule (f a))
      → ((e : ApiError) → Safe rule (g e))
      → Safe rule (on_answer answer f g)
  unfolding on_answer
  on_answer-Safe (got a) hf hg = hf a
  on_answer-Safe (refused e) hf hg = hg e

  pub unless_error-Safe :
      {A : Type 0} (o : Option Err) {early : Err → Act W A} {rest : Act W A}
      → ((err : Err) → Safe rule (early err))
      → Safe rule rest
      → Safe rule (unless_error o early rest)
  unfolding unless_error
  unless_error-Safe (some err) he hr = he err
  unless_error-Safe none he hr = hr

  wrap-Kept :
      {A : Type 0} (wrap : Err → Err) (es : List Event) (r : Result A × Run W)
      → Kept {W = W} {A = A} rule (λ a. Anything) es r
      → Kept {W = W} {A = A} rule
          (λ a. Anything)
          es
          (elim r.0 [ ok a ↦ (ok a, r.1) | fail err ↦ (fail (wrap err), r.1) ])
  wrap-Kept wrap es (ok a, run) h = record { valid = h.valid; grows = h.grows; leaves = λ b e. tt }
  wrap-Kept wrap es (fail err, run) h = record {
    valid = h.valid;
    grows = h.grows;
    leaves = λ b e. tt;
  }

  pub wrap_error-Safe :
      {A : Type 0} (wrap : Err → Err) {m : Act W A} → Safe rule m → Safe rule (wrap_error wrap m)
  wrap_error-Safe wrap {m = m} hm = record {
    keeps = λ run v p. wrap-Kept wrap run.log (m run) (hm.keeps run v p);
  }

  -- A fact that lasts as the log grows lasts over an action.
  pub frame-Safe :
      {A : Type 0} {m : Act W A} (F : Fact)
      → ((es fs : List Event) → Grows es fs → F es → F fs)
      → Safe rule m
      → Keeps rule F m (λ a. F)
  frame-Safe {m = m} F stable hm =
      weaken-Keeps rule _ _ _ _ _ (λ es f. (tt, f)) (λ a es q. q.1)
        (frame-Keeps rule _ _ m F stable hm)
