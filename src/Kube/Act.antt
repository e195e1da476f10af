-- ===== src/Kube/Act.antt =====
-- Actions on the world that may fail with an error, with a log of the requests, latest first. A
-- request stays made, and logged, when a later step fails.
use operator_go.Prelude.{ℕ, String, Option, none, some, List, ◌∷◌}
use operator_go.Common.Errors.{Err, Result, ok, fail}
use operator_go.Kube.{
  Kind, Object, ApiError, Answer, got, refused, Selector, Reader, Client, Event, answered, ticked,
  updated, deleted, announced,
}

pub record Run (W : Type 0) : Type 0 where
  pub world : W
  pub log : List Event

abbrev pub Act : Type 0 → Type 0 → Type 0
Act W A = Run W → Result A × Run W

module _ {W A : Type 0} where
  abbrev pub pure : A → Act W A
  pure a run = (ok a, run)

  abbrev pub raise : Err → Act W A
  raise err run = (fail err, run)

  -- Go on after an error, which the caller keeps.
  abbrev pub attempt : Act W A → Act W (Result A)
  attempt m run = let (r, run') = m run in (ok r, run')

infixl 5 ◌>>=◌ ◌>>◌
abbrev pub ◌>>=◌ : {W A B : Type 0} → Act W A → (A → Act W B) → Act W B
◌>>=◌ m f run = let (r, run') = m run in elim r [ ok a ↦ f a run' | fail err ↦ raise err run' ]

abbrev pub ◌>>◌ : {W A B : Type 0} → Act W A → Act W B → Act W B
m >> k = m >>= λ _. k

-- Go on by the answer of a request.
unfoldable pub on_answer :
    {W A B : Type 0} → Answer A → (A → Act W B) → (ApiError → Act W B) → Act W B
on_answer (got a) f g = f a
on_answer (refused e) f g = g e

-- Return early with an error.
unfoldable pub unless_error : {W A : Type 0} → Option Err → (Err → Act W A) → Act W A → Act W A
unless_error (some err) early rest = early err
unless_error none early rest = rest

-- `fmt.Errorf("…: %w", err)` around an action's error.
abbrev pub wrap_error : {W A : Type 0} → (Err → Err) → Act W A → Act W A
wrap_error wrap m run =
    let (r, run') = m run in elim r [ ok a ↦ (ok a, run') | fail err ↦ (fail (wrap err), run') ]

-- One request, logged with its answer.
unfoldable pub request : {W A : Type 0} → (W → A × W) → (A → Event) → Act W A
request f event run =
    let (a, w) = f run.world in (ok a, record { world = w; log = event a ∷ run.log })

module _ {W : Type 0} where
  unfoldable pub get : Reader W → Kind → String → Act W (Answer Object)
  get reader kind name = request (reader.get kind name) (answered reader.source kind name)

  -- A list is not logged.
  unfoldable pub list : Reader W → Kind → Selector → Act W (Answer (List Object))
  list reader kind selector run =
      let (a, w) = reader.list kind selector run.world in (ok a, record run { world = w })

  unfoldable pub update : Client W → Kind → Object → Act W (Answer Unit)
  update client kind obj = request (client.update kind obj) (λ _. updated kind obj)

  unfoldable pub delete : Client W → Kind → Object → Act W (Answer Unit)
  delete client kind obj = request (client.delete kind obj) (λ _. deleted kind obj)

  unfoldable pub tick : (W → ℕ × W) → Act W ℕ
  tick clock = request clock ticked

  unfoldable pub announce : Kind → Object → Act W Unit
  announce kind obj run = (ok tt, record run { log = announced kind obj ∷ run.log })
