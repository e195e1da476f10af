-- ===== src/Kube/Logic.antt =====
-- A logic of actions: a rule on events, which each event must obey given those before it, is kept
-- by an action that starts where `P` holds of the log and leaves `Q`.
use operator_go.Prelude.{
  Bool, true, false, Option, none, some, List, [], ◌∷◌, ◌≡◌, refl, ◌∙◌, inr, Member, if◌then◌else◌,
}
use operator_go.Common.Errors.{Err, Result, ok, fail}
use operator_go.Kube.{Kind, Selector, Reader, Event}
use mathlib.Core.Path.{subst}
use operator_go.Kube.Act.{Run, Act, pure, raise, attempt, ◌>>=◌, unless_error, request, list}

abbrev pub Fact : Type 1
Fact = List Event → Type 0

-- Every event obeys the rule, given the events before it.
abbrev pub Valid : (Event → Fact) → Fact
Valid rule [] = Unit
Valid rule (e ∷ es) = rule e es × Valid rule es

abbrev pub Anything : Fact
Anything es = Unit

-- The events so far stay in the log.
abbrev pub Grows : List Event → List Event → Type 0
Grows es fs = (e : Event) → Member e es → Member e fs

pub record Kept {W A : Type 0} (rule : Event → Fact) (Q : A → Fact) (es : List Event)
    (r : Result A × Run W) : Type 0 where
  pub valid : Valid rule r.1.log
  pub grows : Grows es r.1.log
  pub leaves : (a : A) → r.0 ≡ ok a → Q a r.1.log

pub record Keeps {W A : Type 0} (rule : Event → Fact) (P : Fact) (m : Act W A) (Q : A → Fact)
    : Type 0 where
  pub keeps : (run : Run W) → Valid rule run.log → P run.log → Kept rule Q run.log (m run)

ok-injective : {A : Type 0} (a b : A) → ok a ≡ ok b → a ≡ b
ok-injective a b e = cc

module _ {W : Type 0} (rule : Event → Fact) where
  pub pure-Keeps :
      {A : Type 0} (P : Fact) (Q : A → Fact) (a : A)
      → ((es : List Event) → P es → Q a es)
      → Keeps {W = W} rule P (pure a) Q
  pure-Keeps P Q a h = record {
    keeps = λ run v p. record {
      valid = v;
      grows = λ e m. m;
      leaves = λ b e. subst (λ c. Q c run.log) (ok-injective a b e) (h run.log p);
    };
  }

  pub raise-Keeps :
      {A : Type 0} (P : Fact) (Q : A → Fact) (err : Err) → Keeps {W = W} rule P (raise err) Q
  raise-Keeps P Q err = record {
    keeps = λ run v p. record { valid = v; grows = λ e m. m; leaves = λ b e. cc };
  }

  bind-Kept :
      {A B : Type 0} (Q : A → Fact) (R : B → Fact) (k : A → Act W B) (es : List Event)
      (r : Result A × Run W)
      → Kept {W = W} rule Q es r
      → ((a : A) → Keeps rule (Q a) (k a) R)
      → Kept {W = W} rule R es (elim r.0 [ ok a ↦ k a r.1 | fail err ↦ raise err r.1 ])
  bind-Kept Q R k es (ok a, run) h hk =
      let after = (hk a).keeps run h.valid (h.leaves a refl) in
      record {
        valid = after.valid;
        grows = λ e m. after.grows e (h.grows e m);
        leaves = after.leaves;
      }
  bind-Kept Q R k es (fail err, run) h hk = record {
    valid = h.valid;
    grows = h.grows;
    leaves = λ b e. cc;
  }

  pub bind-Keeps :
      {A B : Type 0} (P : Fact) (Q : A → Fact) (R : B → Fact) (m : Act W A) (k : A → Act W B)
      → Keeps rule P m Q
      → ((a : A) → Keeps rule (Q a) (k a) R)
      → Keeps rule P (m >>= k) R
  bind-Keeps P Q R m k hm hk = record {
    keeps = λ run v p. bind-Kept Q R k run.log (m run) (hm.keeps run v p) hk;
  }

  -- What follows needs only that the event is in the log, which every action keeps.
  pub frame-Keeps :
      {A : Type 0} (P : Fact) (Q : A → Fact) (m : Act W A) (F : Fact)
      → ((es fs : List Event) → Grows es fs → F es → F fs)
      → Keeps rule P m Q
      → Keeps rule (λ es. P es × F es) m (λ a es. Q a es × F es)
  frame-Keeps P Q m F stable hm = record {
    keeps = λ run v pf.
        let h = hm.keeps run v pf.0 in
        record {
          valid = h.valid;
          grows = h.grows;
          leaves = λ a e. (h.leaves a e, stable run.log _ h.grows pf.1);
        };
  }

  pub weaken-Keeps :
      {A : Type 0} (P P' : Fact) (Q Q' : A → Fact) (m : Act W A)
      → ((es : List Event) → P' es → P es)
      → ((a : A) (es : List Event) → Q a es → Q' a es)
      → Keeps rule P m Q
      → Keeps rule P' m Q'
  weaken-Keeps P P' Q Q' m weaker stronger hm = record {
    keeps = λ run v p.
        let h = hm.keeps run v (weaker run.log p) in
        record { valid = h.valid; grows = h.grows; leaves = λ a e. stronger a _ (h.leaves a e) };
  }

  pub attempt-Keeps :
      {A : Type 0} (P : Fact) (Q : A → Fact) (m : Act W A)
      → Keeps rule P m Q
      → Keeps rule P (attempt m) (λ r es. (a : A) → r ≡ ok a → Q a es)
  attempt-Keeps P Q m hm = record {
    keeps = λ run v p.
        let h = hm.keeps run v p in
        record {
          valid = h.valid;
          grows = h.grows;
          leaves = λ r e a ea. h.leaves a (ok-injective (m run).0 r e ∙ ea);
        };
  }

  pub if-Keeps :
      {A : Type 0} {P : Fact} {Q : A → Fact} (b : Bool) {m n : Act W A}
      → Keeps rule P m Q
      → Keeps rule P n Q
      → Keeps rule P (if b then m else n) Q
  if-Keeps true hm hn = hm
  if-Keeps false hm hn = hn

  pub unless_error-Keeps :
      {A : Type 0} {P : Fact} {Q : A → Fact} (o : Option Err) {early : Err → Act W A}
      {rest : Act W A}
      → ((err : Err) → o ≡ some err → Keeps rule P (early err) Q)
      → Keeps rule P rest Q
      → Keeps rule P (unless_error o early rest) Q
  unfolding unless_error
  unless_error-Keeps (some err) he hr = he err refl
  unless_error-Keeps none he hr = hr

  -- What is known before of values, not of the log.
  pub given-Keeps :
      {A X : Type 0} {m : Act W A} {Q : A → Fact}
      → (X → Keeps rule Anything m Q)
      → Keeps rule (λ es. X) m Q
  given-Keeps h = record { keeps = λ run v x. (h x).keeps run v tt }

  pub request-Keeps :
      {A : Type 0} (P : Fact) (Q : A → Fact) (f : W → A × W) (event : A → Event)
      → ((a : A) (es : List Event) → P es → rule (event a) es)
      → ((a : A) (es : List Event) → P es → Q a (event a ∷ es))
      → Keeps {W = W} rule P (request f event) Q
  unfolding request
  request-Keeps P Q f event obeys leaves = record {
    keeps = λ run v p.
        let a = (f run.world).0 in
        record {
          valid = (obeys a run.log p, v);
          grows = λ e m. inr m;
          leaves = λ b eb.
              subst (λ c. Q c (event a ∷ run.log)) (ok-injective a b eb) (leaves a run.log p);
        };
  }

  pub list-Keeps :
      (P : Fact) (reader : Reader W) (kind : Kind) (selector : Selector)
      → Keeps {W = W} rule P (list reader kind selector) (λ a. P)
  unfolding list
  list-Keeps P reader kind selector = record {
    keeps = λ run v p. record { valid = v; grows = λ e m. m; leaves = λ a e. p };
  }
