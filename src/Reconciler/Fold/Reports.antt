-- ===== src/Reconciler/Fold/Reports.antt =====
-- What `FoldCommonConfig` reports: no member of an affinity that a layer states is lost in silence.
use mathlib.Core.Path.{subst}
use operator_go.Prelude.{
  ℕ, Bool, true, false, not, ◌&&◌, ◌||◌, Option, none, some, List, [], ◌∷◌, ◌≡◌, refl, sym, ◌∙◌,
  arith,
}
use operator_go.Prelude.Eq.{string_eq, contains}
use operator_go.Common.Errors.{Result, ok, fail, OnOk}
use operator_go.Api.Config.{RoleGroupConfigSpec}
use operator_go.Reconciler.Affinity.{
  Terms, Affinity, AffinityCodec, decode_affinity, encode_affinity, normalize_affinity,
}
use operator_go.Reconciler.Fold.{
  Folded, AffinityReplacement, fold_affinity, with_affinity, fold_layer, fold_layers,
  nothing_folded, fold_common_config,
}
use operator_go.Reconciler.Fold.Layers.{stated_affinity, fold_layers-OnOk}
use operator_go.Reconciler.Fold.Stated.{fold_common_config-FoldRun}
use operator_go.Reconciler.Fold.Members.{
  AffinityMember, member_name, carries, decides, reported, reported-report, carries-fold_affinity,
  carries-stated,
}

or_true : (b : Bool) → (b || true) ≡ true
or_true true = refl
or_true false = refl

and_true : {b : Bool} → b ≡ true → (b && true) ≡ true
and_true h = rw h refl

-- The tests of a layer and of the layers above it, put together.
below_or_here :
    (now decided named later above lost : Bool)
    → (now || (decided || named)) ≡ true
    → (now ≡ true → (later || (above || lost)) ≡ true)
    → (named ≡ true → lost ≡ true)
    → (later || ((decided || above) || lost)) ≡ true
below_or_here true decided named later above lost h later_on up = ground (arith, later_on refl)
below_or_here false true named later above lost h later_on up = ground arith
below_or_here false false true later above lost h later_on up = ground (arith, up refl)
below_or_here false false false later above lost h later_on up = cc

carried_or_not :
    (states now : Bool) (rest : Bool)
    → (states ≡ true → now ≡ true)
    → (now ≡ true → rest ≡ true)
    → (not states || rest) ≡ true
carried_or_not true now rest h k = k (h refl)
carried_or_not false now rest h k = refl

module _ {Quantity : Type 0} {T : Terms} (codec : AffinityCodec T) where
  -- A layer decides the member.
  abbrev pub decided_by : AffinityMember → List (Option (RoleGroupConfigSpec Quantity)) → Bool
  decided_by m [] = false
  decided_by m (none ∷ layers) = decided_by m layers
  decided_by m (some layer ∷ layers) =
      decides m (stated_affinity codec layer) || decided_by m layers

  -- Each layer that gives the member terms is accounted for: the result `kept` the member, or a
  -- layer above decides it, or a report names it.
  abbrev pub accounted :
      AffinityMember
      → Bool
      → List AffinityReplacement
      → List (Option (RoleGroupConfigSpec Quantity))
      → Bool
  accounted m kept rs [] = true
  accounted m kept rs (none ∷ layers) = accounted m kept rs layers
  accounted m kept rs (some layer ∷ layers) =
      (not (carries m (normalize_affinity (stated_affinity codec layer)))
        || (kept || (decided_by m layers || reported m rs)))
      && accounted m kept rs layers

  -- What the layers above the state `f` do to a member, in the state `g` that they end in.
  record Accounts (m : AffinityMember) (layers : List (Option (RoleGroupConfigSpec Quantity)))
      (f g : Folded Quantity T) : Type 0 where
    below :
        carries m (normalize_affinity f.affinity) ≡ true
        → (carries m (normalize_affinity g.affinity)
            || (decided_by m layers || reported m g.replaced))
          ≡ true
    reports : reported m f.replaced ≡ true → reported m g.replaced ≡ true
    within : accounted m (carries m (normalize_affinity g.affinity)) g.replaced layers ≡ true

  with_affinity-Accounts :
      (m : AffinityMember) (i : ℕ) (layer : RoleGroupConfigSpec Quantity)
      (layers : List (Option (RoleGroupConfigSpec Quantity))) (f : Folded Quantity T)
      (d : Result (Option (Affinity T)))
      → decode_affinity codec layer.affinity ≡ d
      → OnOk
          (λ g.
            (k : Folded Quantity T) → Accounts m layers g k → Accounts m (some layer ∷ layers) f k)
          (with_affinity codec i layer f d)
  with_affinity-Accounts m i layer layers f (ok u) e = λ k h.
      let here = carries-fold_affinity m f.affinity u in
      let stated = carries-stated m f.affinity u in
      let named = reported-report m i (fold_affinity f.affinity u).1 f.replaced in
      record {
        below = λ c. rw e (
            below_or_here (carries m (normalize_affinity (fold_affinity f.affinity u).0))
              (decides m u) (contains (member_name m) (fold_affinity f.affinity u).1)
              (carries m (normalize_affinity k.affinity)) (decided_by m layers)
              (reported m k.replaced) (here c) h.below
              (λ n. h.reports (named ∙ rw n (or_true (reported m f.replaced)))));
        reports = λ r. h.reports (named ∙ rw r refl);
        within = rw e (
            rw h.within (
              and_true (
                carried_or_not (carries m (normalize_affinity u))
                  (carries m (normalize_affinity (fold_affinity f.affinity u).0))
                  (carries m (normalize_affinity k.affinity)
                    || (decided_by m layers || reported m k.replaced))
                  stated h.below)));
      }
  with_affinity-Accounts m i layer layers f (fail err) e = tt

  fold_layers-Accounts :
      (m : AffinityMember) (layers : List (Option (RoleGroupConfigSpec Quantity)))
      → OnOk (Accounts m layers nothing_folded) (fold_layers codec 0 layers nothing_folded)
  fold_layers-Accounts m layers =
      fold_layers-OnOk codec (Accounts m)
        (λ f. record { below = λ c. rw c refl; reports = λ r. r; within = refl })
        (λ ls f g h. record { below = h.below; reports = h.reports; within = h.within })
        (λ i layer ls f.
          unfold fold_layer in
          with_affinity-Accounts m i layer ls f (decode_affinity codec layer.affinity) refl)
        0 layers nothing_folded

  -- Where the fold returns a config, its affinity is the encoding of one that accounts for every
  -- layer that gives a member of the affinity terms: it carries that member, or a layer above states
  -- the member or clears the affinity, or a report names the member.
  pub fold_common_config-accounted :
      (m : AffinityMember) (layers : List (Option (RoleGroupConfigSpec Quantity)))
      (out : RoleGroupConfigSpec Quantity) (replaced : List AffinityReplacement)
      → fold_common_config codec layers ≡ ok (out, replaced)
      → (kept : Option (Affinity T)) × (encode_affinity codec kept ≡ ok out.affinity)
        × (accounted m (carries m kept) replaced layers ≡ true)
  fold_common_config-accounted m layers out replaced h =
      let run = fold_common_config-FoldRun codec layers out replaced h in
      let accounts =
        subst (OnOk (Accounts m layers nothing_folded)) run.runs (fold_layers-Accounts m layers) in
      (
        normalize_affinity run.state.affinity,
        run.encodes,
        subst
            (λ rs. accounted m (carries m (normalize_affinity run.state.affinity)) rs layers ≡ true)
            (sym run.replaced) accounts.within,
      )
