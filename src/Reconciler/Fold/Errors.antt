-- ===== src/Reconciler/Fold/Errors.antt =====
-- When `FoldCommonConfig` returns a config: exactly when every layer's affinity decodes and the last
-- one that a layer states encodes.
use operator_go.Prelude.{ℕ, ◌+◌, Option, none, some, List, [], ◌∷◌, ◌≡◌, ◌↔◌, All}
use operator_go.Prelude.Maps.{OfFound}
use operator_go.Common.Errors.{Result, ok, fail, and_then, IsOk, OnOk}
use operator_go.Api.Config.{RoleGroupConfigSpec, RawExtension}
use operator_go.Reconciler.Affinity.{
  Terms, Affinity, AffinityCodec, decode_affinity, encode_affinity, normalize_affinity,
}
use operator_go.Reconciler.Fold.{
  Folded, with_affinity, fold_layer, fold_layers, nothing_folded, config_of, fold_common_config,
}
use operator_go.Reconciler.Fold.Layers.{last_stated, stated_affinity, affinity-fold_layers}

module _ {Quantity : Type 0} {T : Terms} (codec : AffinityCodec T) where
  abbrev pub Decodes : RoleGroupConfigSpec Quantity → Type 0
  Decodes layer = IsOk (decode_affinity codec layer.affinity)

  with_affinity-IsOk :
      (i : ℕ) (layer : RoleGroupConfigSpec Quantity) (f : Folded Quantity T)
      (d : Result (Option (Affinity T))) (next : Folded Quantity T → Result (Folded Quantity T))
      (P : Type 0)
      → ((g : Folded Quantity T) → IsOk (next g) ↔ P)
      → (IsOk (and_then (with_affinity codec i layer f d) next) ↔ (IsOk d × P))
  with_affinity-IsOk i layer f (ok decoded) next P h =
      let k = h (elim (with_affinity codec i layer f (ok decoded)) [ ok g ↦ g | fail err ↦ f ]) in
      (λ u. (tt, k.0 u), λ p. k.1 p.1)
  with_affinity-IsOk i layer f (fail err) next P h = (λ u. absurd u, λ p. absurd p.0)

  fold_layers-IsOk :
      (i : ℕ) (layers : List (Option (RoleGroupConfigSpec Quantity))) (f : Folded Quantity T)
      → IsOk (fold_layers codec i layers f) ↔ All (OfFound Decodes) layers
  unfolding fold_layers fold_layer
  fold_layers-IsOk i [] f = (λ u. tt, λ u. tt)
  fold_layers-IsOk i (none ∷ layers) f =
      let rest = fold_layers-IsOk (i + 1) layers f in (λ u. (tt, rest.0 u), λ p. rest.1 p.1)
  fold_layers-IsOk i (some layer ∷ layers) f =
      with_affinity-IsOk i layer f (decode_affinity codec layer.affinity)
        (fold_layers codec (i + 1) layers) (All (OfFound Decodes) layers)
        (λ g. fold_layers-IsOk (i + 1) layers g)

  encodes :
      (f : Folded Quantity T) (r : Result (Option RawExtension))
      → IsOk (config_of f r) ↔ (Unit {0} × IsOk r)
  encodes f (ok a) = (λ u. (tt, tt), λ p. tt)
  encodes f (fail err) = (λ u. absurd u, λ p. absurd p.1)

  config_of-IsOk :
      (r : Result (Folded Quantity T)) (a : Option (Affinity T))
      → OnOk (λ g. normalize_affinity g.affinity ≡ a) r
      → (IsOk
            (and_then r (λ f. config_of f (encode_affinity codec (normalize_affinity f.affinity))))
          ↔ (IsOk r × IsOk (encode_affinity codec a)))
  config_of-IsOk (ok f) a h = rw h (encodes f (encode_affinity codec a))
  config_of-IsOk (fail err) a h = (λ u. absurd u, λ p. absurd p.0)

  -- The fold returns a config exactly when every layer's affinity decodes and the last one that a
  -- layer states, normalized, encodes.
  pub fold_common_config-IsOk :
      (layers : List (Option (RoleGroupConfigSpec Quantity)))
      → IsOk (fold_common_config codec layers) ↔ (
          All (OfFound Decodes) layers
          × IsOk (
              encode_affinity codec
                (normalize_affinity (last_stated (stated_affinity codec) layers))))
  unfolding fold_common_config
  fold_common_config-IsOk layers =
      let loop = fold_layers-IsOk 0 layers nothing_folded in
      let whole =
        config_of-IsOk (fold_layers codec 0 layers nothing_folded)
          (normalize_affinity (last_stated (stated_affinity codec) layers))
          (affinity-fold_layers codec layers) in
      (λ u. (loop.0 (whole.0 u).0, (whole.0 u).1), λ p. whole.1 (loop.1 p.0, p.1))
