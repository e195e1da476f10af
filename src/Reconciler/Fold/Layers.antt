-- ===== src/Reconciler/Fold/Layers.antt =====
-- The loop of `FoldCommonConfig`: what each reading of its state is after the layers.
use operator_go.Prelude.{
  ℕ, ◌+◌, false, Option, none, some, List, [], ◌∷◌, ◌≡◌, refl, sym, ap, ◌∙◌, inl, inr, Bool-cases,
  is_some,
}
use operator_go.Prelude.Maps.{or_else, or_else-none}
use operator_go.Common.Errors.{Result, ok, fail, OnOk, OnOk-and_then, OnOk-map}
use operator_go.Api.Config.{RoleGroupConfigSpec}
use operator_go.Reconciler.Affinity.{
  Terms, Affinity, AffinityCodec, decode_affinity, normalize_affinity,
}
use operator_go.Reconciler.Fold.{
  Folded, fold_affinity, with_affinity, fold_layer, fold_layers, nothing_folded,
}

pub or_else_assoc :
    {A : Type 0} (a b c : Option A) → or_else (or_else a b) c ≡ or_else a (or_else b c)
or_else_assoc none b c = refl
or_else_assoc (some a) b c = refl

module _ {Quantity : Type 0} where
  -- What the last layer that states a field says.
  abbrev pub last_stated :
      {A : Type 0}
      → (RoleGroupConfigSpec Quantity → Option A)
      → List (Option (RoleGroupConfigSpec Quantity))
      → Option A
  last_stated field [] = none
  last_stated field (none ∷ layers) = last_stated field layers
  last_stated field (some layer ∷ layers) = or_else (last_stated field layers) (field layer)

none_of_false : {A : Type 0} (o : Option A) → is_some o ≡ false → none ≡ o
none_of_false none h = refl
none_of_false (some a) h = cc

module _ {T : Terms} where
  abbrev pub value_of : Result (Option (Affinity T)) → Option (Affinity T)
  value_of (ok decoded) = decoded
  value_of (fail err) = none

  normalize_or_else :
      (o a b : Option (Affinity T))
      → normalize_affinity a ≡ normalize_affinity b
      → normalize_affinity (or_else o a) ≡ normalize_affinity (or_else o b)
  normalize_or_else none a b h = h
  normalize_or_else (some u) a b h = refl

  normalize-fold_affinity :
      (lower upper : Option (Affinity T))
      → normalize_affinity (fold_affinity lower upper).0 ≡ normalize_affinity (or_else upper lower)
  unfolding fold_affinity
  normalize-fold_affinity lower none = refl
  normalize-fold_affinity lower (some upper) =
      elim (Bool-cases (is_some (normalize_affinity (some upper)))) [
        | inl there ↦ rw there refl
        | inr cleared ↦
            rw cleared
              (unfold normalize_affinity in none_of_false (normalize_affinity (some upper)) cleared)
      ]

module _ {Quantity : Type 0} {T : Terms} (codec : AffinityCodec T) where
  pub with_affinity-OnOk :
      (P : Folded Quantity T → Type 0) (i : ℕ) (layer : RoleGroupConfigSpec Quantity)
      (f : Folded Quantity T) (d : Result (Option (Affinity T)))
      → ((decoded : Option (Affinity T)) → OnOk P (with_affinity codec i layer f (ok decoded)))
      → OnOk P (with_affinity codec i layer f d)
  with_affinity-OnOk P i layer f (ok decoded) h = h decoded
  with_affinity-OnOk P i layer f (fail err) h = tt

  -- A relation of the state to the layers that every layer keeps.
  module _
      (P : List (Option (RoleGroupConfigSpec Quantity))
        → Folded Quantity T
        → Folded Quantity T
        → Type 0)
      (start : (f : Folded Quantity T) → P [] f f)
      (skip : (layers : List (Option (RoleGroupConfigSpec Quantity))) (f g : Folded Quantity T)
        → P layers f g
        → P (none ∷ layers) f g)
      (step : (i : ℕ) (layer : RoleGroupConfigSpec Quantity)
          (layers : List (Option (RoleGroupConfigSpec Quantity))) (f : Folded Quantity T)
        → OnOk
            (λ g. (k : Folded Quantity T) → P layers g k → P (some layer ∷ layers) f k)
            (fold_layer codec i (some layer) f)) where
    pub fold_layers-OnOk :
        (i : ℕ) (layers : List (Option (RoleGroupConfigSpec Quantity))) (f : Folded Quantity T)
        → OnOk (P layers f) (fold_layers codec i layers f)
    unfolding fold_layers
    fold_layers-OnOk i [] f = start f
    fold_layers-OnOk i (none ∷ layers) f =
        unfold fold_layer in
        OnOk-map (P layers f) (P (none ∷ layers) f) (fold_layers codec (i + 1) layers f)
          (fold_layers-OnOk (i + 1) layers f) (skip layers f)
    fold_layers-OnOk i (some layer ∷ layers) f =
        OnOk-and_then (λ g. (k : Folded Quantity T) → P layers g k → P (some layer ∷ layers) f k)
          (P (some layer ∷ layers) f) (fold_layer codec i (some layer) f)
          (fold_layers codec (i + 1) layers) (step i layer layers f)
          (λ g h.
            OnOk-map (P layers g) (P (some layer ∷ layers) f) (fold_layers codec (i + 1) layers g)
              (fold_layers-OnOk (i + 1) layers g) h)

  -- A reading of the state that every layer updates by a field of its own.
  module _ {A : Type 0} (reading : Folded Quantity T → Option A)
      (field : RoleGroupConfigSpec Quantity → Option A)
      (updates : (i : ℕ) (layer : RoleGroupConfigSpec Quantity) (f : Folded Quantity T)
          (decoded : Option (Affinity T))
        → OnOk
            (λ g. reading g ≡ or_else (field layer) (reading f))
            (with_affinity codec i layer f (ok decoded))) where
    pub reading-fold_layers :
        (layers : List (Option (RoleGroupConfigSpec Quantity)))
        → reading nothing_folded ≡ none
        → OnOk
            (λ g. reading g ≡ last_stated field layers)
            (fold_layers codec 0 layers nothing_folded)
    reading-fold_layers layers none_yet =
        OnOk-map (λ g. reading g ≡ or_else (last_stated field layers) (reading nothing_folded))
          (λ g. reading g ≡ last_stated field layers) (fold_layers codec 0 layers nothing_folded)
          (fold_layers-OnOk (λ ls f k. reading k ≡ or_else (last_stated field ls) (reading f))
            (λ f. refl) (λ ls f g h. h)
            (λ i layer ls f.
              unfold fold_layer in
              with_affinity-OnOk
                (λ g.
                  (k : Folded Quantity T)
                  → reading k ≡ or_else (last_stated field ls) (reading g)
                  → reading k ≡ or_else (or_else (last_stated field ls) (field layer)) (reading f))
                i layer f (decode_affinity codec layer.affinity)
                (λ decoded k e.
                  e
                  ∙ (ap (or_else (last_stated field ls)) (updates i layer f decoded)
                      ∙ sym (or_else_assoc (last_stated field ls) (field layer) (reading f)))))
            0 layers nothing_folded)
          (λ g e.
            e
            ∙ (ap (or_else (last_stated field layers)) none_yet
                ∙ or_else-none (last_stated field layers)))

  -- The affinity that a layer states, once decoded.
  abbrev pub stated_affinity : RoleGroupConfigSpec Quantity → Option (Affinity T)
  stated_affinity layer = value_of (decode_affinity codec layer.affinity)

  affinity-with_affinity :
      (i : ℕ) (layer : RoleGroupConfigSpec Quantity)
      (ls : List (Option (RoleGroupConfigSpec Quantity))) (f : Folded Quantity T)
      (d : Result (Option (Affinity T)))
      → OnOk
          (λ g.
            (k : Folded Quantity T)
            → normalize_affinity k.affinity
              ≡ normalize_affinity (or_else (last_stated stated_affinity ls) g.affinity)
            → normalize_affinity k.affinity
              ≡ normalize_affinity
                  (or_else (or_else (last_stated stated_affinity ls) (value_of d)) f.affinity))
          (with_affinity codec i layer f d)
  affinity-with_affinity i layer ls f (ok decoded) = λ k e.
      let o = last_stated stated_affinity ls in
      e
      ∙ (normalize_or_else o (fold_affinity f.affinity decoded).0 (or_else decoded f.affinity)
            (normalize-fold_affinity f.affinity decoded)
          ∙ ap normalize_affinity (sym (or_else_assoc o decoded f.affinity)))
  affinity-with_affinity i layer ls f (fail err) = tt

  pub affinity-fold_layers :
      (layers : List (Option (RoleGroupConfigSpec Quantity)))
      → OnOk
          (λ g.
            normalize_affinity g.affinity ≡ normalize_affinity (last_stated stated_affinity layers))
          (fold_layers codec 0 layers nothing_folded)
  affinity-fold_layers layers =
      OnOk-map
        (λ g.
          normalize_affinity g.affinity
          ≡ normalize_affinity (or_else (last_stated stated_affinity layers) none))
        (λ g.
          normalize_affinity g.affinity ≡ normalize_affinity (last_stated stated_affinity layers))
        (fold_layers codec 0 layers nothing_folded)
        (fold_layers-OnOk
          (λ ls f k.
            normalize_affinity k.affinity
            ≡ normalize_affinity (or_else (last_stated stated_affinity ls) f.affinity))
          (λ f. refl) (λ ls f g h. h)
          (λ i layer ls f.
            unfold fold_layer in
            affinity-with_affinity i layer ls f (decode_affinity codec layer.affinity))
          0 layers nothing_folded)
        (λ g e. e ∙ ap normalize_affinity (or_else-none (last_stated stated_affinity layers)))
