-- ===== src/Reconciler/Affinity.antt =====
-- pkg/reconciler/affinity.go: reading, writing and normalizing the affinity of a config block. The
-- JSON codec and the types of the terms, of which the code reads presence only, are parameters.
use operator_go.Prelude.{
  Bool, not, ◌&&◌, Option, none, some, List, [], ◌∷◌, is_empty, is_some, if◌then◌else◌,
}
use operator_go.Common.Errors.{Result, ok, fail, opaque, wrapped, formatted}
use operator_go.Api.Config.{RawExtension}

-- The types of the Kubernetes API that stand in an affinity.
pub record Terms : Type 1 where
  pub NodeSelector : Type 0
  pub PreferredSchedulingTerm : Type 0
  pub PodAffinityTerm : Type 0
  pub WeightedPodAffinityTerm : Type 0

pub record NodeAffinity (T : Terms) : Type 0 where
  pub required : Option T.NodeSelector
  pub preferred : List T.PreferredSchedulingTerm

-- `PodAffinity` and `PodAntiAffinity`, which have the same fields.
pub record PodAffinity (T : Terms) : Type 0 where
  pub required : List T.PodAffinityTerm
  pub preferred : List T.WeightedPodAffinityTerm

pub record Affinity (T : Terms) : Type 0 where
  pub node_affinity : Option (NodeAffinity T)
  pub pod_affinity : Option (PodAffinity T)
  pub pod_anti_affinity : Option (PodAffinity T)

-- `encoding/json`: `Valid`, the strict decoder and `Marshal`.
pub record AffinityCodec (T : Terms) : Type 0 where
  pub valid : RawExtension → Bool
  pub decode : RawExtension → Result (Affinity T)
  pub marshal : Affinity T → Result RawExtension

abbrev pub encoded : Result RawExtension → Result (Option RawExtension)
encoded (ok raw) = ok (some raw)
encoded (fail err) = fail (wrapped (formatted "encoding affinity") err)

module _ {T : Terms} where
  abbrev pub decoded : Result (Affinity T) → Result (Option (Affinity T))
  decoded (ok affinity) = ok (some affinity)
  decoded (fail err) = fail err

  unfoldable pub decode_affinity :
      AffinityCodec T → Option RawExtension → Result (Option (Affinity T))
  decode_affinity codec none = ok none
  decode_affinity codec (some []) = ok none
  decode_affinity codec (some (b ∷ raw)) =
      if not (codec.valid (b ∷ raw))
      then fail (opaque "affinity is not a single valid JSON value")
      else decoded (codec.decode (b ∷ raw))

  unfoldable pub encode_affinity :
      AffinityCodec T → Option (Affinity T) → Result (Option RawExtension)
  encode_affinity codec none = ok none
  encode_affinity codec (some affinity) = encoded (codec.marshal affinity)

  unfoldable pub normalize_node_affinity : Option (NodeAffinity T) → Option (NodeAffinity T)
  normalize_node_affinity none = none
  normalize_node_affinity (some n) =
      if not (is_some n.required) && is_empty n.preferred then none else some n

  unfoldable pub normalize_pod_affinity : Option (PodAffinity T) → Option (PodAffinity T)
  normalize_pod_affinity none = none
  normalize_pod_affinity (some p) =
      if is_empty p.required && is_empty p.preferred then none else some p

  unfoldable pub unless_empty : Affinity T → Option (Affinity T)
  unless_empty a =
      if not (is_some a.node_affinity)
        && not (is_some a.pod_affinity)
        && not (is_some a.pod_anti_affinity)
      then none
      else some a

  unfoldable pub normalize_affinity : Option (Affinity T) → Option (Affinity T)
  unfolding normalize_node_affinity normalize_pod_affinity unless_empty
  normalize_affinity none = none
  normalize_affinity (some a) = unless_empty (record {
    node_affinity = normalize_node_affinity a.node_affinity;
    pod_affinity = normalize_pod_affinity a.pod_affinity;
    pod_anti_affinity = normalize_pod_affinity a.pod_anti_affinity;
  })
