-- ===== src/Reconciler/Fold/Members.antt =====
-- The members of an affinity: what one layer does to them, and what it reports.
use operator_go.Prelude.{
  ℕ, String, Bool, true, false, not, ◌||◌, Option, none, some, List, [], ◌∷◌, ◌++◌, ◌≡◌, refl, ◌∙◌,
  inl, inr, Bool-cases, is_some, arith,
}
use operator_go.Prelude.Eq.{string_eq, contains, contains-append}
use operator_go.Reconciler.Affinity.{Terms, Affinity, normalize_affinity}
use operator_go.Reconciler.Fold.{
  AffinityReplacement, drop_member, dropped_of, dropped_affinity_members, fold_affinity, report,
}

pub data AffinityMember : Type 0 where
  node_member pod_member anti_member : AffinityMember

abbrev pub member_name : AffinityMember → String
member_name node_member = "nodeAffinity"
member_name pod_member = "podAffinity"
member_name anti_member = "podAntiAffinity"

module _ {T : Terms} where
  abbrev pub has : AffinityMember → Affinity T → Bool
  has node_member a = is_some a.node_affinity
  has pod_member a = is_some a.pod_affinity
  has anti_member a = is_some a.pod_anti_affinity

  abbrev pub carries : AffinityMember → Option (Affinity T) → Bool
  carries m none = false
  carries m (some a) = has m a

  -- The layer asks for what it does to the member: it clears the affinity, or states the member.
  abbrev pub decides : AffinityMember → Option (Affinity T) → Bool
  decides m none = false
  decides m (some a) = not (is_some (normalize_affinity (some a))) || has m a

-- A report names the member.
abbrev pub reported : AffinityMember → List AffinityReplacement → Bool
reported m [] = false
reported m (r ∷ rs) = contains (member_name m) r.dropped || reported m rs

reported-append :
    (m : AffinityMember) (rs ss : List AffinityReplacement)
    → reported m (rs ++ ss) ≡ (reported m rs || reported m ss)
reported-append m [] ss = refl
reported-append m (r ∷ rs) ss = rw (reported-append m rs ss) (ground arith)

pub reported-report :
    (m : AffinityMember) (i : ℕ) (dropped : List String) (rs : List AffinityReplacement)
    → reported m (report i dropped rs) ≡ (reported m rs || contains (member_name m) dropped)
reported-report m i [] rs = ground arith
reported-report m i (d ∷ ds) rs =
    reported-append m rs (record { layer = i; dropped = d ∷ ds } ∷ []) ∙ ground arith

contains_right :
    (name : String) (xs ys : List String)
    → contains name ys ≡ true
    → contains name (xs ++ ys) ≡ true
contains_right name xs ys h = contains-append name xs ys ∙ ground (arith, h)

module _ {T : Terms} where
  contains-dropped_of :
      (m : AffinityMember) (lower : Option (Affinity T)) (upper : Affinity T)
      → carries m lower ≡ true
      → has m upper ≡ false
      → contains (member_name m) (dropped_of lower upper) ≡ true
  contains-dropped_of m none upper h k = cc
  contains-dropped_of node_member (some lower) upper h k = rw h (rw k refl)
  contains-dropped_of pod_member (some lower) upper h k = rw h (
      rw k (
        contains_right "podAffinity"
          (drop_member (is_some lower.node_affinity) (is_some upper.node_affinity) "nodeAffinity")
          ("podAffinity"
            ∷ drop_member (is_some lower.pod_anti_affinity) (is_some upper.pod_anti_affinity)
                "podAntiAffinity")
          refl))
  contains-dropped_of anti_member (some lower) upper h k = rw h (
      rw k (
        contains_right "podAntiAffinity"
          (drop_member (is_some lower.node_affinity) (is_some upper.node_affinity) "nodeAffinity")
          (drop_member (is_some lower.pod_affinity) (is_some upper.pod_affinity) "podAffinity"
            ++ "podAntiAffinity" ∷ [])
          (contains_right "podAntiAffinity"
            (drop_member (is_some lower.pod_affinity) (is_some upper.pod_affinity) "podAffinity")
            ("podAntiAffinity" ∷ []) refl)))

  -- After a layer the member is still there, or the layer decided it, or the layer dropped it.
  pub carries-fold_affinity :
      (m : AffinityMember) (lower upper : Option (Affinity T))
      → carries m (normalize_affinity lower) ≡ true
      → (carries m (normalize_affinity (fold_affinity lower upper).0)
          || (decides m upper || contains (member_name m) (fold_affinity lower upper).1))
        ≡ true
  unfolding fold_affinity dropped_affinity_members
  carries-fold_affinity m lower none h = rw h refl
  carries-fold_affinity m lower (some upper) h =
      let names = contains-dropped_of m (normalize_affinity lower) upper h in
      elim (Bool-cases (is_some (normalize_affinity (some upper)))) [
        | inl there ↦ rw there (elim (Bool-cases (has m upper)) [
          | inl states ↦ rw states (ground arith)
          | inr silent ↦ rw silent (ground (arith, names silent))
        ])
        | inr cleared ↦ rw cleared (ground arith)
      ]

  carries-is_some :
      (m : AffinityMember) (a : Option (Affinity T)) → carries m a ≡ true → is_some a ≡ true
  carries-is_some m none h = h
  carries-is_some m (some a) h = refl

  -- A layer that gives the member terms puts it into the affinity.
  pub carries-stated :
      (m : AffinityMember) (lower upper : Option (Affinity T))
      → carries m (normalize_affinity upper) ≡ true
      → carries m (normalize_affinity (fold_affinity lower upper).0) ≡ true
  unfolding fold_affinity
  carries-stated m lower none h = unfold normalize_affinity in cc
  carries-stated m lower (some upper) h =
      elim (Bool-cases (is_some (normalize_affinity (some upper)))) [
        | inl there ↦ rw there h
        | inr cleared ↦ let there = carries-is_some m (normalize_affinity (some upper)) h in cc
      ]
