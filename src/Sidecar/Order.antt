-- ===== src/Sidecar/Order.antt =====
-- The injection order: by phase, then by name, whatever the iteration order of the maps.
use operator_go.Prelude.{
  true, false, not, if◌then◌else◌, none, some, List, [], ◌∷◌, map, ◌≡◌, refl, sym, ap, ◌∙◌, ◌↔◌,
  ◌⊎◌, inl, inr, All, is_some, Bool-cases, arith,
}
use mathlib.Core.Path.{subst}
use operator_go.Prelude.Eq.{◌==◌, text_eq, contains}
use operator_go.Prelude.Int.{ℤ, pos, negsuc, ltz, eqz, eqz→eq, ltz_trans, ltz_irrefl, ltz_total}
use operator_go.Prelude.Maps.{GoMap, lookup, lookup-cons, lookup-nil, HasDistinctKeys}
use operator_go.Prelude.Sort.{
  EachBefore, StrictlySorted, StrictlySorted-EachBefore, IsComparable, sort_by-StrictlySorted,
}
use operator_go.Prelude.Sorted.{contains-sort_by, sorted_unique}
use operator_go.Prelude.Store.{Store}
use operator_go.Config.Text.{Text, text_less}
use operator_go.Config.Text.Order.{text_less_irrefl, text_less_trans, text_less_total}
use operator_go.Sidecar.{
  SidecarConfig, SidecarProvider, SidecarManager, list_providers, phase_of, injects_before,
  injection_order, config_at, own_phase,
}
use operator_go.Sidecar.Injection.{inject_one, inject_names, inject_all}

eqz_refl : (a : ℤ) → eqz a a ≡ true
eqz_refl (pos n) = ground arith
eqz_refl (negsuc n) = ground arith

module _ {Client Pod Rest : Type 0} (m : SidecarManager Client Pod Rest) where
  -- `a` is of a lower phase, or of the same and of a smaller name.
  abbrev pub Precedes : Text → Text → Type 0
  Precedes a b =
      (ltz (phase_of m a) (phase_of m b) ≡ true)
      ⊎ ((phase_of m a ≡ phase_of m b) × (text_less a b ≡ true))

  injects_before_iff : (a b : Text) → (injects_before m a b ≡ true) ↔ Precedes a b
  unfolding injects_before
  injects_before_iff a b = elim (Bool-cases (eqz (phase_of m a) (phase_of m b))) [
    | inl same ↦
        let e = eqz→eq (phase_of m a) (phase_of m b) same in
        rw same (
          λ h. inr (e, h),
          λ p. elim p [
            | inl lower ↦ cc (sym (ltz_irrefl (phase_of m b)), rw e at lower)
            | inr later ↦ later.1
          ],
        )
    | inr other ↦ rw other (
      λ h. inl h,
      λ p. elim p [
        | inl lower ↦ lower
        | inr later ↦ cc (eqz_refl (phase_of m b), rw later.0 at other)
      ],
    )
  ]

  Precedes-trans : (a b c : Text) → Precedes a b → Precedes b c → Precedes a c
  Precedes-trans a b c (inl p) (inl q) =
      inl (ltz_trans (phase_of m a) (phase_of m b) (phase_of m c) p q)
  Precedes-trans a b c (inl p) (inr q) = inl (rw (← q.0) p)
  Precedes-trans a b c (inr p) (inl q) = inl (rw p.0 q)
  Precedes-trans a b c (inr p) (inr q) = inr (p.0 ∙ q.0, text_less_trans a b c p.1 q.1)

  injects_before_trans :
      (a b c : Text)
      → injects_before m a b ≡ true
      → injects_before m b c ≡ true
      → injects_before m a c ≡ true
  injects_before_trans a b c p q =
      (injects_before_iff a c).1
        (Precedes-trans a b c ((injects_before_iff a b).0 p) ((injects_before_iff b c).0 q))

  injects_before_irrefl : (a : Text) → injects_before m a a ≡ false
  unfolding injects_before
  injects_before_irrefl a = rw (eqz_refl (phase_of m a)) (text_less_irrefl a)

  comparable :
      (a b : Text)
      → (a == b) ≡ false
      → (injects_before m a b ≡ true) ⊎ (injects_before m b a ≡ true)
  comparable a b h = elim (Bool-cases (ltz (phase_of m a) (phase_of m b))) [
    | inl lower ↦ inl ((injects_before_iff a b).1 (inl lower))
    | inr not_lower ↦ elim (Bool-cases (ltz (phase_of m b) (phase_of m a))) [
      | inl higher ↦ inr ((injects_before_iff b a).1 (inl higher))
      | inr not_higher ↦
          let same = ltz_total (phase_of m a) (phase_of m b) not_lower not_higher in
          elim (text_less_total a b h) [
            | inl less ↦ inl ((injects_before_iff a b).1 (inr (same, less)))
            | inr less ↦ inr ((injects_before_iff b a).1 (inr (sym same, less)))
          ]
    ]
  ]

  abbrev names_of : GoMap Text (SidecarProvider Client Pod Rest) → List Text
  names_of = map (λ (kv : Text × SidecarProvider Client Pod Rest). kv.0)

  comparable-All :
      (k : Text) (providers : GoMap Text (SidecarProvider Client Pod Rest))
      → lookup k providers ≡ none
      → All
          (λ z. (injects_before m k z ≡ true) ⊎ (injects_before m z k ≡ true))
          (names_of providers)
  comparable-All k [] h = tt
  comparable-All k ((j, p) ∷ providers) h = elim (Bool-cases (j == k)) [
    | inl same ↦ cc (rw (lookup-cons k j p providers, same) at h)
    | inr other ↦ (
      comparable k j (ground (arith, other, text_eq.beq_iff j k, text_eq.beq_iff k j)),
      comparable-All k providers (rw (lookup-cons k j p providers, other) at h),
    )
  ]

  names-IsComparable :
      (providers : GoMap Text (SidecarProvider Client Pod Rest))
      → HasDistinctKeys providers
      → IsComparable (injects_before m) (names_of providers)
  names-IsComparable [] h = tt
  names-IsComparable ((k, p) ∷ providers) h =
      (comparable-All k providers h.0, names-IsComparable providers h.1)

  contains-names_of :
      (j : Text) (providers : GoMap Text (SidecarProvider Client Pod Rest))
      → contains j (names_of providers) ≡ is_some (lookup j providers)
  contains-names_of j [] = rw (lookup-nil {V = SidecarProvider Client Pod Rest} j) refl
  contains-names_of j ((k, p) ∷ providers) = elim (Bool-cases (k == j)) [
    | inl same ↦ rw (lookup-cons j k p providers, same) refl
    | inr other ↦ rw (lookup-cons j k p providers, other) (contains-names_of j providers)
  ]

  contains-injection_order :
      (j : Text) → contains j (injection_order m) ≡ is_some (lookup j m.providers)
  unfolding injection_order list_providers
  contains-injection_order j =
      contains-sort_by (injects_before m) j (names_of m.providers) ∙ contains-names_of j m.providers

  injection_order-StrictlySorted :
      HasDistinctKeys m.providers → StrictlySorted (injects_before m) (injection_order m)
  unfolding injection_order list_providers
  injection_order-StrictlySorted h =
      sort_by-StrictlySorted (injects_before m) injects_before_trans (names_of m.providers)
        (names-IsComparable m.providers h)

  -- Where the providers have distinct names, the injection order holds exactly these names, each
  -- one strictly before those of a higher phase and, within a phase, before those of a greater
  -- name.
  pub injection_order-EachBefore :
      HasDistinctKeys m.providers
      → EachBefore Precedes (injection_order m)
        × ((name : Text) → contains name (injection_order m) ≡ is_some (lookup name m.providers))
  injection_order-EachBefore h = (
    StrictlySorted-EachBefore (injects_before m) Precedes (λ a b. (injects_before_iff a b).0)
        (injection_order m) (injection_order-StrictlySorted h),
    contains-injection_order,
  )

module _ {Client Pod Rest : Type 0} (m n : SidecarManager Client Pod Rest)
    (providers : (name : Text) → lookup name m.providers ≡ lookup name n.providers)
    (configs : (name : Text) → lookup name m.configs ≡ lookup name n.configs)
    (phases : (name : Text) → lookup name m.phases ≡ lookup name n.phases) where
  same_phase : (name : Text) → phase_of m name ≡ phase_of n name
  unfolding phase_of
  same_phase name =
      λ i. elim (phases name i) [ some phase ↦ phase | none ↦ own_phase (providers name i) ]

  same_order : injects_before m ≡ injects_before n
  unfolding injects_before
  same_order = λ i a b.
      if not (eqz (same_phase a i) (same_phase b i))
      then ltz (same_phase a i) (same_phase b i)
      else text_less a b

  same_injection_order :
      HasDistinctKeys m.providers
      → HasDistinctKeys n.providers
      → injection_order m ≡ injection_order n
  same_injection_order h k =
      sorted_unique (injects_before m) (injects_before_irrefl m) (injects_before_trans m)
        (injection_order m) (injection_order n) (injection_order-StrictlySorted m h)
        (subst (λ less. StrictlySorted less (injection_order n)) (sym same_order)
          (injection_order-StrictlySorted n k))
        (λ name.
          contains-injection_order m name
          ∙ (ap is_some (providers name) ∙ sym (contains-injection_order n name)))

  same_injection :
      (zero_rest : Rest) (s : Store (SidecarConfig Rest)) (names : List Text) (pod : Pod)
      → inject_names zero_rest s m names pod ≡ inject_names zero_rest s n names pod
  unfolding inject_names
  same_injection zero_rest s [] pod = refl
  same_injection zero_rest s (name ∷ names) pod = λ i.
      inject_one zero_rest s (providers name i) (config_at zero_rest s (configs name i)) pod
        (λ p. same_injection zero_rest s names p i)

  -- Managers whose three maps hold the same entries, each name once, inject the same into a pod,
  -- whatever the orders that the maps are iterated in.
  pub inject_all_deterministic :
      HasDistinctKeys m.providers
      → HasDistinctKeys n.providers
      → (zero_rest : Rest) (s : Store (SidecarConfig Rest)) (pod : Pod)
      → inject_all zero_rest s m pod ≡ inject_all zero_rest s n pod
  unfolding inject_all
  inject_all_deterministic h k zero_rest s pod =
      ap (λ names. inject_names zero_rest s m names pod) (same_injection_order h k)
      ∙ same_injection zero_rest s (injection_order n) pod
