-- ===== src/Api/Status/Ledger.antt =====
-- `status.roleGroups` as a set of (role, role group) pairs.
use operator_go.Prelude.{
  String, Bool, false, not, ◌&&◌, ◌||◌, Option, none, some, List, [], ◌∷◌, ◌++◌, ◌≡◌, refl, ap, ◌∙◌,
  ◌⊎◌, inl, inr, is_some, select, if◌then◌else◌, arith, Bool-cases, Option-cases,
}
use mathlib.Core.Path.{subst}
use operator_go.Prelude.Eq.{
  ◌==◌, string_eq, ==_refl, ==_comm, contains, contains-append, contains-select,
}
use operator_go.Prelude.Maps.{
  GoMap, lookup, insert, lookup-nil, lookup-cons, lookup-insert, lookup-delete, HasDistinctKeys,
}
use operator_go.Api.Spec.{RoleSpec, get_role_groups}
use operator_go.Api.Status.{
  GenericClusterStatus, groups_or_empty, set_role_group, store_groups, remove_role_group,
  orphans_of_role, has_orphan_entry, collect_orphans, get_orphaned_role_groups,
}

-- The pair is recorded in the map.
abbrev pub records : String → String → GoMap String (List String) → Bool
records r g m = contains g (groups_or_empty (lookup r m))

-- The pair is declared by the spec.
abbrev pub declared_in : Option RoleSpec → String → Bool
declared_in none g = false
declared_in (some role) g = is_some (lookup g (get_role_groups role))

abbrev pub declares : String → String → GoMap String RoleSpec → Bool
declares r g desired = declared_in (lookup r desired) g

-- `SetRoleGroup` adds its pair and keeps the rest.
pub records-set_role_group :
    (r g q h : String) (s : GenericClusterStatus)
    → records q h (set_role_group r g s).role_groups
      ≡ (records q h s.role_groups || (r == q && g == h))
unfolding set_role_group
records-set_role_group r g q h s =
    let groups = groups_or_empty (lookup r s.role_groups) in
    ground (
      arith,
      lookup-insert r q (groups ++ g ∷ []) s.role_groups,
      contains-append h groups (g ∷ []),
      string_eq.beq_iff r q,
      string_eq.beq_iff g h,
    )

-- The map after the groups of one role are replaced.
records-store_groups :
    (r q h : String) (gs : List String) (m : GoMap String (List String))
    → records q h (store_groups r gs m) ≡ (if r == q then contains h gs else records q h m)
records-store_groups r q h [] m = rw (lookup-delete r q m) (ground arith)
records-store_groups r q h (x ∷ gs) m = rw (lookup-insert r q (x ∷ gs) m) (ground arith)

-- `RemoveRoleGroup` removes its pair and keeps the rest.
pub records-remove_role_group :
    (r g q h : String) (s : GenericClusterStatus)
    → records q h (remove_role_group r g s).role_groups
      ≡ (records q h s.role_groups && not (r == q && g == h))
unfolding remove_role_group
records-remove_role_group r g q h s = elim (Option-cases (lookup r s.role_groups)) [
  | inl missing ↦ rw (missing, remove_role_group) (ground (arith, missing, string_eq.beq_iff r q))
  | inr (groups, found) ↦
      rw (found, remove_role_group)
        (records-store_groups r q h (select (λ x. not (x == g)) groups) s.role_groups
          ∙ rw (contains-select h (λ x. not (x == g)) groups)
              (ground (arith, found, string_eq.beq_iff r q, ==_comm g h)))
]

orphans_of_role-contains :
    (g : String) (o : Option RoleSpec) (actual : List String)
    → contains g (orphans_of_role o actual) ≡ (contains g actual && not (declared_in o g))
unfolding orphans_of_role
orphans_of_role-contains g none actual = ground arith
orphans_of_role-contains g (some role) actual =
    contains-select g (λ x. not (is_some (lookup x (get_role_groups role)))) actual

-- Where no entry is made for a role, it has no orphan.
no_entry-contains :
    (g : String) (o : Option RoleSpec) (gs : List String)
    → has_orphan_entry o gs ≡ false
    → contains g gs ≡ false
no_entry-contains g none gs h = cc
no_entry-contains g (some role) [] h = refl
no_entry-contains g (some role) (x ∷ gs) h = cc

abbrev add_orphans :
    GoMap String RoleSpec
    → String
    → List String
    → GoMap String (List String)
    → GoMap String (List String)
add_orphans desired k actual orphaned =
    let role = lookup k desired in
    let gs = orphans_of_role role actual in
    if has_orphan_entry role gs then insert k gs orphaned else orphaned

lookup-add_orphans_ne :
    (desired : GoMap String RoleSpec) (k j : String) (actual : List String)
    (orphaned : GoMap String (List String))
    → (k == j) ≡ false
    → lookup j (add_orphans desired k actual orphaned) ≡ lookup j orphaned
lookup-add_orphans_ne desired k j actual orphaned ne =
    let role = lookup k desired in
    let gs = orphans_of_role role actual in ground (arith, lookup-insert k j gs orphaned, ne)

records-add_orphans :
    (desired : GoMap String RoleSpec) (r g : String) (actual : List String)
    (orphaned : GoMap String (List String))
    → lookup r orphaned ≡ none
    → records r g (add_orphans desired r actual orphaned)
      ≡ (contains g actual && not (declares r g desired))
records-add_orphans desired r g actual orphaned absent =
    let role = lookup r desired in
    let gs = orphans_of_role role actual in
    rw (← orphans_of_role-contains g role actual) (elim (Bool-cases (has_orphan_entry role gs)) [
      | inl entry ↦ rw entry (rw (lookup-insert r r gs orphaned) (rw (==_refl r)))
      | inr skip ↦ rw skip (rw absent (rw (no_entry-contains g role gs skip)))
    ])

combine_same :
    (added later_groups declared actual orphaned : Bool) {total : Bool}
    → total ≡ (added || later_groups && not declared)
    → added ≡ (actual && not declared)
    → later_groups ≡ false
    → orphaned ≡ false
    → total ≡ (orphaned || actual && not declared)
combine_same added later_groups declared actual orphaned t a l o = ground arith

records-collect :
    (desired : GoMap String RoleSpec) (r g : String) (ledger orphaned : GoMap String (List String))
    → HasDistinctKeys ledger
    → ((k : String) → (lookup k ledger ≡ none) ⊎ (lookup k orphaned ≡ none))
    → records r g (collect_orphans desired ledger orphaned)
      ≡ (records r g orphaned || records r g ledger && not (declares r g desired))
unfolding collect_orphans
records-collect desired r g [] orphaned d apart = unfold lookup in ground arith
records-collect desired r g ((k, actual) ∷ rest) orphaned d apart =
    let orphaned' = add_orphans desired k actual orphaned in
    let later = records-collect desired r g rest orphaned' d.1 (λ j. elim (Bool-cases (k == j)) [
      | inl same ↦ inl (rw (← (string_eq.beq_iff k j).0 same) d.0)
      | inr other ↦ elim (apart j) [
        | inl gone ↦ inl (rw other at (rw (lookup-cons j k actual rest) at gone))
        | inr fresh ↦ inr (lookup-add_orphans_ne desired k j actual orphaned other ∙ fresh)
      ]
    ]) in
    elim (Bool-cases (k == r)) [
      | inl same ↦
          let e : k ≡ r = (string_eq.beq_iff k r).0 same in
          let fresh : lookup r orphaned ≡ none = elim (apart r) [
            | inl gone ↦ cc (rw same at (rw (lookup-cons r k actual rest) at gone))
            | inr absent ↦ absent
          ] in
          combine_same (records r g orphaned') (records r g rest) (declares r g desired)
            (contains g actual) (records r g orphaned) later
            (subst
              (λ (x : String).
                lookup x orphaned ≡ none
                → records x g (add_orphans desired k actual orphaned)
                  ≡ (contains g actual && not (declares x g desired)))
              e (records-add_orphans desired k g actual orphaned) fresh)
            (ap (λ (o : Option (List String)). contains g (groups_or_empty o)) (rw e at d.0))
            (ap (λ (o : Option (List String)). contains g (groups_or_empty o)) fresh)
          ∙ rw (lookup-cons r k actual rest) (rw same)
      | inr other ↦
          later
          ∙ rw (lookup-add_orphans_ne desired k r actual orphaned other)
              (rw (lookup-cons r k actual rest) (rw other))
    ]

-- `GetOrphanedRoleGroups` reports a pair exactly when the ledger records it and the spec does not
-- declare it.
pub records-get_orphaned :
    (desired : GoMap String RoleSpec) (r g : String) (s : GenericClusterStatus)
    → HasDistinctKeys s.role_groups
    → records r g (get_orphaned_role_groups desired s)
      ≡ (records r g s.role_groups && not (declares r g desired))
unfolding get_orphaned_role_groups
records-get_orphaned desired r g s d =
    records-collect desired r g s.role_groups [] d (λ k. inr (lookup-nil k)) ∙ rw (lookup-nil r)
