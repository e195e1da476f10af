-- ===== src/Reconciler/Cleaner/Ledger.antt =====
-- The ledger of role groups over a cleanup pass.
use operator_go.Prelude.{
  String, Bool, true, false, not, ◌||◌, Option, none, some, List, [], ◌∷◌, map, ◌≡◌, refl, inl, inr,
  All, All-map, is_some, select, arith, Bool-cases, Option-cases,
}
use operator_go.Prelude.Eq.{◌==◌, string_eq, contains}
use operator_go.Prelude.Maps.{GoMap, lookup, insert}
use operator_go.Prelude.Sort.{sort_by, sort_by-All}
use operator_go.Prelude.Strings.{str_less}
use operator_go.Api.Spec.{RoleSpec, get_role_groups}
use operator_go.Api.Status.{
  GenericClusterStatus, orphans_of_role, has_orphan_entry, collect_orphans,
  get_orphaned_role_groups,
}
use operator_go.Kube.{Object}
use operator_go.Reconciler.Cleaner.Discover.{
  OrphanRef, role_group_slot_of, is_declared, live_orphans, add_groups, add_ledger, add_live,
}

All-select : {A : Type 0} (p : A → Bool) (xs : List A) → All (λ x. p x ≡ true) (select p xs)
All-select p [] = tt
All-select p (x ∷ xs) = elim (Bool-cases (p x)) [
  | inl passes ↦ rw (passes, select) (passes, All-select p xs)
  | inr fails ↦ rw (fails, select) (All-select p xs)
]

All-insert :
    {V : Type 0} (P : String × V → Type 0) (k : String) (v : V) (m : GoMap String V)
    → P (k, v)
    → All P m
    → All P (insert k v m)
unfolding insert
All-insert P k v [] h hs = (h, tt)
All-insert P k v ((j, w) ∷ m) h hs = elim (Bool-cases (j == k)) [
  | inl same ↦ rw same (h, hs.1)
  | inr other ↦ rw other (hs.0, All-insert P k v m h hs.1)
]

module _ (desired : GoMap String RoleSpec) where
  -- No group of the entry is declared.
  abbrev pub IsOrphanEntry : String × List String → Type 0
  IsOrphanEntry entry = All (λ g. is_declared desired entry.0 g ≡ false) entry.1

  All-of_missing :
      (r : String) (actual : List String)
      → lookup r desired ≡ none
      → All (λ g. is_declared desired r g ≡ false) actual
  unfolding is_declared
  All-of_missing r [] e = tt
  All-of_missing r (g ∷ actual) e = (rw (e, is_declared), All-of_missing r actual e)

  entry_of_role :
      (r : String) (actual : List String) (o : Option RoleSpec)
      → lookup r desired ≡ o
      → IsOrphanEntry (r, orphans_of_role o actual)
  unfolding orphans_of_role is_declared
  entry_of_role r actual none e = All-of_missing r actual e
  entry_of_role r actual (some role) e =
      All-map (λ g. not (is_some (lookup g (get_role_groups role))) ≡ true) _
        (select (λ g. not (is_some (lookup g (get_role_groups role)))) actual)
        (λ g h. rw (e, is_declared) (ground arith))
        (All-select (λ g. not (is_some (lookup g (get_role_groups role)))) actual)

  entries_of_collect :
      (actual orphaned : GoMap String (List String))
      → All IsOrphanEntry orphaned
      → All IsOrphanEntry (collect_orphans desired actual orphaned)
  unfolding collect_orphans
  entries_of_collect [] orphaned h = h
  entries_of_collect ((r, groups) ∷ actual) orphaned h =
      let o = lookup r desired in
      let gs = orphans_of_role o groups in
      entries_of_collect actual _ (elim (Bool-cases (has_orphan_entry o gs)) [
        | inl there ↦
            rw there (All-insert IsOrphanEntry r gs orphaned (entry_of_role r groups o refl) h)
        | inr nothing ↦ rw nothing h
      ])

  abbrev pub IsUndeclared : OrphanRef → Type 0
  IsUndeclared ref = is_declared desired ref.role_name ref.group_name ≡ false

  abbrev IsUndeclaredEntry : String × OrphanRef → Type 0
  IsUndeclaredEntry kv = IsUndeclared kv.1

  entries_of_groups :
      (digest : String → String) (cluster_name r : String) (groups : List String)
      (refs : GoMap String OrphanRef)
      → IsOrphanEntry (r, groups)
      → All IsUndeclaredEntry refs
      → All IsUndeclaredEntry (add_groups digest cluster_name r groups refs)
  unfolding add_groups
  entries_of_groups digest cluster_name r [] refs h hs = hs
  entries_of_groups digest cluster_name r (g ∷ groups) refs h hs =
      entries_of_groups digest cluster_name r groups _ h.1
        (All-insert IsUndeclaredEntry _ _ refs h.0 hs)

  entries_of_ledger :
      (digest : String → String) (cluster_name : String) (orphaned : GoMap String (List String))
      (refs : GoMap String OrphanRef)
      → All IsOrphanEntry orphaned
      → All IsUndeclaredEntry refs
      → All IsUndeclaredEntry (add_ledger digest cluster_name orphaned refs)
  unfolding add_ledger
  entries_of_ledger digest cluster_name [] refs h hs = hs
  entries_of_ledger digest cluster_name ((r, groups) ∷ orphaned) refs h hs =
      entries_of_ledger digest cluster_name orphaned _ h.1
        (entries_of_groups digest cluster_name r groups refs h.0 hs)

  pub live_orphans-IsUndeclared :
      (digest : String → String) (cluster_name owner_uid : String) (objs : List Object)
      (seen : List String)
      → All IsUndeclared (live_orphans digest cluster_name owner_uid desired objs seen)
  unfolding live_orphans
  live_orphans-IsUndeclared digest cluster_name owner_uid [] seen = tt
  live_orphans-IsUndeclared digest cluster_name owner_uid (obj ∷ objs) seen =
      elim (Option-cases (role_group_slot_of digest cluster_name owner_uid obj)) [
        | inl nothing ↦
            rw (nothing, live_orphans)
              (live_orphans-IsUndeclared digest cluster_name owner_uid objs seen)
        | inr (ref, slot) ↦
            elim (Bool-cases (
              is_declared desired ref.role_name ref.group_name
              || contains ref.resource_name seen)) [
                | inl skipped ↦
                    rw (slot, skipped, live_orphans)
                      (live_orphans-IsUndeclared digest cluster_name owner_uid objs seen)
                | inr kept ↦
                    rw (slot, kept, live_orphans)
                      (
                        ground arith,
                        live_orphans-IsUndeclared digest cluster_name owner_uid objs
                            (ref.resource_name ∷ seen),
                      )
              ]
      ]

  entries_of_live :
      (live : List OrphanRef) (refs : GoMap String OrphanRef)
      → All IsUndeclared live
      → All IsUndeclaredEntry refs
      → All IsUndeclaredEntry (add_live live refs)
  unfolding add_live
  entries_of_live [] refs h hs = hs
  entries_of_live (ref ∷ live) refs h hs =
      entries_of_live live _ h.1 (elim (Bool-cases (is_some (lookup ref.resource_name refs))) [
        | inl known ↦ rw known hs
        | inr fresh ↦ rw fresh (All-insert IsUndeclaredEntry _ ref refs h.0 hs)
      ])

  values_of_entries :
      (refs : GoMap String OrphanRef)
      → All IsUndeclaredEntry refs
      → All IsUndeclared (map (λ (kv : String × OrphanRef). kv.1) refs)
  values_of_entries [] h = tt
  values_of_entries (kv ∷ refs) h = (h.0, values_of_entries refs h.1)

  -- The inventory of a pass, given what is live, holds only role groups that the spec lacks.
  pub inventory-IsUndeclared :
      (digest : String → String) (cluster_name : String) (status : GenericClusterStatus)
      (live : List OrphanRef)
      → All IsUndeclared live
      → All IsUndeclared (
          sort_by
            (λ a b. str_less a.resource_name b.resource_name)
            (map
              (λ (kv : String × OrphanRef). kv.1)
              (add_live live
                (add_ledger digest cluster_name (get_orphaned_role_groups desired status) []))))
  unfolding get_orphaned_role_groups
  inventory-IsUndeclared digest cluster_name status live h = sort_by-All _ IsUndeclared _ (
      values_of_entries _ (
        entries_of_live live _ h (
          entries_of_ledger digest cluster_name _ [] (entries_of_collect status.role_groups [] tt)
            tt)))
