-- ===== src/Reconciler/Cleaner/Discover.antt =====
-- Which role groups are orphaned: the discovery of pkg/reconciler/cleaner.go, from the ledger in
-- the status and from the live StatefulSets and ConfigMaps.
use operator_go.Prelude.{
  String, Bool, true, false, not, ◌||◌, Option, none, some, List, [], ◌∷◌, ◌++◌, map, is_some,
  if◌then◌else◌,
}
use operator_go.Prelude.Eq.{◌==◌, string_eq, contains}
use operator_go.Prelude.Maps.{GoMap, lookup, insert}
use operator_go.Prelude.Sort.{sort_by}
use operator_go.Prelude.Strings.{◌<>◌, str_less}
use operator_go.Api.Spec.{RoleSpec, get_role_groups, GenericClusterSpec}
use operator_go.Api.Status.{GenericClusterStatus, get_orphaned_role_groups}
use operator_go.Kube.{Kind, stateful_set, config_map, Object, matching_labels}
use operator_go.Kube.Act.{Act, pure, raise, ◌>>=◌, on_answer, list}
use operator_go.Reconciler.Names.{role_group_resource_name}
use operator_go.Reconciler.Cleaner.{RoleGroupCleaner, Services, api_error, is_owned_by_cluster}
use operator_go.Reconciler.Cleaner.Delete.{
  managed_by_value, label_instance, label_managed_by, label_component, label_role_group,
}

-- `role_name` and `group_name` are "" where they are not known.
pub record OrphanRef : Type 0 where
  pub resource_name : String
  pub role_name : String
  pub group_name : String

unfoldable pub describe : OrphanRef → String
describe r = if r.role_name == "" then r.resource_name else r.role_name <> "/" <> r.group_name

-- A label that is missing reads as "".
abbrev pub label_value : String → Object → String
label_value key obj = elim (lookup key obj.labels) [ none ↦ "" | some v ↦ v ]

unfoldable pub role_group_slot_of : (String → String) → String → String → Object → Option OrphanRef
role_group_slot_of digest cluster_name owner_uid obj =
    let role_name = label_value label_component obj in
    let group_name = label_value label_role_group obj in
    if not (is_owned_by_cluster obj owner_uid)
    then none
    else if role_name == "" || group_name == ""
    then none
    else if not (obj.name == role_group_resource_name digest cluster_name role_name group_name)
    then none
    else some (record { resource_name = obj.name; role_name = role_name; group_name = group_name })

unfoldable pub is_declared : GoMap String RoleSpec → String → String → Bool
is_declared roles role_name group_name = elim (lookup role_name roles) [
  | none ↦ false
  | some role ↦ is_some (lookup group_name (get_role_groups role))
]

-- The loop over the candidates, with the names seen.
unfoldable pub live_orphans :
    (String → String)
    → String
    → String
    → GoMap String RoleSpec
    → List Object
    → List String
    → List OrphanRef
unfolding role_group_slot_of is_declared
live_orphans digest cluster_name owner_uid roles [] seen = []
live_orphans digest cluster_name owner_uid roles (obj ∷ objs) seen =
    elim (role_group_slot_of digest cluster_name owner_uid obj) [
      | none ↦ live_orphans digest cluster_name owner_uid roles objs seen
      | some ref ↦
          elim (is_declared roles ref.role_name ref.group_name || contains ref.resource_name seen) [
            | true ↦ live_orphans digest cluster_name owner_uid roles objs seen
            | false ↦
                ref
                ∷ live_orphans digest cluster_name owner_uid roles objs (ref.resource_name ∷ seen)
          ]
    ]

-- The ledger's orphans of one role.
unfoldable pub add_groups :
    (String → String)
    → String
    → String
    → List String
    → GoMap String OrphanRef
    → GoMap String OrphanRef
add_groups digest cluster_name role_name [] refs = refs
add_groups digest cluster_name role_name (group_name ∷ groups) refs =
    let name = role_group_resource_name digest cluster_name role_name group_name in
    add_groups digest cluster_name role_name groups (
      insert name (record { resource_name = name; role_name = role_name; group_name = group_name })
        refs)

unfoldable pub add_ledger :
    (String → String)
    → String
    → GoMap String (List String)
    → GoMap String OrphanRef
    → GoMap String OrphanRef
unfolding add_groups
add_ledger digest cluster_name [] refs = refs
add_ledger digest cluster_name ((role_name, groups) ∷ orphaned) refs =
    add_ledger digest cluster_name orphaned (add_groups digest cluster_name role_name groups refs)

unfoldable pub add_live : List OrphanRef → GoMap String OrphanRef → GoMap String OrphanRef
add_live [] refs = refs
add_live (ref ∷ live) refs =
    add_live live
      (if is_some (lookup ref.resource_name refs) then refs else insert ref.resource_name ref refs)

module _ {W : Type 0} (env : Services W) (c : RoleGroupCleaner)
    (owner_uid cluster_name : String) where
  unfoldable pub list_slots : Kind → String → Act W (List Object)
  list_slots kind kinds = do
    answer ← list env.client.reader kind (
        matching_labels
          ((label_instance, cluster_name) ∷ (label_managed_by, managed_by_value) ∷ []))
    -- the API error is classified through the text that wraps it
    on_answer answer pure (λ e. raise (
        api_error c
          (record e { text = "failed to list " <> kinds <> " for orphan discovery: " <> e.text })))

  unfoldable pub discover_live_orphans : GenericClusterSpec → Act W (List OrphanRef)
  unfolding list_slots live_orphans
  discover_live_orphans spec = if owner_uid == "" then pure [] else do
    sts_list ← list_slots stateful_set "StatefulSets"
    cm_list ← list_slots config_map "ConfigMaps"
    pure (live_orphans env.digest cluster_name owner_uid spec.roles (sts_list ++ cm_list) [])

  unfoldable pub discover_orphans :
      GenericClusterSpec → GenericClusterStatus → Act W (List OrphanRef)
  unfolding add_ledger add_live discover_live_orphans
  discover_orphans spec status =
      let refs =
        add_ledger env.digest cluster_name (get_orphaned_role_groups spec.roles status) [] in
      do
        live ← discover_live_orphans spec
        pure (
            sort_by (λ a b. str_less a.resource_name b.resource_name)
              (map (λ (kv : String × OrphanRef). kv.1) (add_live live refs)))
