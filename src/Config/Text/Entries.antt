-- ===== src/Config/Text/Entries.antt =====
-- The entries of a map in key order, as every format writes them, and the map they read back as.
use operator_go.Prelude.{
  ◌||◌, Option, none, some, List, [], ◌∷◌, map, ◌≡◌, refl, ◌∙◌, ap, inl, inr, arith, is_some,
  if◌then◌else◌, Bool-cases,
}
use operator_go.Prelude.Eq.{◌==◌, text_eq, contains}
use operator_go.Prelude.Maps.{
  GoMap, lookup, insert, copy_into, lookup-insert, lookup-cons, lookup-nil,
}
use operator_go.Prelude.Sort.{insert_sorted, sort_by}
use operator_go.Config.Text.{Text, text_less}

abbrev pub or_blank : Option Text → Text
or_blank none = []
or_blank (some v) = v

-- `data[k]`
abbrev pub value_at : GoMap Text Text → Text → Text
value_at m k = or_blank (lookup k m)

abbrev pub keys_of : GoMap Text Text → List Text
keys_of = map (λ (kv : Text × Text). kv.0)

-- The keys of a map, by `sort.Strings`.
unfoldable pub sorted_keys : GoMap Text Text → List Text
unfolding sort_by text_less lookup
sorted_keys m = sort_by text_less (keys_of m)

abbrev pub entries_at : GoMap Text Text → List Text → GoMap Text Text
entries_at m = map (λ k. (k, value_at m k))

contains-insert_sorted :
    (j k : Text) (ks : List Text)
    → contains j (insert_sorted text_less k ks) ≡ (k == j || contains j ks)
unfolding insert_sorted
contains-insert_sorted j k [] = refl
contains-insert_sorted j k (x ∷ ks) = elim (Bool-cases (text_less x k)) [
  | inl lt ↦ rw lt (ground (arith, contains-insert_sorted j k ks))
  | inr ge ↦ rw ge refl
]

contains-sort_by : (j : Text) (ks : List Text) → contains j (sort_by text_less ks) ≡ contains j ks
unfolding sort_by
contains-sort_by j [] = refl
contains-sort_by j (k ∷ ks) =
    contains-insert_sorted j k (sort_by text_less ks)
    ∙ ap (λ b. k == j || b) (contains-sort_by j ks)

contains-keys_of : (j : Text) (m : GoMap Text Text) → contains j (keys_of m) ≡ is_some (lookup j m)
contains-keys_of j [] = rw (lookup-nil {V = Text} j) refl
contains-keys_of j ((k, v) ∷ m) = elim (Bool-cases (k == j)) [
  | inl same ↦ rw (lookup-cons j k v m, same) refl
  | inr other ↦ rw (lookup-cons j k v m, other) (contains-keys_of j m)
]

lookup-entries_at :
    (j : Text) (m : GoMap Text Text) (ks : List Text) (r : GoMap Text Text)
    → lookup j (copy_into r (entries_at m ks))
      ≡ (if contains j ks then some (value_at m j) else lookup j r)
unfolding copy_into
lookup-entries_at j m [] r = refl
lookup-entries_at j m (k ∷ ks) r =
    lookup-entries_at j m ks (insert k (value_at m k) r)
    ∙ ground (arith, lookup-insert k j (value_at m k) r, text_eq.beq_iff k j)

some-value_at : (o : Option Text) → (if is_some o then some (or_blank o) else none) ≡ o
some-value_at none = refl
some-value_at (some v) = refl

-- A map whose entries are stored again in key order reads as it did.
pub lookup-sorted_entries :
    (j : Text) (m : GoMap Text Text)
    → lookup j (copy_into [] (entries_at m (sorted_keys m))) ≡ lookup j m
unfolding sorted_keys
lookup-sorted_entries j m =
    lookup-entries_at j m (sorted_keys m) []
    ∙ rw (contains-sort_by j (keys_of m), contains-keys_of j m, lookup-nil {V = Text} j)
        (some-value_at (lookup j m))
