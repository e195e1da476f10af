-- ===== src/Config/Merger/Distinct.antt =====
-- The maps that the merge of pkg/config/merger.go builds hold each key once.
use operator_go.Prelude.{String, [], ◌∷◌, ◌≡◌, ◌∙◌, ap, inl, inr, arith, Bool-cases}
use operator_go.Prelude.Eq.{◌==◌, string_eq}
use operator_go.Prelude.Maps.{
  GoMap, lookup, insert, copy_into, or_else, HasDistinctKeys, lookup-insert, lookup-cons,
  lookup-copy_into, copy_into-HasDistinctKeys, lookup-nil,
}
use operator_go.Config.Merger.{
  Files, or_empty, merge_maps, copy_files, override_files, merge_config_files,
}
use operator_go.Config.Merger.Precedence.{HasDistinctFiles, or_else-none}

insert-HasDistinctFiles :
    (g : String) (config : GoMap String String) (files : Files)
    → HasDistinctKeys config
    → HasDistinctFiles files
    → HasDistinctFiles (insert g config files)
unfolding insert
insert-HasDistinctFiles g config [] hc h = (lookup-nil g, hc, tt)
insert-HasDistinctFiles g config ((f, old) ∷ files) hc h = elim (Bool-cases (f == g)) [
  | inl same ↦ rw same (rw ((string_eq.beq_iff f g).0 same) at h.0, hc, h.2)
  | inr other ↦ rw other (
    rw (lookup-insert g f config files)
        (ground (arith, h.0, string_eq.beq_iff f g, string_eq.beq_iff g f)),
    h.1,
    insert-HasDistinctFiles g config files hc h.2,
  )
]

or_empty-HasDistinctKeys :
    (g : String) (files : Files)
    → HasDistinctFiles files
    → HasDistinctKeys (or_empty (lookup g files))
or_empty-HasDistinctKeys g [] h = rw (lookup-nil {V = GoMap String String} g) tt
or_empty-HasDistinctKeys g ((f, config) ∷ files) h = elim (Bool-cases (f == g)) [
  | inl same ↦ rw (lookup-cons g f config files, same) h.1
  | inr other ↦ rw (lookup-cons g f config files, other) (or_empty-HasDistinctKeys g files h.2)
]

copy_files-HasDistinctFiles :
    (base m : Files) → HasDistinctFiles m → HasDistinctFiles (copy_files m base)
unfolding copy_files
copy_files-HasDistinctFiles [] m h = h
copy_files-HasDistinctFiles ((g, config) ∷ base) m h =
    copy_files-HasDistinctFiles base (insert g (copy_into [] config) m)
      (insert-HasDistinctFiles g (copy_into [] config) m (copy_into-HasDistinctKeys [] config tt) h)

override_files-HasDistinctFiles :
    (override base : Files)
    → HasDistinctFiles base
    → HasDistinctFiles (override_files base override)
unfolding override_files
override_files-HasDistinctFiles [] base h = h
override_files-HasDistinctFiles ((g, config) ∷ override) base h =
    override_files-HasDistinctFiles override
      (insert g (copy_into (or_empty (lookup g base)) config) base)
      (insert-HasDistinctFiles g (copy_into (or_empty (lookup g base)) config) base
        (copy_into-HasDistinctKeys (or_empty (lookup g base)) config
          (or_empty-HasDistinctKeys g base h))
        h)

pub merge_config_files-HasDistinctFiles :
    (base override : Files) → HasDistinctFiles (merge_config_files base override)
unfolding merge_config_files
merge_config_files-HasDistinctFiles base override =
    override_files-HasDistinctFiles override (copy_files [] base)
      (copy_files-HasDistinctFiles base [] tt)

pub merge_maps-HasDistinctKeys :
    (base override : GoMap String String) → HasDistinctKeys (merge_maps base override)
unfolding merge_maps
merge_maps-HasDistinctKeys base override =
    copy_into-HasDistinctKeys (copy_into [] base) override (copy_into-HasDistinctKeys [] base tt)

pub lookup-merge_maps :
    (key : String) (base override : GoMap String String)
    → HasDistinctKeys base
    → HasDistinctKeys override
    → lookup key (merge_maps base override) ≡ or_else (lookup key override) (lookup key base)
unfolding merge_maps
lookup-merge_maps key base override hb ho =
    lookup-copy_into key (copy_into [] base) override ho
    ∙ ap (or_else (lookup key override)) (
        lookup-copy_into key [] base hb
        ∙ rw (lookup-nil {V = String} key) (or_else-none (lookup key base)))
