-- ===== src/Config/Merger/Precedence.antt =====
-- Which layer's value a merge of pkg/config/merger.go keeps.
use operator_go.Prelude.{
  List, [], ◌∷◌, String, Bool, true, false, Option, none, some, ◌≡◌, refl, ◌∙◌, ap, inl, inr, arith,
  is_some, if◌then◌else◌, Bool-cases,
}
use operator_go.Prelude.Eq.{◌==◌, string_eq}
use operator_go.Prelude.Maps.{
  GoMap, lookup, insert, copy_into, or_else, HasDistinctKeys, lookup-insert, lookup-cons,
  lookup-copy_into, lookup-nil,
}
use operator_go.Config.Merger.{
  MergedConfig, clone, Files, copy_files, or_empty, override_files, merge_config_files,
}

-- What a Go map of Go maps always satisfies.
abbrev pub HasDistinctFiles : Files → Type 0
HasDistinctFiles [] = Unit
HasDistinctFiles ((filename, config) ∷ files) =
    (lookup filename files ≡ none) × HasDistinctKeys config × HasDistinctFiles files

abbrev pub value_of : String → Option (GoMap String String) → Option String
value_of key none = none
value_of key (some config) = lookup key config

-- The value of a key in a file.
abbrev pub value_in : String → String → Files → Option String
value_in filename key files = value_of key (lookup filename files)

value_of_if :
    (key : String) (b : Bool) (config : GoMap String String) (o : Option (GoMap String String))
    → value_of key (if b then some config else o)
      ≡ (if b then lookup key config else value_of key o)
value_of_if key true config o = refl
value_of_if key false config o = refl

lookup-or_empty :
    (key : String) (o : Option (GoMap String String)) → lookup key (or_empty o) ≡ value_of key o
lookup-or_empty key none = lookup-nil key
lookup-or_empty key (some config) = refl

value_in-insert :
    (filename key g : String) (config : GoMap String String) (files : Files)
    → value_in filename key (insert g config files)
      ≡ (if g == filename then lookup key config else value_in filename key files)
value_in-insert filename key g config files =
    ap (value_of key) (lookup-insert g filename config files)
    ∙ value_of_if key (g == filename) config (lookup filename files)

value_in-cons :
    (filename key g : String) (config : GoMap String String) (files : Files)
    → value_in filename key ((g, config) ∷ files)
      ≡ (if g == filename then lookup key config else value_in filename key files)
unfolding lookup
value_in-cons filename key g config files =
    value_of_if key (g == filename) config (lookup filename files)

or_else_file :
    (filename key g : String) (config : GoMap String String) (base files : Files)
    → HasDistinctKeys config
    → lookup g files ≡ none
    → or_else
        (value_in filename key files)
        (value_in filename key (insert g (copy_into (or_empty (lookup g base)) config) base))
      ≡ or_else (value_in filename key ((g, config) ∷ files)) (value_in filename key base)
or_else_file filename key g config base files hc hg = elim (Bool-cases (g == filename)) [
  | inl same ↦ ground (
    arith,
    same,
    (string_eq.beq_iff g filename).0 same,
    ap (value_of key) hg,
    value_in-insert filename key g (copy_into (or_empty (lookup g base)) config) base,
    value_in-cons filename key g config files,
    lookup-copy_into key (or_empty (lookup g base)) config hc,
    lookup-or_empty key (lookup g base),
  )
  | inr other ↦ ground (
    arith,
    other,
    value_in-insert filename key g (copy_into (or_empty (lookup g base)) config) base,
    value_in-cons filename key g config files,
  )
]

value_in-override_files :
    (filename key : String) (override base : Files)
    → HasDistinctFiles override
    → value_in filename key (override_files base override)
      ≡ or_else (value_in filename key override) (value_in filename key base)
unfolding override_files
value_in-override_files filename key [] base h =
    rw (lookup-nil {V = GoMap String String} filename) refl
value_in-override_files filename key ((g, config) ∷ override) base h =
    value_in-override_files filename key override
      (insert g (copy_into (or_empty (lookup g base)) config) base) h.2
    ∙ or_else_file filename key g config base override h.1 h.0

pub or_else-none : {A : Type 0} (o : Option A) → or_else o none ≡ o
or_else-none none = refl
or_else-none (some v) = refl

copied_file :
    (filename key g : String) (config : GoMap String String) (m files : Files)
    → HasDistinctKeys config
    → lookup g files ≡ none
    → (if is_some (lookup filename files)
        then value_in filename key files
        else value_in filename key (insert g (copy_into [] config) m))
      ≡ (if is_some (lookup filename ((g, config) ∷ files))
          then value_in filename key ((g, config) ∷ files)
          else value_in filename key m)
copied_file filename key g config m files hc hg = elim (Bool-cases (g == filename)) [
  | inl same ↦ ground (
    arith,
    same,
    (string_eq.beq_iff g filename).0 same,
    ap is_some hg,
    value_in-insert filename key g (copy_into [] config) m,
    value_in-cons filename key g config files,
    lookup-cons filename g config files,
    lookup-copy_into key [] config hc,
    lookup-nil {V = String} key,
    or_else-none (lookup key config),
  )
  | inr other ↦ ground (
    arith,
    other,
    value_in-insert filename key g (copy_into [] config) m,
    value_in-cons filename key g config files,
    lookup-cons filename g config files,
  )
]

value_in-copy_files :
    (filename key : String) (base m : Files)
    → HasDistinctFiles base
    → value_in filename key (copy_files m base) ≡ (
        if is_some (lookup filename base)
        then value_in filename key base
        else value_in filename key m)
unfolding copy_files
value_in-copy_files filename key [] m h = rw (lookup-nil {V = GoMap String String} filename) refl
value_in-copy_files filename key ((g, config) ∷ base) m h =
    value_in-copy_files filename key base (insert g (copy_into [] config) m) h.2
    ∙ copied_file filename key g config m base h.1 h.0

value_of_copy :
    (key : String) (o : Option (GoMap String String))
    → (if is_some o then value_of key o else none) ≡ value_of key o
value_of_copy key none = refl
value_of_copy key (some config) = refl

pub value_in-merge_config_files :
    (filename key : String) (base override : Files)
    → HasDistinctFiles base
    → HasDistinctFiles override
    → value_in filename key (merge_config_files base override)
      ≡ or_else (value_in filename key override) (value_in filename key base)
unfolding merge_config_files
value_in-merge_config_files filename key base override hb ho =
    value_in-override_files filename key override (copy_files [] base) ho
    ∙ ap (or_else (value_in filename key override)) (
        value_in-copy_files filename key base [] hb
        ∙ rw (lookup-nil {V = GoMap String String} filename)
            (value_of_copy key (lookup filename base)))

-- The setting of the last layer that has one.
unfoldable pub last_set : {A : Type 0} → List (Option A) → Option A
last_set [] = none
last_set (x ∷ xs) = or_else (last_set xs) x

pub or_else_assoc :
    {A : Type 0} (a b c : Option A) → or_else a (or_else b c) ≡ or_else (or_else a b) c
or_else_assoc none b c = refl
or_else_assoc (some v) b c = refl

-- Where the maps hold a key once, a clone reads as the original does, but for its logging, which is
-- unset.
pub clone_lem :
    {Pod Logging : Type 0} (c : MergedConfig Pod Logging)
    → HasDistinctFiles c.config_files
    → HasDistinctKeys c.env_vars
    → ((filename key : String)
        → value_in filename key (clone c).config_files ≡ value_in filename key c.config_files)
      × ((name : String) → lookup name (clone c).env_vars ≡ lookup name c.env_vars)
      × ((clone c).cli_args ≡ c.cli_args)
      × ((clone c).jvm_args ≡ c.jvm_args)
      × ((clone c).pod_overrides ≡ c.pod_overrides)
      × ((clone c).pod_override_errors ≡ c.pod_override_errors)
      × ((clone c).logging ≡ none)
unfolding clone
clone_lem c hf he = (
  λ filename key.
      value_in-copy_files filename key c.config_files [] hf
      ∙ rw (lookup-nil {V = GoMap String String} filename)
          (value_of_copy key (lookup filename c.config_files)),
  λ name.
      lookup-copy_into name [] c.env_vars he ∙ rw (lookup-nil {V = String} name) (or_else-none _),
  refl,
  refl,
  refl,
  refl,
  refl,
)
