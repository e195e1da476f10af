-- ===== src/Reconciler/Names/Bounds.antt =====
-- The length of a role group's resource name, and names that collide.
use Prim.Native.Char.{Char, code}
use text.Mathlib.TextLemmas.{nil-append, cons-append, append_assoc}
use operator_go.Prelude.{
  ℕ, zero, suc, ◌+◌, ◌≤◌, ◌≡◌, ◌-◌, refl, ◌∙◌, String, arith, ap, Bool-cases, inl, inr, leb, leb→le,
  true, ltb, eqb, ◌&&◌, if◌then◌else◌,
}
use operator_go.Prelude.Strings.{◌<>◌, size, take_chars, trim_right_dashes, is_empty_string}
use operator_go.Reconciler.Names.{role_group_resource_name}

size-append : (s t : String) → size (s <> t) ≡ size s + size t
size-append String.[] t = rw nil-append (omega arith)
size-append (String.◌∷◌ c s) t = rw cons-append (omega (arith, size-append s t))

size-take_chars : (n : ℕ) (s : String) → size (take_chars n s) ≤ n
size-take_chars zero s = omega arith
size-take_chars (suc n) String.[] = omega arith
size-take_chars (suc n) (String.◌∷◌ c s) = omega (arith, size-take_chars n s)

size-trim_right_dashes : (s : String) → size (trim_right_dashes s) ≤ size s
unfolding trim_right_dashes
size-trim_right_dashes String.[] = omega arith
size-trim_right_dashes (String.◌∷◌ c s) = ground (arith, size-trim_right_dashes s)

size-dash : size "-" ≡ 1
size-dash = refl

size-role_group_resource_name :
    (digest : String → String) (cluster_name role_name group_name : String)
    → (size (role_group_resource_name digest cluster_name role_name group_name) ≤ 54)
      × (size (role_group_resource_name digest cluster_name role_name group_name <> "-headless")
          ≤ 63)
unfolding role_group_resource_name
size-role_group_resource_name digest c r g =
    let name = c <> "-" <> r <> "-" <> g in
    let suffix = take_chars 8 (digest name) in
    let cut = take_chars (54 - size suffix - 1) name in
    let head = trim_right_dashes cut in
    let short : size (role_group_resource_name digest c r g) ≤ 54 =
      elim (Bool-cases (leb (size name) 54)) [
        | inl fits ↦ rw fits (leb→le (size name) 54 fits)
        | inr long ↦ rw long (
            omega (
              arith,
              size-append head ("-" <> suffix),
              size-append "-" suffix,
              size-dash,
              size-trim_right_dashes cut,
              size-take_chars (54 - size suffix - 1) name,
              size-take_chars 8 (digest name),
            ))
      ] in
    (short, omega (arith, short, size-append (role_group_resource_name digest c r g) "-headless"))

-- The bytes of a character in UTF-8.
abbrev pub char_bytes : Char → ℕ
char_bytes c =
    if ltb (code c) 128
    then 1
    else if ltb (code c) 2048
    then 2
    else if ltb (code c) 65536
    then 3
    else 4

-- `len(s)`
abbrev pub byte_size : String → ℕ
byte_size String.[] = 0
byte_size (String.◌∷◌ c s) = char_bytes c + byte_size s

abbrev pub IsAscii : String → Type 0
IsAscii String.[] = Unit
IsAscii (String.◌∷◌ c s) = (ltb (code c) 128 ≡ true) × IsAscii s

byte_size-IsAscii : (s : String) → IsAscii s → byte_size s ≡ size s
byte_size-IsAscii String.[] h = refl
byte_size-IsAscii (String.◌∷◌ c s) h = rw (h.0, byte_size-IsAscii s h.1) (omega arith)

pub IsAscii-append : (s t : String) → IsAscii s → IsAscii t → IsAscii (s <> t)
IsAscii-append String.[] t h k = rw nil-append k
IsAscii-append (String.◌∷◌ c s) t h k = rw cons-append (h.0, IsAscii-append s t h.1 k)

IsAscii-take_chars : (n : ℕ) (s : String) → IsAscii s → IsAscii (take_chars n s)
IsAscii-take_chars zero s h = tt
IsAscii-take_chars (suc n) String.[] h = tt
IsAscii-take_chars (suc n) (String.◌∷◌ c s) h = (h.0, IsAscii-take_chars n s h.1)

IsAscii-trim_right_dashes : (s : String) → IsAscii s → IsAscii (trim_right_dashes s)
unfolding trim_right_dashes
IsAscii-trim_right_dashes String.[] h = tt
IsAscii-trim_right_dashes (String.◌∷◌ c s) h =
    elim (Bool-cases (is_empty_string (trim_right_dashes s) && eqb (code c) b'-')) [
      | inl cut ↦ rw cut tt
      | inr kept ↦ rw kept (h.0, IsAscii-trim_right_dashes s h.1)
    ]

dash-IsAscii : IsAscii "-"
dash-IsAscii = (refl, tt)

headless-IsAscii : IsAscii "-headless"
headless-IsAscii = (refl, (refl, (refl, (refl, (refl, (refl, (refl, (refl, (refl, tt)))))))))

role_group_resource_name-IsAscii :
    (digest : String → String) (cluster_name role_name group_name : String)
    → ((text : String) → IsAscii (digest text))
    → IsAscii cluster_name
    → IsAscii role_name
    → IsAscii group_name
    → IsAscii (role_group_resource_name digest cluster_name role_name group_name)
unfolding role_group_resource_name
role_group_resource_name-IsAscii digest c r g hex hc hr hg =
    let name = c <> "-" <> r <> "-" <> g in
    let suffix = take_chars 8 (digest name) in
    let ascii : IsAscii name = IsAscii-append c _ hc (
      IsAscii-append "-" _ dash-IsAscii
        (IsAscii-append r _ hr (IsAscii-append "-" g dash-IsAscii hg))) in
    elim (Bool-cases (leb (size name) 54)) [
      | inl fits ↦ rw fits ascii
      | inr long ↦ rw long (
          IsAscii-append (trim_right_dashes (take_chars (54 - size suffix - 1) name))
            ("-" <> suffix)
            (IsAscii-trim_right_dashes _ (IsAscii-take_chars (54 - size suffix - 1) name ascii))
            (IsAscii-append "-" suffix dash-IsAscii
              (IsAscii-take_chars 8 (digest name) (hex name))))
    ]

-- Where the names of the cluster, the role and the group are ASCII, as is the digest of any text,
-- the resource name of a role group has at most 54 bytes, so that the longest suffix that the
-- framework appends, "-headless", stays within the 63 bytes of a DNS label.
pub byte_size-role_group_resource_name :
    (digest : String → String) (cluster_name role_name group_name : String)
    → ((text : String) → IsAscii (digest text))
    → IsAscii cluster_name
    → IsAscii role_name
    → IsAscii group_name
    → (byte_size (role_group_resource_name digest cluster_name role_name group_name) ≤ 54)
      × (byte_size
            (role_group_resource_name digest cluster_name role_name group_name <> "-headless")
          ≤ 63)
byte_size-role_group_resource_name digest c r g hex hc hr hg =
    let name = role_group_resource_name digest c r g in
    let ascii = role_group_resource_name-IsAscii digest c r g hex hc hr hg in
    let sizes = size-role_group_resource_name digest c r g in
    (
      rw (byte_size-IsAscii name ascii) sizes.0,
      rw
          (byte_size-IsAscii (name <> "-headless")
            (IsAscii-append name "-headless" ascii headless-IsAscii))
          sizes.1,
    )

-- The name does not tell where the role ends and the group begins: the group `b-g` of the role `a`
-- and the group `g` of the role `a-b` share one resource name.
pub role_group_resource_name_collides :
    (digest : String → String) (cluster_name a b g : String)
    → role_group_resource_name digest cluster_name (a <> "-" <> b) g
      ≡ role_group_resource_name digest cluster_name a (b <> "-" <> g)
unfolding role_group_resource_name
role_group_resource_name_collides digest c a b g =
    let regroup : (a <> "-" <> b) <> "-" <> g ≡ a <> "-" <> b <> "-" <> g =
      append_assoc a ("-" <> b) ("-" <> g)
      ∙ ap (λ (t : String). a <> t) (append_assoc "-" b ("-" <> g)) in
    rw regroup
