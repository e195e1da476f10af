-- ===== src/Reconciler/Names.antt =====
-- Resource names: pkg/reconciler/generic_reconciler.go. The code counts and cuts bytes; a name here
-- is its characters, which are its bytes when it is ASCII, as RFC 1123 labels are.
pub mod Bounds
use operator_go.Prelude.{ℕ, ◌-◌, String, leb, if◌then◌else◌}
use operator_go.Prelude.Strings.{◌<>◌, size, take_chars, trim_right_dashes}

abbrev pub max_role_group_name_len : ℕ
max_role_group_name_len = 54

-- `digest` is the hexadecimal SHA-256 of a text.
module _ (digest : String → String) where
  unfoldable pub role_group_resource_name : String → String → String → String
  unfolding trim_right_dashes
  role_group_resource_name cluster_name role_name group_name =
      let name = cluster_name <> "-" <> role_name <> "-" <> group_name in
      let suffix = take_chars 8 (digest name) in
      let head = trim_right_dashes (take_chars (max_role_group_name_len - size suffix - 1) name) in
      if leb (size name) max_role_group_name_len then name else head <> "-" <> suffix

unfoldable pub role_resource_name : String → String → String
role_resource_name cluster_name role_name = cluster_name <> "-" <> role_name
