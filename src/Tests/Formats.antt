-- ===== src/Tests/Formats.antt =====
-- The theorems on the file formats of pkg/config at concrete maps.
use operator_go.Prelude.{true, false, some, [], ◌∷◌, ◌≡◌, refl, ◌↔◌, All}
use operator_go.Prelude.Eq.{text_eq}
use operator_go.Prelude.Maps.{GoMap, lookup}
use operator_go.Common.Errors.{ok, IsOk}
use operator_go.Config.Text.{Text, codes}
use operator_go.Config.Text.Entries.{keys_of}
use operator_go.Config.Env.{is_env_key, escape_env_value, marshal, unmarshal}
use operator_go.Config.Env.RoundTrip.{lookup-unmarshal-marshal, marshal-IsOk}
use operator_go.Config.Env.Shell.{shell_word, spelled_out, shell_word-escape_env_value}
use operator_go.Config.Properties as Properties
use operator_go.Config.Properties.RoundTrip.{ReadsBack, Fits, unmarshal-marshal-ReadsBack}

abbrev variables : GoMap Text Text
variables =
    (codes "JAVA_OPTS", codes "-Xmx1g \"$HOME\"") ∷ (codes "BIN", codes "/opt/java/bin") ∷ []

abbrev env_file : Text
env_file = codes "export BIN=/opt/java/bin\nexport JAVA_OPTS=\"-Xmx1g \\\"\\$HOME\\\"\"\n"

env_file_lem : marshal true variables ≡ ok env_file
unfolding marshal
env_file_lem = refl

lookup-unmarshal-marshal_example :
    lookup (codes "BIN") (unmarshal env_file) ≡ lookup (codes "BIN") variables
lookup-unmarshal-marshal_example =
    lookup-unmarshal-marshal true variables env_file env_file_lem (codes "BIN")

marshal-IsOk_example :
    IsOk (marshal false variables) ↔ All (λ k. is_env_key k ≡ true) (keys_of variables)
marshal-IsOk_example = marshal-IsOk false variables

shell_word-escape_env_value_example :
    shell_word (escape_env_value (codes "a; rm -rf $HOME"))
    ≡ some (spelled_out (codes "a; rm -rf $HOME"))
shell_word-escape_env_value_example = shell_word-escape_env_value (codes "a; rm -rf $HOME")

abbrev settings : GoMap Text Text
settings = (codes "#log dir", codes " C:\\logs ") ∷ (codes "a=b", codes "x y") ∷ []

properties_file :
    Properties.marshal (b'=' ∷ []) settings ≡ codes "\\#log\\ dir=\\ C:\\\\logs\\ \na\\=b=x y\n"
unfolding Properties.marshal
properties_file = refl

unmarshal-marshal-ReadsBack_example :
    (ReadsBack settings (Properties.unmarshal (Properties.marshal (b'=' ∷ []) settings))
      ↔ All (Fits b'=' refl settings) (keys_of settings))
    × (IsOk (Properties.unmarshal (Properties.marshal (b'=' ∷ []) settings))
        ↔ All (Fits b'=' refl settings) (keys_of settings))
unmarshal-marshal-ReadsBack_example = unmarshal-marshal-ReadsBack b'=' refl settings
