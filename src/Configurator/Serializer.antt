-- ===== src/Configurator/Serializer.antt =====
-- configurator/serializer.py: the text of a configuration.
pub mod Strings
pub mod Order
pub mod Reading
pub mod RoundTrip
pub mod Decimal
pub mod Canonical
mod Tests
use yyr4_linux_control.Base.{
  ℕ, zero, suc, ◌+◌, String, Bool, Option, none, some, List, [], ◌∷◌, map, if◌then◌else◌,
}
use yyr4_linux_control.Base.Dict.{Dict, lookup}
use yyr4_linux_control.Base.Int.{ℤ, pos}
use yyr4_linux_control.Base.Text.{joined, join}
use yyr4_linux_control.Control.Actions.{
  Action, Steps, hotkey, text, command, delay, macro, done, step, set_layer, next_layer,
  previous_layer, set_profile, noop, debug_log,
}
use yyr4_linux_control.Control.Models.{
  OfficialControl, control_value, control_eq, all_controls, LayerId, layer_value, layer_eq,
  ProfileId, profile_eq, LayerConfig, ProfileConfig, LayeredControlConfig,
}
use yyr4_linux_control.Configurator.Serializer.Strings.{toml_str, toml_strs, decimal_text, int_text}
use yyr4_linux_control.Configurator.Serializer.Order.{sorted_by}

-- `"".join(parts)`
abbrev pub concat : List String → String
concat = join ""

-- `s * n`
abbrev pub repeated : ℕ → String → String
repeated zero s = ""
repeated (suc n) s = joined s (repeated n s)

-- the part of a command for its timeout, which is left out if it is 0
abbrev pub timeout_text : Option ℤ → String
timeout_text none = ""
timeout_text (some (pos zero)) = ""
timeout_text (some n) = joined ", timeout_seconds = " (int_text n)

unfoldable mutual
  pub emit_action : ℕ → Action → String
  emit_action indent (hotkey keys) =
      concat ("{ type = \"hotkey\", keys = " ∷ toml_strs keys ∷ " }" ∷ [])
  emit_action indent (text value) =
      concat ("{ type = \"text\", value = " ∷ toml_str value ∷ " }" ∷ [])
  emit_action indent (command argv timeout_seconds) =
      concat (
        "{ type = \"command\", argv = " ∷ toml_strs argv ∷ timeout_text timeout_seconds ∷ " }" ∷ [])
  emit_action indent (delay milliseconds) =
      concat ("{ type = \"delay\", milliseconds = " ∷ decimal_text milliseconds ∷ " }" ∷ [])
  emit_action indent (macro steps) = concat (
      "{ type = \"macro\", steps = [\n"
      ∷ join ",\n" (emit_steps indent steps)
      ∷ "\n"
      ∷ repeated (indent + 1) "    "
      ∷ "] }"
      ∷ [])
  emit_action indent noop = "{ type = \"noop\" }"
  emit_action indent (debug_log message) =
      concat ("{ type = \"debug_log\", message = " ∷ toml_str message ∷ " }" ∷ [])
  emit_action indent (set_layer layer) =
      concat ("{ type = \"set_layer\", layer = " ∷ toml_str layer ∷ " }" ∷ [])
  emit_action indent next_layer = "{ type = \"next_layer\" }"
  emit_action indent previous_layer = "{ type = \"previous_layer\" }"
  emit_action indent (set_profile profile) =
      concat ("{ type = \"set_profile\", profile = " ∷ toml_str profile ∷ " }" ∷ [])

  pub emit_steps : ℕ → Steps → List String
  emit_steps indent done = []
  emit_steps indent (step s rest) =
      joined (repeated (indent + 2) "    ") (emit_action (indent + 2) s) ∷ emit_steps indent rest

-- the keys of a dict
abbrev pub keys : {K V : Type 0} → Dict K V → List K
keys d = map (λ e. e.0) d

-- the line of a control, if it has an action
abbrev pub control_line : String → OfficialControl → Option Action → String
control_line prefix oc none = ""
control_line prefix oc (some action) =
    concat
      (prefix ∷ ".controls." ∷ control_value oc ∷ ".action = " ∷ emit_action 0 action ∷ "\n" ∷ [])

abbrev pub layer_lines : String → LayerConfig → String
layer_lines prefix layer =
    concat (map (λ oc. control_line prefix oc (lookup oc layer.controls)) all_controls)

-- `layers[lid]`, of a key that is there
abbrev pub layer_part : String → LayerId → Option LayerConfig → String
layer_part prefix lid none = ""
layer_part prefix lid (some layer) =
    layer_lines (concat (prefix ∷ ".layers." ∷ layer_value lid ∷ [])) layer

abbrev pub profile_lines : ProfileId → ProfileConfig → String
profile_lines pid profile = concat (
    map (λ lid. layer_part (joined "profiles." pid.value) lid (lookup lid profile.layers))
      (sorted_by layer_value (keys profile.layers)))

abbrev pub profile_part : ProfileId → Option ProfileConfig → String
profile_part pid none = ""
profile_part pid (some profile) = joined "\n" (profile_lines pid profile)

-- the top-level keys, and the profiles' parts
abbrev pub document_text : ℕ → ProfileId → LayerId → List String → String
document_text schema_version default_profile initial_layer parts = concat (
    "schema_version = "
    ∷ decimal_text schema_version
    ∷ "\ndefault_profile = "
    ∷ toml_str default_profile.value
    ∷ "\ninitial_layer = "
    ∷ toml_str (layer_value initial_layer)
    ∷ "\n\n"
    ∷ concat parts
    ∷ [])

abbrev pub sorted_profiles : LayeredControlConfig → List ProfileId
sorted_profiles config = sorted_by (λ (p : ProfileId). p.value) (keys config.profiles)

unfoldable pub serialize : LayeredControlConfig → String
serialize config =
    document_text config.schema_version config.default_profile config.initial_layer
      (map (λ pid. profile_part pid (lookup pid config.profiles)) (sorted_profiles config))
