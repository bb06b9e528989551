-- ===== src/Control/Config/Tests.antt =====
-- A document with one profile, whose general layer binds a macro.
use yyr4_linux_control.Base.{◌≡◌, refl, true, [], ◌∷◌, ok, String}
use yyr4_linux_control.Base.Int.{pos}
use yyr4_linux_control.Base.Dict.{has_key, lookup, insert}
use yyr4_linux_control.Base.DictEdits.{AllValues}
use yyr4_linux_control.Base.Value.{
  Value, str, int, list, table, no_items, item, Fields, no_fields, field, get, unknown_field,
}
use yyr4_linux_control.Control.Actions.{macro, step, done, set_layer, hotkey, hotkey_action}
use yyr4_linux_control.Control.Models.{
  a1, official_control, general, layer_of, ProfileId, profile_id, profile_eq, matches_profile_id,
  matches_tail, member_of, LayeredControlConfig, layer_eq, control_eq,
}
use yyr4_linux_control.Control.Config.{
  parse_binding, parse_controls, parse_layer, parse_layers, parse_profile, parse_profiles,
  parse_schema_v2, parse_config, get_table,
}
use yyr4_linux_control.Control.Config.Actions.{parse_action, action_of, type_of, key_texts}
use yyr4_linux_control.Control.Config.Soundness.{IsProfile, version_of, parse_config-IsLoaded}

abbrev keys_step : Value
keys_step =
    table (field "type" (str "hotkey") (field "keys" (list (item (str "ctrl") no_items)) no_fields))

abbrev layer_step : Value
layer_step = table (field "type" (str "set_layer") (field "layer" (str "layer_1") no_fields))

abbrev both : Value
both = table (
    field "type" (str "macro")
      (field "steps" (list (item keys_step (item layer_step no_items))) no_fields))

abbrev within : String → Value → Value
within name v = table (field name v no_fields)

abbrev document : Fields
document = field "schema_version" (int (pos 2)) (
    field "default_profile" (str "p") (
      field "initial_layer" (str "general") (
        field "profiles"
          (within "p" (
            within "layers"
              (within "general" (within "controls" (within "A1" (within "action" both))))))
          no_fields)))

abbrev p_id : ProfileId
p_id = record { value = "p" }

abbrev config : LayeredControlConfig
config = record {
  schema_version = 2;
  default_profile = p_id;
  initial_layer = general;
  profiles =
      (
        p_id,
        record {
          profile_id = p_id;
          layers =
              (
                general,
                record {
                  layer_id = general;
                  controls =
                      (a1, macro (step (hotkey ("ctrl" ∷ [])) (step (set_layer "layer_1") done)))
                      ∷ [];
                },
              )
              ∷ [];
        },
      )
      ∷ [];
}

document_read : parse_config document ≡ ok config
unfolding parse_config parse_schema_v2 parse_profiles parse_profile parse_layers parse_layer
    parse_controls parse_binding parse_action action_of type_of key_texts get unknown_field
    get_table profile_id matches_profile_id matches_tail layer_of official_control member_of
    hotkey_action lookup insert
document_read = refl

parse_config-IsLoaded_example :
    (has_key p_id config.profiles ≡ true)
    × AllValues (IsProfile (version_of config)) config.profiles
parse_config-IsLoaded_example = parse_config-IsLoaded document config document_read
