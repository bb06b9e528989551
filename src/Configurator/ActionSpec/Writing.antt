-- ===== src/Configurator/ActionSpec/Writing.antt =====
-- configurator/action_spec.py, `action_to_spec`.
use yyr4_linux_control.Base.{String, false, Option, none, some, string_eq, if◌then◌else◌}
use yyr4_linux_control.Base.Int.{ℤ, pos}
use yyr4_linux_control.Base.Value.{
  Value, str, int, list, table, Values, no_items, item, Fields, no_fields, field, strings,
}
use yyr4_linux_control.Control.Actions.{
  Action, Steps, hotkey, text, command, delay, macro, done, step, set_layer, next_layer,
  previous_layer, set_profile, noop, debug_log,
}
use yyr4_linux_control.Configurator.ActionSpec.{is_zero}
use yyr4_linux_control.Control.Config.Actions.{
  ActionType, hotkey_type, text_type, delay_type, macro_type, noop_type, debug_log_type,
  set_layer_type, next_layer_type, previous_layer_type, set_profile_type, type_value,
}

abbrev pub one_field : ActionType → String → Value → Value
one_field t name v = table (field "type" (str (type_value t)) (field name v no_fields))

abbrev pub no_field : ActionType → Value
no_field t = table (field "type" (str (type_value t)) no_fields)

-- the optional field of a command
abbrev pub timeout_field : Option ℤ → Fields
timeout_field none = no_fields
timeout_field (some n) =
    if is_zero n false then no_fields else field "timeout_seconds" (int n) no_fields

unfoldable mutual
  -- `action_to_spec`
  pub action_to_spec : Action → Value
  action_to_spec (hotkey keys) = one_field hotkey_type "keys" (list (strings keys))
  action_to_spec (text s) = one_field text_type "value" (str s)
  action_to_spec (command argv timeout) =
      table
        (field "type" (str "command") (field "argv" (list (strings argv)) (timeout_field timeout)))
  action_to_spec (delay ms) = one_field delay_type "milliseconds" (int (pos ms))
  action_to_spec (macro steps) = one_field macro_type "steps" (list (step_specs steps))
  action_to_spec noop = no_field noop_type
  action_to_spec (debug_log s) = one_field debug_log_type "message" (str s)
  action_to_spec (set_layer l) = one_field set_layer_type "layer" (str l)
  action_to_spec next_layer = no_field next_layer_type
  action_to_spec previous_layer = no_field previous_layer_type
  action_to_spec (set_profile p) = one_field set_profile_type "profile" (str p)

  pub step_specs : Steps → Values
  step_specs done = no_items
  step_specs (step a steps) = item (action_to_spec a) (step_specs steps)
