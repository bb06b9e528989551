-- ===== src/Configurator/ActionSpec/Tests.antt =====
-- A macro of a hotkey and a command, as an action and as a value.
use yyr4_linux_control.Base.{◌≡◌, ◌≤◌, refl, some, none, [], ◌∷◌, ok, arith}
use yyr4_linux_control.Base.Int.{pos}
use yyr4_linux_control.Base.Value.{
  Value, str, list, table, no_items, item, field, no_fields, get, unknown_field, root, Place,
}
use yyr4_linux_control.Control.Actions.{Action, macro, step, done, hotkey, command, command_action}
use yyr4_linux_control.Control.Flatten.Spec.{height}
use yyr4_linux_control.Control.Models.{member_of}
use yyr4_linux_control.Control.Resolver.{default_limits}
use yyr4_linux_control.Control.Config.Actions.{type_of}
use yyr4_linux_control.Configurator.ActionSpec.{parse_spec, dispatch, arg_items}
use yyr4_linux_control.Configurator.ActionSpec.Writing.{action_to_spec}
use yyr4_linux_control.Configurator.ActionSpec.RoundTrip.{
  IsReadable, without_zeros, parse_spec-action_to_spec,
}
use yyr4_linux_control.Configurator.ActionSpec.Bounds.{parse_spec-IsReadable}

abbrev place : Place
place = root "action"

-- The command has a timeout of 0.
abbrev action : Action
action = macro (step (hotkey ("ctrl" ∷ "c" ∷ [])) (step (command ("ls" ∷ []) (some (pos 0))) done))

abbrev ls_only : Value
ls_only =
    table (field "type" (str "command") (field "argv" (list (item (str "ls") no_items)) no_fields))

abbrev wrapped : Value
wrapped =
    table (field "type" (str "macro") (field "steps" (list (item ls_only no_items)) no_fields))

action-IsReadable : IsReadable 0 action
unfolding IsReadable
action-IsReadable = (omega arith, ((refl, refl), ((refl, refl), tt)))

parse_spec-action_to_spec_example :
    parse_spec 0 place (action_to_spec action) ≡ ok (without_zeros action)
parse_spec-action_to_spec_example = parse_spec-action_to_spec place action action-IsReadable

abbrev ls_macro : Action
ls_macro = macro (step (command ("ls" ∷ []) none) done)

wrapped_read : parse_spec 0 place wrapped ≡ ok ls_macro
unfolding parse_spec dispatch type_of member_of get unknown_field arg_items command_action
wrapped_read = refl

parse_spec-IsReadable_example :
    IsReadable 0 ls_macro
    × (height ls_macro ≤ default_limits.max_macro_depth)
    × (parse_spec 0 place (action_to_spec ls_macro) ≡ ok (without_zeros ls_macro))
parse_spec-IsReadable_example = parse_spec-IsReadable place wrapped ls_macro wrapped_read
